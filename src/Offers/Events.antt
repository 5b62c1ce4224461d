-- ===== src/Offers/Events.antt =====
-- events.go and contracts/events.go: the outbox events of an offer. json.Marshal of a struct of strings
-- cannot fail.
use konumlu.Base.{ℕ, ◌||◌, some, List, [], if◌then◌else◌, Result, ok, err}
use konumlu.Text.{codes}
use konumlu.Ids.{is_zero, id_string}
use konumlu.Outbox.Event.{Value, Fields, end}
use konumlu.Outbox.Writer.{NewEvent}
use konumlu.Transactions.Events.{text_field, colon}
use konumlu.Offers.Domain.{Err, unavailable, Offer}

abbrev pub submitted_type : List ℕ
submitted_type = codes "offers.offer.submitted"

abbrev pub accepted_type : List ℕ
accepted_type = codes "offers.offer.accepted"

abbrev pub rejected_type : List ℕ
rejected_type = codes "offers.offer.rejected"

-- TransitionPayload
payload : List ℕ → Offer → ℕ → ℕ → Fields
payload transition o requester actor = text_field "offer_id" (id_string o.id) (
    text_field "need_id" (id_string o.need_id) (
      text_field "provider_user_id" (id_string o.provider_user_id) (
        text_field "requester_user_id" (id_string requester)
          (text_field "actor_user_id" (id_string actor) (text_field "transition" transition end)))))

-- encodeOfferTransition
unfoldable pub encode_transition : List ℕ → List ℕ → Offer → ℕ → ℕ → Result Err NewEvent
unfolding payload
encode_transition ty transition o requester actor =
    if is_zero o.id || is_zero requester || is_zero actor
    then err unavailable
    else ok (record {
      event_type = ty;
      event_version = 1;
      aggregate_type = codes "offer";
      aggregate_id = id_string o.id;
      payload = some (Value.object (payload transition o requester actor));
      idempotency_key = colon ty (colon (id_string o.id) transition);
      correlation_id = [];
    })
