-- ===== src/Disputes/Events.antt =====
-- events.go: the outbox event of a dispute. json.Marshal of a struct of strings cannot fail.
use konumlu.Base.{ℕ, some, List, [], if◌then◌else◌, Result, ok, err}
use konumlu.Text.{codes}
use konumlu.Ids.{is_zero, id_string}
use konumlu.Outbox.Event.{Value, Fields, end}
use konumlu.Outbox.Writer.{NewEvent}
use konumlu.Transactions.Events.{text_field, colon}
use konumlu.Disputes.Domain.{
  Err, unavailable, Status, open_status, under_review, resolved, closed, withdrawn, other, Dispute,
}

abbrev pub updated_type : List ℕ
updated_type = codes "disputes.dispute.updated"

-- The text of a status
unfoldable pub status_text : Status → List ℕ
status_text open_status = codes "open"
status_text under_review = codes "under_review"
status_text resolved = codes "resolved"
status_text closed = codes "closed"
status_text withdrawn = codes "withdrawn"
status_text (other s) = s

-- The actor, who is empty in the requests of staff.
abbrev pub actor_text : ℕ → List ℕ
actor_text actor = if is_zero actor then [] else id_string actor

payload_of : Dispute → ℕ → Fields
payload_of d actor = text_field "dispute_id" (id_string d.id) (
    text_field "transaction_id" (id_string d.transaction_id) (
      text_field "requester_user_id" (id_string d.requester_user_id) (
        text_field "provider_user_id" (id_string d.provider_user_id) (
          text_field "actor_user_id" (actor_text actor)
            (text_field "status_code" (status_text d.status) end)))))

-- encodeUpdated
unfoldable pub encode_updated : Dispute → ℕ → Result Err NewEvent
unfolding payload_of
encode_updated d actor =
    if is_zero d.id
    then err unavailable
    else ok (record {
      event_type = updated_type;
      event_version = 1;
      aggregate_type = codes "dispute";
      aggregate_id = id_string d.id;
      payload = some (Value.object (payload_of d actor));
      idempotency_key =
          colon updated_type
            (colon (id_string d.id) (colon (status_text d.status) (actor_text actor)));
      correlation_id = [];
    })
