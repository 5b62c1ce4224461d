-- ===== src/Transactions/Events.antt =====
-- events.go: the outbox events of a transaction. json.Marshal of a struct of strings cannot fail; the
-- RFC 3339 text of a time is a parameter.
use konumlu.Base.{ℕ, ◌||◌, none, some, List, [], ◌∷◌, ◌++◌, if◌then◌else◌, Result, ok, err}
use Prim.Native.String.{String}
use konumlu.Text.{codes}
use konumlu.Ids.{is_zero, id_string}
use konumlu.Outbox.Event.{Value, Fields, end, field}
use konumlu.Outbox.Writer.{NewEvent}
use konumlu.Transactions.Domain.{Err, invalid_txn, Transaction}

abbrev pub created_type : List ℕ
created_type = codes "transactions.transaction.created"

abbrev pub completed_type : List ℕ
completed_type = codes "transactions.transaction.completed"

abbrev pub cancelled_type : List ℕ
cancelled_type = codes "transactions.transaction.cancelled"

-- A field that holds a text.
unfoldable pub text_field : String → List ℕ → Fields → Fields
text_field name s fs = field (codes name) (Value.text s) fs

-- `fmt.Sprintf("%s:%s", a, b)`
pub colon : List ℕ → List ℕ → List ℕ
colon a b = a ++ (b':' ∷ b)

parties : Transaction → ℕ → Fields → Fields
parties t actor fs = text_field "transaction_id" (id_string t.id) (
    text_field "offer_id" (id_string t.offer_id) (
      text_field "need_id" (id_string t.need_id) (
        text_field "requester_user_id" (id_string t.requester_user_id) (
          text_field "provider_user_id" (id_string t.provider_user_id)
            (text_field "actor_user_id" (id_string actor) fs)))))

event : List ℕ → Transaction → Fields → List ℕ → NewEvent
event ty t fs key = record {
  event_type = ty;
  event_version = 1;
  aggregate_type = codes "transaction";
  aggregate_id = id_string t.id;
  payload = some (Value.object fs);
  idempotency_key = key;
  correlation_id = [];
}

-- encodeCompletedEvent
unfoldable pub encode_completed : (ℕ → List ℕ) → Transaction → ℕ → Result Err NewEvent
unfolding parties event text_field colon
encode_completed rfc3339 t actor = elim t.completed_at [
  | none ↦ err invalid_txn
  | some at ↦ ok (
      event completed_type t (parties t actor (text_field "completed_at" (rfc3339 at) end))
        (colon completed_type (id_string t.id)))
]

-- encodeLifecycleEvent
unfoldable pub encode_lifecycle : List ℕ → List ℕ → Transaction → ℕ → Result Err NewEvent
unfolding parties event text_field colon
encode_lifecycle ty status t actor =
    if is_zero t.id || is_zero actor
    then err invalid_txn
    else ok (
        event ty t (parties t actor (text_field "status_code" status end))
          (colon ty (colon (id_string t.id) status)))
