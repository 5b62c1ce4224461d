-- ===== src/Deliveries/Events.antt =====
-- events.go: the outbox event of a delivery. json.Marshal of a struct of strings cannot fail.
use konumlu.Base.{ℕ, ◌||◌, some, List, [], if◌then◌else◌, Result, ok, err}
use konumlu.Text.{codes}
use konumlu.Ids.{is_zero, id_string}
use konumlu.Outbox.Event.{Value, Fields, end}
use konumlu.Outbox.Writer.{NewEvent}
use konumlu.Transactions.Events.{text_field, colon}
use konumlu.Deliveries.Domain.{
  Err, unavailable, Status, pending, ready, in_transit, delivered, cancelled, other, Delivery,
}

abbrev pub status_changed_type : List ℕ
status_changed_type = codes "deliveries.delivery.status_changed"

-- The text of a status
unfoldable pub status_text : Status → List ℕ
status_text pending = codes "pending"
status_text ready = codes "ready"
status_text in_transit = codes "in_transit"
status_text delivered = codes "delivered"
status_text cancelled = codes "cancelled"
status_text (other s) = s

payload_of : Delivery → ℕ → Fields
payload_of d actor = text_field "delivery_id" (id_string d.id) (
    text_field "transaction_id" (id_string d.transaction_id) (
      text_field "requester_user_id" (id_string d.requester_user_id) (
        text_field "provider_user_id" (id_string d.provider_user_id) (
          text_field "actor_user_id" (id_string actor)
            (text_field "status_code" (status_text d.status) end)))))

-- encodeStatusChanged
unfoldable pub encode_status_changed : Delivery → ℕ → Result Err NewEvent
unfolding payload_of
encode_status_changed d actor =
    if is_zero d.id || is_zero actor
    then err unavailable
    else ok (record {
      event_type = status_changed_type;
      event_version = 1;
      aggregate_type = codes "delivery";
      aggregate_id = id_string d.id;
      payload = some (Value.object (payload_of d actor));
      idempotency_key = colon status_changed_type (colon (id_string d.id) (status_text d.status));
      correlation_id = [];
    })
