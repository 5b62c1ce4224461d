-- ===== src/Transactions/Completion.antt =====
-- handler.go and the decoder of contracts/events.go: what a completed transaction does to its need. The
-- fulfilment is a function on a world of any type, as that of internal/needs is; json.Unmarshal is a
-- parameter.
use konumlu.Base.{
  ℕ, Bool, true, false, not, ◌||◌, Option, List, ◌==◌, if◌then◌else◌, is_empty, Result, ok, err,
  ◌>>=◌, ◌>>◌, refuse, or_err, map_err,
}
use konumlu.Text.{text_eq, trim_space}
use konumlu.Ids.{parse_id}
use konumlu.Contracts
use konumlu.Contracts.{FulfillmentCommand, FulfillmentResult}
use konumlu.Outbox.Event.{Value, Raw, Event}
use konumlu.Transactions.Domain
use konumlu.Transactions.Domain.{Status, Transaction, completed}
use konumlu.Transactions.Events.{completed_type}
use konumlu.Transactions.Memory
use konumlu.Transactions.Memory.{Store}
use konumlu.Transactions.Setup.{map_store_err}

-- CompletedPayload
pub record CompletedPayload : Type 0 where
  pub transaction_id : List ℕ
  pub offer_id : List ℕ
  pub need_id : List ℕ
  pub requester_user_id : List ℕ
  pub provider_user_id : List ℕ
  pub actor_user_id : List ℕ
  pub completed_at : List ℕ

-- An error of the handler: one of the package, the decoder's, or one of the fulfilment.
pub data Err : Type 0 where
  own : Domain.Err → Err
  invalid_event : Err
  need : Contracts.Err → Err

abbrev pub trimmed : CompletedPayload → CompletedPayload
trimmed p = record {
  transaction_id = trim_space p.transaction_id;
  offer_id = trim_space p.offer_id;
  need_id = trim_space p.need_id;
  requester_user_id = trim_space p.requester_user_id;
  provider_user_id = trim_space p.provider_user_id;
  actor_user_id = trim_space p.actor_user_id;
  completed_at = trim_space p.completed_at;
}

-- DecodeCompleted
unfoldable pub decode_completed :
    (Value → Option CompletedPayload) → Raw → Result Err CompletedPayload
decode_completed unmarshal raw = do
  v ← or_err raw invalid_event
  q ← or_err (unmarshal v) invalid_event
  let p = trimmed q
  refuse
      (is_empty p.transaction_id
        || is_empty p.offer_id
        || is_empty p.need_id
        || is_empty p.requester_user_id
        || is_empty p.completed_at)
      invalid_event
  ok p

-- mapNeedFulfillErr
abbrev pub map_need_fulfill_err : Contracts.Err → Err
map_need_fulfill_err Contracts.unavailable = need Contracts.unavailable
map_need_fulfill_err Contracts.conflict = need Contracts.conflict
map_need_fulfill_err Contracts.canceled = need Contracts.canceled
map_need_fulfill_err Contracts.zero_id = own Domain.invalid_txn
map_need_fulfill_err _ = own Domain.unavailable

abbrev pub is_completed : Status → Bool
is_completed completed = true
is_completed _ = false

abbrev pub command_of : Transaction → FulfillmentCommand
command_of t = record {
  need_id = t.need_id;
  requester_user_id = t.requester_user_id;
  transaction_id = t.id;
}

-- The transaction that an event of its completion names.
unfoldable pub named : (Value → Option CompletedPayload) → Event → Result Err ℕ
named unmarshal event = do
  refuse (not (text_eq event.event_type completed_type) || not (event.event_version == 1))
      (own Domain.invalid_txn)
  payload ← decode_completed unmarshal event.payload
  parse_id (own Domain.invalid_txn) (own Domain.invalid_txn) payload.transaction_id

module _ {W : Type 0}
    (fulfill : FulfillmentCommand → W → Result Contracts.Err FulfillmentResult × W) where
  abbrev pub forwarded : Transaction → W → Result Err (Unit {0}) × W
  forwarded t w =
      let (r, w') = fulfill (command_of t) w in (map_err map_need_fulfill_err r >> ok tt, w')

  -- What Handle does with the transaction that it reads.
  unfoldable pub settle : Result Domain.Err Transaction → W → Result Err (Unit {0}) × W
  settle (err Domain.not_found) w = (ok tt, w)
  settle (err e) w = (err (own (map_store_err e)), w)
  settle (ok t) w = if not (is_completed t.status) then (ok tt, w) else forwarded t w

  -- `(h *CompletionHandler) Handle`; `set` says that the handler and its parts are not nil
  unfoldable pub handle :
      Bool
      → (Value → Option CompletedPayload)
      → Option Domain.Err
      → Event
      → Store
      → W
      → Result Err (Unit {0}) × W
  handle set unmarshal ctx event txns w =
      elim (refuse (not set) (own Domain.store_required) >> named unmarshal event) [
        | err e ↦ (err e, w)
        | ok id ↦ settle (Memory.get ctx id txns) w
      ]
