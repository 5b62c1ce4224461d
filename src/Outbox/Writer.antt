-- ===== src/Outbox/Writer.antt =====
-- outbox.go: enqueue, claim, complete and reschedule over the store, under a policy.
pub mod Enqueue
use konumlu.Base.{
  ℕ, zero, suc, ◌+◌, ◌≤◌, ◌<◌, ◌≡◌, Bool, true, false, not, ◌&&◌, ◌||◌, Option, none, some, List,
  [], ◌∷◌, arith, ◌==◌, if◌then◌else◌, is_empty, Result, ok, err, map_err,
}
use konumlu.Text.{trim_space}
use konumlu.Ids.{is_zero, new_id}
use konumlu.Outbox.Event.{
  Err, unavailable, invalid_event, foreign, panicked, Raw, Event, Unicode, validate,
}
use konumlu.Outbox.Policy.{Float, Policy, next_available_at}
use konumlu.Outbox.Store.{Table}
use konumlu.Outbox.Store

-- NewEvent, what a producer hands in; an empty text means that the field is not set.
pub record NewEvent : Type 0 where
  pub event_type : List ℕ
  pub event_version : ℕ
  pub aggregate_type : List ℕ
  pub aggregate_id : List ℕ
  pub payload : Raw
  pub idempotency_key : List ℕ
  pub correlation_id : List ℕ

abbrev pub unless_empty : List ℕ → Option (List ℕ)
unless_empty [] = none
unless_empty (c ∷ s) = some (c ∷ s)

-- mapStoreErr
unfoldable pub map_store_err : Err → Err
map_store_err foreign = unavailable
map_store_err e = e

-- The row that Enqueue writes.
unfoldable pub pending_event : ℕ → ℕ → NewEvent → Event
pending_event id now n = record {
  id = id;
  event_type = trim_space n.event_type;
  event_version = n.event_version;
  aggregate_type = unless_empty n.aggregate_type;
  aggregate_id = unless_empty n.aggregate_id;
  payload = n.payload;
  idempotency_key = unless_empty n.idempotency_key;
  correlation_id = unless_empty n.correlation_id;
  created_at = now;
  available_at = now;
  claimed_at = none;
  claim_until = none;
  completed_at = none;
  attempts = 0;
  last_error_class = none;
}

-- The rest of Enqueue, once the row is made: validation and the insert.
unfoldable pub write_event : Unicode → Event → Table → Result Err Event × Table
write_event u e t = elim (validate u e) [
  | err x ↦ (err x, t)
  | ok _ ↦
      let (r, t') = Store.insert e t in (elim r [ ok _ ↦ ok e | err x ↦ err (map_store_err x) ], t')
]

-- `(o *Outbox) Enqueue`, over the random bytes of the identifier and the clock
unfoldable pub enqueue : Unicode → Option ℕ → ℕ → NewEvent → Table → Result Err Event × Table
unfolding pending_event write_event
enqueue u rand now n t = elim (new_id rand) [
  | none ↦ (err unavailable, t)
  | some id ↦ write_event u (pending_event id now n) t
]

-- `if now.IsZero() { now = o.now() }`
abbrev pub or_clock : ℕ → ℕ → ℕ
or_clock now clock = if now == 0 then clock else now

-- `(o *Outbox) Complete`
unfoldable pub complete : ℕ → ℕ → ℕ → Table → Result Err (Unit {0}) × Table
complete clock id now t =
    if is_zero id
    then (err invalid_event, t)
    else let (r, t') = Store.complete id (or_clock now clock) t in (map_err map_store_err r, t')

-- `(o *Outbox) IncrementAttempts`
unfoldable pub increment_attempts : ℕ → Table → Result Err (Unit {0}) × Table
increment_attempts id t =
    if is_zero id
    then (err invalid_event, t)
    else let (r, t') = Store.increment_attempts id t in (map_err map_store_err r, t')

-- What Reschedule answers where no retry time is found.
abbrev pub retry_err : Err → Err
retry_err panicked = panicked
retry_err _ = unavailable

module _ (f : Float) (p : Policy f) where
  -- `(o *Outbox) Claim`
  unfoldable pub claim : ℕ → ℕ → Table → Result Err (List Event) × Table
  claim clock now t =
      let (r, t') = Store.claim (or_clock now clock) p.lease p.batch_size t in
      (map_err map_store_err r, t')

  -- `(o *Outbox) Reschedule`, over the random jitter; a panic is no error, it goes on.
  unfoldable pub reschedule :
      ℕ → Option ℕ → Event → List ℕ → ℕ → Table → Result Err (Unit {0}) × Table
  reschedule clock rand e class now t =
      if is_zero e.id
      then (err invalid_event, t)
      else if is_empty (trim_space class)
      then (err invalid_event, t)
      else elim (next_available_at f p (or_clock now clock) e.attempts rand) [
        | err x ↦ (err (retry_err x), t)
        | ok next ↦
            let (r, t') = Store.reschedule e.id next (trim_space class) t in
            (map_err map_store_err r, t')
      ]
