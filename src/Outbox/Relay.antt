-- ===== src/Outbox/Relay.antt =====
-- registry.go and relay.go: handlers by event type and version, and the dispatch of a claimed batch.
pub mod Delivery
use konumlu.Base.{
  ℕ, zero, suc, ◌+◌, ◌-◌, ◌≤◌, ◌<◌, ◌≡◌, Bool, true, false, not, ◌&&◌, ◌||◌, Option, none, some,
  List, [], ◌∷◌, arith, ◌==◌, if◌then◌else◌, ltb, is_empty, is_some, length, Result, ok, err,
}
use konumlu.Text.{codes, text_eq, trim_space}
use konumlu.Outbox.Event.{
  Err, invalid_event, canceled, panicked, handler_required, duplicate_handler, Event,
}
use konumlu.Outbox.Policy.{Float, Policy, next_available_at}
use konumlu.Outbox.Store.{Table}
use konumlu.Ids.{is_zero}
use konumlu.Outbox.Writer
use konumlu.Outbox.Writer.{or_clock}

-- A handler is code of another package: what it answers on an event. Its effects are its own.
abbrev pub Handler : Type 0
Handler = Event → Result Err (Unit {0})

pub record Entry : Type 0 where
  pub event_type : List ℕ
  pub event_version : ℕ
  pub handle : Handler

abbrev pub Registry : Type 0
Registry = List Entry

-- `(r *Registry) Lookup`, after the trimming of the type
unfoldable pub find_handler : List ℕ → ℕ → Registry → Option Handler
find_handler ty v [] = none
find_handler ty v (x ∷ xs) =
    if text_eq x.event_type ty && x.event_version == v then some x.handle else find_handler ty v xs

unfoldable pub lookup : Registry → List ℕ → ℕ → Option Handler
unfolding find_handler
lookup r ty v = find_handler (trim_space ty) v r

-- `(r *Registry) Register`; `none` is a nil handler
unfoldable pub register : List ℕ → ℕ → Option Handler → Registry → Result Err Registry
unfolding find_handler
register ty v none r = err handler_required
register ty v (some h) r =
    let name = trim_space ty in
    if is_empty name || v == 0
    then err invalid_event
    else if is_some (find_handler name v r)
    then err duplicate_handler
    else ok (record { event_type = name; event_version = v; handle = h } ∷ r)

abbrev pub unknown_handler : List ℕ
unknown_handler = codes "unknown_handler"

abbrev pub handler_failed : List ℕ
handler_failed = codes "handler_failed"

-- canceled
abbrev pub is_canceled : Err → Bool
is_canceled canceled = true
is_canceled _ = false

-- The context is cancelled before the last event of the batch is reached.
stopped : Option ℕ → List Event → Bool
stopped none es = false
stopped (some k) es = ltb k (length es)

abbrev no_time : Result Err ℕ → Bool
no_time (err panicked) = true
no_time _ = false

module _ (f : Float) (p : Policy f) (reg : Registry) where
  -- `(r *Relay) reschedule`: an error is only logged
  unfoldable pub put_back : ℕ → Option ℕ → Event → List ℕ → Table → Table
  put_back now rand e class t = (Writer.reschedule f p now rand e class now t).1

  -- What dispatch does after the handler has answered.
  unfoldable pub settle : ℕ → Option ℕ → Event → Result Err (Unit {0}) → Table → Table
  settle now rand e (ok _) t = (Writer.complete now e.id now t).1
  settle now rand e (err x) t = if is_canceled x then t else put_back now rand e handler_failed t

  -- `(r *Relay) dispatch`; the lines that it logs are left out
  unfoldable pub dispatch : ℕ → Option ℕ → Event → Table → Table
  unfolding settle
  dispatch now rand e t = elim (lookup reg e.event_type e.event_version) [
    | none ↦ put_back now rand e unknown_handler t
    | some h ↦ settle now rand e (h e) t
  ]

  -- A panic on the retry time of an event that is put back; it ends the process with the table as it
  -- is.
  unfoldable pub panics : ℕ → Option ℕ → Event → Bool
  panics now rand e =
      let put_off =
        not (is_zero e.id) && no_time (next_available_at f p (or_clock now now) e.attempts rand) in
      elim (lookup reg e.event_type e.event_version) [
        | none ↦ put_off
        | some h ↦ elim (h e) [ ok _ ↦ false | err x ↦ not (is_canceled x) && put_off ]
      ]

  -- The loop of processBatch, up to a panic. `live` is how many events are dispatched before the
  -- context is cancelled; `none` when it is not.
  unfoldable pub dispatch_all : ℕ → Option ℕ → Option ℕ → List Event → Table → Table
  unfolding dispatch
  dispatch_all now rand live [] t = t
  dispatch_all now rand (some zero) (e ∷ es) t = t
  dispatch_all now rand (some (suc k)) (e ∷ es) t =
      let rest = dispatch_all now rand (some k) es (dispatch now rand e t) in
      if panics now rand e then dispatch now rand e t else rest
  dispatch_all now rand none (e ∷ es) t =
      let rest = dispatch_all now rand none es (dispatch now rand e t) in
      if panics now rand e then dispatch now rand e t else rest

  -- No event that is reached panics.
  unfoldable pub calm : ℕ → Option ℕ → Option ℕ → List Event → Bool
  unfolding panics
  calm now rand live [] = true
  calm now rand (some zero) (e ∷ es) = true
  calm now rand (some (suc k)) (e ∷ es) = not (panics now rand e) && calm now rand (some k) es
  calm now rand none (e ∷ es) = not (panics now rand e) && calm now rand none es

  -- `(r *Relay) processBatch`: the number of events claimed and the error, which is `panicked` where it
  -- does not return. Each event finds the clock and the random source at `now` and `rand`.
  unfoldable pub process_batch : ℕ → Option ℕ → Option ℕ → Table → (ℕ × Option Err) × Table
  unfolding dispatch_all stopped calm
  process_batch now rand live t =
      let (r, t') = Writer.claim f p now now t in
      elim r [
        | err x ↦ ((0, some x), t')
        | ok es ↦ (
          if calm now rand live es
              then (length es, if stopped live es then some canceled else none)
              else (0, some panicked),
          dispatch_all now rand live es t',
        )
      ]
