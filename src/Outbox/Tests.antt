-- ===== src/Outbox/Tests.antt =====
-- The outbox at one event.
use konumlu.Base.{
  ℕ, zero, suc, ◌+◌, ◌*◌, ◌%◌, ◌<◌, ◌⊎◌, List, length, if◌then◌else◌, ◌&&◌, ◌≡◌, refl, ◌≤◌, inl,
  true, false, none, some, [], ◌∷◌, arith, ltb, leb, ok, err,
}
use konumlu.Text.{codes, trim_space}
use konumlu.Ids.{new_id}
use konumlu.Outbox.Event.{
  panicked, sensitive_payload, item, nil, Value, end, field, Event, Unicode, validate,
  validate_payload, reject_sensitive, sensitive_key,
}
use konumlu.Outbox.Policy
use konumlu.Outbox.Policy.{
  Float, Policy, next_available_at, delay_for, grow, jitter_of, add_duration,
  next_available_at_bounds,
}
use konumlu.Outbox.Store.{
  Table, insert, claim, complete, reschedule, increment_attempts, has_id, mark, picked, ordered,
  place, row_before, row_claimable, update_open, open_row, same_key,
}
use konumlu.Outbox.Store.Steps.{Step, claim_step, increment_step, complete_step, run, run_all}
use konumlu.Outbox.Store.Leases.{claim_exclusive}
use konumlu.Outbox.Writer.{NewEvent, enqueue, write_event, pending_event}
use konumlu.Outbox.Writer
use konumlu.Outbox.Relay.{put_back, Registry, dispatch, lookup, find_handler, unknown_handler}
use konumlu.Outbox.Relay.Delivery.{dispatch-retried}

-- The classes of ASCII.
abbrev ascii : Unicode
ascii = record {
  lower = λ c. if leb b'A' c && leb c b'Z' then c + 32 else c;
  is_letter = λ c. leb b'a' c && leb c b'z';
  is_number = λ c. leb b'0' c && leb c b'9';
}

times_positive : (x m : ℕ) → 0 < x → leb 1 m ≡ true → 0 < x * m
times_positive x zero p h = cc
times_positive x (suc m) p h = grind arith

not_above :
    (x c : ℕ)
    → ltb c x ≡ false
    → c + 512 < 0x8000000000000000
    → x % 0x10000000000000000 ≤ c % 0x10000000000000000
not_above x c h l = ground arith

-- Floats that are whole numbers; the conversion to int64 drops the high bits.
abbrev whole : Float
whole = record {
  F = ℕ;
  Positive = λ x. 0 < x;
  of_duration = λ d. d;
  times = λ a b. a * b;
  lt = ltb;
  ge = λ a b. leb b a;
  gt = λ a b. ltb b a;
  one = 1;
  truncate = λ x. x % 0x10000000000000000;
  positive_of = λ d h. h;
  positive_times = times_positive;
  truncate_mono = λ x c p h l. not_above x c h l;
}

abbrev policy : Policy whole
policy = record {
  batch_size = 10;
  lease = 30;
  backoff_base = 5;
  backoff_multiplier = 2;
  backoff_cap = 60;
  jitter = 3;
}

next_available_at_bounds_example : (100 ≤ 121) × (121 ≤ 100 + 60 + 3)
next_available_at_bounds_example =
    next_available_at_bounds whole policy 100 3 (some 1) {t = 121} (unfold Policy.validate in refl)
      refl (omega arith) (omega arith)
      (unfold next_available_at jitter_of add_duration delay_for grow in refl)

-- A cap and a jitter of 2 ^ 62 nanoseconds each: a valid policy whose retry time lies in the past.
abbrev wide : Policy whole
wide = record policy {
  backoff_base = 0x4000000000000000;
  backoff_cap = 0x4000000000000000;
  jitter = 0x4000000000000000;
}

wide_valid : Policy.validate whole wide ≡ ok tt
unfolding Policy.validate
wide_valid = refl

retry_in_past : next_available_at whole wide 0x8000000000000001 1 (some 0x4000000000000000) ≡ ok 1
unfolding next_available_at jitter_of add_duration delay_for grow
retry_in_past = refl

-- The largest jitter is valid, and drawing from it panics.
abbrev widest : Policy whole
widest = record policy { jitter = 0x7fffffffffffffff }

widest_valid : Policy.validate whole widest ≡ ok tt
unfolding Policy.validate
widest_valid = refl

jitter_panics : next_available_at whole widest 100 1 (some 7) ≡ err panicked
unfolding next_available_at jitter_of
jitter_panics = refl

abbrev new : NewEvent
new = record {
  event_type = codes "offers.offer.accepted";
  event_version = 1;
  aggregate_type = codes "offer";
  aggregate_id = codes "17";
  payload = some (Value.object (field (codes "offer_id") (Value.text (codes "17")) end));
  idempotency_key = codes "k";
  correlation_id = [];
}

abbrev event : Event
event = record {
  id = 0x40008000000000000007;
  event_type = codes "offers.offer.accepted";
  event_version = 1;
  aggregate_type = some (codes "offer");
  aggregate_id = some (codes "17");
  payload = some (Value.object (field (codes "offer_id") (Value.text (codes "17")) end));
  idempotency_key = some (codes "k");
  correlation_id = none;
  created_at = 10;
  available_at = 10;
  claimed_at = none;
  claim_until = none;
  completed_at = none;
  attempts = 0;
  last_error_class = none;
}

abbrev empty : Table
empty = record { rows = []; fail = none }

abbrev one_row : Table
one_row = record { rows = event ∷ []; fail = none }

event-enqueued : enqueue ascii (some 7) 10 new empty ≡ (ok event, one_row)
unfolding enqueue write_event pending_event new_id trim_space validate validate_payload
    reject_sensitive sensitive_key insert same_key
event-enqueued = refl

-- A payload with a secret in it is refused at any depth and in any spelling of the key.
secret_refused :
    validate_payload ascii
      (some (Value.array (item (Value.object (field (codes "Access-Token") Value.null end)) nil)))
    ≡ err sensitive_payload
unfolding validate_payload reject_sensitive sensitive_key
secret_refused = refl

abbrev claimed_event : Event
claimed_event = record event { claimed_at = some 12; claim_until = some 42; attempts = 1 }

abbrev claimed_row : Table
claimed_row = record { rows = claimed_event ∷ []; fail = none }

event-claimed : claim 12 30 10 one_row ≡ (ok (claimed_event ∷ []), claimed_row)
unfolding claim picked ordered place row_before row_claimable mark has_id
event-claimed = refl

-- Another worker claims, the handler's worker counts an attempt, and an event without a row is
-- completed.
abbrev others : List Step
others = claim_step 20 30 10 ∷ (increment_step event.id ∷ (complete_step 5 21 ∷ []))

abbrev counted_row : Table
counted_row = record { rows = record claimed_event { attempts = 2 } ∷ []; fail = none }

nothing-claimed : claim 41 30 10 (run_all others claimed_row) ≡ (ok [], counted_row)
unfolding run claim picked ordered place row_before row_claimable mark has_id increment_attempts
    complete update_open open_row
nothing-claimed = refl

claim_exclusive_example : has_id event.id [] ≡ false
claim_exclusive_example =
    claim_exclusive event.id 12 30 10 41 30 10 one_row claimed_row counted_row others event-claimed
      (unfold has_id in refl) refl (omega arith) nothing-claimed

abbrev closed_row : Table
closed_row = record { rows = record claimed_event { completed_at = some 13 } ∷ []; fail = none }

abbrev put_off : Table
put_off = record {
  rows =
      record claimed_event {
        available_at = 21;
        claimed_at = none;
        claim_until = none;
        last_error_class = some unknown_handler;
      }
      ∷ [];
  fail = none;
}

event-rescheduled : reschedule event.id 21 unknown_handler claimed_row ≡ (ok tt, put_off)
unfolding reschedule update_open open_row
event-rescheduled = refl

abbrev registry : Registry
registry =
    record { event_type = codes "offers.offer.accepted"; event_version = 1; handle = λ e. ok tt }
    ∷ []

abbrev again : Event
again = record claimed_event {
  available_at = 21;
  claimed_at = some 25;
  claim_until = some 55;
  attempts = 2;
  last_error_class = some unknown_handler;
}

abbrev again_row : Table
again_row = record { rows = again ∷ []; fail = none }

dispatch-retried_example :
    ((25 < 21) × (has_id event.id (again ∷ []) ≡ false))
    ⊎ ((21 ≤ 25) × ((has_id event.id (again ∷ []) ≡ true) ⊎ (length (again ∷ []) ≡ 10)))
dispatch-retried_example =
    dispatch-retried whole policy [] 15 (some 1) claimed_event claimed_row put_off again_row
      unknown_handler 21 25 30 10 (inl (unfold lookup find_handler in refl, refl))
      (unfold next_available_at jitter_of add_duration delay_for grow in refl) (omega arith)
      event-rescheduled
      (unfold dispatch lookup find_handler put_back Writer.reschedule trim_space next_available_at
          jitter_of add_duration delay_for grow reschedule update_open open_row claim picked ordered
          place row_before row_claimable mark has_id in
        refl)
