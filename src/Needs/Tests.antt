-- ===== src/Needs/Tests.antt =====
-- The needs at a small store, with an open need and the completed transaction that settles it. A float is
-- a natural here.
use konumlu.Base.{ℕ, ◌≡◌, refl, subst, true, false, Option, none, some, [], arith, ltb, ok, err}
use konumlu.Text.{codes, trim_space}
use konumlu.Ids.{parse_id, hex_value}
use konumlu.Contracts.{FulfillmentCommand}
use konumlu.Money.{amount_pattern, currency_pattern, rat_set_string}
use konumlu.Offers.Message.{is_control, bad_rune}
use konumlu.Outbox.Event.{Value, Event}
use konumlu.Transactions
use konumlu.Transactions.Completion.{CompletedPayload, named, decode_completed, handle, settle}
use konumlu.Transactions.Events.{completed_type}
use konumlu.Needs.Content.{
  Floats, Content, content_normalized, normalize_title, normalize_description, budget_normalized,
  check_budget, amount_value, fraction_value, validate_coordinates, normalize_radius,
  check_category, check_expiry, invalid_budget,
}
use konumlu.Needs.Domain
use konumlu.Needs.Domain.{
  Need, draft, opened, fulfilled, validate, is_open, apply_completed, transition, update_content,
}
use konumlu.Needs.Lifecycle.{
  fulfill_op, step, expected, step_need-expected, edited, update_content-edited,
}
use konumlu.Needs.Memory
use konumlu.Needs.Memory.{Store, new_store, may_create, may_update}
use konumlu.Needs.Memory.Index.{IsKeyed, Follows-refl, create-Follows, new_store-IsKeyed}
use konumlu.Needs.Service
use konumlu.Needs.Service.{Setup, World, get, save}
use konumlu.Needs.Service.Invariant.{IsFair, Kept}
use konumlu.Needs.Fulfillment.{fulfill_from_completed_transaction, may_fulfill, fulfill_read}
use konumlu.Needs.Fulfillment
use konumlu.Needs.Fulfillment.Invariant.{need_requests-Kept}
use konumlu.Needs.Completed.{handled, handle-settled}

abbrev floats : Floats ℕ
floats = record {
  is_nan = λ x. false;
  is_inf = λ x. false;
  lt = ltb;
  min_latitude = 0;
  max_latitude = 180;
  min_longitude = 0;
  max_longitude = 360;
  min_radius = 1;
  max_radius = 50;
}

abbrev content : Content ℕ
content = record {
  title = codes "A table";
  description = codes "Of oak";
  category_id = none;
  budget =
      some
        (record { min_amount = codes "9.5"; max_amount = codes "12.50"; currency = codes "TRY" });
  location = record { latitude = 90; longitude = 180 };
  radius_km = some 10;
  expires_at = some 1000;
}

-- The least amount is above the greatest.
budget_order :
    budget_normalized (
      some
        (record { min_amount = codes "12.51"; max_amount = codes "12.50"; currency = codes "TRY" }))
    ≡ err invalid_budget
unfolding budget_normalized check_budget amount_value fraction_value trim_space amount_pattern
    currency_pattern rat_set_string
budget_order = refl

abbrev need : Need ℕ
need = record {
  id = 3;
  requester_user_id = 4;
  content = content;
  status = opened;
  created_at = 10;
  updated_at = 12;
}

need-valid : validate floats need ≡ ok tt
unfolding validate content_normalized normalize_title normalize_description budget_normalized
    check_budget amount_value fraction_value validate_coordinates normalize_radius check_category
    check_expiry trim_space amount_pattern currency_pattern rat_set_string is_control bad_rune
need-valid = refl

step_need-expected_example : step floats fulfill_op need 15 ≡ expected floats fulfill_op need 15
step_need-expected_example = step_need-expected floats fulfill_op need 15 need-valid (omega arith)

update_content-edited_example :
    update_content floats content need 15 ≡ edited floats content need 15
update_content-edited_example =
    update_content-edited floats content need 15 need-valid (omega arith)

abbrev store : Store ℕ
store = Memory.stored need new_store

made : (Memory.create floats none need new_store).1 ≡ store
unfolding Memory.create may_create validate content_normalized normalize_title normalize_description
    budget_normalized check_budget amount_value fraction_value validate_coordinates normalize_radius
    check_category check_expiry trim_space amount_pattern currency_pattern rat_set_string is_control
    bad_rune
made = refl

store-IsKeyed : IsKeyed floats store
store-IsKeyed =
    subst (IsKeyed floats) made
      (create-Follows floats none need new_store (new_store-IsKeyed floats)).0

abbrev world : World ℕ
world = record { store = store; ctx = none }

abbrev setup : Setup
setup = record { store_set = true; categories = none }

abbrev nothing : World ℕ → World ℕ
nothing w = w

nothing-IsFair : IsFair floats nothing
nothing-IsFair = record {
  keeps = λ w h. h;
  follows = λ w. Follows-refl w.store;
  stamps = λ w i n n' a b e. cc;
}

abbrev command : FulfillmentCommand
command = record { need_id = 3; requester_user_id = 4; transaction_id = 8 }

need_requests-Kept_example :
    Kept floats world (Service.create floats setup nothing 4 content (some 7) 15 world).1
    × Kept floats world (Service.update floats setup nothing 4 3 content 15 world).1
    × Kept floats world (Service.open_need floats setup nothing 4 3 15 world).1
    × Kept floats world (Service.fulfill floats setup nothing 4 3 15 world).1
    × Kept floats world (Service.cancel floats setup nothing 4 3 15 world).1
    × Kept floats world (Service.expire_if_due floats setup nothing 3 15 world).1
    × Kept floats world (fulfill_from_completed_transaction floats setup nothing command 15 world).1
need_requests-Kept_example =
    need_requests-Kept floats setup nothing nothing-IsFair 4 3 content (some 7) command 15 world
      store-IsKeyed

abbrev done : Transactions.Domain.Transaction
done = record {
  id = 8;
  offer_id = 2;
  need_id = 3;
  requester_user_id = 4;
  provider_user_id = 5;
  provider_business_id = 6;
  service_id = 7;
  price = none;
  status = Transactions.Domain.completed;
  created_at = 1;
  updated_at = 2;
  completed_at = some 2;
  cancelled_at = none;
}

abbrev txns : Transactions.Memory.Store
txns = Transactions.Memory.added done Transactions.Memory.new_store

abbrev payload : CompletedPayload
payload = record {
  transaction_id = codes "00000000-0000-0000-0000-000000000008";
  offer_id = codes "o";
  need_id = codes "n";
  requester_user_id = codes "r";
  provider_user_id = [];
  actor_user_id = [];
  completed_at = codes "t";
}

abbrev unmarshal : Value → Option CompletedPayload
unmarshal v = some payload

abbrev event : Event
event = record {
  id = 1;
  event_type = completed_type;
  event_version = 1;
  aggregate_type = none;
  aggregate_id = none;
  payload = some Value.null;
  idempotency_key = none;
  correlation_id = none;
  created_at = 101;
  available_at = 101;
  claimed_at = none;
  claim_until = none;
  completed_at = none;
  attempts = 0;
  last_error_class = none;
}

event-named : named unmarshal event ≡ ok 8
unfolding named decode_completed parse_id trim_space hex_value
event-named = refl

-- The need, fulfilled.
abbrev settled : Need ℕ
settled = record need { status = fulfilled; updated_at = 15 }

abbrev after : World ℕ
after = record world { store = Memory.stored settled store }

handled_run : handled floats setup nothing unmarshal event txns 15 world ≡ (ok tt, after)
unfolding handle settle named decode_completed parse_id hex_value trim_space Transactions.Memory.get
    fulfill_from_completed_transaction may_fulfill fulfill_read Fulfillment.settle get save
    Memory.get Memory.update may_update apply_completed Domain.fulfill transition validate
    content_normalized normalize_title normalize_description budget_normalized check_budget
    amount_value fraction_value validate_coordinates normalize_radius check_category check_expiry
    amount_pattern currency_pattern rat_set_string is_control bad_rune
handled_run = refl

handle-settled_example :
    (is_open settled.status ≡ false)
    × (handled floats setup nothing unmarshal event txns 20
          (handled floats setup nothing unmarshal event txns 15 world).1
        ≡ (ok tt, (handled floats setup nothing unmarshal event txns 15 world).1))
handle-settled_example =
    handle-settled floats setup nothing unmarshal event txns 8 done 15 20 world settled event-named
      refl refl refl refl refl refl store-IsKeyed (rw handled_run refl) (rw handled_run refl)
      (rw handled_run refl) (rw handled_run refl) refl
