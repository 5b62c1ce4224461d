-- ===== src/Deliveries/Tests.antt =====
-- The deliveries at a small store: one delivery that is ready to be handed over.
use konumlu.Base.{ℕ, ◌≡◌, refl, subst, inr, true, false, none, some, [], arith, suc, Result, ok}
use konumlu.Text.{codes}
use konumlu.Contracts.{TransactionRef}
use konumlu.Deliveries.Domain.{
  Err, Delivery, ready, delivered, handoff, eligibility_required, validate,
}
use konumlu.Deliveries.Events.{encode_status_changed}
use konumlu.Deliveries.Lifecycle.{deliver_op, step, expected, step_delivery-expected}
use konumlu.Deliveries.Memory
use konumlu.Deliveries.Memory.{Store, new_store, added, stored}
use konumlu.Deliveries.Memory.Index.{IsIndexed, new_store-IsIndexed, create-IsIndexed}
use konumlu.Deliveries.Setup.{Setup, World, CreateInput}
use konumlu.Deliveries.Service.{
  get, get_transaction, enqueue_status, create_for_transaction, mark_ready, mark_in_transit,
  mark_delivered, cancel,
}
use konumlu.Deliveries.Service.Guard.{Unmoved, marks-Unmoved}
use konumlu.Deliveries.Service.Moved.{request-written}
use konumlu.Deliveries.Service.Invariant.{IsFair, delivery_requests-IsIndexed}

abbrev parcel : Delivery
parcel = record {
  id = 1;
  transaction_id = 2;
  requester_user_id = 4;
  provider_user_id = 5;
  eligibility = eligibility_required;
  status = ready;
  method = some handoff;
  note = none;
  created_at = 10;
  updated_at = 12;
  dispatched_at = none;
  delivered_at = none;
  cancelled_at = none;
}

parcel-valid : validate parcel ≡ ok tt
unfolding validate
parcel-valid = refl

step_delivery-expected_example : step deliver_op parcel 15 ≡ expected deliver_op parcel 15
step_delivery-expected_example =
    step_delivery-expected deliver_op parcel 15 parcel-valid (omega arith) (omega arith)

-- A service with an outbox that counts what it is sent, and the running transaction 2.
abbrev agreement : TransactionRef
agreement = record {
  id = 2;
  requester_user_id = 4;
  provider_user_id = 5;
  price = none;
  status = codes "active";
  created_at = 9;
  completed_at = none;
}

abbrev setup : Setup ℕ
setup = record {
  store_set = true;
  txns = some (λ i. ok agreement);
  outbox = some (λ n q. ok (suc q));
  has_tx = true;
}

-- The same, where the transaction is cancelled.
abbrev called_off : Setup ℕ
called_off = record setup {
  txns = some (λ i. ok (record agreement { status = codes "cancelled" }));
}

abbrev store : Store
store = added parcel new_store

abbrev world : World ℕ
world = record {
  store = store;
  queue = 0;
  ctx = none;
  in_tx = false;
  begin_err = none;
  commit_err = none;
}

store-made : Memory.create none parcel new_store ≡ (ok tt, store)
unfolding Memory.create Memory.may_create validate
store-made = refl

store-IsIndexed : IsIndexed store
store-IsIndexed =
    subst (λ (r : Result Err (Unit {0}) × Store). IsIndexed r.1) store-made
      (create-IsIndexed none parcel new_store new_store-IsIndexed)

abbrev nothing : World ℕ → World ℕ
nothing w = w

nothing-IsFair : IsFair nothing
nothing-IsFair = record { keeps = λ w h. h; persists = λ w i d l. (d, l, refl) }

abbrev input : CreateInput
input = record { eligibility = []; method = none; note = none }

delivery_requests-IsIndexed_example :
    IsIndexed (create_for_transaction setup nothing nothing 4 1 input (some 7) 15 world).1.store
    × IsIndexed (mark_ready setup nothing nothing 4 1 15 16 world).1.store
    × IsIndexed (mark_in_transit setup nothing nothing 4 1 15 16 world).1.store
    × IsIndexed (mark_delivered setup nothing nothing 4 1 15 16 world).1.store
    × IsIndexed (cancel setup nothing nothing 4 1 15 16 world).1.store
delivery_requests-IsIndexed_example =
    delivery_requests-IsIndexed setup nothing nothing 4 1 input (some 7) 15 16 world nothing-IsFair
      nothing-IsFair store-IsIndexed

found : get setup 1 world ≡ ok parcel
unfolding get Memory.get
found = refl

-- The provider acts on a delivery whose transaction is cancelled.
marks-Unmoved_example :
    Unmoved 5 parcel world (mark_ready called_off nothing nothing 5 1 15 16 world)
    × Unmoved 5 parcel world (mark_in_transit called_off nothing nothing 5 1 15 16 world)
    × Unmoved 5 parcel world (mark_delivered called_off nothing nothing 5 1 15 16 world)
marks-Unmoved_example =
    marks-Unmoved called_off nothing nothing 5 1 15 16 world {d = parcel}
      (unfold get Memory.get in refl)
      (inr (record agreement { status = codes "cancelled" }, unfold get_transaction in refl, refl))

-- The provider hands over the parcel: it is stored as delivered, and one event is sent.
abbrev handed_over : Delivery
handed_over = record parcel { status = delivered; updated_at = 15; delivered_at = some 15 }

request-written_example :
    mark_delivered setup nothing nothing 5 1 15 16 world
    ≡ (ok handed_over, record world { store = stored handed_over store; queue = 1 })
request-written_example =
    request-written setup nothing nothing deliver_op 5 1 15 16 world
      (record world { store = stored handed_over store; queue = 1 }) {d = parcel} store-IsIndexed
      found found (refl, (agreement, unfold get_transaction in refl, refl)) refl (omega arith)
      (omega arith) refl refl (unfold enqueue_status encode_status_changed in refl)
