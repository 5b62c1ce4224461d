-- ===== src/Transactions/Tests.antt =====
-- The transactions at a small store: one pending and one completed agreement.
use konumlu.Base.{
  ℕ, ◌≡◌, refl, subst, ◌≤◌, ◌⊎◌, true, false, not, none, some, List, [], ◌∷◌, arith, Result, ok,
}
use konumlu.Text.{codes}
use konumlu.Money.{normalized}
use konumlu.Contracts
use konumlu.Contracts.{OfferRef, NeedRef}
use konumlu.Outbox.Writer.{NewEvent}
use konumlu.Transactions.Domain
use konumlu.Transactions.Domain.{
  Err, invalid_transition, not_found, conflict, Transaction, Status, pending, active, completed,
  cancelled, validate, AcceptedSource, create_pending, price_normalized, terminal, is_completed,
  is_cancelled, participant, Change, with_status,
}
use konumlu.Transactions.Memory
use konumlu.Transactions.Memory.{Store, new_store, added}
use konumlu.Transactions.Memory.Index.{IsIndexed, new_store-IsIndexed, create-IsIndexed}
use konumlu.Transactions.Lifecycle.{complete_op, apply_op, written, apply_op-expected}
use konumlu.Transactions.Contracts.{to_transaction_ref, to_transaction_ref_lem}
use konumlu.Transactions.Setup.{Setup, World}
use konumlu.Transactions.Service.{
  emit, get_for, commit_change, run_maybe_tx, commit_update, get, apply, start, complete, cancel,
  create_from_accepted_offer,
}
use konumlu.Transactions.Service.Sent.{stored, Sent}
use konumlu.Transactions.Service.Atomic.{Settled, apply-error, apply-ok, apply-stale}
use konumlu.Transactions.Service.Invariant.{
  IsFair, requests-IsIndexed, create_from_accepted_offer-IsIndexed,
}

abbrev agreed : Transaction
agreed = record {
  id = 1;
  offer_id = 2;
  need_id = 3;
  requester_user_id = 4;
  provider_user_id = 5;
  provider_business_id = 6;
  service_id = 7;
  price = none;
  status = pending;
  created_at = 10;
  updated_at = 10;
  completed_at = none;
  cancelled_at = none;
}

abbrev running : Transaction
running = record agreed { status = active; updated_at = 12 }

abbrev done : Transaction
done = record agreed { status = completed; updated_at = 20; completed_at = some 20 }

agreed-valid : validate agreed ≡ ok tt
unfolding validate normalized
agreed-valid = refl

running-valid : validate running ≡ ok tt
unfolding validate normalized
running-valid = refl

done-valid : validate done ≡ ok tt
unfolding validate normalized
done-valid = refl

abbrev source : AcceptedSource
source = record {
  offer_id = 2;
  need_id = 3;
  requester_user_id = 4;
  provider_user_id = 5;
  provider_business_id = 6;
  service_id = 7;
  price = none;
}

abbrev made : Transaction
made = record agreed { id = 0x40008000000000000007; created_at = 9; updated_at = 9 }

apply_op-expected_example :
    apply_op complete_op running 15 ≡ ok (written complete_op running 15, true)
apply_op-expected_example = apply_op-expected complete_op running 15 running-valid (omega arith)

-- A service with an outbox that records what it is sent, and the need 3 of user 4, which is open.
abbrev Queue : Type 0
Queue = List NewEvent

abbrev need : NeedRef
need = record { id = 3; requester_user_id = 4; status = codes "open" }

abbrev offer : OfferRef
offer = record {
  id = 2;
  need_id = 3;
  provider_business_id = 6;
  service_id = 7;
  provider_user_id = 5;
  price = none;
  status = codes "accepted";
}

abbrev setup : Setup Queue
setup = record {
  store_set = true;
  offers = some (λ i. ok offer);
  needs = some (λ i. ok need);
  outbox = some (λ n q. ok (n ∷ q));
  has_tx = true;
  rfc3339 = λ t. codes "2026-01-01T00:00:00Z";
}

abbrev store : Store
store = added running new_store

abbrev world : World Queue
world = record {
  store = store;
  queue = [];
  ctx = none;
  in_tx = false;
  begin_err = none;
  commit_err = none;
}

store-made : Memory.create none running new_store ≡ (ok tt, store)
unfolding Memory.create Memory.may_create validate normalized
store-made = refl

store-IsIndexed : IsIndexed store
store-IsIndexed =
    subst (λ (r : Result Err (Unit {0}) × Store). IsIndexed r.1) store-made
      (create-IsIndexed none running new_store new_store-IsIndexed)

abbrev completed_world : Store
completed_world = record store { by_id = (1, done) ∷ [] }

abbrev nothing : World Queue → World Queue
nothing w = w

nothing-IsFair : IsFair nothing
nothing-IsFair = record { keeps = λ w h. h; persists = λ w i t l. (t, l, refl) }

requests-IsIndexed_example :
    IsIndexed (start setup nothing nothing 4 1 15 16 world).1.store
    × IsIndexed (complete setup nothing nothing 4 1 15 16 world).1.store
    × IsIndexed (cancel setup nothing nothing 4 1 15 16 world).1.store
requests-IsIndexed_example =
    requests-IsIndexed setup nothing nothing 4 1 15 16 world nothing-IsFair nothing-IsFair
      store-IsIndexed

create_from_accepted_offer-IsIndexed_example :
    IsIndexed (create_from_accepted_offer setup nothing nothing 4 2 (some 7) 15 world).1.store
create_from_accepted_offer-IsIndexed_example =
    create_from_accepted_offer-IsIndexed setup nothing nothing 4 2 (some 7) 15 world nothing-IsFair
      nothing-IsFair store-IsIndexed

found : get setup 1 world ≡ ok running
unfolding get Memory.get
found = refl

-- A cancelled transaction cannot be completed.
abbrev ended : Transaction
ended = record agreed { status = cancelled; updated_at = 12; cancelled_at = some 12 }

abbrev ended_world : World Queue
ended_world = record world { store = added ended new_store }

apply-error_example : ended_world ≡ ended_world
apply-error_example =
    apply-error setup Domain.complete (λ t. none) 4 1 15 16 ended_world ended_world
      {e = invalid_transition} refl (unfold apply get_for get Memory.get Domain.complete in refl)

abbrev cancelled_at_15 : Transaction
cancelled_at_15 = record running { status = cancelled; updated_at = 15; cancelled_at = some 15 }

-- The event of the change, and the world in which both are written.
abbrev note : NewEvent
note = record {
  event_type = codes "transactions.transaction.cancelled";
  event_version = 1;
  aggregate_type = codes "transaction";
  aggregate_id = codes "1";
  payload = none;
  idempotency_key = codes "k";
  correlation_id = [];
}

abbrev cancelled_world : World Queue
cancelled_world = record (stored setup cancelled_at_15 world) { queue = note ∷ [] }

apply-ok_example :
    ((cancelled_world ≡ world) × Settled setup Domain.cancel 4 1 15 16 world cancelled_at_15)
    ⊎ (Sent setup (some (ok note)) (stored setup cancelled_at_15 world) cancelled_world
        × (validate cancelled_at_15 ≡ ok tt))
apply-ok_example =
    apply-ok setup Domain.cancel (λ t. some (ok note)) 4 1 15 16 world cancelled_world
      cancelled_at_15 refl
      (unfold apply get_for get Memory.get Domain.cancel commit_change run_maybe_tx commit_update
          emit Memory.update Memory.may_update validate normalized in
        refl)

-- Another request has completed the transaction in between.
abbrev completing : World Queue → World Queue
completing w = record w { store = completed_world }

apply-stale_example :
    let w' = (apply setup completing nothing Domain.cancel (λ t. none) 4 1 15 16 world).1 in
    (w' ≡ completing world) ⊎ (w' ≡ nothing (completing world))
apply-stale_example =
    apply-stale setup completing nothing Domain.cancel (λ t. none) 4 1 15 16 world running
      cancelled_at_15 done (unfold get_for get Memory.get in refl)
      (unfold Domain.cancel validate normalized in refl) refl (omega arith) refl

to_transaction_ref_lem_example :
    (Contracts.may_create_delivery (to_transaction_ref done) ≡ not (terminal done.status))
    × (Contracts.may_open_dispute (to_transaction_ref done) ≡ not (is_cancelled done.status))
    × (Contracts.dispute_anchor (to_transaction_ref done) ≡ 20)
    × (10 ≤ Contracts.dispute_anchor (to_transaction_ref done))
    × ((user : ℕ) → Contracts.participant (to_transaction_ref done) user ≡ participant done user)
to_transaction_ref_lem_example = to_transaction_ref_lem done done-valid
