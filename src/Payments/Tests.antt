-- ===== src/Payments/Tests.antt =====
-- The payments at a small store: one payment that is authorized under the reference "a", and another one
-- under the reference "b".
use konumlu.Base.{
  ℕ, List, Result, lookup, false, ◌≡◌, refl, subst, true, none, some, [], ◌∷◌, arith, ok, err,
}
use konumlu.Text.{codes, trim_space}
use konumlu.Money.{normalized, money_normalized, amount_pattern, currency_pattern, rat_set_string}
use konumlu.Contracts.{TransactionRef}
use konumlu.Payments.Domain.{
  conflict, Payment, authorized, captured, validate, validate_provider, ProviderSignal,
  CreateCommand,
}
use konumlu.Payments.Lifecycle.{capture_op, step, expected, step-expected}
use konumlu.Transactions
use konumlu.Payments.Service.Payable.{over_transactions, payable-stored}
use konumlu.Payments.Memory.{Store, new_store, create, may_create, update, may_update}
use konumlu.Payments.Memory.Index.{IsIndexed, new_store-IsIndexed, create-IsIndexed}
use konumlu.Payments.Memory.References.{update-conflict_frees}
use konumlu.Payments.Service.{
  Setup, World, payable, get_transaction, assert_payable, create_for_transaction, apply_authorized,
  apply_captured, apply_cancelled, apply_failed,
}
use konumlu.Payments.Service.Invariant.{IsFair, payment_requests-IsIndexed}

abbrev paid : Payment
paid = record {
  id = 1;
  transaction_id = 2;
  payer_user_id = 4;
  payee_user_id = 5;
  amount = record { amount = codes "12.50"; currency = codes "TRY" };
  status = authorized;
  provider = none;
  provider_reference = some (codes "a");
  created_at = 10;
  updated_at = 12;
  authorized_at = some 12;
  captured_at = none;
  cancelled_at = none;
  failed_at = none;
}

abbrev other_paid : Payment
other_paid = record paid { id = 3; transaction_id = 6; provider_reference = some (codes "b") }

abbrev third : Payment
third = record paid { id = 7; transaction_id = 8 }

abbrev signal : ProviderSignal
signal = record { provider = some (codes " psp "); provider_reference = some (codes "b") }

paid-valid : validate paid ≡ ok tt
unfolding validate validate_provider money_normalized trim_space amount_pattern currency_pattern
    rat_set_string
paid-valid = refl

third-valid : validate third ≡ ok tt
unfolding validate validate_provider money_normalized trim_space amount_pattern currency_pattern
    rat_set_string
third-valid = refl

step-expected_example : step capture_op signal paid 15 ≡ expected capture_op signal paid 15
step-expected_example =
    step-expected capture_op signal paid 15 paid-valid (omega arith) (omega arith)

abbrev store : Store
store = record {
  by_id = (1, paid) ∷ (3, other_paid) ∷ [];
  by_txn = (2, 1) ∷ (6, 3) ∷ [];
  by_provider = (codes "b", 3) ∷ (codes "a", 1) ∷ [];
  fail = none;
}

made : (create none other_paid (create none paid new_store).1).1 ≡ store
unfolding create may_create validate validate_provider money_normalized trim_space amount_pattern
    currency_pattern rat_set_string
made = refl

store-IsIndexed : IsIndexed store
store-IsIndexed = subst IsIndexed made (
    create-IsIndexed none other_paid (create none paid new_store).1
      (create-IsIndexed none paid new_store new_store-IsIndexed))

-- The payment under "a", captured with the reference "b" that the other payment has.
abbrev moved : Payment
moved = record paid {
  status = captured;
  updated_at = 15;
  captured_at = some 15;
  provider_reference = some (codes "b");
}

update-conflict_frees_example :
    ((update none moved 12 store).0 ≡ err conflict)
    × ((update none moved 12 store).1.by_id ≡ store.by_id)
    × ((update none moved 12 store).1.by_txn ≡ store.by_txn)
    × ((create none third (update none moved 12 store).1).0 ≡ ok tt)
update-conflict_frees_example =
    update-conflict_frees moved paid third 12 3 (codes "a") (codes "b") store
      (unfold may_update validate validate_provider money_normalized trim_space amount_pattern
          currency_pattern rat_set_string in
        refl)
      refl refl refl refl (omega arith) third-valid refl refl refl

abbrev nothing : World → World
nothing w = w

nothing-IsFair : IsFair nothing
nothing-IsFair = record { keeps = λ w h. h; persists = λ w i p l. (p, l, refl) }

abbrev ref : TransactionRef
ref = record {
  id = 8;
  requester_user_id = 4;
  provider_user_id = 5;
  price = some (record { amount = codes "12.50"; currency = codes "TRY" });
  status = codes "active";
  created_at = 1;
  completed_at = none;
}

abbrev setup : Setup
setup = record { store_set = true; txns = some (λ id. ok ref) }

abbrev world : World
world = record { store = store; ctx = none }

payment_requests-IsIndexed_example :
    IsIndexed (create_for_transaction setup nothing nothing 4 8 (some 7) 15 world).1.store
    × IsIndexed (apply_authorized setup nothing nothing 1 15 16 signal world).1.store
    × IsIndexed (apply_captured setup nothing nothing 1 15 16 signal world).1.store
    × IsIndexed (apply_cancelled setup nothing nothing 1 15 16 signal world).1.store
    × IsIndexed (apply_failed setup nothing nothing 1 15 16 signal world).1.store
payment_requests-IsIndexed_example =
    payment_requests-IsIndexed setup nothing nothing nothing-IsFair nothing-IsFair 4 8 1 15 16
      (some 7) signal world store-IsIndexed

-- An active transaction with a price, which its requester may pay.
abbrev agreed : Transactions.Domain.Transaction
agreed = record {
  id = 8;
  offer_id = 2;
  need_id = 3;
  requester_user_id = 4;
  provider_user_id = 5;
  provider_business_id = 6;
  service_id = 7;
  price = some (record { amount = codes "12.50"; currency = codes "TRY" });
  status = Transactions.Domain.active;
  created_at = 1;
  updated_at = 2;
  completed_at = none;
  cancelled_at = none;
}

abbrev agreements : Transactions.Memory.Store
agreements = Transactions.Memory.added agreed Transactions.Memory.new_store

agreements-made :
    Transactions.Memory.create none agreed Transactions.Memory.new_store ≡ (ok tt, agreements)
unfolding Transactions.Memory.create Transactions.Memory.may_create Transactions.Domain.validate
    normalized trim_space amount_pattern currency_pattern rat_set_string
agreements-made = refl

agreements-IsIndexed : Transactions.Memory.Index.IsIndexed agreements
agreements-IsIndexed =
    subst
      (λ (r : Result Transactions.Domain.Err (Unit {0}) × Transactions.Memory.Store).
        Transactions.Memory.Index.IsIndexed r.1)
      agreements-made
      (Transactions.Memory.Index.create-IsIndexed none agreed Transactions.Memory.new_store
        Transactions.Memory.Index.new_store-IsIndexed)

abbrev txn_service : Transactions.Setup.Setup (List ℕ)
txn_service = record {
  store_set = true;
  offers = none;
  needs = none;
  outbox = none;
  has_tx = false;
  rfc3339 = λ t. [];
}

abbrev txn_world : Transactions.Setup.World (List ℕ)
txn_world = record {
  store = agreements;
  queue = [];
  ctx = none;
  in_tx = false;
  begin_err = none;
  commit_err = none;
}

abbrev command : CreateCommand
command = record {
  transaction_id = 8;
  payer_user_id = 4;
  payee_user_id = 5;
  amount = record { amount = codes "12.50"; currency = codes "TRY" };
}

payable_run : payable (over_transactions txn_service txn_world) 4 8 ≡ ok command
unfolding payable get_transaction assert_payable Transactions.Lookup.get_transaction
    Transactions.Service.get Transactions.Memory.get Transactions.Contracts.to_transaction_ref
payable_run = refl

payable-stored_example :
    (x : Transactions.Domain.Transaction) × (lookup 8 agreements.by_id ≡ some x)
    × (Transactions.Domain.terminal x.status ≡ false)
    × (x.requester_user_id ≡ 4)
    × (x.price ≡ some command.amount)
    × ◌≡◌ {A = ℕ} 8 8
    × ◌≡◌ {A = ℕ} 4 4
    × (5 ≡ x.provider_user_id)
payable-stored_example =
    payable-stored txn_service txn_world 4 8 command agreements-IsIndexed payable_run
