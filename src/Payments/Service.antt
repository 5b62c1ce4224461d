-- ===== src/Payments/Service.antt =====
-- service.go: the requests on payments. What other requests do to the world is a function: `between` after
-- the reads of a request and before its write, `later` before the read after a conflict. The lookup of
-- transactions answers alike throughout one request.
pub mod Invariant
pub mod Payable
use konumlu.Base.{
  ℕ, ◌≡◌, Bool, true, false, not, ◌&&◌, ◌||◌, Option, none, some, List, [], ◌∷◌, arith, ◌==◌,
  if◌then◌else◌, is_empty, Result, ok, err, ◌>>=◌, ◌>>◌, refuse, or_err, map_err,
}
use konumlu.Text.{codes, text_eq}
use konumlu.Ids.{is_zero}
use konumlu.Money.{Price}
use konumlu.Contracts
use konumlu.Contracts.{TransactionRef}
use konumlu.Payments.Domain
use konumlu.Payments.Domain.{
  Err, zero_id, store_required, unavailable, not_found, conflict, not_priced, not_payable, canceled,
  db_no_rows, db_conflict, db_unavailable, foreign, Payment, CreateCommand, create_pending, Change,
  ProviderSignal, participant,
}
use konumlu.Payments.Memory
use konumlu.Payments.Memory.{Store}

-- mapTxnErr
abbrev pub map_txn_err : Contracts.Err → Err
map_txn_err Contracts.zero_id = zero_id
map_txn_err Contracts.not_found = not_found
map_txn_err Contracts.canceled = canceled
map_txn_err _ = unavailable

-- mapStoreErr
abbrev pub map_store_err : Err → Err
map_store_err db_no_rows = not_found
map_store_err db_conflict = conflict
map_store_err db_unavailable = unavailable
map_store_err foreign = unavailable
map_store_err e = e

abbrev pub is_conflict : Err → Bool
is_conflict conflict = true
is_conflict _ = false

abbrev pub is_not_found : Err → Bool
is_not_found not_found = true
is_not_found _ = false

-- assertPayable: the price of a transaction that can be paid
unfoldable pub assert_payable : TransactionRef → Result Err Price
assert_payable ref = do
  price ← or_err ref.price not_priced
  refuse (is_empty price.amount || is_empty price.currency) not_priced
  refuse (not (text_eq ref.status (codes "pending") || text_eq ref.status (codes "active")))
      not_payable
  ok price

-- The parts of Service that stay fixed. `store_set` says that the service and its store are not nil.
pub record Setup : Type 0 where
  pub store_set : Bool
  pub txns : Option (ℕ → Result Contracts.Err TransactionRef)

-- What a request meets: the store, and the context's error.
pub record World : Type 0 where
  pub store : Store
  pub ctx : Option Err

abbrev pub mapped : {A : Type 0} → Result Err A → Result Err A
mapped {A} = map_err map_store_err

-- getTransaction
unfoldable pub get_transaction : Setup → ℕ → Result Err TransactionRef
get_transaction s id = do get ← or_err s.txns unavailable; map_err map_txn_err (get id)

-- `get` and `Get`
unfoldable pub get : Setup → ℕ → World → Result Err Payment
get s id w = do
  refuse (not s.store_set) store_required
  refuse (is_zero id) zero_id
  mapped (Memory.get w.ctx id w.store)

unfoldable pub get_for : Setup → ℕ → ℕ → World → Result Err Payment
get_for s user id w = do p ← get s id w; refuse (not (participant p user)) not_found; ok p

-- `ListMine`
unfoldable pub list_mine : Setup → ℕ → World → Result Err (List Payment)
list_mine s user w = do
  refuse (not s.store_set) store_required
  refuse (is_zero user) zero_id
  mapped (Memory.list_for_participant w.ctx user w.store)

-- The command that CreateForTransaction makes of a transaction, once it may be paid by the caller.
unfoldable pub payable : Setup → ℕ → ℕ → Result Err CreateCommand
payable s payer txn = do
  refuse (not s.store_set) store_required
  refuse (is_zero payer || is_zero txn) zero_id
  ref ← get_transaction s txn
  refuse (not (ref.requester_user_id == payer)) not_found
  price ← assert_payable ref
  ok (record {
    transaction_id = ref.id;
    payer_user_id = ref.requester_user_id;
    payee_user_id = ref.provider_user_id;
    amount = price;
  })

-- The write of CreateForTransaction, and the answer after a conflict.
unfoldable pub create_new :
    (World → World) → (World → World) → ℕ → Payment → World → Result Err Payment × World
create_new between later txn p w =
    let v = between w in
    let (r, st) = Memory.create v.ctx p v.store in
    let w' = record v { store = st } in
    elim r [
      | ok _ ↦ (ok p, w')
      | err e ↦
          if not (is_conflict (map_store_err e))
          then (err (map_store_err e), w')
          else elim (Memory.get_by_transaction (later w').ctx txn (later w').store) [
            | ok existing ↦ (ok existing, later w')
            | err _ ↦ (err conflict, later w')
          ]
    ]

-- `CreateForTransaction`
unfoldable pub create_for_transaction :
    Setup
    → (World → World)
    → (World → World)
    → ℕ
    → ℕ
    → Option ℕ
    → ℕ
    → World
    → Result Err Payment × World
create_for_transaction s between later payer txn rand now w = elim (payable s payer txn) [
  | err e ↦ (err e, w)
  | ok cmd ↦ elim (Memory.get_by_transaction w.ctx txn w.store) [
    | ok existing ↦ (ok existing, w)
    | err e ↦
        if not (is_not_found e)
        then (err (map_store_err e), w)
        else elim (create_pending rand cmd now) [
          | err x ↦ (err x, w)
          | ok p ↦ create_new between later txn p w
        ]
  ]
]

-- The second read of applyInternal, after a conflict.
unfoldable pub reread : Setup → ℕ → (Payment → ℕ → Change) → ℕ → World → Result Err Payment
reread s id fn now w = do
  latest ← get s id w
  (_, again) ← fn latest now
  if not again then ok latest else err conflict

-- The write of applyInternal, and the answer after a conflict.
unfoldable pub commit_change :
    Setup
    → (World → World)
    → (World → World)
    → (Payment → ℕ → Change)
    → ℕ
    → ℕ
    → Payment
    → Payment
    → World
    → Result Err Payment × World
commit_change s between later fn id now' current next w =
    let v = between w in
    let (r, st) = Memory.update v.ctx next current.updated_at v.store in
    let w' = record v { store = st } in
    elim r [
      | ok _ ↦ (ok next, w')
      | err e ↦
          if not (is_conflict (map_store_err e))
          then (err (map_store_err e), w')
          else (reread s id fn now' (later w'), later w')
    ]

-- applyInternal: `now` and `now'` are the two readings of the clock.
unfoldable pub apply :
    Setup
    → (World → World)
    → (World → World)
    → (Payment → ℕ → Change)
    → ℕ
    → ℕ
    → ℕ
    → World
    → Result Err Payment × World
apply s between later fn id now now' w = elim (get s id w) [
  | err e ↦ (err e, w)
  | ok current ↦ elim (fn current now) [
    | err e ↦ (err e, w)
    | ok (next, false) ↦ (ok current, w)
    | ok (next, true) ↦ commit_change s between later fn id now' current next w
  ]
]

module _ (s : Setup) (between later : World → World) (id now now' : ℕ)
    (signal : ProviderSignal) where
  -- `ApplyAuthorized`, `ApplyCaptured`, `ApplyCancelled` and `ApplyFailed`
  unfoldable pub apply_authorized : World → Result Err Payment × World
  apply_authorized = apply s between later (Domain.authorize signal) id now now'

  unfoldable pub apply_captured : World → Result Err Payment × World
  apply_captured = apply s between later (Domain.capture signal) id now now'

  unfoldable pub apply_cancelled : World → Result Err Payment × World
  apply_cancelled = apply s between later (Domain.cancel signal) id now now'

  unfoldable pub apply_failed : World → Result Err Payment × World
  apply_failed = apply s between later (Domain.fail signal) id now now'
