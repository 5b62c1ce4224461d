-- ===== src/Payments/Memory.antt =====
-- memory.go: the store of payments, with its indexes by transaction and by provider reference. The mutex
-- makes each method one step; `ctx` is what ctx.Err() answers and `fail` the error that SetFail has
-- planted.
pub mod Index
pub mod References
use konumlu.Base.{
  ℕ, ◌≡◌, Bool, true, false, not, ◌&&◌, ◌||◌, Option, none, some, List, [], ◌∷◌, arith, ltb, ◌==◌,
  if◌then◌else◌, is_some, keep, Table, lookup, insert, values, Result, ok, err, ◌>>=◌, ◌>>◌, refuse,
  raise, or_err,
}
use konumlu.Text.{text_eq}
use konumlu.Money.{Price}
use konumlu.Payments.Domain.{
  Err, conflict, not_found, Status, other, Payment, validate, participant,
}

-- A Go map keyed by texts.
abbrev pub Texts : Type 0
Texts = List (List ℕ × ℕ)

abbrev pub find_text : List ℕ → Texts → Option ℕ
find_text s [] = none
find_text s ((k, i) ∷ m) = if text_eq k s then some i else find_text s m

abbrev pub delete_text : List ℕ → Texts → Texts
delete_text s [] = []
delete_text s ((k, i) ∷ m) =
    let rest = delete_text s m in if text_eq k s then rest else (k, i) ∷ rest

abbrev pub insert_text : List ℕ → ℕ → Texts → Texts
insert_text s i m = (s, i) ∷ delete_text s m

pub record Store : Type 0 where
  pub by_id : Table Payment
  pub by_txn : Table ℕ
  pub by_provider : Texts
  pub fail : Option Err

-- NewMemoryStore
abbrev pub new_store : Store
new_store = record { by_id = []; by_txn = []; by_provider = []; fail = none }

abbrev pub ready : Option Err → Store → Result Err (Unit {0})
ready ctx m = raise ctx >> raise m.fail

-- Whether a reference is set and in the index.
abbrev pub taken : Option (List ℕ) → Texts → Bool
taken none t = false
taken (some r) t = is_some (find_text r t)

abbrev pub referred : Option (List ℕ) → ℕ → Texts → Texts
referred none i t = t
referred (some r) i t = insert_text r i t

-- The checks of Create, before it writes.
unfoldable pub may_create : Option Err → Payment → Store → Result Err (Unit {0})
may_create ctx p m = do
  ready ctx m
  validate p
  refuse (is_some (lookup p.id m.by_id)) conflict
  refuse (is_some (lookup p.transaction_id m.by_txn)) conflict
  refuse (taken p.provider_reference m.by_provider) conflict

abbrev pub added : Payment → Store → Store
added p m = record m {
  by_id = insert p.id p m.by_id;
  by_txn = insert p.transaction_id p.id m.by_txn;
  by_provider = referred p.provider_reference p.id m.by_provider;
}

-- MemoryStore.Create
unfoldable pub create : Option Err → Payment → Store → Result Err (Unit {0}) × Store
create ctx p m = elim (may_create ctx p m) [ ok _ ↦ (ok tt, added p m) | err e ↦ (err e, m) ]

-- MemoryStore.Get
unfoldable pub get : Option Err → ℕ → Store → Result Err Payment
get ctx id m = do ready ctx m; or_err (lookup id m.by_id) not_found

-- Go's zero Payment, which reading a missing key of `byID` gives.
abbrev pub zero_payment : Payment
zero_payment = record {
  id = 0;
  transaction_id = 0;
  payer_user_id = 0;
  payee_user_id = 0;
  amount = record { amount = []; currency = [] };
  status = other [];
  provider = none;
  provider_reference = none;
  created_at = 0;
  updated_at = 0;
  authorized_at = none;
  captured_at = none;
  cancelled_at = none;
  failed_at = none;
}

abbrev pub or_zero : Option Payment → Payment
or_zero none = zero_payment
or_zero (some p) = p

-- MemoryStore.GetByTransactionID
unfoldable pub get_by_transaction : Option Err → ℕ → Store → Result Err Payment
get_by_transaction ctx txn m = do
  ready ctx m
  id ← or_err (lookup txn m.by_txn) not_found
  ok (or_zero (lookup id m.by_id))

-- The newest first, and by identifier where the times are equal.
unfoldable pub listed_before : Payment → Payment → Bool
listed_before a b =
    if a.created_at == b.created_at then ltb a.id b.id else ltb b.created_at a.created_at

unfoldable pub place : Payment → List Payment → List Payment
unfolding listed_before
place p [] = p ∷ []
place p (x ∷ xs) = let rest = place p xs in if listed_before x p then x ∷ rest else p ∷ (x ∷ xs)

-- sort.Slice: the order is total on distinct identifiers, so every sort gives one list.
unfoldable pub sorted : List Payment → List Payment
unfolding place
sorted [] = []
sorted (x ∷ xs) = place x (sorted xs)

-- MemoryStore.ListForParticipant
unfoldable pub list_for_participant : Option Err → ℕ → Store → Result Err (List Payment)
unfolding sorted
list_for_participant ctx user m = do
  ready ctx m
  ok (sorted (keep (λ p. participant p user) (values m.by_id)))

-- The checks of Update, before it touches the index by reference; the stored payment.
unfoldable pub may_update : Option Err → Payment → ℕ → Store → Result Err Payment
may_update ctx p seen m = do
  ready ctx m
  validate p
  current ← or_err (lookup p.id m.by_id) not_found
  refuse (not (current.updated_at == seen)) conflict
  ok current

-- The index without the reference of the stored payment.
abbrev pub released : Option (List ℕ) → Texts → Texts
released none t = t
released (some r) t = delete_text r t

-- Whether another payment has the reference.
abbrev pub owned_by_other : Option (List ℕ) → ℕ → Texts → Bool
owned_by_other none i t = false
owned_by_other (some r) i t = elim (find_text r t) [ none ↦ false | some j ↦ not (j == i) ]

-- MemoryStore.Update, under the update time that the caller has seen: the reference of the stored
-- payment is deleted from the index before the new one is tested.
unfoldable pub update : Option Err → Payment → ℕ → Store → Result Err (Unit {0}) × Store
update ctx p seen m = elim (may_update ctx p seen m) [
  | err e ↦ (err e, m)
  | ok current ↦
      let t = released current.provider_reference m.by_provider in
      if owned_by_other p.provider_reference p.id t
      then (err conflict, record m { by_provider = t })
      else (
        ok tt,
        record m {
          by_id = insert p.id p m.by_id;
          by_provider = referred p.provider_reference p.id t;
        },
      )
]
