-- ===== src/Transactions/Memory.antt =====
-- memory.go: the store of transactions, with its index by offer. The mutex makes each method one step;
-- `ctx` is what ctx.Err() answers, and `fail` the error that SetFail has planted.
pub mod Index
use konumlu.Base.{
  ℕ, ◌≡◌, Bool, true, false, not, ◌&&◌, ◌||◌, Option, none, some, List, [], ◌∷◌, arith, ltb, ◌==◌,
  if◌then◌else◌, is_some, keep, Table, lookup, insert, values, Result, ok, err, ◌>>=◌, ◌>>◌, refuse,
  raise, or_err,
}
use konumlu.Transactions.Domain.{
  Err, conflict, not_found, Status, other, Transaction, validate, participant,
}

pub record Store : Type 0 where
  pub by_id : Table Transaction
  pub by_offer : Table ℕ
  pub fail : Option Err

-- NewMemoryStore
abbrev pub new_store : Store
new_store = record { by_id = []; by_offer = []; fail = none }

-- `if err := ctx.Err(); err != nil { return err }`, then the planted error
abbrev pub ready : Option Err → Store → Result Err (Unit {0})
ready ctx m = raise ctx >> raise m.fail

-- The checks of Create, before it writes.
unfoldable pub may_create : Option Err → Transaction → Store → Result Err (Unit {0})
may_create ctx t m = do
  ready ctx m
  validate t
  refuse (is_some (lookup t.id m.by_id)) conflict
  refuse (is_some (lookup t.offer_id m.by_offer)) conflict

abbrev pub added : Transaction → Store → Store
added t m = record m { by_id = insert t.id t m.by_id; by_offer = insert t.offer_id t.id m.by_offer }

-- MemoryStore.Create
unfoldable pub create : Option Err → Transaction → Store → Result Err (Unit {0}) × Store
create ctx t m = elim (may_create ctx t m) [ ok _ ↦ (ok tt, added t m) | err e ↦ (err e, m) ]

-- MemoryStore.Get
unfoldable pub get : Option Err → ℕ → Store → Result Err Transaction
get ctx id m = do ready ctx m; or_err (lookup id m.by_id) not_found

-- Go's zero Transaction, which reading a missing key of `byID` gives.
abbrev pub zero_transaction : Transaction
zero_transaction = record {
  id = 0;
  offer_id = 0;
  need_id = 0;
  requester_user_id = 0;
  provider_user_id = 0;
  provider_business_id = 0;
  service_id = 0;
  price = none;
  status = other [];
  created_at = 0;
  updated_at = 0;
  completed_at = none;
  cancelled_at = none;
}

abbrev pub or_zero : Option Transaction → Transaction
or_zero none = zero_transaction
or_zero (some t) = t

-- MemoryStore.GetByOfferID
unfoldable pub get_by_offer : Option Err → ℕ → Store → Result Err Transaction
get_by_offer ctx offer m = do
  ready ctx m
  id ← or_err (lookup offer m.by_offer) not_found
  ok (or_zero (lookup id m.by_id))

-- The newest first, and by identifier where the times are equal.
unfoldable pub listed_before : Transaction → Transaction → Bool
listed_before a b =
    if a.created_at == b.created_at then ltb a.id b.id else ltb b.created_at a.created_at

unfoldable pub place : Transaction → List Transaction → List Transaction
unfolding listed_before
place t [] = t ∷ []
place t (x ∷ xs) = let rest = place t xs in if listed_before x t then x ∷ rest else t ∷ (x ∷ xs)

-- sort.Slice: the order is total on distinct identifiers, so every sort gives one list.
unfoldable pub sorted : List Transaction → List Transaction
unfolding place
sorted [] = []
sorted (x ∷ xs) = place x (sorted xs)

-- MemoryStore.ListForParticipant
unfoldable pub list_for_participant : Option Err → ℕ → Store → Result Err (List Transaction)
unfolding sorted
list_for_participant ctx user m = do
  ready ctx m
  ok (sorted (keep (λ t. participant t user) (values m.by_id)))

-- The checks of Update, before it writes.
unfoldable pub may_update : Option Err → Transaction → ℕ → Store → Result Err (Unit {0})
may_update ctx t seen m = do
  ready ctx m
  validate t
  current ← or_err (lookup t.id m.by_id) not_found
  refuse (not (current.updated_at == seen)) conflict

-- MemoryStore.Update, under the update time that the caller has seen
unfoldable pub update : Option Err → Transaction → ℕ → Store → Result Err (Unit {0}) × Store
update ctx t seen m = elim (may_update ctx t seen m) [
  | ok _ ↦ (ok tt, record m { by_id = insert t.id t m.by_id })
  | err e ↦ (err e, m)
]
