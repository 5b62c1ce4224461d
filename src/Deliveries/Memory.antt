-- ===== src/Deliveries/Memory.antt =====
-- memory.go: the store of deliveries, with its index by transaction. The mutex makes each method one step;
-- `ctx` is what ctx.Err() answers and `fail` the error that SetFail has planted.
pub mod Index
use konumlu.Base.{
  ℕ, Bool, not, Option, none, some, List, [], ◌∷◌, ltb, ◌==◌, if◌then◌else◌, is_some, keep, Table,
  lookup, insert, values, Result, ok, err, ◌>>◌, refuse, raise, or_err, ◌>>=◌,
}
use konumlu.Deliveries.Domain.{Err, conflict, not_found, other, Delivery, validate, participant}

pub record Store : Type 0 where
  pub by_id : Table Delivery
  pub by_txn : Table ℕ
  pub fail : Option Err

-- NewMemoryStore
abbrev pub new_store : Store
new_store = record { by_id = []; by_txn = []; fail = none }

abbrev pub ready : Option Err → Store → Result Err (Unit {0})
ready ctx m = raise ctx >> raise m.fail

-- The checks of Create, before it writes.
unfoldable pub may_create : Option Err → Delivery → Store → Result Err (Unit {0})
may_create ctx d m = do
  ready ctx m
  validate d
  refuse (is_some (lookup d.id m.by_id)) conflict
  refuse (is_some (lookup d.transaction_id m.by_txn)) conflict

abbrev pub added : Delivery → Store → Store
added d m = record m {
  by_id = insert d.id d m.by_id;
  by_txn = insert d.transaction_id d.id m.by_txn;
}

-- MemoryStore.Create
unfoldable pub create : Option Err → Delivery → Store → Result Err (Unit {0}) × Store
create ctx d m = elim (may_create ctx d m) [ ok _ ↦ (ok tt, added d m) | err e ↦ (err e, m) ]

-- MemoryStore.Get
unfoldable pub get : Option Err → ℕ → Store → Result Err Delivery
get ctx id m = do ready ctx m; or_err (lookup id m.by_id) not_found

-- Go's zero Delivery, which reading a missing key of `byID` gives.
abbrev pub or_zero : Option Delivery → Delivery
or_zero (some d) = d
or_zero none = record {
  id = 0;
  transaction_id = 0;
  requester_user_id = 0;
  provider_user_id = 0;
  eligibility = [];
  status = other [];
  method = none;
  note = none;
  created_at = 0;
  updated_at = 0;
  dispatched_at = none;
  delivered_at = none;
  cancelled_at = none;
}

-- MemoryStore.GetByTransactionID
unfoldable pub get_by_transaction : Option Err → ℕ → Store → Result Err Delivery
get_by_transaction ctx txn m = do
  ready ctx m
  id ← or_err (lookup txn m.by_txn) not_found
  ok (or_zero (lookup id m.by_id))

-- The newest first, and by identifier where the times are equal.
unfoldable pub listed_before : Delivery → Delivery → Bool
listed_before a b =
    if a.created_at == b.created_at then ltb a.id b.id else ltb b.created_at a.created_at

unfoldable pub place : Delivery → List Delivery → List Delivery
unfolding listed_before
place d [] = d ∷ []
place d (x ∷ xs) = let rest = place d xs in if listed_before x d then x ∷ rest else d ∷ (x ∷ xs)

-- sort.Slice: the order is total on distinct identifiers, so every sort gives one list.
unfoldable pub sorted : List Delivery → List Delivery
unfolding place
sorted [] = []
sorted (x ∷ xs) = place x (sorted xs)

-- MemoryStore.ListForParticipant
unfoldable pub list_for_participant : Option Err → ℕ → Store → Result Err (List Delivery)
unfolding sorted
list_for_participant ctx user m = do
  ready ctx m
  ok (sorted (keep (λ d. participant d user) (values m.by_id)))

-- The checks of Update, under the update time that the caller has seen; the stored delivery.
unfoldable pub may_update : Option Err → Delivery → ℕ → Store → Result Err Delivery
may_update ctx d seen m = do
  ready ctx m
  validate d
  current ← or_err (lookup d.id m.by_id) not_found
  refuse (not (current.updated_at == seen)) conflict
  ok current

abbrev pub stored : Delivery → Store → Store
stored d m = record m { by_id = insert d.id d m.by_id }

-- MemoryStore.Update
unfoldable pub update : Option Err → Delivery → ℕ → Store → Result Err (Unit {0}) × Store
update ctx d seen m = elim (may_update ctx d seen m) [
  | ok _ ↦ (ok tt, stored d m)
  | err e ↦ (err e, m)
]
