-- ===== src/Needs/Memory.antt =====
-- memory.go: the store of needs. The mutex makes each method one step; `ctx` is what ctx.Err() answers and
-- `fail` the error that SetFail has planted.
pub mod Index
use konumlu.Base.{
  ℕ, Bool, true, false, not, Option, none, some, List, [], ◌∷◌, ltb, ◌==◌, if◌then◌else◌, is_some,
  keep, Table, lookup, insert, values, Result, ok, err, ◌>>=◌, ◌>>◌, refuse, raise, or_err,
}
use konumlu.Needs.Content.{Err, conflict, not_found, Floats}
use konumlu.Needs.Domain.{Need, validate}

pub record Store (F : Type 0) : Type 0 where
  pub by_id : Table (Need F)
  pub fail : Option Err

module _ {F : Type 0} where
  -- NewMemoryStore
  abbrev pub new_store : Store F
  new_store = record { by_id = []; fail = none }

  abbrev pub ready : Option Err → Store F → Result Err (Unit {0})
  ready ctx m = raise ctx >> raise m.fail

  -- MemoryStore.Get
  unfoldable pub get : Option Err → ℕ → Store F → Result Err (Need F)
  get ctx id m = do ready ctx m; or_err (lookup id m.by_id) not_found

  -- The newest first, and by identifier where the times are equal.
  unfoldable pub listed_before : Need F → Need F → Bool
  listed_before a b =
      if a.created_at == b.created_at then ltb a.id b.id else ltb b.created_at a.created_at

  unfoldable pub place : Need F → List (Need F) → List (Need F)
  unfolding listed_before
  place n [] = n ∷ []
  place n (x ∷ xs) = let rest = place n xs in if listed_before x n then x ∷ rest else n ∷ (x ∷ xs)

  -- sort.Slice: the order is total on distinct identifiers, so every sort gives one list.
  unfoldable pub sorted : List (Need F) → List (Need F)
  unfolding place
  sorted [] = []
  sorted (x ∷ xs) = place x (sorted xs)

  -- MemoryStore.ListByRequester
  unfoldable pub list_by_requester : Option Err → ℕ → Store F → Result Err (List (Need F))
  unfolding sorted
  list_by_requester ctx user m = do
    ready ctx m
    ok (sorted (keep (λ n. n.requester_user_id == user) (values m.by_id)))

  abbrev pub stored : Need F → Store F → Store F
  stored n m = record m { by_id = insert n.id n m.by_id }

module _ {F : Type 0} (fl : Floats F) where
  -- The checks of Create.
  unfoldable pub may_create : Option Err → Need F → Store F → Result Err (Unit {0})
  may_create ctx n m = do
    ready ctx m
    validate fl n
    refuse (is_some (lookup n.id m.by_id)) conflict

  -- MemoryStore.Create
  unfoldable pub create : Option Err → Need F → Store F → Result Err (Unit {0}) × Store F
  create ctx n m = elim (may_create ctx n m) [ ok _ ↦ (ok tt, stored n m) | err e ↦ (err e, m) ]

  -- The checks of Update, under the update time that the caller has seen; the stored need.
  unfoldable pub may_update : Option Err → Need F → ℕ → Store F → Result Err (Need F)
  may_update ctx n seen m = do
    ready ctx m
    validate fl n
    current ← or_err (lookup n.id m.by_id) not_found
    refuse (not (current.requester_user_id == n.requester_user_id)) conflict
    refuse (not (current.updated_at == seen)) conflict
    ok current

  -- MemoryStore.Update
  unfoldable pub update : Option Err → Need F → ℕ → Store F → Result Err (Unit {0}) × Store F
  update ctx n seen m = elim (may_update ctx n seen m) [
    | ok _ ↦ (ok tt, stored n m)
    | err e ↦ (err e, m)
  ]
