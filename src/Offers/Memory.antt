-- ===== src/Offers/Memory.antt =====
-- memory.go: the store of offers. The mutex makes each method one step; `ctx` is what ctx.Err() answers
-- and `fail` the error that SetFail has planted. The order of the table stands for the order in which
-- Go ranges over the map, which is any.
pub mod Exclusive
pub mod Accept
pub mod Decision
pub mod Winner
use konumlu.Base.{
  ℕ, ◌≡◌, Bool, true, false, not, ◌&&◌, ◌||◌, Option, none, some, List, [], ◌∷◌, arith, ltb, ◌==◌,
  if◌then◌else◌, is_some, any, keep, Table, lookup, insert, values, Result, ok, err, ◌>>=◌, ◌>>◌,
  refuse, raise, or_err,
}
use konumlu.Offers.Domain.{
  Err, conflict, not_found, Status, Offer, validate, is_submitted, is_accepted, accept, reject,
}

pub record Store : Type 0 where
  pub by_id : Table Offer
  pub fail : Option Err

-- NewMemoryStore
abbrev pub new_store : Store
new_store = record { by_id = []; fail = none }

-- `if err := ctx.Err(); err != nil { return err }`, then the planted error
abbrev pub ready : Option Err → Store → Result Err (Unit {0})
ready ctx m = raise ctx >> raise m.fail

-- The conditions of the loops over the map.
abbrev pub submitted_on : ℕ → ℕ → Offer → Bool
submitted_on need service o = o.need_id == need && o.service_id == service && is_submitted o.status

abbrev pub accepted_on : ℕ → Offer → Bool
accepted_on need o = o.need_id == need && is_accepted o.status

-- The checks of Create, before it writes.
unfoldable pub may_create : Option Err → Offer → Store → Result Err (Unit {0})
may_create ctx o m = do
  ready ctx m
  validate o
  refuse (is_some (lookup o.id m.by_id)) conflict
  refuse (is_submitted o.status && any (submitted_on o.need_id o.service_id) (values m.by_id))
      conflict
  refuse (is_accepted o.status && any (accepted_on o.need_id) (values m.by_id)) conflict

abbrev pub stored : Offer → Store → Store
stored o m = record m { by_id = insert o.id o m.by_id }

-- MemoryStore.Create
unfoldable pub create : Option Err → Offer → Store → Result Err (Unit {0}) × Store
create ctx o m = elim (may_create ctx o m) [ ok _ ↦ (ok tt, stored o m) | err e ↦ (err e, m) ]

-- MemoryStore.Get
unfoldable pub get : Option Err → ℕ → Store → Result Err Offer
get ctx id m = do ready ctx m; or_err (lookup id m.by_id) not_found

-- The newest first, and by identifier where the times are equal.
unfoldable pub listed_before : Offer → Offer → Bool
listed_before a b =
    if a.created_at == b.created_at then ltb a.id b.id else ltb b.created_at a.created_at

unfoldable pub place : Offer → List Offer → List Offer
unfolding listed_before
place o [] = o ∷ []
place o (x ∷ xs) = let rest = place o xs in if listed_before x o then x ∷ rest else o ∷ (x ∷ xs)

-- sortOffers: the order is total on distinct identifiers, so every sort gives one list.
unfoldable pub sort_offers : List Offer → List Offer
unfolding place
sort_offers [] = []
sort_offers (x ∷ xs) = place x (sort_offers xs)

-- MemoryStore.ListByNeed and MemoryStore.ListByProvider
unfoldable pub list_by_need : Option Err → ℕ → Store → Result Err (List Offer)
unfolding sort_offers
list_by_need ctx need m = do
  ready ctx m
  ok (sort_offers (keep (λ o. o.need_id == need) (values m.by_id)))

unfoldable pub list_by_provider : Option Err → ℕ → Store → Result Err (List Offer)
unfolding sort_offers
list_by_provider ctx user m = do
  ready ctx m
  ok (sort_offers (keep (λ o. o.provider_user_id == user) (values m.by_id)))

abbrev pub first : (Offer → Bool) → List Offer → Option Offer
first p [] = none
first p (o ∷ os) = if p o then some o else first p os

-- MemoryStore.FindSubmitted
unfoldable pub find_submitted : Option Err → ℕ → ℕ → Store → Result Err Offer
find_submitted ctx need service m = do
  ready ctx m
  or_err (first (submitted_on need service) (values m.by_id)) not_found

-- The checks of Update, before it writes.
unfoldable pub may_update : Option Err → Offer → ℕ → Store → Result Err (Unit {0})
may_update ctx o seen m = do
  ready ctx m
  validate o
  current ← or_err (lookup o.id m.by_id) not_found
  refuse (not (current.updated_at == seen)) conflict

-- MemoryStore.Update, under the update time that the caller has seen
unfoldable pub update : Option Err → Offer → ℕ → Store → Result Err (Unit {0}) × Store
update ctx o seen m = elim (may_update ctx o seen m) [
  | ok _ ↦ (ok tt, stored o m)
  | err e ↦ (err e, m)
]

-- The last loop of AcceptExclusive: it stops at the first offer that cannot be rejected, and what it
-- has written stays.
abbrev pub is_sibling : ℕ → ℕ → ℕ → Offer → Bool
is_sibling id need i o = not (i == id || not (o.need_id == need) || not (is_submitted o.status))

unfoldable pub reject_siblings : ℕ → ℕ → ℕ → Table Offer → Result Err (Unit {0}) × Table Offer
reject_siblings id need now [] = (ok tt, [])
reject_siblings id need now ((i, o) ∷ m) =
    let (r, m') = reject_siblings id need now m in
    if not (is_sibling id need i o)
    then (r, (i, o) ∷ m')
    else elim (reject o now) [ err e ↦ (err e, (i, o) ∷ m) | ok x ↦ (r, (i, x) ∷ m') ]

-- The part of AcceptExclusive that writes.
unfoldable pub accept_current : ℕ → ℕ → ℕ → Offer → Store → Result Err Offer × Store
unfolding reject_siblings
accept_current id need now current m = elim (accept current now) [
  | err e ↦ (err e, m)
  | ok next ↦
      let (r, t) = reject_siblings id need now (insert id next m.by_id) in
      (r >> ok next, record m { by_id = t })
]

-- The checks of AcceptExclusive, up to the acceptance: the offer, and whether it is accepted already.
unfoldable pub may_accept : Option Err → ℕ → ℕ → Store → Result Err (Offer × Bool)
may_accept ctx id need m = do
  ready ctx m
  current ← or_err (lookup id m.by_id) not_found
  refuse (not (current.need_id == need)) not_found
  let taken = any (accepted_on need) (values m.by_id)
  refuse (not (is_accepted current.status) && taken) conflict
  ok (current, is_accepted current.status)

-- MemoryStore.AcceptExclusive
unfoldable pub accept_exclusive : Option Err → ℕ → ℕ → ℕ → Store → Result Err Offer × Store
unfolding accept_current may_accept
accept_exclusive ctx id need now m = elim (may_accept ctx id need m) [
  | err e ↦ (err e, m)
  | ok (current, true) ↦ (ok current, m)
  | ok (current, false) ↦ accept_current id need now current m
]
