-- ===== src/Needs/Service.antt =====
-- service.go: the requests on needs. What other requests do between the read of a request and its write is
-- a function on the world. The lookup of categories answers alike throughout one request.
pub mod Invariant
use konumlu.Base.{
  ℕ, Bool, true, false, not, ◌||◌, Option, none, some, List, ◌==◌, if◌then◌else◌, Result, ok, err,
  ◌>>=◌, ◌>>◌, refuse, or_err, map_err,
}
use konumlu.Ids.{is_zero}
use konumlu.Contracts
use konumlu.Needs.Content.{
  Err, zero_id, store_required, unavailable, not_found, conflict, invalid_category, canceled,
  db_no_rows, db_conflict, db_unavailable, foreign, Floats, Content,
}
use konumlu.Needs.Domain
use konumlu.Needs.Domain.{Need, new_draft, update_content}
use konumlu.Needs.Memory
use konumlu.Needs.Memory.{Store}

-- mapStoreErr
abbrev pub map_store_err : Err → Err
map_store_err db_no_rows = not_found
map_store_err db_conflict = conflict
map_store_err db_unavailable = unavailable
map_store_err foreign = unavailable
map_store_err e = e

-- The errors of RequirePublished in validateCategory
abbrev pub map_category_err : Contracts.Err → Err
map_category_err Contracts.zero_id = zero_id
map_category_err Contracts.not_found = invalid_category
map_category_err Contracts.canceled = canceled
map_category_err _ = unavailable

-- The parts of Service that stay fixed. `store_set` says that the service and its store are not nil.
pub record Setup : Type 0 where
  pub store_set : Bool
  pub categories : Option (ℕ → Result Contracts.Err (Unit {0}))

-- What a request meets: the store, and the context's error.
pub record World (F : Type 0) : Type 0 where
  pub store : Store F
  pub ctx : Option Err

abbrev pub mapped : {A : Type 0} → Result Err A → Result Err A
mapped {A} = map_err map_store_err

-- validateCategory
unfoldable pub validate_category : Setup → Option ℕ → Result Err (Unit {0})
validate_category s none = ok tt
validate_category s (some id) = do
  refuse (is_zero id) zero_id
  require ← or_err s.categories unavailable
  map_err map_category_err (require id)

module _ {F : Type 0} (s : Setup) where
  -- `get`
  unfoldable pub get : ℕ → World F → Result Err (Need F)
  get id w = do
    refuse (not s.store_set) store_required
    refuse (is_zero id) zero_id
    mapped (Memory.get w.ctx id w.store)

  -- `GetOwned`
  unfoldable pub get_owned : ℕ → ℕ → World F → Result Err (Need F)
  get_owned user id w = do n ← get id w; refuse (not (n.requester_user_id == user)) not_found; ok n

  -- `ListOwned`
  unfoldable pub list_owned : ℕ → World F → Result Err (List (Need F))
  list_owned user w = do
    refuse (not s.store_set) store_required
    refuse (is_zero user) zero_id
    mapped (Memory.list_by_requester w.ctx user w.store)

-- The need that Create makes.
unfoldable pub prepare :
    {F : Type 0} → Floats F → Setup → ℕ → Content F → Option ℕ → ℕ → Result Err (Need F)
prepare fl s user content rand now = do
  refuse (not s.store_set) store_required
  refuse (is_zero user) zero_id
  validate_category s content.category_id
  new_draft fl rand user content now

module _ {F : Type 0} (fl : Floats F) (s : Setup) (between : World F → World F) where
  -- `Create`
  unfoldable pub create : ℕ → Content F → Option ℕ → ℕ → World F → Result Err (Need F) × World F
  create user content rand now w = elim (prepare fl s user content rand now) [
    | err e ↦ (err e, w)
    | ok n ↦
        let v = between w in
        let (r, st) = Memory.create fl v.ctx n v.store in
        (mapped r >> ok n, record v { store = st })
  ]

  -- The update of a need that was read as `current`.
  unfoldable pub save : Need F → Need F → World F → Result Err (Unit {0}) × World F
  save current next w =
      let v = between w in
      let (r, st) = Memory.update fl v.ctx next current.updated_at v.store in
      (r, record v { store = st })

  -- What a request does with the need that it has read.
  unfoldable pub change :
      (Need F → ℕ → Result Err (Need F)) → ℕ → Need F → World F → Result Err (Need F) × World F
  change fn now current w = elim (fn current now) [
    | err e ↦ (err e, w)
    | ok next ↦ let (r, w') = save current next w in (mapped r >> ok next, w')
  ]

  -- `mutateOwned`
  unfoldable pub mutate_owned :
      ℕ → ℕ → (Need F → ℕ → Result Err (Need F)) → ℕ → World F → Result Err (Need F) × World F
  mutate_owned user id fn now w =
      elim (refuse (not s.store_set) store_required >> get_owned s user id w) [
        | err e ↦ (err e, w)
        | ok current ↦ change fn now current w
      ]

  -- `Update`, `Open`, `Fulfill` and `Cancel`
  unfoldable pub update : ℕ → ℕ → Content F → ℕ → World F → Result Err (Need F) × World F
  update user id content now w = elim (validate_category s content.category_id) [
    | err e ↦ (err e, w)
    | ok _ ↦ mutate_owned user id (update_content fl content) now w
  ]

  unfoldable pub open_need : ℕ → ℕ → ℕ → World F → Result Err (Need F) × World F
  open_need user id = mutate_owned user id (Domain.open_need fl)

  unfoldable pub fulfill : ℕ → ℕ → ℕ → World F → Result Err (Need F) × World F
  fulfill user id = mutate_owned user id (Domain.fulfill fl)

  unfoldable pub cancel : ℕ → ℕ → ℕ → World F → Result Err (Need F) × World F
  cancel user id = mutate_owned user id (Domain.cancel fl)

  -- `ExpireIfDue`
  unfoldable pub expire_if_due : ℕ → ℕ → World F → Result Err (Need F) × World F
  expire_if_due id now w = elim (refuse (not s.store_set) store_required >> get s id w) [
    | err e ↦ (err e, w)
    | ok current ↦ change (Domain.expire fl) now current w
  ]
