-- ===== src/Disputes/Memory.antt =====
-- memory.go: the store of disputes and their evidence. The mutex makes each method one step; `ctx` is what
-- ctx.Err() answers and `fail` the error that SetFail has planted.
pub mod Index
use konumlu.Base.{
  ℕ, Bool, not, ◌&&◌, Option, none, some, List, [], ◌∷◌, ◌++◌, ltb, ◌==◌, if◌then◌else◌, is_some,
  is_none, any, keep, Table, lookup, insert, values, Result, ok, err, ◌>>◌, refuse, raise, or_err,
  ◌>>=◌,
}
use konumlu.Disputes.Domain.{
  Err, conflict, not_found, active, is_concluded, Dispute, validate, participant,
}
use konumlu.Disputes.Evidence
use konumlu.Disputes.Evidence.{Evidence}

pub record Store : Type 0 where
  pub by_id : Table Dispute
  pub evidence : Table (List Evidence)
  pub fail : Option Err

-- NewMemoryStore
abbrev pub new_store : Store
new_store = record { by_id = []; evidence = []; fail = none }

abbrev pub ready : Option Err → Store → Result Err (Unit {0})
ready ctx m = raise ctx >> raise m.fail

-- An active dispute of a transaction.
abbrev pub active_of : ℕ → Dispute → Bool
active_of txn d = d.transaction_id == txn && active d.status

-- The checks of Create, before it writes.
unfoldable pub may_create : Option Err → Dispute → Store → Result Err (Unit {0})
may_create ctx d m = do
  ready ctx m
  validate d
  refuse (is_some (lookup d.id m.by_id)) conflict
  refuse (active d.status && any (active_of d.transaction_id) (values m.by_id)) conflict

abbrev pub stored : Dispute → Store → Store
stored d m = record m { by_id = insert d.id d m.by_id }

-- A concluded dispute of a transaction.
abbrev pub concluded_of : ℕ → Dispute → Bool
concluded_of txn d = d.transaction_id == txn && is_concluded d.status

-- MemoryStore.Create
unfoldable pub create : Option Err → Dispute → Store → Result Err (Unit {0}) × Store
create ctx d m = elim (may_create ctx d m) [ ok _ ↦ (ok tt, stored d m) | err e ↦ (err e, m) ]

-- MemoryStore.Get
unfoldable pub get : Option Err → ℕ → Store → Result Err Dispute
get ctx id m = do ready ctx m; or_err (lookup id m.by_id) not_found

abbrev pub first : List Dispute → Option Dispute
first [] = none
first (d ∷ _) = some d

-- MemoryStore.GetActiveByTransactionID: the source answers one of the active disputes, of which the
-- invariant allows one.
unfoldable pub get_active : Option Err → ℕ → Store → Result Err Dispute
get_active ctx txn m = do
  ready ctx m
  or_err (first (keep (active_of txn) (values m.by_id))) not_found

-- MemoryStore.ListConcludedByTransactionID, of which the caller reads only whether it is empty
unfoldable pub list_concluded : Option Err → ℕ → Store → Result Err (List Dispute)
list_concluded ctx txn m = do ready ctx m; ok (keep (concluded_of txn) (values m.by_id))

-- The newest first, and by identifier where the times are equal.
unfoldable pub listed_before : Dispute → Dispute → Bool
listed_before a b =
    if a.created_at == b.created_at then ltb a.id b.id else ltb b.created_at a.created_at

unfoldable pub place : Dispute → List Dispute → List Dispute
unfolding listed_before
place d [] = d ∷ []
place d (x ∷ xs) = let rest = place d xs in if listed_before x d then x ∷ rest else d ∷ (x ∷ xs)

-- sort.Slice: the order is total on distinct identifiers, so every sort gives one list.
unfoldable pub sorted : List Dispute → List Dispute
unfolding place
sorted [] = []
sorted (x ∷ xs) = place x (sorted xs)

-- MemoryStore.ListForParticipant
unfoldable pub list_for_participant : Option Err → ℕ → Store → Result Err (List Dispute)
unfolding sorted
list_for_participant ctx user m = do
  ready ctx m
  ok (sorted (keep (λ d. participant d user) (values m.by_id)))

-- The checks of Update, under the update time that the caller has seen; the stored dispute.
unfoldable pub may_update : Option Err → Dispute → ℕ → Store → Result Err Dispute
may_update ctx d seen m = do
  ready ctx m
  validate d
  current ← or_err (lookup d.id m.by_id) not_found
  refuse (not (current.updated_at == seen)) conflict
  ok current

-- MemoryStore.Update
unfoldable pub update : Option Err → Dispute → ℕ → Store → Result Err (Unit {0}) × Store
update ctx d seen m = elim (may_update ctx d seen m) [
  | ok _ ↦ (ok tt, stored d m)
  | err e ↦ (err e, m)
]

-- The evidence of a dispute, where a missing key reads as none.
abbrev pub or_none : Option (List Evidence) → List Evidence
or_none (some es) = es
or_none none = []

abbrev pub evidence_of : ℕ → Store → List Evidence
evidence_of id m = or_none (lookup id m.evidence)

-- The checks of AppendEvidence, before it writes.
unfoldable pub may_append : Option Err → Evidence → Store → Result Err (Unit {0})
may_append ctx e m = do
  ready ctx m
  Evidence.validate e
  refuse (is_none (lookup e.dispute_id m.by_id)) not_found
  refuse (any (λ x. x.id == e.id) (evidence_of e.dispute_id m)) conflict

abbrev pub appended : Evidence → Store → Store
appended e m = record m {
  evidence = insert e.dispute_id (evidence_of e.dispute_id m ++ (e ∷ [])) m.evidence;
}

-- MemoryStore.AppendEvidence
unfoldable pub append_evidence : Option Err → Evidence → Store → Result Err (Unit {0}) × Store
append_evidence ctx e m = elim (may_append ctx e m) [
  | ok _ ↦ (ok tt, appended e m)
  | err x ↦ (err x, m)
]

-- The oldest first, and by identifier where the times are equal.
unfoldable pub filed_before : Evidence → Evidence → Bool
filed_before a b =
    if a.created_at == b.created_at then ltb a.id b.id else ltb a.created_at b.created_at

unfoldable pub file : Evidence → List Evidence → List Evidence
unfolding filed_before
file e [] = e ∷ []
file e (x ∷ xs) = let rest = file e xs in if filed_before x e then x ∷ rest else e ∷ (x ∷ xs)

unfoldable pub filed : List Evidence → List Evidence
unfolding file
filed [] = []
filed (x ∷ xs) = file x (filed xs)

-- MemoryStore.ListEvidence
unfoldable pub list_evidence : Option Err → ℕ → Store → Result Err (List Evidence)
unfolding filed
list_evidence ctx id m = do ready ctx m; ok (filed (evidence_of id m))
