-- ===== src/Payments/Memory/References.antt =====
-- MemoryStore.Update and the index of payments by provider reference.
use konumlu.Base.{
  ℕ, ◌≡◌, ◌≢◌, false, none, some, List, [], ◌∷◌, arith, lookup, ok, err, refl, Bool-cases, inl, inr,
}
use konumlu.Text.{text_eq, text_eq→eq}
use konumlu.Payments.Domain.{conflict, Payment, validate}
use konumlu.Payments.Memory.{
  Store, Texts, find_text, delete_text, create, may_create, may_update, update,
}

find-delete : (r : List ℕ) (t : Texts) → find_text r (delete_text r t) ≡ none
find-delete r [] = refl
find-delete r ((k, i) ∷ t) = ground (arith, find-delete r t)

find-delete_other :
    (r s : List ℕ) (t : Texts) → text_eq r s ≡ false → find_text s (delete_text r t) ≡ find_text s t
find-delete_other r s [] h = refl
find-delete_other r s ((k, i) ∷ t) h = elim (Bool-cases (text_eq k r)) [
  | inl e ↦
      let q : k ≡ r = text_eq→eq k r e in ground (arith, find-delete_other r s t, rw (← q) at h)
  | inr e ↦ ground (arith, find-delete_other r s t)
]

-- The store that such an update leaves.
abbrev without : List ℕ → Store → Store
without held m = record m { by_provider = delete_text held m.by_provider }

update-lost :
    (p c : Payment) (seen owner : ℕ) (held wanted : List ℕ) (m : Store)
    → may_update none p seen m ≡ ok c
    → c.provider_reference ≡ some held
    → p.provider_reference ≡ some wanted
    → text_eq held wanted ≡ false
    → find_text wanted m.by_provider ≡ some owner
    → owner ≢ p.id
    → update none p seen m ≡ (err conflict, without held m)
unfolding update
update-lost p c seen owner held wanted m u ch pw ne f o =
    ground (arith, find-delete_other held wanted m.by_provider ne)

not_failing :
    (p c : Payment) (seen : ℕ) (m : Store) → may_update none p seen m ≡ ok c → m.fail ≡ none
unfolding may_update
not_failing p c seen m h = ground arith

create-freed :
    (x : Payment) (held : List ℕ) (m : Store)
    → m.fail ≡ none
    → validate x ≡ ok tt
    → x.provider_reference ≡ some held
    → lookup x.id m.by_id ≡ none
    → lookup x.transaction_id m.by_txn ≡ none
    → (create none x (without held m)).0 ≡ ok tt
unfolding create may_create
create-freed x held m nf v xh ni nt = ground (arith, find-delete held m.by_provider)

-- An update of a payment to a provider reference that another payment holds is a conflict that
-- leaves every payment as it was, but the index loses the reference that the stored payment still
-- has: a valid new payment under a free identifier and a transaction without a payment is then
-- stored under that same reference.
pub update-conflict_frees :
    (p c x : Payment) (seen owner : ℕ) (held wanted : List ℕ) (m : Store)
    → may_update none p seen m ≡ ok c
    → c.provider_reference ≡ some held
    → p.provider_reference ≡ some wanted
    → text_eq held wanted ≡ false
    → find_text wanted m.by_provider ≡ some owner
    → owner ≢ p.id
    → validate x ≡ ok tt
    → x.provider_reference ≡ some held
    → lookup x.id m.by_id ≡ none
    → lookup x.transaction_id m.by_txn ≡ none
    → let m' = (update none p seen m).1 in
      ((update none p seen m).0 ≡ err conflict)
      × (m'.by_id ≡ m.by_id)
      × (m'.by_txn ≡ m.by_txn)
      × ((create none x m').0 ≡ ok tt)
update-conflict_frees p c x seen owner held wanted m u ch pw ne f o v xh ni nt =
    rw (update-lost p c seen owner held wanted m u ch pw ne f o)
      (refl, refl, refl, create-freed x held m (not_failing p c seen m u) v xh ni nt)
