-- ===== src/Outbox/Store/Lemmas.antt =====
-- The rows that a claim picks.
use konumlu.Base.{
  take, ℕ, zero, suc, ◌≤◌, ◌≡◌, refl, ap, ◌∙◌, ◌⊎◌, Bool, true, not, ◌&&◌, List, [], ◌∷◌, map,
  arith, ◌==◌, keep, all, length, Bool-cases, inl, inr,
}
use konumlu.Outbox.Event.{Event, is_claimable}
use konumlu.Outbox.Store.{row_claimable, place, ordered, picked, mark, has_id}

pub all-place :
    (p : Event → Bool) (e : Event) (rs : List Event) → all p (place e rs) ≡ (p e && all p rs)
unfolding place
all-place p e [] = refl
all-place p e (r ∷ rs) = ground (arith, all-place p e rs)

pub all-ordered : (p : Event → Bool) (rs : List Event) → all p (ordered rs) ≡ all p rs
unfolding ordered
all-ordered p [] = refl
all-ordered p (r ∷ rs) = ground (arith, all-place p r (ordered rs), all-ordered p rs)

pub all-take :
    (p : Event → Bool) (n : ℕ) (rs : List Event) → all p rs ≡ true → all p (take n rs) ≡ true
all-take p zero rs h = refl
all-take p (suc n) [] h = refl
all-take p (suc n) (r ∷ rs) h = ground (arith, all-take p n rs)

pub length-take-le : (n : ℕ) (rs : List Event) → length (take n rs) ≤ n
length-take-le zero rs = omega arith
length-take-le (suc n) [] = omega arith
length-take-le (suc n) (r ∷ rs) = omega (arith, length-take-le n rs)

-- The Go test for claiming an event and the WHERE clause of the claim statement are one predicate.
pub is_claimable-row_claimable : (e : Event) (now : ℕ) → is_claimable e now ≡ row_claimable now e
unfolding is_claimable row_claimable
is_claimable-row_claimable e now = ground arith

pub all-picked :
    (p : Event → Bool) (now limit : ℕ) (rows : List Event)
    → all p (keep (row_claimable now) rows) ≡ true
    → all p (picked now limit rows) ≡ true
unfolding picked
all-picked p now limit rows h =
    all-take p limit (ordered (keep (row_claimable now) rows))
      (rw (all-ordered p (keep (row_claimable now) rows), h))

-- `mark` keeps the identifiers.
pub has_id-mark :
    (i now lease : ℕ) (ps : List Event) → has_id i (map (mark now lease) ps) ≡ has_id i ps
unfolding has_id mark
has_id-mark i now lease [] = refl
has_id-mark i now lease (p ∷ ps) = ground (arith, has_id-mark i now lease ps)

pub all-no_id : (i : ℕ) (ps : List Event) → all (λ e. not (e.id == i)) ps ≡ not (has_id i ps)
unfolding has_id
all-no_id i [] = refl
all-no_id i (p ∷ ps) = ground (arith, all-no_id i ps)

-- A row that stands in the list is within the limit, or the limit is used up.
pub has_id-take :
    (i n : ℕ) (rs : List Event)
    → has_id i rs ≡ true
    → (has_id i (take n rs) ≡ true) ⊎ (length (take n rs) ≡ n)
unfolding has_id
has_id-take i zero rs h = inr refl
has_id-take i (suc n) [] h = absurd (cc)
has_id-take i (suc n) (r ∷ rs) h = elim (Bool-cases (r.id == i)) [
  | inl e ↦ inl (ground (arith, e))
  | inr e ↦ elim (has_id-take i n rs (ground (arith, e))) [
    | inl l ↦ inl (ground (arith, l))
    | inr l ↦ inr (ap suc l)
  ]
]

pub has_id-ordered : (i : ℕ) (rs : List Event) → has_id i (ordered rs) ≡ has_id i rs
has_id-ordered i rs =
    ground (arith, all-no_id i rs, all-no_id i (ordered rs), all-ordered (λ e. not (e.id == i)) rs)

-- A claimable row is picked, or the claim is full.
pub picked_or_full :
    (i now limit : ℕ) (rows : List Event)
    → has_id i (keep (row_claimable now) rows) ≡ true
    → (has_id i (picked now limit rows) ≡ true) ⊎ (length (picked now limit rows) ≡ limit)
unfolding picked
picked_or_full i now limit rows h =
    let rs = keep (row_claimable now) rows in
    has_id-take i limit (ordered rs) (has_id-ordered i rs ∙ h)
