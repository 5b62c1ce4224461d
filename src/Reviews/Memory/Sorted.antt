-- ===== src/Reviews/Memory/Sorted.antt =====
-- The sorted reviews of a listing: in descending order, and cut by a cursor.
use konumlu.Base.{
  all-values, all-keep_of, ℕ, zero, suc, ◌≡◌, refl, Bool, true, not, ◌&&◌, ◌||◌, some, Option, List,
  [], ◌∷◌, arith, ◌==◌, if◌then◌else◌, keep, keep-all, all, any, drop, nth, all-nth, Bool-cases,
  inl, inr, Table, lookup, values, IsFunctional,
}
use konumlu.Reviews.Domain.{Review}
use konumlu.Reviews.Cursor.{ListingCursor, after_listing_cursor, compare_listing_reviews}
use konumlu.Reviews.Cursor.Order.{
  cursor_of, after-compare, after_trans, compare_total, compare_before, compare_self, after_lower,
}
use konumlu.Reviews.Memory.{place, sorted}

-- Each review stands after those before it.
abbrev pub Descends : List Review → Type 0
Descends [] = Unit {0}
Descends (x ∷ xs) = (all (compare_listing_reviews x) xs ≡ true) × Descends xs

all-place :
    (p : Review → Bool) (x : Review) (xs : List Review) → all p (place x xs) ≡ (p x && all p xs)
unfolding place
all-place p x [] = refl
all-place p x (y ∷ ys) = ground (arith, all-place p x ys)

pub all-sorted : (p : Review → Bool) (xs : List Review) → all p (sorted xs) ≡ all p xs
unfolding sorted
all-sorted p [] = refl
all-sorted p (x ∷ xs) = ground (arith, all-place p x (sorted xs), all-sorted p xs)

any-place :
    (p : Review → Bool) (x : Review) (xs : List Review) → any p (place x xs) ≡ (p x || any p xs)
unfolding place
any-place p x [] = refl
any-place p x (y ∷ ys) = ground (arith, any-place p x ys)

pub any-sorted : (p : Review → Bool) (xs : List Review) → any p (sorted xs) ≡ any p xs
unfolding sorted
any-sorted p [] = refl
any-sorted p (x ∷ xs) = ground (arith, any-place p x (sorted xs), any-sorted p xs)

all_after :
    (x y : Review) (ys : List Review)
    → compare_listing_reviews x y ≡ true
    → all (compare_listing_reviews y) ys ≡ true
    → all (compare_listing_reviews x) ys ≡ true
all_after x y [] h k = refl
all_after x y (z ∷ zs) h k = ground (
  arith,
  all_after x y zs,
  after-compare x y,
  after-compare y z,
  after-compare x z,
  after_trans y z (cursor_of x),
)

abbrev other_id : ℕ → Review → Bool
other_id i r = not (r.id == i)

place-Descends :
    (x : Review) (xs : List Review)
    → Descends xs
    → all (other_id x.id) xs ≡ true
    → Descends (place x xs)
unfolding place
place-Descends x [] d h = (refl, tt)
place-Descends x (y ∷ ys) (a, d) h = elim (Bool-cases (compare_listing_reviews y x)) [
  | inl e ↦ rw e (
    ground (arith, all-place (compare_listing_reviews y) x ys),
    place-Descends x ys d (ground arith),
  )
  | inr e ↦ rw e (ground (arith, compare_total y x, all_after x y ys), (a, d))
]

-- The cursor cuts the sorted list: what is after it stays sorted as it was.
keep-place :
    (c : Option ListingCursor) (x : Review) (xs : List Review)
    → keep (λ r. after_listing_cursor r c) (place x xs) ≡ (
        if after_listing_cursor x c
        then place x (keep (λ r. after_listing_cursor r c) xs)
        else keep (λ r. after_listing_cursor r c) xs)
unfolding place
keep-place c x [] = ground arith
keep-place c x (y ∷ ys) = ground (arith, after_lower x y c, keep-place c x ys)

pub keep-sorted :
    (c : Option ListingCursor) (xs : List Review)
    → keep (λ r. after_listing_cursor r c) (sorted xs)
      ≡ sorted (keep (λ r. after_listing_cursor r c) xs)
unfolding sorted
keep-sorted c [] = refl
keep-sorted c (x ∷ xs) = ground (arith, keep-place c x (sorted xs), keep-sorted c xs)

all_after-cursor :
    (c : Review) (xs : List Review)
    → all (λ r. after_listing_cursor r (cursor_of c)) xs ≡ all (compare_listing_reviews c) xs
all_after-cursor c [] = refl
all_after-cursor c (x ∷ xs) = ground (arith, after-compare c x, all_after-cursor c xs)

-- After the review at an index come the reviews that stand behind it.
pub keep-drop :
    (n : ℕ) (xs : List Review) (c : Review)
    → Descends xs
    → nth n xs ≡ some c
    → keep (λ r. after_listing_cursor r (cursor_of c)) xs ≡ drop (suc n) xs
keep-drop n [] c d h = refl
keep-drop zero (x ∷ xs) c (a, d) h =
    let e : x ≡ c = cc in
    ground (
      arith,
      after-compare c x,
      compare_self c,
      keep-all (λ r. after_listing_cursor r (cursor_of c)) xs,
      all_after-cursor c xs,
    )
keep-drop (suc n) (x ∷ xs) c (a, d) h = ground (
  arith,
  after-compare c x,
  all-nth (compare_listing_reviews x) n xs c a h,
  compare_before x c,
  keep-drop n xs c d h,
)

-- Sorting what a test keeps of a table, in which each review stands under its own identifier.
pub sorted-Descends :
    (q : Review → Bool) (m : Table Review)
    → ((j : ℕ) (r : Review) → lookup j m ≡ some r → r.id ≡ j)
    → IsFunctional m
    → Descends (sorted (keep q (values m)))
unfolding sorted
sorted-Descends q [] k f = tt
sorted-Descends q ((j, r) ∷ m) k (a, f) =
    let d = sorted-Descends q m (λ l x h. k l x (ground (arith, a))) f in
    let n = all-keep_of (other_id r.id) q (values m) (
      all-values (other_id r.id) m
        (λ l x h. ground (arith, k l x (ground (arith, a)), k j r (ground arith), a)) f) in
    elim (Bool-cases (q r)) [
      | inl e ↦ rw e (
          place-Descends r (sorted (keep q (values m))) d
            (rw (all-sorted (other_id r.id) (keep q (values m))) n))
      | inr e ↦ rw e d
    ]
