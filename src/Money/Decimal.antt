-- ===== src/Money/Decimal.antt =====
-- What the amount pattern accepts.
use konumlu.Base.{
  ℕ, ◌≡◌, refl, ap, Bool-cases, ◌≤◌, ◌↔◌, ◌⊎◌, inl, inr, true, false, List, [], ◌∷◌, ◌++◌, arith,
  all, length, is_empty,
}
use konumlu.Money.Patterns.{
  is_digit, is_fraction, after_digit, amount_pattern, decimal_from, rat_set_string,
}

-- A decimal numeral: a whole part of one digit or more and, if there is a point, one to eight digits.
pub record IsAmount (s : List ℕ) : Type 0 where
  pub whole : List ℕ
  pub fraction : List ℕ
  pub split : s ≡ whole ++ fraction
  pub digits : all is_digit whole ≡ true
  pub nonempty : is_empty whole ≡ false
  pub tail :
      (fraction ≡ [])
      ⊎ ((ds : List ℕ) × (fraction ≡ b'.' ∷ ds)
          × (all is_digit ds ≡ true)
          × (1 ≤ length ds)
          × (length ds ≤ 8))

is_fraction-tail :
    (s : List ℕ)
    → is_fraction s ≡ true
    → (s ≡ [])
      ⊎ ((ds : List ℕ) × (s ≡ b'.' ∷ ds)
          × (all is_digit ds ≡ true)
          × (1 ≤ length ds)
          × (length ds ≤ 8))
unfolding is_fraction
is_fraction-tail [] h = inl refl
is_fraction-tail (c ∷ s) h = inr (s, ground arith, ground arith, ground arith, ground arith)

abbrev AfterDigit : List ℕ → Type 0
AfterDigit s =
    (whole : List ℕ) × (fraction : List ℕ) × (s ≡ whole ++ fraction)
    × (all is_digit whole ≡ true)
    × (is_fraction fraction ≡ true)

after_digit-split : (s : List ℕ) → after_digit s ≡ true → AfterDigit s
unfolding after_digit
after_digit-split [] h = ([], [], refl, refl, refl)
after_digit-split (c ∷ s) h = elim (Bool-cases (is_digit c)) [
  | inl d ↦
      let (w, f, e, dw, ff) = after_digit-split s (rw d at h) in
      (c ∷ w, f, ap (λ (t : List ℕ). c ∷ t) e, rw (d, dw), ff)
  | inr n ↦ ([], c ∷ s, refl, refl, rw n at h)
]

split-after_digit :
    (w f : List ℕ) → all is_digit w ≡ true → is_fraction f ≡ true → after_digit (w ++ f) ≡ true
unfolding after_digit
split-after_digit [] [] d h = refl
split-after_digit [] (c ∷ s) d h = ground arith
split-after_digit (c ∷ w) f d h = ground (arith, split-after_digit w f)

tail-is_fraction :
    (s ds : List ℕ)
    → s ≡ b'.' ∷ ds
    → all is_digit ds ≡ true
    → 1 ≤ length ds
    → length ds ≤ 8
    → is_fraction s ≡ true
unfolding is_fraction
tail-is_fraction s ds e d lo hi = rw e (ground arith)

amount_pattern-IsAmount : (s : List ℕ) → amount_pattern s ≡ true → IsAmount s
unfolding amount_pattern
amount_pattern-IsAmount [] h = cc
amount_pattern-IsAmount (c ∷ s) h =
    let (w, f, e, dw, ff) = after_digit-split s (ground arith) in
    record {
      whole = c ∷ w;
      fraction = f;
      split = ap (λ (t : List ℕ). c ∷ t) e;
      digits = ground arith;
      nonempty = refl;
      tail = is_fraction-tail f ff;
    }

IsAmount→amount_pattern :
    (w f : List ℕ)
    → all is_digit w ≡ true
    → is_empty w ≡ false
    → is_fraction f ≡ true
    → amount_pattern (w ++ f) ≡ true
unfolding amount_pattern
IsAmount→amount_pattern [] f d n h = cc
IsAmount→amount_pattern (c ∷ w) f d n h = ground (arith, split-after_digit w f)

-- The amount pattern accepts exactly the decimal numerals: one digit or more and, after a point
-- if there is one, one to eight digits.
pub amount_pattern_iff : (s : List ℕ) → (amount_pattern s ≡ true) ↔ IsAmount s
unfolding is_fraction
amount_pattern_iff s = (
  amount_pattern-IsAmount s,
  λ a. rw a.split (
      IsAmount→amount_pattern a.whole a.fraction a.digits a.nonempty (elim a.tail [
        | inl e ↦ rw e
        | inr (ds, e, d, lo, hi) ↦ tail-is_fraction a.fraction ds e d lo hi
      ])),
)

fraction-point_free : (s : List ℕ) → is_fraction s ≡ true → decimal_from s ≡ true
unfolding is_fraction decimal_from
fraction-point_free [] h = refl
fraction-point_free (c ∷ s) h = ground arith

after_digit-decimal_from : (s : List ℕ) → after_digit s ≡ true → decimal_from s ≡ true
unfolding after_digit decimal_from
after_digit-decimal_from [] h = refl
after_digit-decimal_from (c ∷ s) h = ground (arith, after_digit-decimal_from s)

-- A text that the amount pattern accepts is one that big.Rat.SetString reads, so the code's third
-- test of an amount never refuses what the first has passed.
pub amount_pattern-rat_set_string : (s : List ℕ) → amount_pattern s ≡ true → rat_set_string s ≡ true
unfolding amount_pattern rat_set_string
amount_pattern-rat_set_string [] h = cc
amount_pattern-rat_set_string (c ∷ s) h = ground (arith, after_digit-decimal_from s)
