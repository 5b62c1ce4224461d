-- ===== src/Ids/Hex.antt =====
-- Hexadecimal text: fmt's %x of a byte slice, and hex.DecodeString.
use konumlu.Base.{
  ℕ, zero, suc, ◌+◌, ◌-◌, ◌*◌, ◌/◌, ◌%◌, ◌^◌, ◌<◌, ◌≡◌, refl, ◌&&◌, Option, none, some, List, [],
  ◌∷◌, ◌++◌, arith, ltb, leb, if◌then◌else◌, Option-cases, inl, inr, ap, ◌∙◌, length, length-append,
}
use mathlib.Core.List.{append-nil, append_assoc}
use native.Mathlib.Nat.{add-zero, add-suc, div-one, div-div-eq-div-mul, pow-suc, pow-succ'}

unfoldable pub hex_digit : ℕ → ℕ
hex_digit d = if ltb d 10 then b'0' + d else b'a' + (d - 10)

-- The k lowest hexadecimal digits, the highest first.
unfoldable pub hex_digits : ℕ → ℕ → List ℕ
unfolding hex_digit
hex_digits zero n = []
hex_digits (suc k) n = hex_digits k (n / 16) ++ (hex_digit (n % 16) ∷ [])

unfoldable pub hex_nibble : ℕ → Option ℕ
hex_nibble c =
    if leb b'0' c && leb c b'9'
    then some (c - b'0')
    else if leb b'a' c && leb c b'f'
    then some (c - b'a' + 10)
    else if leb b'A' c && leb c b'F'
    then some (c - b'A' + 10)
    else none

-- The number that the digits spell after `acc`; `none` where one is no hexadecimal digit.
unfoldable pub hex_value : ℕ → List ℕ → Option ℕ
unfolding hex_nibble
hex_value acc [] = some acc
hex_value acc (c ∷ s) = elim (hex_nibble c) [ none ↦ none | some d ↦ hex_value (acc * 16 + d) s ]

hex_nibble-hex_digit : (d : ℕ) → d < 16 → hex_nibble (hex_digit d) ≡ some d
unfolding hex_nibble hex_digit
hex_nibble-hex_digit d h = ground arith

hex_value-snoc :
    (s : List ℕ) (acc c d : ℕ) {v : ℕ}
    → hex_value acc s ≡ some v
    → hex_nibble c ≡ some d
    → hex_value acc (s ++ (c ∷ [])) ≡ some (v * 16 + d)
unfolding hex_value
hex_value-snoc [] acc c d h e = ground arith
hex_value-snoc (x ∷ s) acc c d h e = elim (Option-cases (hex_nibble x)) [
  | inl bad ↦ cc (rw (bad, hex_value) at h)
  | inr (y, good) ↦
      rw (good, hex_value) (hex_value-snoc s (acc * 16 + y) c d (rw (good, hex_value) at h) e)
]

-- Reading the k digits of a number that has no more gives the number, after the digits read before.
pub hex_value-hex_digits :
    (k acc n : ℕ) → n < 16 ^ k → hex_value acc (hex_digits k n) ≡ some (acc * 16 ^ k + n)
unfolding hex_digits hex_value
hex_value-hex_digits zero acc n h = ap some (omega arith)
hex_value-hex_digits (suc k) acc n h =
    hex_value-snoc (hex_digits k (n / 16)) acc (hex_digit (n % 16)) (n % 16)
      (hex_value-hex_digits k acc (n / 16) (omega (arith, pow-suc 16 k)))
      (hex_nibble-hex_digit (n % 16) (omega arith))
    ∙ ap some (rw (pow-suc 16 k) (omega arith))

-- The digits of a number, cut in two.
pub hex_digits-append :
    (k j n : ℕ) → hex_digits (k + j) n ≡ hex_digits k (n / 16 ^ j) ++ hex_digits j n
unfolding hex_digits
hex_digits-append k zero n = rw (add-zero, div-one, append-nil)
hex_digits-append k (suc j) n = rw (
  add-suc k j,
  hex_digits-append k j (n / 16),
  append_assoc,
  div-div-eq-div-mul n 16,
  ← pow-succ' 16 j,
)

pub length-hex_digits : (k n : ℕ) → length (hex_digits k n) ≡ k
unfolding hex_digits
length-hex_digits zero n = refl
length-hex_digits (suc k) n = rw length-append (omega (arith, length-hex_digits k (n / 16)))
