-- ===== src/Ids/Roundtrip.antt =====
-- ParseID after String.
use konumlu.Base.{
  is_empty, false, [], ℕ, zero, suc, ◌/◌, ◌%◌, ◌<◌, ◌≡◌, ◌≢◌, refl, Bool, true, not, ◌&&◌, List,
  ◌∷◌, ◌++◌, arith, ◌==◌, keep, keep-append, keep-all, all, all-append, ok,
}
use konumlu.Text.{trim_space, trim_space_plain, is_space}
use konumlu.Ids.Hex.{
  hex_digit, hex_digits, hex_value-hex_digits, hex_digits-append, length-hex_digits,
}
use konumlu.Ids.{dashed, id_string, parse_id, id_limit}

abbrev no_dash : ℕ → Bool
no_dash c = not (c == b'-')

hex_digit_plain :
    (d : ℕ) → d < 16 → (no_dash (hex_digit d) ≡ true) × (not (is_space (hex_digit d)) ≡ true)
unfolding hex_digit is_space
hex_digit_plain d h = ground arith

hex_digits-no_dash : (k n : ℕ) → all no_dash (hex_digits k n) ≡ true
unfolding hex_digits
hex_digits-no_dash zero n = refl
hex_digits-no_dash (suc k) n =
    rw (
      all-append no_dash,
      hex_digits-no_dash k (n / 16),
      (hex_digit_plain (n % 16) (omega arith)).0,
    )

hex_digits-no_space : (k n : ℕ) → all (λ c. not (is_space c)) (hex_digits k n) ≡ true
unfolding hex_digits
hex_digits-no_space zero n = refl
hex_digits-no_space (suc k) n = rw (
  all-append (λ c. not (is_space c)),
  hex_digits-no_space k (n / 16),
  (hex_digit_plain (n % 16) (omega arith)).1,
)

all-dashed : (p : ℕ → Bool) (s t : List ℕ) → all p (dashed s t) ≡ (all p s && (p b'-' && all p t))
unfolding dashed
all-dashed p s t = all-append p s (b'-' ∷ t)

keep-dashed :
    (s t : List ℕ) → all no_dash s ≡ true → keep no_dash (dashed s t) ≡ s ++ keep no_dash t
unfolding dashed
keep-dashed s t h = rw (keep-append no_dash, keep-all no_dash s h)

pub id_string-plain : (id : ℕ) → trim_space (id_string id) ≡ id_string id
unfolding is_space
id_string-plain id =
    trim_space_plain (id_string id)
      (unfold id_string in simp (all-dashed (λ c. not (is_space c)), hex_digits-no_space))

is_empty-dashed : (s t : List ℕ) → is_empty (dashed s t) ≡ false
unfolding dashed
is_empty-dashed [] t = refl
is_empty-dashed (c ∷ s) t = refl

-- The text of an identifier is not empty, and not blank.
pub is_empty-id_string : (id : ℕ) → is_empty (id_string id) ≡ false
is_empty-id_string id = unfold id_string in is_empty-dashed _ _

pub id_string_filled : (id : ℕ) → is_empty (trim_space (id_string id)) ≡ false
id_string_filled id = rw (id_string-plain id) (is_empty-id_string id)

keep-hex_digits : (k n : ℕ) → keep no_dash (hex_digits k n) ≡ hex_digits k n
keep-hex_digits k n = keep-all no_dash (hex_digits k n) (hex_digits-no_dash k n)

keep-dashed-hex_digits :
    (k n : ℕ) (t : List ℕ)
    → keep no_dash (dashed (hex_digits k n) t) ≡ hex_digits k n ++ keep no_dash t
keep-dashed-hex_digits k n t = keep-dashed (hex_digits k n) t (hex_digits-no_dash k n)

undashed : (id : ℕ) → keep no_dash (id_string id) ≡ hex_digits 32 id
unfolding id_string
undashed id =
    simp (keep-dashed-hex_digits, keep-hex_digits)
      (rw (
        ← hex_digits-append 4 12 id,
        ← hex_digits-append 4 16 id,
        ← hex_digits-append 4 20 id,
        ← hex_digits-append 8 24 id,
      ))

-- An identifier of 128 bits that is not zero is read back from its text: ParseID after String is
-- the identity.
pub parse_id-id_string :
    {E : Type 0} (invalid zero_id : E) (id : ℕ)
    → id ≢ 0
    → id < id_limit
    → parse_id invalid zero_id (id_string id) ≡ ok id
unfolding parse_id
parse_id-id_string invalid zero_id id nz lt =
    rw
      (
        id_string-plain id,
        undashed id,
        length-hex_digits 32 id,
        hex_value-hex_digits 32 0 id (omega arith),
      )
      (ground arith)
