-- ===== src/Ids.antt =====
-- The 128-bit identifiers of every domain package (type ID [16]byte, with NewID, ParseID, IsZero and
-- String; the packages hold equal copies, and the map names that of internal/transactions). An
-- identifier is the number that its bytes spell, the first byte on top, so that equality and
-- bytes.Compare are those of numbers.
mod Hex
pub mod Roundtrip
mod Tests
unfoldable pub use Hex.*
use konumlu.Base.{
  ℕ, ◌+◌, ◌*◌, ◌/◌, ◌%◌, ◌^◌, ◌≤◌, ◌<◌, ◌≡◌, ◌≢◌, Bool, not, Option, none, some, List, [], ◌∷◌,
  ◌++◌, arith, ◌==◌, if◌then◌else◌, keep, length, Result, ok, err,
}
use konumlu.Text.{trim_space}

-- `id.IsZero()`
abbrev pub is_zero : ℕ → Bool
is_zero id = id == 0

abbrev pub id_limit : ℕ
id_limit = 2 ^ 128

-- NewID, over the 16 bytes that rand.Read gives: the version and the variant bits are set.
unfoldable pub stamp_bits : ℕ → ℕ
stamp_bits r =
    r / 2 ^ 80 % 2 ^ 48 * 2 ^ 80
    + (r / 2 ^ 72 % 16 + 0x40) * 2 ^ 72
    + r / 2 ^ 64 % 2 ^ 8 * 2 ^ 64
    + (r / 2 ^ 56 % 64 + 0x80) * 2 ^ 56
    + r % 2 ^ 56

-- `none` is an error of the random source.
unfoldable pub new_id : Option ℕ → Option ℕ
unfolding stamp_bits
new_id none = none
new_id (some r) = some (stamp_bits r)

dashed : List ℕ → List ℕ → List ℕ
dashed s t = s ++ (b'-' ∷ t)

-- `id.String()`
unfoldable pub id_string : ℕ → List ℕ
unfolding dashed
id_string id = dashed (hex_digits 8 (id / 2 ^ 96)) (
    dashed (hex_digits 4 (id / 2 ^ 80)) (
      dashed (hex_digits 4 (id / 2 ^ 64)) (dashed (hex_digits 4 (id / 2 ^ 48)) (hex_digits 12 id))))

-- ParseID
unfoldable pub parse_id : {E : Type 0} → E → E → List ℕ → Result E ℕ
parse_id invalid zero_id raw =
    let s = keep (λ c. not (c == b'-')) (trim_space raw) in
    if not (length s == 32) then err invalid else elim (hex_value 0 s) [
      | none ↦ err invalid
      | some id ↦ if is_zero id then err zero_id else ok id
    ]

-- A new identifier is never zero, and fits its 16 bytes.
pub stamp_bits_bounds : (r : ℕ) → (0 < stamp_bits r) × (stamp_bits r < id_limit)
unfolding stamp_bits
stamp_bits_bounds r = omega arith
