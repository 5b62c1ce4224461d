-- ===== src/Money/Patterns.antt =====
-- The regular expressions `^[0-9]+(\.[0-9]{1,8})?$` and `^[A-Z]{3}$`, as recursive matchers.
use konumlu.Base.{ℕ, Bool, true, false, ◌&&◌, List, [], ◌∷◌, ◌==◌, leb, if◌then◌else◌, all, length}

unfoldable pub is_digit : ℕ → Bool
is_digit c = leb b'0' c && leb c b'9'

pub is_upper : ℕ → Bool
is_upper c = leb b'A' c && leb c b'Z'

-- `(\.[0-9]{1,8})?$`
unfoldable pub is_fraction : List ℕ → Bool
unfolding is_digit
is_fraction [] = true
is_fraction (c ∷ s) = c == b'.' && all is_digit s && leb 1 (length s) && leb (length s) 8

-- `[0-9]*(\.[0-9]{1,8})?$`, where a digit belongs to the whole part while it can
unfoldable pub after_digit : List ℕ → Bool
unfolding is_digit is_fraction
after_digit [] = true
after_digit (c ∷ s) = let rest = after_digit s in if is_digit c then rest else is_fraction (c ∷ s)

-- amountPattern
unfoldable pub amount_pattern : List ℕ → Bool
unfolding is_digit after_digit
amount_pattern [] = false
amount_pattern (c ∷ s) = is_digit c && after_digit s

-- currencyPattern
unfoldable pub currency_pattern : List ℕ → Bool
unfolding is_upper
currency_pattern s = all is_upper s && length s == 3

-- Go's big.Rat.SetString on an unsigned decimal: digits with at most one point, and a digit.
unfoldable pub point_free : List ℕ → Bool
unfolding is_digit
point_free s = all is_digit s

unfoldable pub decimal_from : List ℕ → Bool
unfolding is_digit point_free
decimal_from [] = true
decimal_from (c ∷ s) =
    let rest = decimal_from s in if is_digit c then rest else c == b'.' && point_free s

unfoldable pub rat_set_string : List ℕ → Bool
unfolding is_digit decimal_from
rat_set_string [] = false
rat_set_string (c ∷ s) =
    let rest = decimal_from s in
    if is_digit c then rest else c == b'.' && point_free s && leb 1 (length s)
