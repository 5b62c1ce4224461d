-- ===== src/Money/Tests.antt =====
-- Prices at concrete texts.
use konumlu.Base.{◌≡◌, refl, ◌↔◌, true, Option, some, ok}
use konumlu.Text.{codes, trim_space}
use konumlu.Money.{Price, normalized, amount_pattern, currency_pattern, rat_set_string}
use konumlu.Money.Decimal.{IsAmount, amount_pattern_iff}

data Bad : Type 0 where
  invalid_price : Bad

abbrev raw : Option Price
raw = some (record { amount = codes " 250.50 "; currency = codes "TRY" })

abbrev clean : Option Price
clean = some (record { amount = codes "250.50"; currency = codes "TRY" })

normalized_text : normalized invalid_price raw ≡ ok clean
unfolding normalized trim_space amount_pattern currency_pattern rat_set_string
normalized_text = refl

amount_pattern_iff_example : (amount_pattern (codes "12.5") ≡ true) ↔ IsAmount (codes "12.5")
amount_pattern_iff_example = amount_pattern_iff (codes "12.5")
