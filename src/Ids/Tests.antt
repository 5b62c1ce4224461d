-- ===== src/Ids/Tests.antt =====
-- Identifiers at concrete values.
use konumlu.Base.{◌≡◌, refl, arith, ok}
use konumlu.Text.{codes}
use konumlu.Ids.{id_string, parse_id, hex_digits}
use konumlu.Ids.Roundtrip.{parse_id-id_string}

data Bad : Type 0 where
  invalid zero_id : Bad

id_string_text :
    id_string 0x550e8400e29b41d4a716446655440000 ≡ codes "550e8400-e29b-41d4-a716-446655440000"
unfolding id_string hex_digits
id_string_text = refl

parse_id-id_string_example :
    parse_id invalid zero_id (id_string 0x550e8400e29b41d4a716446655440000)
    ≡ ok 0x550e8400e29b41d4a716446655440000
parse_id-id_string_example =
    parse_id-id_string invalid zero_id 0x550e8400e29b41d4a716446655440000 (omega arith)
      (omega arith)
