-- ===== src/Reviews/Cursor/Roundtrip.antt =====
-- The cursor of a public review, read back.
use konumlu.Base.{ℕ, ◌<◌, ◌≡◌, ◌≢◌, false, some, arith, is_empty, ok, List}
use konumlu.Text.{trim_space}
use konumlu.Ids.{id_limit, id_string}
use konumlu.Ids.Roundtrip.{id_string_filled, parse_id-id_string}
use konumlu.Reviews.Domain.{invalid_query, PublicReview}
use konumlu.Reviews.Cursor.{Codec, CursorWire, encode_public_cursor, decode_public_cursor}

-- What the code relies on: the encodings read back what they wrote, base64 has no white space and is not
-- empty, and the text of a time is not blank.
pub record IsCodec (c : Codec) : Type 0 where
  pub text : CursorWire → List ℕ
  pub marshal : (w : CursorWire) → c.marshal w ≡ some (text w)
  pub unmarshal : (w : CursorWire) → c.unmarshal (text w) ≡ some w
  pub plain : (w : CursorWire) → trim_space (text w) ≡ text w
  pub filled : (w : CursorWire) → is_empty (text w) ≡ false
  pub time : (t : ℕ) → c.parse_nano (c.format t) ≡ some t
  pub dated : (t : ℕ) → is_empty (trim_space (c.format t)) ≡ false

pub decode-encode :
    (c : Codec)
    → IsCodec c
    → (listing : ℕ) (row : PublicReview) → listing ≢ 0
    → listing < id_limit
    → row.id ≢ 0
    → row.id < id_limit
    → row.created_at ≢ 0
    → (s : List ℕ) × (encode_public_cursor c listing row ≡ ok s)
      × (trim_space s ≡ s)
      × (is_empty s ≡ false)
      × (decode_public_cursor c s listing
          ≡ ok (record { created_at = row.created_at; id = row.id }))
unfolding encode_public_cursor decode_public_cursor
decode-encode c w listing row nl ll nr lr nt =
    let wire : CursorWire = record {
      v = 1;
      l = id_string listing;
      t = c.format row.created_at;
      i = id_string row.id;
    } in
    (
      w.text wire,
      ground (arith, w.marshal wire),
      w.plain wire,
      w.filled wire,
      rw
          (
            w.unmarshal wire,
            id_string_filled listing,
            id_string_filled row.id,
            w.dated row.created_at,
            parse_id-id_string invalid_query invalid_query listing nl ll,
          )
          (rw (parse_id-id_string invalid_query invalid_query row.id nr lr)
            (ground (arith, w.time row.created_at))),
    )
