-- ===== src/Reviews/Cursor.antt =====
-- cursor.go: the cursor of the public reviews of a listing. The encodings of the standard library (JSON,
-- base64 and the formats of a time) are a record of functions.
pub mod Roundtrip
pub mod Order
use konumlu.Base.{
  ℕ, ◌≡◌, Bool, true, false, not, ◌&&◌, ◌||◌, Option, none, some, List, [], ltb, ◌==◌,
  if◌then◌else◌, is_empty, Result, ok, err, ◌>>=◌, ◌>>◌, refuse, or_err, map_err,
}
use konumlu.Text.{trim_space}
use konumlu.Ids.{is_zero, parse_id, id_string}
use konumlu.Reviews.Domain.{
  Err, zero_id, invalid_query, unavailable, Review, PublicReview, max_public_reviews,
}

abbrev pub cursor_version : ℕ
cursor_version = 1

-- listingCursor
pub record ListingCursor : Type 0 where
  pub created_at : ℕ
  pub id : ℕ

-- cursorWire
pub record CursorWire : Type 0 where
  pub v : ℕ
  pub l : List ℕ
  pub t : List ℕ
  pub i : List ℕ

-- What the standard library does: `marshal` is json.Marshal and then base64.RawURLEncoding, `unmarshal`
-- its inverse where the text is well formed; `format` and the two parsers are time.RFC3339Nano and
-- time.RFC3339.
pub record Codec : Type 0 where
  pub marshal : CursorWire → Option (List ℕ)
  pub unmarshal : List ℕ → Option CursorWire
  pub format : ℕ → List ℕ
  pub parse_nano : List ℕ → Option ℕ
  pub parse_seconds : List ℕ → Option ℕ

-- encodePublicCursor
unfoldable pub encode_public_cursor : Codec → ℕ → PublicReview → Result Err (List ℕ)
encode_public_cursor c listing row = do
  refuse (is_zero listing || is_zero row.id || is_zero row.created_at) invalid_query
  or_err
      (c.marshal (record {
        v = cursor_version;
        l = id_string listing;
        t = c.format row.created_at;
        i = id_string row.id;
      }))
      unavailable

-- time.Parse in the one format, and then in the other
abbrev pub parse_time : Codec → List ℕ → Option ℕ
parse_time c s = elim (c.parse_nano s) [ some t ↦ some t | none ↦ c.parse_seconds s ]

-- decodePublicCursor
unfoldable pub decode_public_cursor : Codec → List ℕ → ℕ → Result Err ListingCursor
decode_public_cursor c raw listing = do
  wire ← or_err (c.unmarshal raw) invalid_query
  refuse
      (not (wire.v == cursor_version)
        || is_empty (trim_space wire.l)
        || is_empty (trim_space wire.t)
        || is_empty (trim_space wire.i))
      invalid_query
  lid ← parse_id invalid_query invalid_query wire.l
  refuse (not (lid == listing)) invalid_query
  rid ← parse_id invalid_query invalid_query wire.i
  ts ← or_err (parse_time c wire.t) invalid_query
  ok (record { created_at = ts; id = rid })

-- afterListingCursor: bytes.Compare orders the identifiers as numbers
unfoldable pub after_listing_cursor : Review → Option ListingCursor → Bool
after_listing_cursor row none = true
after_listing_cursor row (some c) =
    if ltb row.created_at c.created_at
    then true
    else if ltb c.created_at row.created_at
    then false
    else ltb row.id c.id

-- compareListingReviews: whether the first stands before the second
unfoldable pub compare_listing_reviews : Review → Review → Bool
compare_listing_reviews a b =
    if not (a.created_at == b.created_at) then ltb b.created_at a.created_at else ltb b.id a.id

-- normalizePublicLimit, where zero stands for a limit that is not given
unfoldable pub normalize_public_limit : ℕ → Result Err ℕ
normalize_public_limit limit =
    let n = if limit == 0 then max_public_reviews else limit in
    if ltb n 1 || ltb max_public_reviews n then err invalid_query else ok n
