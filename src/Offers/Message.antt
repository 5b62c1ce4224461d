-- ===== src/Offers/Message.antt =====
-- domain.go: the text of an offer. A string is a list of code points, so an invalid encoding is not
-- modelled; `strings.TrimSpace` is Text.trim_space.
use konumlu.Base.{
  ℕ, ◌≡◌, Bool, true, false, not, ◌&&◌, ◌||◌, List, [], arith, ltb, leb, ◌==◌, if◌then◌else◌,
  length, is_empty, any, Result, ok, err,
}
use konumlu.Text.{trim_space, trim_space_idem}

-- unicode.IsControl: the two ranges of control characters
unfoldable pub is_control : ℕ → Bool
is_control c = ltb c 32 || (leb 127 c && ltb c 160)

-- The loop refuses NUL, DEL and every control character but line feed, carriage return and tab.
unfoldable pub bad_rune : ℕ → Bool
unfolding is_control
bad_rune r = r == 0 || r == 0x7f || (is_control r && not (r == 10) && not (r == 13) && not (r == 9))

-- MaxMessageRunes
abbrev pub max_message_runes : ℕ
max_message_runes = 2000

module _ {E : Type 0} (invalid : E) where
  -- `normalizeMessage`
  unfoldable pub normalize_message : List ℕ → Result E (List ℕ)
  unfolding bad_rune
  normalize_message raw =
      let trimmed = trim_space raw in
      if is_empty trimmed
      then ok []
      else if ltb max_message_runes (length trimmed)
      then err invalid
      else if any bad_rune trimmed
      then err invalid
      else ok trimmed

  -- A message that normalizeMessage accepts is returned trimmed, is accepted again unchanged, has
  -- at most 2000 characters, and none that the loop refuses.
  pub normalize_message_lem :
      (raw s : List ℕ)
      → normalize_message raw ≡ ok s
      → (trim_space s ≡ s)
        × (normalize_message s ≡ ok s)
        × (leb (length s) max_message_runes ≡ true)
        × (any bad_rune s ≡ false)
  unfolding normalize_message
  normalize_message_lem raw s h = ground (arith, trim_space_idem raw)
