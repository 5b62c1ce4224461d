-- ===== src/Reviews/Service/Paging.antt =====
-- The pages of ListPublicForListing, followed cursor by cursor.
pub mod Rows
use konumlu.Base.{
  any, keep-true, any-keep-values, map-take-drop, all-values, all-keep_of, all-nth, all-keep, subst,
  lookup, take_all, take-take, nth-take, length-take_more, nth_exists, length-drop, ℕ, zero, suc,
  ◌+◌, ◌-◌, ◌<◌, ◌≤◌, ◌≡◌, ◌≢◌, refl, sym, ◌∙◌, ap, Bool, true, false, not, ◌&&◌, Option, none,
  some, List, [], ◌∷◌, ◌++◌, map, arith, ◌==◌, ltb, if◌then◌else◌, is_empty, keep, keep-keep,
  length, take, drop, nth, values, Result, ok, err, Result-cases, Bool-cases, inl, inr,
}
use konumlu.Text.{trim_space}
use konumlu.Ids.{id_limit}
use konumlu.Reviews.Domain.{
  validate, Review, PublicReview, PublicListQuery, to_public_review, max_public_reviews,
}
use konumlu.Reviews.Cursor.{
  ListingCursor, after_listing_cursor, encode_public_cursor, decode_public_cursor,
  normalize_public_limit,
}
use konumlu.Reviews.Cursor.Order.{cursor_of, after_trans}
use konumlu.Reviews.Cursor.Roundtrip.{IsCodec, decode-encode}
use konumlu.Reviews.Memory
use konumlu.Reviews.Memory.{World, sorted}
use konumlu.Reviews.Memory.Sorted.{
  Descends, sorted-Descends, any-sorted, all-sorted, keep-sorted, keep-drop,
}
use konumlu.Reviews.Memory.Index.{IsIndexed}
use konumlu.Reviews.Service.{
  Setup, list_public_for_listing, page_of, read_cursor, require_published_listing,
}
use konumlu.Reviews.Service.Paging.Rows.{
  all_reviews, left_of, left_of-none, in_store, left_of-drop, left_of-Descends, left_of-sound,
  all_reviews-Descends, page_of-last, page_of-more,
}

module _ {Q : Type 0} (s : Setup Q) (listing limit : ℕ) (w : World Q) where
  -- A client that follows the cursors: the reviews of the page for a cursor, and then those of the
  -- pages behind it. There is no answer where a page is refused, or where more than the given
  -- number of pages is asked for.
  pub follow : ℕ → List ℕ → Option (List PublicReview)
  follow zero raw = none
  follow (suc n) raw =
      elim (list_public_for_listing s (record { listing_id = listing; cursor = raw; limit = limit })
        w) [
          | err _ ↦ none
          | ok page ↦
              if is_empty page.next_cursor
              then some page.reviews
              else elim (follow n page.next_cursor) [
                | none ↦ none
                | some rest ↦ some (page.reviews ++ rest)
              ]
        ]

  -- What a text stands for as a cursor.
  abbrev Reads : List ℕ → Option ListingCursor → Type 0
  Reads raw c = read_cursor s (record { listing_id = listing; cursor = raw; limit = limit }) ≡ ok c

  page_lem :
      (raw : List ℕ) (c : Option ListingCursor) (n : ℕ)
      → s.store_set ≡ true
      → (listing == 0) ≡ false
      → normalize_public_limit limit ≡ ok n
      → require_published_listing s listing ≡ ok tt
      → w.ctx ≡ none
      → w.store.fail ≡ none
      → Reads raw c
      → list_public_for_listing s (record { listing_id = listing; cursor = raw; limit = limit }) w
        ≡ page_of s listing n (take (suc n) (left_of listing w c))
  unfolding list_public_for_listing Memory.list_for_listing
  page_lem raw c n a b d e f g h = rw (b, d, h, e) (ground (arith, a, f, g, in_store listing w c))

  cursor-Reads :
      (r : Review) (t : List ℕ)
      → trim_space t ≡ t
      → is_empty t ≡ false
      → decode_public_cursor s.codec t listing
        ≡ ok (record { created_at = r.created_at; id = r.id })
      → Reads t (cursor_of r)
  unfolding read_cursor
  cursor-Reads r t p e d = rw (p, e) (rw d refl)

  abbrev query : List ℕ → PublicListQuery
  query raw = record { listing_id = listing; cursor = raw; limit = limit }

  follow-last :
      (fuel : ℕ) (raw : List ℕ) (rows : List PublicReview)
      → list_public_for_listing s (query raw) w ≡ ok (record { reviews = rows; next_cursor = [] })
      → follow (suc fuel) raw ≡ some rows
  unfolding follow
  follow-last fuel raw rows e = rw (e, follow) refl

  follow-more :
      (fuel : ℕ) (raw t : List ℕ) (rows rest : List PublicReview)
      → list_public_for_listing s (query raw) w ≡ ok (record { reviews = rows; next_cursor = t })
      → is_empty t ≡ false
      → follow fuel t ≡ some rest
      → follow (suc fuel) raw ≡ some (rows ++ rest)
  unfolding follow
  follow-more fuel raw t rows rest e f g = rw (e, follow) (rw f (rw g refl))

  module _ (codec : IsCodec s.codec) (n : ℕ) (set : s.store_set ≡ true)
      (some_listing : (listing == 0) ≡ false) (small_listing : listing < id_limit)
      (limited : normalize_public_limit limit ≡ ok n)
      (published : require_published_listing s listing ≡ ok tt) (live : w.ctx ≡ none)
      (working : w.store.fail ≡ none) (i : IsIndexed w.store) where
    limit_positive : 1 ≤ n
    unfolding normalize_public_limit
    limit_positive = ground (arith, limited)

    -- A page that is not the last one, and its cursor.
    page-more :
        (raw : List ℕ) (c : Option ListingCursor) (r : Review)
        → Reads raw c
        → ltb n (length (left_of listing w c)) ≡ true
        → nth (n - 1) (left_of listing w c) ≡ some r
        → (t : List ℕ) × (list_public_for_listing s (query raw) w
            ≡ ok (record {
              reviews = map to_public_review (take n (left_of listing w c));
              next_cursor = t;
            }))
          × (is_empty t ≡ false)
          × Reads t (cursor_of r)
    page-more raw c r reads e at =
        let fine = left_of-sound listing w c (n - 1) r i at in
        let (t, enc, plain, filled, dec) =
          decode-encode s.codec codec listing (to_public_review r) (ground arith) small_listing
            (ground arith) (ground arith) (ground arith) in
        (
          t,
          page_lem raw c n set some_listing limited published live working reads
              ∙ page_of-more s listing n (left_of listing w c) r t limit_positive e at enc,
          filled,
          cursor-Reads r t plain filled dec,
        )

    left_of-take :
        (c : Option ListingCursor) (r : Review)
        → nth (n - 1) (left_of listing w c) ≡ some r
        → left_of listing w (cursor_of r) ≡ drop n (left_of listing w c)
    left_of-take c r at =
        let same : suc (n - 1) ≡ n = omega (arith, limit_positive) in
        left_of-drop listing w c (n - 1) r (left_of-Descends listing w c i) at
        ∙ ap (λ (k : ℕ). drop k (left_of listing w c)) same

    follow-left_of :
        (fuel : ℕ) (raw : List ℕ) (c : Option ListingCursor)
        → Reads raw c
        → length (left_of listing w c) < fuel
        → follow fuel raw ≡ some (map to_public_review (left_of listing w c))
    follow-left_of zero raw c reads lt = absurd (omega arith)
    follow-left_of (suc fuel) raw c reads lt =
        elim (Bool-cases (ltb n (length (left_of listing w c)))) [
          | inr e ↦ follow-last fuel raw (map to_public_review (left_of listing w c)) (
              page_lem raw c n set some_listing limited published live working reads
              ∙ page_of-last s listing n (left_of listing w c) e)
          | inl e ↦
              let (r, at) = nth_exists (n - 1) (left_of listing w c) (ground arith) in
              let (t, page, filled, again) = page-more raw c r reads e at in
              let rest = left_of-take c r at in
              let fewer : length (left_of listing w (cursor_of r)) < fuel =
                rw rest (ground (arith, limit_positive, length-drop n (left_of listing w c))) in
              let more =
                follow-more fuel raw t (map to_public_review (take n (left_of listing w c)))
                  (map to_public_review (left_of listing w (cursor_of r))) page filled
                  (follow-left_of fuel t (cursor_of r) again fewer) in
              rw (rest, map-take-drop to_public_review n (left_of listing w c)) at more
        ]

    -- Under a valid limit, for a published listing, with a store that answers and keeps its
    -- invariant, and with encodings that read back what they wrote, a client that follows the
    -- cursors of ListPublicForListing from the first page comes to an end within one page
    -- more than the listing has reviews. It then has the public form of the rows of the
    -- listing in strictly descending order of time and identifier, so that none comes twice,
    -- and every stored review of the listing is among them.
    pub follow-all_reviews :
        (fuel : ℕ)
        → length (all_reviews listing w) < fuel
        → (follow fuel [] ≡ some (map to_public_review (all_reviews listing w)))
          × Descends (all_reviews listing w)
          × ((j : ℕ) (r : Review)
              → lookup j w.store.by_id ≡ some r
              → r.listing_id ≡ listing
              → any (λ x. x.id == j) (all_reviews listing w) ≡ true)
    unfolding read_cursor
    follow-all_reviews fuel lt = (
      follow-left_of fuel [] none (unfold trim_space in refl) (rw (left_of-none listing w) lt)
          ∙ ap (λ (xs : List Review). some (map to_public_review xs)) (left_of-none listing w),
      all_reviews-Descends listing w i,
      λ j r h e.
          rw
            (any-sorted (λ x. x.id == j)
              (keep (λ x. x.listing_id == listing) (values w.store.by_id)))
            (any-keep-values (λ x. x.id == j) (λ x. x.listing_id == listing) w.store.by_id j r h
              (ground (arith, e)) (ground (arith, i.keyed j r h))),
    )
