-- ===== src/Reviews/Service/Paging/Rows.antt =====
-- The rows that ListPublicForListing shows of a listing: those behind a cursor, sorted.
use konumlu.Base.{
  keep-true, all-values, all-keep_of, all-nth, all-keep, subst, lookup, take_all, take-take,
  nth-take, length-take_more, ℕ, suc, ◌-◌, ◌≤◌, ◌≡◌, refl, sym, ◌∙◌, ap, Bool, true, false, not,
  ◌&&◌, Option, none, some, List, [], map, arith, ◌==◌, ltb, keep, keep-keep, length, take, drop,
  nth, values, ok,
}
use konumlu.Ids.{id_limit}
use konumlu.Reviews.Domain.{validate, Review, to_public_review}
use konumlu.Reviews.Cursor.{ListingCursor, after_listing_cursor, encode_public_cursor}
use konumlu.Reviews.Cursor.Order.{cursor_of, after_trans}
use konumlu.Reviews.Memory.{World, sorted}
use konumlu.Reviews.Memory.Sorted.{Descends, sorted-Descends, all-sorted, keep-sorted, keep-drop}
use konumlu.Reviews.Memory.Index.{IsIndexed}
use konumlu.Reviews.Service.{Setup, page_of}

module _ {Q : Type 0} (listing : ℕ) (w : World Q) where
  -- The reviews of the listing, the newest first.
  abbrev pub all_reviews : List Review
  all_reviews = sorted (keep (λ r. r.listing_id == listing) (values w.store.by_id))

  abbrev pub left_of : Option ListingCursor → List Review
  left_of c = keep (λ r. after_listing_cursor r c) all_reviews

  pub in_store :
      (c : Option ListingCursor)
      → sorted
          (keep (λ r. r.listing_id == listing && after_listing_cursor r c) (values w.store.by_id))
        ≡ left_of c
  in_store c = sym (
      keep-sorted c (keep (λ r. r.listing_id == listing) (values w.store.by_id))
      ∙ ap sorted (
          keep-keep (λ r. r.listing_id == listing) (λ r. after_listing_cursor r c)
            (λ r. r.listing_id == listing && after_listing_cursor r c) (λ r. refl)
            (values w.store.by_id)))

  -- What the cursor of a row on the page leaves.
  pub left_of-drop :
      (c : Option ListingCursor) (n : ℕ) (r : Review)
      → Descends (left_of c)
      → nth n (left_of c) ≡ some r
      → left_of (cursor_of r) ≡ drop (suc n) (left_of c)
  left_of-drop c n r d h =
      let admitted : after_listing_cursor r c ≡ true =
        all-nth (λ x. after_listing_cursor x c) n (left_of c) r
          (all-keep (λ x. after_listing_cursor x c) all_reviews) h in
      sym (
        keep-keep (λ x. after_listing_cursor x c) (λ x. after_listing_cursor x (cursor_of r))
          (λ x. after_listing_cursor x (cursor_of r))
          (λ x. ground (arith, after_trans r x c admitted)) all_reviews)
      ∙ keep-drop n (left_of c) r d h

  pub left_of-Descends : (c : Option ListingCursor) → IsIndexed w.store → Descends (left_of c)
  left_of-Descends c i = subst Descends (in_store c) (
      sorted-Descends (λ r. r.listing_id == listing && after_listing_cursor r c) w.store.by_id
        (λ j r h. (i.keyed j r h).0) i.functional)

  -- Every row of the listing has an identifier and a time that a cursor can hold.
  abbrev sound : Review → Bool
  sound r = not (r.id == 0) && ltb r.id id_limit && not (r.created_at == 0)

  stored-sound :
      (j : ℕ) (r : Review) → IsIndexed w.store → lookup j w.store.by_id ≡ some r → sound r ≡ true
  unfolding validate
  stored-sound j r i h = ground (arith, i.keyed j r h, i.bounded j r h)

  pub left_of-sound :
      (c : Option ListingCursor) (n : ℕ) (r : Review)
      → IsIndexed w.store
      → nth n (left_of c) ≡ some r
      → sound r ≡ true
  left_of-sound c n r i h =
      all-nth sound n (left_of c) r
        (all-keep_of sound (λ x. after_listing_cursor x c) all_reviews
          (rw (all-sorted sound (keep (λ x. x.listing_id == listing) (values w.store.by_id))) (
            all-keep_of sound (λ x. x.listing_id == listing) (values w.store.by_id)
              (all-values sound w.store.by_id (λ j x g. stored-sound j x i g) i.functional))))
        h

  pub all_reviews-Descends : IsIndexed w.store → Descends all_reviews
  all_reviews-Descends i =
      sorted-Descends (λ r. r.listing_id == listing) w.store.by_id (λ j r h. (i.keyed j r h).0)
        i.functional

  pub left_of-none : left_of none ≡ all_reviews
  unfolding after_listing_cursor
  left_of-none = keep-true all_reviews

module _ {Q : Type 0} (s : Setup Q) (listing : ℕ) where
  pub page_of-last :
      (n : ℕ) (xs : List Review)
      → ltb n (length xs) ≡ false
      → page_of s listing n (take (suc n) xs)
        ≡ ok (record { reviews = map to_public_review xs; next_cursor = [] })
  unfolding page_of
  page_of-last n xs h =
      rw (length-take_more n xs, h) (ground (arith, take_all (suc n) xs (ground arith)))

  pub page_of-more :
      (n : ℕ) (xs : List Review) (r : Review) (t : List ℕ)
      → 1 ≤ n
      → ltb n (length xs) ≡ true
      → nth (n - 1) xs ≡ some r
      → encode_public_cursor s.codec listing (to_public_review r) ≡ ok t
      → page_of s listing n (take (suc n) xs)
        ≡ ok (record { reviews = map to_public_review (take n xs); next_cursor = t })
  unfolding page_of
  page_of-more n xs r t le h f e =
      rw
        (
          length-take_more n xs,
          h,
          take-take n (suc n) xs (omega arith),
          nth-take (n - 1) n xs (omega arith),
          f,
        )
        (rw e refl)
