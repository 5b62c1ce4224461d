-- ===== src/Reviews/Cursor/Order.antt =====
-- The order of the public reviews and the cursor: the reviews after a cursor, sorted, are what is left of
-- the sorted list.
use konumlu.Base.{◌≡◌, refl, true, false, some, none, Option, arith, ◌==◌}
use konumlu.Reviews.Domain.{Review}
use konumlu.Reviews.Cursor.{ListingCursor, after_listing_cursor, compare_listing_reviews}

abbrev pub cursor_of : Review → Option ListingCursor
cursor_of r = some (record { created_at = r.created_at; id = r.id })

-- A review stands before the cursor of another exactly where it is sorted before it.
pub after-compare :
    (a b : Review) → after_listing_cursor b (cursor_of a) ≡ compare_listing_reviews a b
unfolding after_listing_cursor compare_listing_reviews
after-compare a b = ground arith

pub after_trans :
    (a b : Review) (c : Option ListingCursor)
    → after_listing_cursor a c ≡ true
    → after_listing_cursor b (cursor_of a) ≡ true
    → after_listing_cursor b c ≡ true
unfolding after_listing_cursor
after_trans a b none h k = refl
after_trans a b (some c) h k = ground arith

-- Of two reviews with different identifiers the one or the other is first.
pub compare_total :
    (a b : Review)
    → compare_listing_reviews a b ≡ false
    → (a.id == b.id) ≡ false
    → compare_listing_reviews b a ≡ true
unfolding compare_listing_reviews
compare_total a b h k = ground arith

pub compare_before :
    (a b : Review) → compare_listing_reviews a b ≡ true → compare_listing_reviews b a ≡ false
unfolding compare_listing_reviews
compare_before a b h = ground arith

pub compare_self : (a : Review) → compare_listing_reviews a a ≡ false
unfolding compare_listing_reviews
compare_self a = ground arith

-- What does not stand before a review that a cursor admits is admitted too.
pub after_lower :
    (a b : Review) (c : Option ListingCursor)
    → compare_listing_reviews b a ≡ false
    → after_listing_cursor a c ≡ true
    → after_listing_cursor b c ≡ true
unfolding after_listing_cursor compare_listing_reviews
after_lower a b none h k = refl
after_lower a b (some c) h k = ground arith
