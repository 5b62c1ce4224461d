-- ===== src/Reviews/Tests.antt =====
-- The reviews at a small store: three reviews of one listing.
use konumlu.Base.{
  ℕ, ◌+◌, ◌-◌, ◌≡◌, refl, ap, true, false, not, Option, none, some, List, [], ◌∷◌, map, arith, all,
  any, ◌==◌, Result, ok, err, lookup, is_ok, if◌then◌else◌,
}
use konumlu.Ids.{new_id, stamp_bits}
use konumlu.Text.{codes, is_space, trim_space, trim_space_plain, byte_length}
use konumlu.Contracts.{InteractionRef, ListingRef}
use konumlu.Outbox.Writer.{NewEvent}
use konumlu.Reviews.Domain.{
  Err, Review, CreateInput, Eligibility, default_policy, validate, validate_rating, normalize_body,
  within_window, to_public_review, foreign, unavailable,
}
use konumlu.Reviews.Cursor.{Codec, CursorWire, normalize_public_limit}
use konumlu.Reviews.Cursor.Roundtrip.{IsCodec}
use konumlu.Reviews.Memory.{
  Store, World, new_store, added, sorted, insert_review, may_insert, enqueued, get_by_interaction,
}
use konumlu.Reviews.Memory.Sorted.{Descends}
use konumlu.Reviews.Memory.Index.{IsIndexed, IsFair, new_store-IsIndexed, added-IsIndexed}
use konumlu.Reviews.Service.{
  Setup, require_published_listing, require_requester_interaction, already_reviewed, reviewable,
  prepare, create, eligibility, may_create,
}
use konumlu.Reviews.Service.Create.{create_review-IsIndexed}
use konumlu.Reviews.Service.Entitled.{IsEntitled, eligibility-prepare, create-ok}
use konumlu.Reviews.Events.{encode_verified_created}
use konumlu.Reviews.Service.Paging.{follow, follow-all_reviews}
use konumlu.Reviews.Service.Paging.Rows.{all_reviews}

-- A codec: a text is shifted behind every white space, and a mark ends it.
abbrev shift : ℕ
shift = 20001

abbrev framed : List ℕ → List ℕ → List ℕ
framed [] rest = 20000 ∷ rest
framed (c ∷ s) rest = (c + shift) ∷ framed s rest

abbrev unframed : List ℕ → List ℕ × List ℕ
unframed [] = ([], [])
unframed (c ∷ s) = let (a, b) = unframed s in if c == 20000 then ([], s) else ((c - shift) ∷ a, b)

unframed-framed : (s rest : List ℕ) → unframed (framed s rest) ≡ (s, rest)
unframed-framed [] rest = refl
unframed-framed (c ∷ s) rest = ground (arith, unframed-framed s rest)

framed-plain :
    (s rest : List ℕ)
    → all (λ c. not (is_space c)) rest ≡ true
    → all (λ c. not (is_space c)) (framed s rest) ≡ true
unfolding is_space
framed-plain [] rest h = ground arith
framed-plain (c ∷ s) rest h = ground (arith, framed-plain s rest h)

abbrev written : CursorWire → List ℕ
written w = (w.v + shift) ∷ framed w.l (framed w.t (framed w.i []))

abbrev read : List ℕ → Option CursorWire
read [] = none
read (v ∷ s) =
    let (l, s1) = unframed s in
    let (t, s2) = unframed s1 in
    let (i, _) = unframed s2 in some (record { v = v - shift; l = l; t = t; i = i })

abbrev time_of : List ℕ → Option ℕ
time_of [] = none
time_of (c ∷ _) = some (c - shift)

abbrev codec : Codec
codec = record {
  marshal = λ w. some (written w);
  unmarshal = read;
  format = λ t. (t + shift) ∷ [];
  parse_nano = time_of;
  parse_seconds = time_of;
}

written-plain : (w : CursorWire) → all (λ c. not (is_space c)) (written w) ≡ true
unfolding is_space
written-plain w = ground (
  arith,
  framed-plain w.l (framed w.t (framed w.i [])),
  framed-plain w.t (framed w.i []),
  framed-plain w.i [],
)

codec-IsCodec : IsCodec codec
unfolding is_space
codec-IsCodec = record {
  text = written;
  marshal = λ w. refl;
  unmarshal = λ w.
      rw
        (
          unframed-framed w.l (framed w.t (framed w.i [])),
          unframed-framed w.t (framed w.i []),
          unframed-framed w.i [],
        )
        (ap (λ v. some (record w { v = v })) (omega arith));
  plain = λ w. trim_space_plain (written w) (written-plain w);
  filled = λ w. refl;
  time = λ t. ap some (omega arith);
  dated = λ t. rw (trim_space_plain ((t + shift) ∷ []) (ground arith)) refl;
}

abbrev first : Review
first = record {
  id = 11;
  verified_interaction_id = 1;
  listing_id = 9;
  reviewer_user_id = 4;
  provider_user_id = 5;
  body = some (codes "good");
  listing_accuracy = 5;
  provider_service = 4;
  created_at = 100;
  updated_at = 100;
}

abbrev second : Review
second = record first { id = 12; verified_interaction_id = 2; created_at = 200; updated_at = 200 }

abbrev third : Review
third = record first {
  id = 13;
  verified_interaction_id = 3;
  body = none;
  created_at = 200;
  updated_at = 200;
}

abbrev store : Store
store = added third (added second (added first new_store))

store-IsIndexed : IsIndexed store
unfolding validate validate_rating normalize_body byte_length trim_space
store-IsIndexed =
    added-IsIndexed third (added second (added first new_store))
      (added-IsIndexed second (added first new_store)
        (added-IsIndexed first new_store new_store-IsIndexed (omega arith) refl refl refl)
        (omega arith) refl refl refl)
      (omega arith) refl refl refl

abbrev world : World (List NewEvent)
world = record { store = store; queue = []; ctx = none }

-- An inspection of listing 9 by user 4, verified at 300.
abbrev inspection : InteractionRef
inspection = record {
  id = 21;
  listing_id = 9;
  requester_user_id = 4;
  provider_user_id = 5;
  interaction_type = codes "listing_inspection";
  verified_at = 300;
}

abbrev listing : ListingRef
listing = record { id = 9; owner_user_id = 5; status = codes "published"; moderation_state = [] }

abbrev append_event :
    NewEvent → World (List NewEvent) → Result Err (Unit {0}) × World (List NewEvent)
append_event n w = (ok tt, record w { queue = n ∷ w.queue })

abbrev setup : Setup (List NewEvent)
setup = record {
  store_set = true;
  verified = some (λ i. ok inspection);
  listings = some (λ i. ok listing);
  outbox = append_event;
  policy = default_policy;
  codec = codec;
  rfc3339 = λ t. [];
}

follow-all_reviews_example :
    (follow setup 9 2 world 4 [] ≡ some (map to_public_review (all_reviews 9 world)))
    × Descends (all_reviews 9 world)
    × ((j : ℕ) (r : Review)
        → lookup j world.store.by_id ≡ some r
        → r.listing_id ≡ 9
        → any (λ x. x.id == j) (all_reviews 9 world) ≡ true)
unfolding require_published_listing normalize_public_limit sorted
follow-all_reviews_example =
    follow-all_reviews setup 9 2 world codec-IsCodec 2 refl refl (omega arith) refl refl refl refl
      store-IsIndexed 4 (omega arith)

abbrev nothing : World (List NewEvent) → World (List NewEvent)
nothing w = w

nothing-IsFair : IsFair nothing
nothing-IsFair = record { keeps = λ w h. h; persists = λ w i r h. h }

append_event-IsFair : (n : NewEvent) → IsFair (λ v. (append_event n v).1)
append_event-IsFair n = record { keeps = λ w h. h; persists = λ w i r h. h }

abbrev input : CreateInput
input = record {
  verified_interaction_id = 21;
  body = codes " fine ";
  listing_accuracy = 5;
  provider_service = 5;
}

create_review-IsIndexed_example :
    IsIndexed (create setup nothing 4 input (some 7) 400 401 world).1.store
create_review-IsIndexed_example =
    create_review-IsIndexed setup nothing 4 input (some 7) 400 401 world nothing-IsFair
      (λ e. append_event-IsFair (encode_verified_created setup.rfc3339 e)) store-IsIndexed

-- An outbox that is down.
abbrev down : Setup (List NewEvent)
down = record setup { outbox = λ n w. (err foreign, w) }

down_run : (create down nothing 4 input (some 7) 400 401 world).0 ≡ err unavailable
unfolding create prepare may_create require_requester_interaction already_reviewed reviewable
    within_window validate validate_rating normalize_body byte_length trim_space new_id stamp_bits
    insert_review may_insert enqueued get_by_interaction encode_verified_created
down_run = refl

abbrev eligible : Eligibility
eligible = record { eligible = true; expires_at = some 86400000000300; already_reviewed = false }

eligibility-prepare_example : is_ok (prepare setup 4 input (some 7) 400 401 world) ≡ true
unfolding eligibility require_requester_interaction already_reviewed reviewable within_window
    validate_rating normalize_body byte_length trim_space get_by_interaction
eligibility-prepare_example =
    eligibility-prepare setup 4 input (some (codes "fine")) 7 400 401 world inspection eligible refl
      refl refl refl refl (omega arith)

abbrev made : Review
made = record {
  id = 302240678275694148452359;
  verified_interaction_id = 21;
  listing_id = 9;
  reviewer_user_id = 4;
  provider_user_id = 5;
  body = some (codes "fine");
  listing_accuracy = 5;
  provider_service = 5;
  created_at = 401;
  updated_at = 401;
}

create_run : (create setup nothing 4 input (some 7) 400 401 world).0 ≡ ok made
unfolding create prepare may_create require_requester_interaction already_reviewed reviewable
    within_window validate validate_rating normalize_body byte_length trim_space new_id stamp_bits
    insert_review may_insert enqueued get_by_interaction encode_verified_created
create_run = refl

create-ok_example :
    (ref : InteractionRef) × IsEntitled setup 4 21 400 ref
    × (made.verified_interaction_id ≡ ref.id)
    × (made.reviewer_user_id ≡ 4)
    × (made.listing_id ≡ ref.listing_id)
    × (lookup ref.id (nothing world).store.by_interaction ≡ none)
    × (lookup made.id (create setup nothing 4 input (some 7) 400 401 world).1.store.by_id
        ≡ some made)
    × ((setup.outbox
          (encode_verified_created setup.rfc3339 made)
          (record (nothing world) { store = added made (nothing world).store })).0
        ≡ ok tt)
create-ok_example =
    create-ok setup nothing 4 input (some 7) 400 401 world made
      (λ e. append_event-IsFair (encode_verified_created setup.rfc3339 e)) create_run
