-- ===== src/Offers/Tests.antt =====
-- The offers at a small store: two businesses have each submitted an offer on need 3, which is open and
-- owned by user 4.
use konumlu.Base.{
  ℕ, ◌≡◌, ◌⊎◌, refl, ap, subst, true, false, none, some, List, [], ◌∷◌, lookup, Result, ok, err,
  ◌==◌, if◌then◌else◌,
}
use konumlu.Text.{codes, trim_space}
use konumlu.Money.{normalized}
use konumlu.Contracts
use konumlu.Contracts.{NeedRef, OfferRef}
use konumlu.Outbox.Writer.{NewEvent}
use konumlu.Offers.Message.{normalize_message}
use konumlu.Offers.Domain
use konumlu.Offers.Domain.{
  Err, invalid_message, invalid_transition, not_found, conflict, Offer, Content, content_normalized,
  submitted, accepted, rejected, validate, submit, is_submitted, is_accepted,
}
use konumlu.Offers.Lifecycle.{accept_op, move, moved, expected, move-expected}
use konumlu.Offers.Memory
use konumlu.Offers.Memory.{Store, new_store, stored, accept_exclusive, submitted_on}
use konumlu.Offers.Memory.Exclusive.{IsExclusive, new_store-IsExclusive, create-IsExclusive}
use konumlu.Offers.Memory.Accept.{accept_exclusive-IsExclusive}
use konumlu.Offers.Memory.Decision.{decide, accept_exclusive-decide}
use konumlu.Offers.Memory.Winner.{IsWon, accept_exclusive-IsWon}
use konumlu.Offers.Setup.{
  Setup, World, get_need, assert_need_owner, require_open_need, assert_business_owner,
  assert_eligible,
}
use konumlu.Ids.{new_id}
use konumlu.Offers.Events.{encode_transition}
use konumlu.Offers.Lookup
use konumlu.Offers.Lookup.{to_offer_ref}
use konumlu.Offers.Work.{get, list_by_need, run_maybe_tx, enqueue_transition}
use konumlu.Transactions
use konumlu.Transactions.Service.{accepted_offer}
use konumlu.Transactions.Service.Offered.{over_offers, accepted_offer_unique}
use konumlu.Offers.Service.{
  create, accept, reject, withdraw, may_accept, offer_on, commit_accept, accept_events,
  reject_events, may_submit, create_new, commit_submit,
}
use konumlu.Offers.Service.Exclusive.{Holds}
use konumlu.Offers.Service.Invariant.{requests-IsExclusive}

abbrev one : Offer
one = record {
  id = 1;
  need_id = 3;
  provider_business_id = 6;
  service_id = 7;
  provider_user_id = 5;
  message = codes "ok";
  price = none;
  status = submitted;
  created_at = 10;
  updated_at = 10;
}

abbrev two : Offer
two = record one {
  id = 2;
  provider_business_id = 8;
  service_id = 9;
  provider_user_id = 11;
  created_at = 12;
  updated_at = 12;
}

abbrev content : Content
content = record {
  need_id = 3;
  provider_business_id = 6;
  service_id = 7;
  message = codes " ok ";
  price = none;
}

one-valid : validate one ≡ ok tt
unfolding validate normalized normalize_message trim_space
one-valid = refl

abbrev empty : Store
empty = new_store

abbrev store : Store
store = record { by_id = (1, one) ∷ (2, two) ∷ []; fail = none }

abbrev need : NeedRef
need = record { id = 3; requester_user_id = 4; status = codes "open" }

abbrev enqueue : NewEvent → List NewEvent → Result Err (List NewEvent)
enqueue n q = ok (n ∷ q)

abbrev service : Setup (List NewEvent)
service = record {
  store_set = true;
  needs = some (record {
    get_need = λ id. if id == 3 then ok need else err Contracts.not_found;
    assert_owned_by = λ id user. if user == 4 then ok tt else err Contracts.forbidden;
  });
  eligibility = some (λ n b s. ok tt);
  businesses = some (λ b user. ok tt);
  outbox = some enqueue;
  has_tx = true;
}

abbrev world : World (List NewEvent)
world = record {
  store = store;
  queue = [];
  ctx = none;
  in_tx = false;
  begin_err = none;
  commit_err = none;
}

abbrev other_request : World (List NewEvent) → World (List NewEvent)
other_request w = (reject service (λ x. x) 4 3 2 14 w).1

store-decided : accept_exclusive none 1 3 15 store ≡ (
  ok (moved accepted one 15),
  record store { by_id = (1, moved accepted one 15) ∷ (2, moved rejected two 15) ∷ [] },
)
unfolding accept_exclusive Domain.accept Domain.reject Domain.transition validate normalized
    normalize_message trim_space
store-decided = refl

-- AcceptExclusive of one at a time before two's creation: the error of two's rejection comes after the acceptance.
store-partial : accept_exclusive none 1 3 11 store ≡ (
  err Domain.invalid_offer,
  record store { by_id = (1, moved accepted one 11) ∷ (2, two) ∷ [] },
)
unfolding accept_exclusive Domain.accept Domain.reject Domain.transition validate normalized
    normalize_message trim_space
store-partial = refl

move-expected_example : move accept_op one 15 ≡ expected accept_op one 15
move-expected_example = move-expected accept_op one 15 one-valid

made : (Memory.create none two (Memory.create none one new_store).1).1 ≡ store
unfolding Memory.create Memory.may_create validate normalized normalize_message trim_space
made = refl

store-IsExclusive : IsExclusive store.by_id
store-IsExclusive =
    subst (λ (m : Store). IsExclusive m.by_id) made
      (create-IsExclusive none two (Memory.create none one new_store).1
        (create-IsExclusive none one new_store new_store-IsExclusive))

accept_exclusive-decide_example : accept_exclusive none 1 3 15 store ≡ decide 1 3 15 one store
accept_exclusive-decide_example =
    accept_exclusive-decide 1 3 15 one store refl refl refl
      (unfold validate normalized normalize_message trim_space in refl)

abbrev decided : Store
decided = record store { by_id = (1, moved accepted one 15) ∷ (2, moved rejected two 15) ∷ [] }

accept_exclusive-IsWon_example :
    (o : Offer) × (lookup 1 store.by_id ≡ some o)
    × (o.need_id ≡ 3)
    × (((is_accepted o.status ≡ true) × (moved accepted one 15 ≡ o) × (decided ≡ store))
        ⊎ IsWon 1 3 15 o (moved accepted one 15) store decided)
accept_exclusive-IsWon_example =
    accept_exclusive-IsWon 1 3 15 none (moved accepted one 15) store decided store-decided

requests-IsExclusive_example :
    Holds (create service (λ x. x) (λ x. x) 4 content (some 7) 15 world).1
    × Holds (accept service (λ x. x) 4 3 1 15 world).1
    × Holds (reject service (λ x. x) 4 3 1 15 world).1
    × Holds (withdraw service (λ x. x) 4 1 15 world).1
requests-IsExclusive_example =
    requests-IsExclusive service (λ x. x) (λ x. x) 4 3 1 15 content (some 7) world (λ w h. h)
      (λ w h. h) store-IsExclusive

abbrev after_accept : World (List NewEvent)
after_accept = (accept service (λ x. x) 4 3 1 15 world).1

accept_run : accept service (λ x. x) 4 3 1 15 world ≡ (ok (moved accepted one 15), after_accept)
unfolding accept may_accept offer_on get list_by_need assert_need_owner require_open_need get_need
    run_maybe_tx commit_accept accept_events reject_events enqueue_transition encode_transition
    Memory.get Memory.list_by_need accept_exclusive Domain.accept Domain.reject Domain.transition
    validate normalized normalize_message trim_space
accept_run = refl

abbrev empty_world : World (List NewEvent)
empty_world = record world { store = new_store }

abbrev fresh : Offer
fresh = record one { id = 0x40008000000000000007; created_at = 15; updated_at = 15 }

abbrev after_create : World (List NewEvent)
after_create = (create service (λ x. x) (λ x. x) 5 content (some 7) 15 empty_world).1

create_run :
    create service (λ x. x) (λ x. x) 5 content (some 7) 15 empty_world ≡ (ok fresh, after_create)
unfolding create may_submit create_new commit_submit submit content_normalized new_id
    Memory.find_submitted Memory.create Memory.may_create assert_business_owner assert_eligible
    require_open_need get_need run_maybe_tx enqueue_transition encode_transition validate normalized
    normalize_message trim_space
create_run = refl

abbrev decided_world : World (List NewEvent)
decided_world = record world { store = decided }

decided-IsExclusive : IsExclusive decided.by_id
decided-IsExclusive =
    subst (λ (m : Store). IsExclusive m.by_id) (ap (λ x. x.1) store-decided)
      (accept_exclusive-IsExclusive none 1 3 15 store store-IsExclusive)

abbrev agreements : Transactions.Setup.Setup (List NewEvent)
agreements = record {
  store_set = true;
  offers = none;
  needs = some (λ id. ok need);
  outbox = none;
  has_tx = false;
  rfc3339 = λ t. [];
}

accepted_run :
    accepted_offer (over_offers agreements service decided_world) 4 1
    ≡ ok (to_offer_ref (moved accepted one 15), need)
unfolding accepted_offer Transactions.Setup.get_offer Transactions.Setup.get_need Lookup.get_offer
    get Memory.get
accepted_run = refl

accepted_offer_unique_example : ◌≡◌ {A = ℕ} 1 1
accepted_offer_unique_example =
    accepted_offer_unique agreements service decided_world 4 4 1 1
      (to_offer_ref (moved accepted one 15)) (to_offer_ref (moved accepted one 15)) need need
      decided-IsExclusive accepted_run accepted_run refl
