-- ===== src/Offers/Memory/Decision.antt =====
-- MemoryStore.AcceptExclusive against a specification that decides at once: a table of cases, and all
-- writes together.
use konumlu.Base.{
  ℕ, ◌≡◌, Bool, true, false, not, ◌&&◌, ◌||◌, none, some, [], ◌∷◌, arith, leb, ◌==◌, if◌then◌else◌,
  any, all, is_ok, Table, lookup, insert, values, Result, ok, err, refl,
}
use konumlu.Offers.Domain.{
  Err, conflict, invalid_transition, Offer, validate, is_submitted, is_accepted, accepted, rejected,
  accept, reject, transition,
}
use konumlu.Offers.Lifecycle.{moved}
use konumlu.Offers.Memory.Accept.{is_rival}
use konumlu.Offers.Memory.{
  Store, accepted_on, is_sibling, reject_siblings, accept_current, may_accept, accept_exclusive,
}

all-lookup :
    (p : Offer → Bool) (t : Table Offer) (i : ℕ) (o : Offer)
    → all p (values t) ≡ true
    → lookup i t ≡ some o
    → p o ≡ true
all-lookup p [] i o h l = absurd (cc)
all-lookup p ((j, x) ∷ t) i o h l = ground (arith, all-lookup p t i o)

all-insert :
    (p : Offer → Bool) (t : Table Offer) (i : ℕ) (o : Offer)
    → all p (values t) ≡ true
    → p o ≡ true
    → all p (values (insert i o t)) ≡ true
all-insert p [] i o h l = ground arith
all-insert p ((j, x) ∷ t) i o h l = ground (arith, all-insert p t i o)

module _ (id need now : ℕ) where
  -- An offer of the need is valid and was not created after `now`.
  abbrev pub timely : Offer → Bool
  timely o = not (o.need_id == need) || (is_ok (validate o) && leb o.created_at now)

  -- The other submitted offers of the need are rejected, and nothing else changes.
  abbrev pub settle : ℕ → Offer → Offer
  settle i o = if is_rival id need i o then moved rejected o now else o

  abbrev pub settled : Table Offer → Table Offer
  settled [] = []
  settled ((i, o) ∷ t) = (i, settle i o) ∷ settled t

  sibling-rejected :
      (i : ℕ) (o : Offer)
      → timely o ≡ true
      → is_sibling id need i o ≡ true
      → reject o now ≡ ok (moved rejected o now)
  unfolding reject transition validate
  sibling-rejected i o h s = ground arith

  siblings-settled :
      (t : Table Offer)
      → all timely (values t) ≡ true
      → reject_siblings id need now t ≡ (ok tt, settled t)
  unfolding reject_siblings
  siblings-settled [] h = refl
  siblings-settled ((i, o) ∷ t) h = ground (arith, siblings-settled t, sibling-rejected i o)

  -- What AcceptExclusive promises for an offer of the need.
  unfoldable pub decide : Offer → Store → Result Err Offer × Store
  decide o m =
      if is_accepted o.status
      then (ok o, m)
      else if any (accepted_on need) (values m.by_id)
      then (err conflict, m)
      else if not (is_submitted o.status)
      then (err invalid_transition, m)
      else (
        ok (moved accepted o now),
        record m { by_id = settled (insert id (moved accepted o now) m.by_id) },
      )

  timely-accepted :
      (o : Offer)
      → o.need_id ≡ need
      → timely o ≡ true
      → is_submitted o.status ≡ true
      → (accept o now ≡ ok (moved accepted o now)) × (timely (moved accepted o now) ≡ true)
  unfolding accept transition validate
  timely-accepted o n h s = (ground arith, ground arith)

  current-refused :
      (o : Offer) (m : Store)
      → is_submitted o.status ≡ false
      → accept_current id need now o m ≡ (err invalid_transition, m)
  unfolding accept_current accept
  current-refused o m s = ground arith

  current-settled :
      (o : Offer) (m : Store)
      → o.need_id ≡ need
      → timely o ≡ true
      → is_submitted o.status ≡ true
      → all timely (values m.by_id) ≡ true
      → accept_current id need now o m ≡ (
        ok (moved accepted o now),
        record m { by_id = settled (insert id (moved accepted o now) m.by_id) },
      )
  unfolding accept_current
  current-settled o m n h s w =
      let (a, k) = timely-accepted o n h s in
      let t =
        siblings-settled (insert id (moved accepted o now) m.by_id)
          (all-insert timely m.by_id id (moved accepted o now) w k) in
      rw (a, accept_current, t) refl

  -- Where every offer of the need is valid and was not created after the time of the
  -- acceptance, AcceptExclusive does what the specification decides at once: it returns an
  -- accepted offer unchanged, refuses when another is accepted or the offer is not submitted,
  -- and else accepts it and rejects every other submitted offer of the need.
  pub accept_exclusive-decide :
      (o : Offer) (m : Store)
      → m.fail ≡ none
      → lookup id m.by_id ≡ some o
      → o.need_id ≡ need
      → all timely (values m.by_id) ≡ true
      → accept_exclusive none id need now m ≡ decide o m
  unfolding accept_exclusive may_accept decide
  accept_exclusive-decide o m f l n w =
      ground
        (arith, current-refused o m, current-settled o m n (all-lookup timely m.by_id id o w l))
