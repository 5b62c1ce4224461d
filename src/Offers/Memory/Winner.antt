-- ===== src/Offers/Memory/Winner.antt =====
-- MemoryStore.AcceptExclusive: what its success says of each offer of the store.
use konumlu.Base.{
  ℕ, ◌≡◌, ◌≢◌, ◌⊎◌, true, false, Option, some, [], ◌∷◌, arith, any, Table, lookup, insert, values,
  lookup-insert, Result-cases, inl, inr, ok, refl,
}
use konumlu.Offers.Domain.{
  Err, Offer, validate, is_accepted, accepted, rejected, accept, reject, transition,
}
use konumlu.Offers.Lifecycle.{moved}
use konumlu.Offers.Memory.{
  Store, accepted_on, is_sibling, reject_siblings, accept_current, may_accept, accept_exclusive,
}
use konumlu.Offers.Memory.Accept.{is_rival, checked, accept-written}

rejects : (o x : Offer) (now : ℕ) → reject o now ≡ ok x → x ≡ moved rejected o now
unfolding reject transition
rejects o x now h = ground arith

module _ (id need now : ℕ) where
  -- The loop leaves alone what is no sibling.
  siblings-other :
      (t : Table Offer) (j : ℕ) (o : Offer)
      → lookup j t ≡ some o
      → is_sibling id need j o ≡ false
      → lookup j (reject_siblings id need now t).1 ≡ some o
  unfolding reject_siblings
  siblings-other [] j o l h = absurd (cc)
  siblings-other ((i, x) ∷ t) j o l h = elim (Result-cases (reject x now)) [
    | inl (y, r) ↦ ground (arith, siblings-other t j o)
    | inr (e, r) ↦ ground (arith, siblings-other t j o)
  ]

  -- Where the loop ends without an error, it has rejected every sibling.
  siblings-done :
      (t : Table Offer) (j : ℕ) (o : Offer)
      → (reject_siblings id need now t).0 ≡ ok tt
      → lookup j t ≡ some o
      → is_sibling id need j o ≡ true
      → lookup j (reject_siblings id need now t).1 ≡ some (moved rejected o now)
  unfolding reject_siblings
  siblings-done [] j o f l h = absurd (cc)
  siblings-done ((i, x) ∷ t) j o f l h = elim (Result-cases (reject x now)) [
    | inl (y, r) ↦ ground (arith, siblings-done t j o, rejects x y now r)
    | inr (e, r) ↦ ground (arith, siblings-done t j o)
  ]

  parts :
      (o x : Offer) (m m' : Store)
      → accept_current id need now o m ≡ (ok x, m')
      → (accept o now ≡ ok x)
        × ((reject_siblings id need now (insert id x m.by_id)).0 ≡ ok tt)
        × (m'.by_id ≡ (reject_siblings id need now (insert id x m.by_id)).1)
  unfolding accept_current
  parts o x m m' h = elim (Result-cases (accept o now)) [
    | inr (e, r) ↦ absurd (ground arith)
    | inl (y, r) ↦ elim (Result-cases (reject_siblings id need now (insert id y m.by_id)).0) [
      | inl (_, q) ↦ (ground arith, ground arith, ground arith)
      | inr (e, q) ↦ absurd (ground arith)
    ]
  ]

  -- An acceptance from the store `m` that leaves `m'`: the offer is accepted, every other submitted
  -- offer of the need is rejected, and every other offer is unchanged.
  pub record IsWon (o x : Offer) (m m' : Store) : Type 0 where
    pub fresh : any (accepted_on need) (values m.by_id) ≡ false
    pub winner : x ≡ moved accepted o now
    pub valid : validate x ≡ ok tt
    pub held : lookup id m'.by_id ≡ some x
    pub rejected :
        (j : ℕ) (y : Offer)
        → lookup j m.by_id ≡ some y
        → is_rival id need j y ≡ true
        → lookup j m'.by_id ≡ some (moved rejected y now)
    pub unchanged :
        (j : ℕ) (y : Offer)
        → lookup j m.by_id ≡ some y
        → j ≢ id
        → is_rival id need j y ≡ false
        → lookup j m'.by_id ≡ some y

  current-IsWon :
      (o x : Offer) (m m' : Store)
      → any (accepted_on need) (values m.by_id) ≡ false
      → accept_current id need now o m ≡ (ok x, m')
      → IsWon o x m m'
  current-IsWon o x m m' free h =
      let (a, d, e) = parts o x m m' h in
      let (w, v) = accept-written o x now a in
      let at = λ (j : ℕ). lookup-insert id j x m.by_id in
      record {
        fresh = free;
        winner = w;
        valid = v;
        held =
            rw e (siblings-other (insert id x m.by_id) id x (ground (arith, at id)) (ground arith));
        rejected = λ j y l s.
            rw e (siblings-done (insert id x m.by_id) j y d (ground (arith, at j)) (ground arith));
        unchanged = λ j y l n s.
            rw e (siblings-other (insert id x m.by_id) j y (ground (arith, at j)) (ground arith));
      }

  -- Where AcceptExclusive succeeds, the offer is in the store and of the need, and either it
  -- was accepted before and nothing has changed, or no offer of the need was accepted, it is
  -- valid and accepted now, every other submitted offer of the need is rejected, and every
  -- other offer is unchanged.
  pub accept_exclusive-IsWon :
      (ctx : Option Err) (x : Offer) (m m' : Store)
      → accept_exclusive ctx id need now m ≡ (ok x, m')
      → (o : Offer) × (lookup id m.by_id ≡ some o)
        × (o.need_id ≡ need)
        × (((is_accepted o.status ≡ true) × (x ≡ o) × (m' ≡ m)) ⊎ IsWon o x m m')
  unfolding accept_exclusive
  accept_exclusive-IsWon ctx x m m' h = elim (Result-cases (may_accept ctx id need m)) [
    | inr (e, r) ↦ absurd (ground arith)
    | inl ((o, true), r) ↦
        let (l, n, a, _) = checked ctx id need m o true r in
        (o, l, n, inl (a, ground arith, ground arith))
    | inl ((o, false), r) ↦
        let (l, n, _, f) = checked ctx id need m o false r in
        (o, l, n, inr (current-IsWon o x m m' (f refl) (ground arith)))
  ]
