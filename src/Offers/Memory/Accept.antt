-- ===== src/Offers/Memory/Accept.antt =====
-- MemoryStore.AcceptExclusive: what it writes, and the invariant of the store.
use konumlu.Base.{
  ℕ, ◌≡◌, ◌⊎◌, Bool, true, false, not, ◌&&◌, Option, some, [], ◌∷◌, arith, ◌==◌, any, Table, lookup,
  insert, values, Result-cases, inl, inr, ok, refl, Bool-cases,
}
use konumlu.Offers.Domain.{
  Err, Offer, validate, is_submitted, is_accepted, accepted, rejected, accept, reject, transition,
}
use konumlu.Offers.Lifecycle.{moved}
use konumlu.Offers.Memory.{
  Store, accepted_on, is_sibling, reject_siblings, accept_current, may_accept, accept_exclusive,
}
use konumlu.Offers.Memory.Exclusive.{IsExclusive, insert-IsExclusive}

-- Another submitted offer of the need: what an acceptance has to reject.
abbrev pub is_rival : ℕ → ℕ → ℕ → Offer → Bool
is_rival id need j o = not (j == id) && o.need_id == need && is_submitted o.status

-- What the last loop may do to an offer.
abbrev Kept : ℕ → Offer → Offer → Type 0
Kept now o x = (x ≡ o) ⊎ ((x ≡ moved rejected o now) × (validate x ≡ ok tt))

reject-written :
    (o x : Offer) (now : ℕ)
    → reject o now ≡ ok x
    → (x ≡ moved rejected o now) × (validate x ≡ ok tt)
unfolding reject transition
reject-written o x now h = ground arith

module _ (id need now : ℕ) where
  -- The first entry of the table after the loop, where the loop reaches it.
  head-Kept :
      (i j : ℕ) (o : Offer) (t : Table Offer) (x : Offer)
      → (i == j) ≡ true
      → lookup j (reject_siblings id need now ((i, o) ∷ t)).1 ≡ some x
      → Kept now o x
  unfolding reject_siblings
  head-Kept i j o t x same h = elim (Bool-cases (is_sibling id need i o)) [
    | inr e ↦ inl (ground arith)
    | inl e ↦ elim (Result-cases (reject o now)) [
      | inr (y, r) ↦ inl (ground arith)
      | inl (y, r) ↦ let q : x ≡ y = ground arith in inr (rw q (reject-written o y now r))
    ]
  ]

  -- The rest of the table after the loop is that of the loop on the rest, or as it was.
  tail-kept :
      (i j : ℕ) (o : Offer) (t : Table Offer)
      → (i == j) ≡ false
      → (lookup j (reject_siblings id need now ((i, o) ∷ t)).1
          ≡ lookup j (reject_siblings id need now t).1)
        ⊎ (lookup j (reject_siblings id need now ((i, o) ∷ t)).1 ≡ lookup j t)
  unfolding reject_siblings
  tail-kept i j o t h = elim (Bool-cases (is_sibling id need i o)) [
    | inr e ↦ inl (ground arith)
    | inl e ↦ elim (Result-cases (reject o now)) [
      | inr (y, r) ↦ inr (ground arith)
      | inl (y, r) ↦ inl (ground arith)
    ]
  ]

  pub siblings-Kept :
      (t : Table Offer) (j : ℕ) (x : Offer)
      → lookup j (reject_siblings id need now t).1 ≡ some x
      → (o : Offer) × (lookup j t ≡ some o) × Kept now o x
  unfolding reject_siblings
  siblings-Kept [] j x h = absurd (cc)
  siblings-Kept ((i, o) ∷ t) j x h = elim (Bool-cases (i == j)) [
    | inl e ↦ (o, ground arith, head-Kept i j o t x e h)
    | inr ne ↦ elim (tail-kept i j o t ne) [
      | inl l ↦ let (y, at, k) = siblings-Kept t j x (cc) in (y, ground arith, k)
      | inr l ↦ (x, ground arith, inl refl)
    ]
  ]

  pub siblings-IsExclusive :
      (t : Table Offer) → IsExclusive t → IsExclusive (reject_siblings id need now t).1
  siblings-IsExclusive t w = record {
    keyed = λ i x h.
        let (o, l, k) = siblings-Kept t i x h in
        elim k [ inl e ↦ rw e (w.keyed i o l) | inr (e, v) ↦ (ground (arith, w.keyed i o l), v) ];
    one_accepted = λ i j a b h k s u.
        let (o, l, p) = siblings-Kept t i a h in
        let (q, m, r) = siblings-Kept t j b k in ground (arith, w.one_accepted i j o q l m);
    one_submitted = λ i j a b h k s u.
        let (o, l, p) = siblings-Kept t i a h in
        let (q, m, r) = siblings-Kept t j b k in ground (arith, w.one_submitted i j o q l m);
  }

-- What a passed check says.
pub checked :
    (ctx : Option Err) (id need : ℕ) (m : Store) (o : Offer) (taken : Bool)
    → may_accept ctx id need m ≡ ok (o, taken)
    → (lookup id m.by_id ≡ some o)
      × (o.need_id ≡ need)
      × (is_accepted o.status ≡ taken)
      × (taken ≡ false → any (accepted_on need) (values m.by_id) ≡ false)
unfolding may_accept
checked ctx id need m o taken h = (ground arith, ground arith, ground arith, λ e. ground arith)

pub accept-written :
    (o x : Offer) (now : ℕ)
    → accept o now ≡ ok x
    → (x ≡ moved accepted o now) × (validate x ≡ ok tt)
unfolding accept transition
accept-written o x now h = ground arith

current-IsExclusive :
    (id need now : ℕ) (o : Offer) (m : Store)
    → IsExclusive m.by_id
    → lookup id m.by_id ≡ some o
    → o.need_id ≡ need
    → any (accepted_on need) (values m.by_id) ≡ false
    → IsExclusive (accept_current id need now o m).1.by_id
unfolding accept_current
current-IsExclusive id need now o m w l n free = elim (Result-cases (accept o now)) [
  | inr (e, r) ↦ rw (r, accept_current) w
  | inl (x, r) ↦
      let (q, v) = accept-written o x now r in
      let (k, _) = w.keyed id o l in
      let i : x.id ≡ id = ground arith in
      let p : x.need_id ≡ need = ground arith in
      let t = insert-IsExclusive id x m.by_id w i v (λ h. rw p free) (λ h. absurd (ground arith)) in
      rw (r, accept_current) (siblings-IsExclusive id need now (insert id x m.by_id) t)
]

-- AcceptExclusive keeps the invariant, whatever its result.
pub accept_exclusive-IsExclusive :
    (ctx : Option Err) (id need now : ℕ) (m : Store)
    → IsExclusive m.by_id
    → IsExclusive (accept_exclusive ctx id need now m).1.by_id
unfolding accept_exclusive
accept_exclusive-IsExclusive ctx id need now m w = elim (Result-cases (may_accept ctx id need m)) [
  | inr (e, r) ↦ rw (r, accept_exclusive) w
  | inl ((o, true), r) ↦ rw (r, accept_exclusive) w
  | inl ((o, false), r) ↦
      let (l, n, _, f) = checked ctx id need m o false r in
      rw (r, accept_exclusive) (current-IsExclusive id need now o m w l n (f refl))
]
