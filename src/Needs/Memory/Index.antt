-- ===== src/Needs/Memory/Index.antt =====
-- The invariant of the store of needs, and how it may change.
use konumlu.Base.{
  lookup-insert_self, ℕ, ◌≡◌, ◌∙◌, ap, refl, true, false, Option, none, some, arith, Result-cases,
  Bool-cases, inl, inr, lookup, lookup-insert, ok, ◌==◌,
}
use konumlu.Needs.Content.{Err, Floats}
use konumlu.Needs.Domain.{Need, validate, terminal}
use konumlu.Needs.Memory.{Store, new_store, create, may_create, update, may_update, stored}

-- Every need stands under its own identifier and is valid.
abbrev pub IsKeyed : {F : Type 0} → Floats F → Store F → Type 0
IsKeyed {F} fl m =
    (i : ℕ) (n : Need F) → lookup i m.by_id ≡ some n → (n.id ≡ i) × (validate fl n ≡ ok tt)

-- How a store may follow another: a need stays, with its requester, and one that has ended stays as it is.
abbrev pub Follows : {F : Type 0} → Store F → Store F → Type 0
Follows {F} m m' =
    (i : ℕ) (n : Need F)
    → lookup i m.by_id ≡ some n
    → (n' : Need F) × (lookup i m'.by_id ≡ some n')
      × (n'.requester_user_id ≡ n.requester_user_id)
      × (terminal n.status ≡ true → n' ≡ n)

module _ {F : Type 0} where
  pub Follows-refl : (m : Store F) → Follows m m
  Follows-refl m i n h = (n, h, refl, λ _. refl)

  pub Follows-trans : (a b c : Store F) → Follows a b → Follows b c → Follows a c
  Follows-trans a b c f g i n h =
      let (n', h', r, t) = f i n h in
      let (n'', h'', r', t') = g i n' h' in
      (n'', h'', r' ∙ r, λ e. t' (ap (λ (x : Need F). terminal x.status) (t e) ∙ e) ∙ t e)

  -- A need may be stored over one of the same requester that has not ended.
  pub stored-Follows :
      (n c : Need F) (m : Store F)
      → lookup n.id m.by_id ≡ some c
      → n.requester_user_id ≡ c.requester_user_id
      → terminal c.status ≡ false
      → Follows m (stored n m)
  stored-Follows n c m l r t i x h = elim (Bool-cases (n.id == i)) [
    | inl e ↦ (
      n,
      rw (lookup-insert n.id i n m.by_id, e) refl,
      ground (arith, l, h, r),
      ground (arith, l, h, t),
    )
    | inr e ↦ (x, rw (lookup-insert n.id i n m.by_id, e) h, refl, λ _. refl)
  ]

module _ {F : Type 0} (fl : Floats F) where
  pub new_store-IsKeyed : IsKeyed fl new_store
  new_store-IsKeyed i n h = absurd (cc)

  stored-IsKeyed :
      (n : Need F) (m : Store F) → IsKeyed fl m → validate fl n ≡ ok tt → IsKeyed fl (stored n m)
  stored-IsKeyed n m w v i x h = ground (arith, lookup-insert n.id i n m.by_id, w i x)

  created :
      (ctx : Option Err) (n : Need F) (m : Store F)
      → may_create fl ctx n m ≡ ok tt
      → (validate fl n ≡ ok tt) × (lookup n.id m.by_id ≡ none)
  unfolding may_create
  created ctx n m h = (ground arith, ground arith)

  -- A create keeps the invariant and all that is stored.
  pub create-Follows :
      (ctx : Option Err) (n : Need F) (m : Store F)
      → IsKeyed fl m
      → IsKeyed fl (create fl ctx n m).1 × Follows m (create fl ctx n m).1
  unfolding create
  create-Follows ctx n m w = elim (Result-cases (may_create fl ctx n m)) [
    | inr (x, e) ↦ rw (e, create) (w, Follows-refl m)
    | inl (_, e) ↦
        let (v, l) = created ctx n m e in
        rw (e, create)
          (
            stored-IsKeyed n m w v,
            λ i x h. (x, ground (arith, lookup-insert n.id i n m.by_id, l, h), refl, λ _. refl),
          )
  ]

  pub updated :
      (ctx : Option Err) (n : Need F) (seen : ℕ) (m : Store F) (c : Need F)
      → may_update fl ctx n seen m ≡ ok c
      → (validate fl n ≡ ok tt)
        × (lookup n.id m.by_id ≡ some c)
        × (n.requester_user_id ≡ c.requester_user_id)
        × (c.updated_at ≡ seen)
  unfolding may_update
  updated ctx n seen m c h = (ground arith, ground arith, ground arith, ground arith)

  -- An update keeps the invariant, and what is stored, where a need that the seen time fits has not ended.
  pub update-Follows :
      (ctx : Option Err) (n : Need F) (seen : ℕ) (m : Store F)
      → IsKeyed fl m
      → ((c : Need F)
          → lookup n.id m.by_id ≡ some c
          → c.updated_at ≡ seen
          → terminal c.status ≡ false)
      → IsKeyed fl (update fl ctx n seen m).1 × Follows m (update fl ctx n seen m).1
  unfolding update
  update-Follows ctx n seen m w live = elim (Result-cases (may_update fl ctx n seen m)) [
    | inr (x, e) ↦ rw (e, update) (w, Follows-refl m)
    | inl (c, e) ↦
        let (v, l, r, t) = updated ctx n seen m c e in
        rw (e, update) (stored-IsKeyed n m w v, stored-Follows n c m l r (live c l t))
  ]

  -- An update that succeeds stores the need.
  pub update-stored :
      (ctx : Option Err) (n : Need F) (seen : ℕ) (m : Store F)
      → (update fl ctx n seen m).0 ≡ ok tt
      → lookup n.id (update fl ctx n seen m).1.by_id ≡ some n
  unfolding update
  update-stored ctx n seen m h = elim (Result-cases (may_update fl ctx n seen m)) [
    | inr (x, e) ↦ absurd (ground (arith, rw (e, update) at h))
    | inl (c, e) ↦ rw (e, update) (lookup-insert_self n.id n m.by_id)
  ]
