-- ===== src/Needs/Service/Invariant.antt =====
-- The requests of service.go and fulfillment.go, and the invariant of the store of needs.
use konumlu.Base.{
  ℕ, ◌≡◌, ◌∙◌, false, not, Option, some, arith, lookup, ok, Result, Result-cases, inl, inr, refuse,
  ◌>>◌,
}
use konumlu.Needs.Content.{Err, store_required, Floats, Content}
use konumlu.Needs.Domain
use konumlu.Needs.Domain.{Need, validate, terminal, update_content, transition, is_open}
use konumlu.Needs.Memory
use konumlu.Needs.Memory.{Store}
use konumlu.Needs.Memory.Index.{
  IsKeyed, Follows, Follows-refl, Follows-trans, create-Follows, update-Follows,
}
use konumlu.Needs.Service.{
  Setup, World, validate_category, get, get_owned, prepare, create, save, change, mutate_owned,
  update, expire_if_due,
}

-- What other requests may do to the world: they keep the invariant and what is stored, and they give a
-- need that they change another update time.
pub record IsFair {F : Type 0} (fl : Floats F) (f : World F → World F) : Type 0 where
  pub keeps : (w : World F) → IsKeyed fl w.store → IsKeyed fl (f w).store
  pub follows : (w : World F) → Follows w.store (f w).store
  pub stamps :
      (w : World F) (i : ℕ) (n n' : Need F)
      → lookup i w.store.by_id ≡ some n
      → lookup i (f w).store.by_id ≡ some n'
      → n'.updated_at ≡ n.updated_at
      → n' ≡ n

-- A change of status or content leaves the identifier and starts at a need that has not ended.
pub record IsStep {F : Type 0} (fn : Need F → ℕ → Result Err (Need F)) : Type 0 where
  pub same : (n m : Need F) (now : ℕ) → fn n now ≡ ok m → m.id ≡ n.id
  pub live : (n m : Need F) (now : ℕ) → fn n now ≡ ok m → terminal n.status ≡ false

module _ {F : Type 0} (fl : Floats F) where
  transition-same :
      (st : Domain.Status) (n m : Need F) (now : ℕ) → transition fl st n now ≡ ok m → m.id ≡ n.id
  unfolding transition
  transition-same st n m now h = ground arith

  pub open_need-IsStep : IsStep (Domain.open_need fl)
  unfolding Domain.open_need
  open_need-IsStep = record {
    same = λ n m now h. ground (arith, transition-same Domain.opened n m now);
    live = λ n m now h. ground arith;
  }

  pub fulfill-IsStep : IsStep (Domain.fulfill fl)
  unfolding Domain.fulfill
  fulfill-IsStep = record {
    same = λ n m now h. ground (arith, transition-same Domain.fulfilled n m now);
    live = λ n m now h. ground arith;
  }

  pub cancel-IsStep : IsStep (Domain.cancel fl)
  unfolding Domain.cancel
  cancel-IsStep = record {
    same = λ n m now h. ground (arith, transition-same Domain.cancelled n m now);
    live = λ n m now h. ground arith;
  }

  expire-IsStep : IsStep (Domain.expire fl)
  unfolding Domain.expire
  expire-IsStep = record {
    same = λ n m now h. ground (arith, transition-same Domain.expired n m now);
    live = λ n m now h. ground arith;
  }

  update_content-IsStep : (c : Content F) → IsStep (update_content fl c)
  unfolding update_content
  update_content-IsStep c = record {
    same = λ n m now h. ground arith;
    live = λ n m now h. ground arith;
  }

  -- A store that is kept and followed.
  abbrev pub Kept : World F → World F → Type 0
  Kept w w' = IsKeyed fl w'.store × Follows w.store w'.store

  module _ (s : Setup) (between : World F → World F) (fair : IsFair fl between) where
    pub save-Kept :
        (current next : Need F) (i : ℕ) (w : World F)
        → IsKeyed fl w.store
        → lookup i w.store.by_id ≡ some current
        → next.id ≡ i
        → terminal current.status ≡ false
        → Kept w (save fl s between current next w).1
    unfolding save
    save-Kept current next i w k l same live =
        let v = between w in
        let (k', f) =
          update-Follows fl v.ctx next current.updated_at v.store (fair.keeps w k)
            (λ c h t. ground (arith, fair.stamps w i current c l (rw same at h) t, live)) in
        (
          k',
          Follows-trans w.store v.store (Memory.update fl v.ctx next current.updated_at v.store).1
              (fair.follows w) f,
        )

    change-Kept :
        (fn : Need F → ℕ → Result Err (Need F)) (now i : ℕ) (current : Need F) (w : World F)
        → IsStep fn
        → IsKeyed fl w.store
        → lookup i w.store.by_id ≡ some current
        → Kept w (change fl s between fn now current w).1
    unfolding change
    change-Kept fn now i current w step k l = elim (Result-cases (fn current now)) [
      | inr (x, e) ↦ rw (e, change) (k, Follows-refl w.store)
      | inl (next, e) ↦
          rw (e, change)
            (save-Kept current next i w k l (step.same current next now e ∙ (k i current l).0)
              (step.live current next now e))
    ]

    pub get-lookup :
        (i : ℕ) (w : World F) (n : Need F) → get s i w ≡ ok n → lookup i w.store.by_id ≡ some n
    unfolding get Memory.get
    get-lookup i w n h = ground arith

    owned-lookup :
        (user i : ℕ) (w : World F) (n : Need F)
        → (refuse (not s.store_set) store_required >> get_owned s user i w) ≡ ok n
        → lookup i w.store.by_id ≡ some n
    unfolding get_owned
    owned-lookup user i w n h = get-lookup i w n (ground arith)

    expiring-lookup :
        (i : ℕ) (w : World F) (n : Need F)
        → (refuse (not s.store_set) store_required >> get s i w) ≡ ok n
        → lookup i w.store.by_id ≡ some n
    expiring-lookup i w n h = get-lookup i w n (ground arith)

    pub mutate_owned-Kept :
        (user i : ℕ) (fn : Need F → ℕ → Result Err (Need F)) (now : ℕ) (w : World F)
        → IsStep fn
        → IsKeyed fl w.store
        → Kept w (mutate_owned fl s between user i fn now w).1
    unfolding mutate_owned
    mutate_owned-Kept user i fn now w step k =
        elim (Result-cases (refuse (not s.store_set) store_required >> get_owned s user i w)) [
          | inr (x, e) ↦ rw (e, mutate_owned) (k, Follows-refl w.store)
          | inl (n, e) ↦
              rw (e, mutate_owned) (change-Kept fn now i n w step k (owned-lookup user i w n e))
        ]

    pub expire_if_due-Kept :
        (i now : ℕ) (w : World F)
        → IsKeyed fl w.store
        → Kept w (expire_if_due fl s between i now w).1
    unfolding expire_if_due
    expire_if_due-Kept i now w k =
        elim (Result-cases (refuse (not s.store_set) store_required >> get s i w)) [
          | inr (x, e) ↦ rw (e, expire_if_due) (k, Follows-refl w.store)
          | inl (n, e) ↦
              rw (e, expire_if_due)
                (change-Kept (Domain.expire fl) now i n w expire-IsStep k (expiring-lookup i w n e))
        ]

    pub create-Kept :
        (user : ℕ) (content : Content F) (rand : Option ℕ) (now : ℕ) (w : World F)
        → IsKeyed fl w.store
        → Kept w (create fl s between user content rand now w).1
    unfolding create
    create-Kept user content rand now w k =
        elim (Result-cases (prepare fl s user content rand now)) [
          | inr (x, e) ↦ rw (e, create) (k, Follows-refl w.store)
          | inl (n, e) ↦
              let v = between w in
              let (k', f) = create-Follows fl v.ctx n v.store (fair.keeps w k) in
              rw (e, create)
                (
                  k',
                  Follows-trans w.store v.store (Memory.create fl v.ctx n v.store).1
                      (fair.follows w) f,
                )
        ]

    pub update-Kept :
        (user i : ℕ) (content : Content F) (now : ℕ) (w : World F)
        → IsKeyed fl w.store
        → Kept w (update fl s between user i content now w).1
    unfolding update
    update-Kept user i content now w k =
        elim (Result-cases (validate_category s content.category_id)) [
          | inr (x, e) ↦ rw (e, update) (k, Follows-refl w.store)
          | inl (_, e) ↦
              rw (e, update)
                (mutate_owned-Kept user i (update_content fl content) now w
                  (update_content-IsStep content) k)
        ]
