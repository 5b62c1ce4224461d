-- ===== src/Payments/Service/Invariant.antt =====
-- The requests of service.go and the invariant of the store of payments.
use konumlu.Base.{
  ℕ, ◌≡◌, sym, ◌∙◌, true, false, Option, some, arith, lookup, ok, Result-cases, Bool-cases, inl,
  inr,
}
use konumlu.Payments.Domain.{Payment, Change, ProviderSignal, create_pending}
use konumlu.Payments.Lifecycle.{Op, authorize_op, capture_op, cancel_op, fail_op, step, step-same}
use konumlu.Payments.Memory
use konumlu.Payments.Memory.{Store}
use konumlu.Payments.Memory.Index.{IsIndexed, create-IsIndexed, update-IsIndexed}
use konumlu.Payments.Service.{
  Setup, World, is_conflict, is_not_found, map_store_err, get, payable, create_new,
  create_for_transaction, commit_change, apply, apply_authorized, apply_captured, apply_cancelled,
  apply_failed,
}

-- What other requests may do to the world: they keep the invariant, and a payment that is stored stays
-- stored for the same transaction.
pub record IsFair (f : World → World) : Type 0 where
  pub keeps : (w : World) → IsIndexed w.store → IsIndexed (f w).store
  pub persists :
      (w : World) (i : ℕ) (p : Payment)
      → lookup i w.store.by_id ≡ some p
      → (c : Payment) × (lookup i (f w).store.by_id ≡ some c)
        × (c.transaction_id ≡ p.transaction_id)

module _ (s : Setup) (between later : World → World) (fb : IsFair between) (fl : IsFair later) where
  create_new-IsIndexed :
      (txn : ℕ) (p : Payment) (w : World)
      → IsIndexed w.store
      → IsIndexed (create_new between later txn p w).1.store
  unfolding create_new
  create_new-IsIndexed txn p w h =
      let v = between w in
      let done = create-IsIndexed v.ctx p v.store (fb.keeps w h) in
      elim (Result-cases (Memory.create v.ctx p v.store).0) [
        | inl (_, e) ↦ rw (e, create_new) done
        | inr (x, e) ↦ elim (Bool-cases (is_conflict (map_store_err x))) [
          | inr k ↦ rw (e, create_new) (rw k done)
          | inl k ↦
              let w' = record v { store = (Memory.create v.ctx p v.store).1 } in
              elim (Result-cases (Memory.get_by_transaction (later w').ctx txn (later w').store)) [
                | inl (q, g) ↦ rw (e, create_new) (rw k (rw g (fl.keeps w' done)))
                | inr (q, g) ↦ rw (e, create_new) (rw k (rw g (fl.keeps w' done)))
              ]
        ]
      ]

  create_for_transaction-IsIndexed :
      (payer txn : ℕ) (rand : Option ℕ) (now : ℕ) (w : World)
      → IsIndexed w.store
      → IsIndexed (create_for_transaction s between later payer txn rand now w).1.store
  unfolding create_for_transaction
  create_for_transaction-IsIndexed payer txn rand now w h =
      elim (Result-cases (payable s payer txn)) [
        | inr (x, e) ↦ rw (e, create_for_transaction) h
        | inl (cmd, e) ↦ elim (Result-cases (Memory.get_by_transaction w.ctx txn w.store)) [
          | inl (p, g) ↦ rw (e, create_for_transaction) (rw g h)
          | inr (x, g) ↦ elim (Bool-cases (is_not_found x)) [
            | inr k ↦ rw (e, create_for_transaction) (rw g (rw k h))
            | inl k ↦ elim (Result-cases (create_pending rand cmd now)) [
              | inr (y, c) ↦ rw (e, create_for_transaction) (rw g (rw k (rw c h)))
              | inl (p, c) ↦
                  rw (e, create_for_transaction)
                    (rw g (rw k (rw c (create_new-IsIndexed txn p w h))))
            ]
          ]
        ]
      ]

  commit_change-IsIndexed :
      (fn : Payment → ℕ → Change) (id now' : ℕ) (current next c : Payment) (w : World)
      → IsIndexed w.store
      → lookup next.id (between w).store.by_id ≡ some c
      → c.transaction_id ≡ next.transaction_id
      → IsIndexed (commit_change s between later fn id now' current next w).1.store
  unfolding commit_change
  commit_change-IsIndexed fn id now' current next c w h l same =
      let v = between w in
      let done = update-IsIndexed v.ctx next c current.updated_at v.store (fb.keeps w h) l same in
      elim (Result-cases (Memory.update v.ctx next current.updated_at v.store).0) [
        | inl (_, e) ↦ rw (e, commit_change) done
        | inr (x, e) ↦ elim (Bool-cases (is_conflict (map_store_err x))) [
          | inr k ↦ rw (e, commit_change) (rw k done)
          | inl k ↦
              let w' = record v {
                store = (Memory.update v.ctx next current.updated_at v.store).1;
              } in
              rw (e, commit_change) (rw k (fl.keeps w' done))
        ]
      ]

  get-lookup :
      (id : ℕ) (w : World) (p : Payment) → get s id w ≡ ok p → lookup id w.store.by_id ≡ some p
  unfolding get Memory.get
  get-lookup id w p h = ground arith

  apply-IsIndexed :
      (op : Op) (signal : ProviderSignal) (id now now' : ℕ) (w : World)
      → IsIndexed w.store
      → IsIndexed (apply s between later (step op signal) id now now' w).1.store
  unfolding apply
  apply-IsIndexed op signal id now now' w h = elim (Result-cases (get s id w)) [
    | inr (x, e) ↦ rw (e, apply) h
    | inl (current, e) ↦ elim (Result-cases (step op signal current now)) [
      | inr (x, f) ↦ rw (e, apply) (rw f h)
      | inl ((next, false), f) ↦ rw (e, apply) (rw f h)
      | inl ((next, true), f) ↦
          let found = get-lookup id w current e in
          let (c, l, t) = fb.persists w id current found in
          let (same_id, same_txn, _, _, _, _) = step-same op signal current next now f in
          rw (e, apply)
            (rw f (
              commit_change-IsIndexed (step op signal) id now' current next c w h
                (rw (same_id ∙ (h.keyed id current found).0) l) (t ∙ sym same_txn)))
    ]
  ]

  -- CreateForTransaction and the four provider callbacks keep the invariant of the store of
  -- payments (every payment valid, under its own identifier and in the index by transaction, so
  -- that a transaction has at most one payment), whatever fair requests run between their reads
  -- and their writes.
  pub payment_requests-IsIndexed :
      (payer txn id now now' : ℕ) (rand : Option ℕ) (signal : ProviderSignal) (w : World)
      → IsIndexed w.store
      → IsIndexed (create_for_transaction s between later payer txn rand now w).1.store
        × IsIndexed (apply_authorized s between later id now now' signal w).1.store
        × IsIndexed (apply_captured s between later id now now' signal w).1.store
        × IsIndexed (apply_cancelled s between later id now now' signal w).1.store
        × IsIndexed (apply_failed s between later id now now' signal w).1.store
  unfolding apply_authorized apply_captured apply_cancelled apply_failed step
  payment_requests-IsIndexed payer txn id now now' rand signal w h = (
    create_for_transaction-IsIndexed payer txn rand now w h,
    apply-IsIndexed authorize_op signal id now now' w h,
    apply-IsIndexed capture_op signal id now now' w h,
    apply-IsIndexed cancel_op signal id now now' w h,
    apply-IsIndexed fail_op signal id now now' w h,
  )
