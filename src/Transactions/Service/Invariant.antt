-- ===== src/Transactions/Service/Invariant.antt =====
-- The store's invariant under the requests, whatever other requests do in between.
use konumlu.Base.{
  ℕ, ◌≡◌, sym, ◌∙◌, true, false, Option, none, some, arith, lookup, Result, ok, ◌>>◌, ◌⊎◌, inl, inr,
  Result-cases,
}
use konumlu.Text.{codes}
use konumlu.Outbox.Writer.{NewEvent}
use konumlu.Transactions.Events.{created_type, encode_lifecycle}
use konumlu.Contracts.{OfferRef, NeedRef}
use konumlu.Transactions.Domain
use konumlu.Transactions.Domain.{Err, conflict, not_found, Transaction, Change, create_pending}
use konumlu.Transactions.Memory
use konumlu.Transactions.Memory.{Store}
use konumlu.Transactions.Memory.Index.{IsIndexed, update-IsIndexed, create-IsIndexed}
use konumlu.Transactions.Setup.{
  Setup, World, require_need_open, require_open_for, require_completable_for,
}
use konumlu.Transactions.Service.{
  start_fn, complete_fn, start, complete, cancel, get, get_for, emit, run_maybe_tx, commit_update,
  commit_change, apply, commit_create, create_new, source_of, accepted_offer,
  create_from_accepted_offer,
}

-- What other requests may do to the world: they keep the invariant, and a transaction that is stored
-- stays stored for the same offer.
pub record IsFair {Queue : Type 0} (f : World Queue → World Queue) : Type 0 where
  pub keeps : (w : World Queue) → IsIndexed w.store → IsIndexed (f w).store
  pub persists :
      (w : World Queue) (i : ℕ) (t : Transaction)
      → lookup i w.store.by_id ≡ some t
      → (c : Transaction) × (lookup i (f w).store.by_id ≡ some c) × (c.offer_id ≡ t.offer_id)

-- An operation that keeps the identity and the offer of the transaction that it changes.
abbrev pub KeepsIdentity : (Transaction → ℕ → Change) → Type 0
KeepsIdentity fn =
    (t t' : Transaction) (now : ℕ)
    → fn t now ≡ ok (t', true)
    → (t'.id ≡ t.id) × (t'.offer_id ≡ t.offer_id)

module _ {Queue : Type 0} (s : Setup Queue) where
  emit-store : (n : Result Err NewEvent) (w : World Queue) → (emit s n w).1.store ≡ w.store
  unfolding emit
  emit-store n w = ground arith

  run_maybe_tx-world :
      (fn : World Queue → Result Err (Unit {0}) × World Queue) (w : World Queue)
      → ((run_maybe_tx s fn w).1 ≡ w) ⊎ ((run_maybe_tx s fn w).1 ≡ (fn w).1)
  unfolding run_maybe_tx
  run_maybe_tx-world fn w = ground arith

  run_maybe_tx-IsIndexed :
      (fn : World Queue → Result Err (Unit {0}) × World Queue) (w : World Queue)
      → IsIndexed w.store
      → IsIndexed (fn w).1.store
      → IsIndexed (run_maybe_tx s fn w).1.store
  run_maybe_tx-IsIndexed fn w a b = elim (run_maybe_tx-world fn w) [
    | inl e ↦ rw e a
    | inr e ↦ rw e b
  ]

  commit_update-store :
      (next : Transaction) (seen : ℕ) (ev : Option (Result Err NewEvent)) (w : World Queue)
      → (commit_update s next seen ev w).1.store ≡ (Memory.update w.ctx next seen w.store).1
  unfolding commit_update
  commit_update-store next seen none w = ground arith
  commit_update-store next seen (some n) w =
      let w' = record w { store = (Memory.update w.ctx next seen w.store).1 } in
      ground (arith, emit-store n w')

  commit_update-IsIndexed :
      (next c : Transaction) (seen : ℕ) (ev : Option (Result Err NewEvent)) (w : World Queue)
      → IsIndexed w.store
      → lookup next.id w.store.by_id ≡ some c
      → c.offer_id ≡ next.offer_id
      → IsIndexed (commit_update s next seen ev w).1.store
  commit_update-IsIndexed next c seen ev w h l same =
      rw (commit_update-store next seen ev w) (update-IsIndexed w.ctx next c seen w.store h l same)

  commit_change-world :
      (between later : World Queue → World Queue) (fn : Transaction → ℕ → Change)
      (ev : Option (Result Err NewEvent)) (user id now' : ℕ) (current next : Transaction)
      (w : World Queue)
      → let run = run_maybe_tx s (commit_update s next current.updated_at ev) (between w) in
        let w' = (commit_change s between later fn ev user id now' current next w).1 in
        (w' ≡ run.1) ⊎ (w' ≡ later run.1)
  unfolding commit_change
  commit_change-world between later fn ev user id now' current next w = ground arith

  commit_change-IsIndexed :
      (between later : World Queue → World Queue) (fn : Transaction → ℕ → Change)
      (ev : Option (Result Err NewEvent)) (user id now' : ℕ) (current next c : Transaction)
      (w : World Queue)
      → IsFair between
      → IsFair later
      → IsIndexed w.store
      → lookup next.id (between w).store.by_id ≡ some c
      → c.offer_id ≡ next.offer_id
      → IsIndexed (commit_change s between later fn ev user id now' current next w).1.store
  commit_change-IsIndexed between later fn ev user id now' current next c w fb fl h l same =
      let commit = commit_update s next current.updated_at ev in
      let done =
        run_maybe_tx-IsIndexed commit (between w) (fb.keeps w h) (
          commit_update-IsIndexed next c current.updated_at ev (between w) (fb.keeps w h) l same) in
      elim (commit_change-world between later fn ev user id now' current next w) [
        | inl e ↦ rw e done
        | inr e ↦ rw e (fl.keeps _ done)
      ]

  -- What a request finds is the stored transaction of that identifier.
  get_for-lookup :
      (user id : ℕ) (w : World Queue) {t : Transaction}
      → get_for s user id w ≡ ok t
      → lookup id w.store.by_id ≡ some t
  unfolding get_for get Memory.get
  get_for-lookup user id w h = ground arith

  -- A request on a transaction keeps the invariant of the store, among requests that do.
  pub apply-IsIndexed :
      (between later : World Queue → World Queue) (fn : Transaction → ℕ → Change)
      (event : Transaction → Option (Result Err NewEvent)) (user id now now' : ℕ) (w : World Queue)
      → IsFair between
      → IsFair later
      → KeepsIdentity fn
      → IsIndexed w.store
      → IsIndexed (apply s between later fn event user id now now' w).1.store
  unfolding apply
  apply-IsIndexed between later fn event user id now now' w fb fl k h =
      elim (Result-cases (get_for s user id w)) [
        | inr (x, e) ↦ rw (e, apply) h
        | inl (current, e) ↦ elim (Result-cases (fn current now)) [
          | inr (x, f) ↦ rw (e, apply) (rw f h)
          | inl ((next, false), f) ↦ rw (e, apply) (rw f h)
          | inl ((next, true), f) ↦
              let found = get_for-lookup user id w e in
              let (c, l, o) = fb.persists w id current found in
              let (same_id, same_offer) = k current next now f in
              rw (e, apply)
                (rw f (
                  commit_change-IsIndexed between later fn (event next) user id now' current next c
                    w fb fl h (rw (same_id ∙ (h.keyed id current found).0) l) (o ∙ sym same_offer)))
        ]
      ]

  commit_create-store :
      (t : Transaction) (user : ℕ) (w : World Queue)
      → (commit_create s t user w).1.store ≡ (Memory.create w.ctx t w.store).1
  unfolding commit_create
  commit_create-store t user w =
      let w' = record w { store = (Memory.create w.ctx t w.store).1 } in
      ground (arith, emit-store (encode_lifecycle created_type (codes "created") t user) w')

  create_new-world :
      (between later : World Queue → World Queue) (user : ℕ) (rand : Option ℕ) (now : ℕ)
      (offer : OfferRef) (need : NeedRef) (w : World Queue)
      → let w' = (create_new s between later user rand now offer need w).1 in
        (w' ≡ w)
        ⊎ ((t : Transaction) × ((w' ≡ (run_maybe_tx s (commit_create s t user) (between w)).1)
              ⊎ (w' ≡ later (run_maybe_tx s (commit_create s t user) (between w)).1)))
  unfolding create_new
  create_new-world between later user rand now offer need w =
      elim (Result-cases
        (require_need_open need.status >> create_pending rand (source_of s offer need) now)) [
          | inr (x, e) ↦ inl (ground (arith, e))
          | inl (t, e) ↦ inr (t, ground (arith, e))
        ]

  create_new-IsIndexed :
      (between later : World Queue → World Queue) (user : ℕ) (rand : Option ℕ) (now : ℕ)
      (offer : OfferRef) (need : NeedRef) (w : World Queue)
      → IsFair between
      → IsFair later
      → IsIndexed w.store
      → IsIndexed (create_new s between later user rand now offer need w).1.store
  create_new-IsIndexed between later user rand now offer need w fb fl h =
      let done = λ (t : Transaction).
        run_maybe_tx-IsIndexed (commit_create s t user) (between w) (fb.keeps w h) (
          rw (commit_create-store t user (between w))
            (create-IsIndexed (between w).ctx t (between w).store (fb.keeps w h))) in
      elim (create_new-world between later user rand now offer need w) [
        | inl e ↦ rw e h
        | inr (t, inl e) ↦ rw e (done t)
        | inr (t, inr e) ↦ rw e (fl.keeps _ (done t))
      ]

  create_from-world :
      (between later : World Queue → World Queue) (user offer_id : ℕ) (rand : Option ℕ) (now : ℕ)
      (offer : OfferRef) (need : NeedRef) (w : World Queue)
      → accepted_offer s user offer_id ≡ ok (offer, need)
      → let w' = (create_from_accepted_offer s between later user offer_id rand now w).1 in
        (w' ≡ w) ⊎ (w' ≡ (create_new s between later user rand now offer need w).1)
  unfolding create_from_accepted_offer
  create_from-world between later user offer_id rand now offer need w e = ground arith

  -- A request to create a transaction keeps the store's invariant (every transaction valid and
  -- under its own identifier, one index entry for each offer, so never two transactions for an
  -- offer), whatever fair requests run between its read and its commit.
  pub create_from_accepted_offer-IsIndexed :
      (between later : World Queue → World Queue) (user offer_id : ℕ) (rand : Option ℕ) (now : ℕ)
      (w : World Queue)
      → IsFair between
      → IsFair later
      → IsIndexed w.store
      → IsIndexed (create_from_accepted_offer s between later user offer_id rand now w).1.store
  unfolding create_from_accepted_offer
  create_from_accepted_offer-IsIndexed between later user offer_id rand now w fb fl h =
      elim (Result-cases (accepted_offer s user offer_id)) [
        | inr (x, e) ↦ rw (e, create_from_accepted_offer) h
        | inl ((offer, need), e) ↦
            let new = create_new-IsIndexed between later user rand now offer need w fb fl h in
            elim (create_from-world between later user offer_id rand now offer need w e) [
              | inl same ↦ rw same h
              | inr made ↦ rw made new
            ]
      ]

  start_fn-KeepsIdentity : KeepsIdentity (start_fn s)
  unfolding start_fn Domain.start
  start_fn-KeepsIdentity t t' now h = elim (Result-cases (require_open_for s t)) [
    | inl (_, e) ↦ ground (arith, e)
    | inr (x, e) ↦ ground (arith, e)
  ]

  complete_fn-KeepsIdentity : KeepsIdentity (complete_fn s)
  unfolding complete_fn Domain.complete
  complete_fn-KeepsIdentity t t' now h = elim (Result-cases (require_completable_for s t)) [
    | inl (_, e) ↦ ground (arith, e)
    | inr (x, e) ↦ ground (arith, e)
  ]

  cancel-KeepsIdentity : KeepsIdentity Domain.cancel
  unfolding Domain.cancel
  cancel-KeepsIdentity t t' now h = ground arith

  -- Start, Complete and Cancel keep the store's invariant, whatever fair requests run between
  -- their reads and their commits.
  pub requests-IsIndexed :
      (between later : World Queue → World Queue) (user id now now' : ℕ) (w : World Queue)
      → IsFair between
      → IsFair later
      → IsIndexed w.store
      → IsIndexed (start s between later user id now now' w).1.store
        × IsIndexed (complete s between later user id now now' w).1.store
        × IsIndexed (cancel s between later user id now now' w).1.store
  unfolding start complete cancel
  requests-IsIndexed between later user id now now' w fb fl h = (
    apply-IsIndexed between later (start_fn s) _ user id now now' w fb fl start_fn-KeepsIdentity h,
    apply-IsIndexed between later (complete_fn s) _ user id now now' w fb fl
        complete_fn-KeepsIdentity h,
    apply-IsIndexed between later Domain.cancel _ user id now now' w fb fl cancel-KeepsIdentity h,
  )
