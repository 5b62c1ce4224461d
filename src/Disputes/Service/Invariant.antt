-- ===== src/Disputes/Service/Invariant.antt =====
-- The store's invariant under the requests on disputes (service.go), whatever other requests do in
-- between.
use konumlu.Base.{
  ℕ, ◌≡◌, sym, ◌∙◌, true, false, Option, some, List, arith, lookup, Result, ok, err, ◌⊎◌, inl, inr,
  Result-cases, Bool-cases, ◌>>◌, subst,
}
use konumlu.Disputes.Domain
use konumlu.Disputes.Domain.{Err, Dispute, Change, active, accepts_evidence}
use konumlu.Disputes.Memory
use konumlu.Disputes.Memory.{Store}
use konumlu.Disputes.Memory.Index.{IsExclusive, update-IsExclusive, create-IsExclusive}
use konumlu.Disputes.Setup.{Setup, World, CreateInput, EvidenceInput, is_not_found}
use konumlu.Disputes.Service.{
  get, get_for, enqueue_updated, run_maybe_tx, then_event, commit_update, commit_change, apply,
  apply_staff, apply_participant, start_review, resolve, close, withdraw, party_transaction,
  commit_create, create_new, may_open, drafted, create_for_transaction,
}
use konumlu.Disputes.Service.Fair.{
  IsFair, KeepsIdentity, start_review-KeepsIdentity, resolve-KeepsIdentity, close-KeepsIdentity,
  withdraw-KeepsIdentity,
}
use konumlu.Disputes.Filing.{add_evidence, add_internal_evidence}
use konumlu.Disputes.Filing.Invariant.{add_evidence-IsExclusive, add_internal_evidence-IsExclusive}

module _ {Queue : Type 0} (s : Setup Queue) where
  enqueue_updated-store :
      (d : Dispute) (actor : ℕ) (w : World Queue) → (enqueue_updated s d actor w).1.store ≡ w.store
  unfolding enqueue_updated
  enqueue_updated-store d actor w = ground arith

  then_event-store :
      (r : Result Err (Unit {0}) × Store) (d : Dispute) (actor : ℕ) (w : World Queue)
      → (then_event s r d actor w).1.store ≡ r.1
  unfolding then_event
  then_event-store (err e, st) d actor w = ground arith
  then_event-store (ok _, st) d actor w = enqueue_updated-store d actor (record w { store = st })

  run_maybe_tx-world :
      (fn : World Queue → Result Err (Unit {0}) × World Queue) (w : World Queue)
      → ((run_maybe_tx s fn w).1 ≡ w) ⊎ ((run_maybe_tx s fn w).1 ≡ (fn w).1)
  unfolding run_maybe_tx
  run_maybe_tx-world fn w = ground arith

  run_maybe_tx-IsExclusive :
      (fn : World Queue → Result Err (Unit {0}) × World Queue) (w : World Queue)
      → IsExclusive w.store
      → IsExclusive (fn w).1.store
      → IsExclusive (run_maybe_tx s fn w).1.store
  run_maybe_tx-IsExclusive fn w a b = elim (run_maybe_tx-world fn w) [
    | inl e ↦ rw e a
    | inr e ↦ rw e b
  ]

  commit_update-IsExclusive :
      (next c : Dispute) (seen actor : ℕ) (w : World Queue)
      → IsExclusive w.store
      → lookup next.id w.store.by_id ≡ some c
      → c.transaction_id ≡ next.transaction_id
      → (c.updated_at ≡ seen → active next.status ≡ true → active c.status ≡ true)
      → IsExclusive (commit_update s next seen actor w).1.store
  unfolding commit_update
  commit_update-IsExclusive next c seen actor w h l same act =
      rw (then_event-store (Memory.update w.ctx next seen w.store) next actor w)
        (update-IsExclusive w.ctx next c seen w.store h l same act)

  commit_create-IsExclusive :
      (d : Dispute) (actor : ℕ) (w : World Queue)
      → IsExclusive w.store
      → IsExclusive (commit_create s d actor w).1.store
  unfolding commit_create
  commit_create-IsExclusive d actor w h =
      rw (then_event-store (Memory.create w.ctx d w.store) d actor w)
        (create-IsExclusive w.ctx d w.store h)

  -- What a request finds is the stored dispute of that identifier.
  get-lookup :
      (id : ℕ) (w : World Queue) {d : Dispute}
      → get s id w ≡ ok d
      → lookup id w.store.by_id ≡ some d
  unfolding get Memory.get
  get-lookup id w h = ground arith

  pub get_for-lookup :
      (user id : ℕ) (w : World Queue) {d : Dispute}
      → get_for s user id w ≡ ok d
      → lookup id w.store.by_id ≡ some d
  unfolding get_for get Memory.get
  get_for-lookup user id w h = ground arith

  module _ (between later : World Queue → World Queue) where
    commit_change-world :
        (fn : Dispute → ℕ → Change) (user now' : ℕ) (current next : Dispute) (w : World Queue)
        → let run = run_maybe_tx s (commit_update s next current.updated_at user) (between w) in
          let w' = (commit_change s between later fn user now' current next w).1 in
          (w' ≡ run.1) ⊎ (w' ≡ later run.1)
    unfolding commit_change
    commit_change-world fn user now' current next w = ground arith

    module _ (fb : IsFair between) (fl : IsFair later) where
      commit_change-IsExclusive :
          (fn : Dispute → ℕ → Change) (user now' : ℕ) (current next c : Dispute) (w : World Queue)
          → IsExclusive w.store
          → lookup next.id (between w).store.by_id ≡ some c
          → c.transaction_id ≡ next.transaction_id
          → (c.updated_at ≡ current.updated_at → active next.status ≡ true → active c.status ≡ true)
          → IsExclusive (commit_change s between later fn user now' current next w).1.store
      commit_change-IsExclusive fn user now' current next c w h l same act =
          let seen = current.updated_at in
          let done =
            run_maybe_tx-IsExclusive (commit_update s next seen user) (between w) (fb.keeps w h)
              (commit_update-IsExclusive next c seen user (between w) (fb.keeps w h) l same act) in
          elim (commit_change-world fn user now' current next w) [
            | inl e ↦ rw e done
            | inr e ↦ rw e (fl.keeps _ done)
          ]

      apply-IsExclusive :
          (fn : Dispute → ℕ → Change) (user id now now' : ℕ) (d : Dispute) (w : World Queue)
          → KeepsIdentity fn
          → IsExclusive w.store
          → lookup id w.store.by_id ≡ some d
          → IsExclusive (apply s between later fn user now now' d w).1.store
      unfolding apply
      apply-IsExclusive fn user id now now' d w k h l = elim (Result-cases (fn d now)) [
        | inr (x, f) ↦ rw (f, apply) h
        | inl ((next, false), f) ↦ rw (f, apply) h
        | inl ((next, true), f) ↦
            let (c, m, o, fresh) = fb.persists w id d l in
            let (same_id, same_txn, act) = k d next now f in
            rw (f, apply)
              (commit_change-IsExclusive fn user now' d next c w h
                (rw (same_id ∙ (h.keyed id d l).0) m) (o ∙ sym same_txn)
                (λ t a. subst (λ x. active x.status ≡ true) (sym (fresh t)) (act a)))
      ]

      apply_staff-IsExclusive :
          (fn : Dispute → ℕ → Change) (id now now' : ℕ) (w : World Queue)
          → KeepsIdentity fn
          → IsExclusive w.store
          → IsExclusive (apply_staff s between later fn id now now' w).1.store
      unfolding apply_staff
      apply_staff-IsExclusive fn id now now' w k h = elim (Result-cases (get s id w)) [
        | inr (x, e) ↦ rw (e, apply_staff) h
        | inl (d, e) ↦
            rw (e, apply_staff) (apply-IsExclusive fn 0 id now now' d w k h (get-lookup id w e))
      ]

      apply_participant-IsExclusive :
          (fn : Dispute → ℕ → Change) (user id now now' : ℕ) (w : World Queue)
          → KeepsIdentity fn
          → IsExclusive w.store
          → IsExclusive (apply_participant s between later fn user id now now' w).1.store
      unfolding apply_participant
      apply_participant-IsExclusive fn user id now now' w k h =
          elim (Result-cases (get_for s user id w)) [
            | inr (x, e) ↦ rw (e, apply_participant) h
            | inl (d, e) ↦
                rw (e, apply_participant)
                  (apply-IsExclusive fn user id now now' d w k h (get_for-lookup user id w e))
          ]

      create_new-world :
          (user txn : ℕ) (d : Dispute) (w : World Queue)
          → let run = run_maybe_tx s (commit_create s d user) (between w) in
            let w' = (create_new s between later user txn d w).1 in
            (w' ≡ run.1) ⊎ (w' ≡ later run.1)
      unfolding create_new
      create_new-world user txn d w = ground arith

      create_new-IsExclusive :
          (user txn : ℕ) (d : Dispute) (w : World Queue)
          → IsExclusive w.store
          → IsExclusive (create_new s between later user txn d w).1.store
      create_new-IsExclusive user txn d w h =
          let done =
            run_maybe_tx-IsExclusive (commit_create s d user) (between w) (fb.keeps w h)
              (commit_create-IsExclusive d user (between w) (fb.keeps w h)) in
          elim (create_new-world user txn d w) [
            | inl e ↦ rw e done
            | inr e ↦ rw e (fl.keeps _ done)
          ]

      create_for_transaction-world :
          (user txn : ℕ) (input : CreateInput) (rand : Option ℕ) (opened now : ℕ) (w : World Queue)
          → let w' = (create_for_transaction s between later user txn input rand opened now w).1 in
            (w' ≡ w) ⊎ ((d : Dispute) × (w' ≡ (create_new s between later user txn d w).1))
      unfolding create_for_transaction
      create_for_transaction-world user txn input rand opened now w =
          elim (Result-cases (party_transaction s user txn)) [
            | inr (x, e) ↦ inl (ground (arith, e))
            | inl (ref, e) ↦
                elim (Result-cases
                  (may_open s ref txn opened w >> drafted s user ref input rand now)) [
                    | inr (x, f) ↦ inl (ground (arith, e, f))
                    | inl (d, f) ↦ elim (Result-cases (Memory.get_active w.ctx txn w.store)) [
                      | inl (x, g) ↦ inl (ground (arith, e, g))
                      | inr (x, g) ↦ elim (Bool-cases (is_not_found x)) [
                        | inl y ↦ inr (d, ground (arith, e, f, g, y))
                        | inr y ↦ inl (ground (arith, e, g, y))
                      ]
                    ]
                  ]
          ]

      create_for_transaction-IsExclusive :
          (user txn : ℕ) (input : CreateInput) (rand : Option ℕ) (opened now : ℕ) (w : World Queue)
          → IsExclusive w.store
          → IsExclusive
              (create_for_transaction s between later user txn input rand opened now w).1.store
      create_for_transaction-IsExclusive user txn input rand opened now w h =
          elim (create_for_transaction-world user txn input rand opened now w) [
            | inl e ↦ rw e h
            | inr (d, e) ↦ rw e (create_new-IsExclusive user txn d w h)
          ]

  -- CreateForTransaction, StartReview, Resolve, Close, Withdraw, AddEvidence and
  -- AddInternalEvidence keep the store of disputes (every dispute valid and under its own
  -- identifier, at most one active dispute for a transaction, all evidence valid and filed
  -- under a stored dispute that it names), whatever fair requests run before their writes and
  -- before their second reads: fair requests keep the same, and leave a stored dispute stored
  -- for the same transaction, under another update time if they change it.
  pub dispute_requests-IsExclusive :
      (between later : World Queue → World Queue) (user id : ℕ) (input : CreateInput)
      (filing : EvidenceInput) (code : List ℕ) (rand staff : Option ℕ) (opened now now' : ℕ)
      (w : World Queue)
      → IsFair between
      → IsFair later
      → IsExclusive w.store
      → IsExclusive (create_for_transaction s between later user id input rand opened now w).1.store
        × IsExclusive (start_review s between later id now now' w).1.store
        × IsExclusive (resolve s between later id now now' code w).1.store
        × IsExclusive (close s between later id now now' w).1.store
        × IsExclusive (withdraw s between later id now now' user w).1.store
        × IsExclusive (add_evidence s between user id filing rand now w).1.store
        × IsExclusive (add_internal_evidence s between id filing staff rand now w).1.store
  unfolding start_review resolve close withdraw
  dispute_requests-IsExclusive between later user id input filing code rand staff opened now now' w
        fb fl h =
      (
        create_for_transaction-IsExclusive between later fb fl user id input rand opened now w h,
        apply_staff-IsExclusive between later fb fl Domain.start_review id now now' w
            start_review-KeepsIdentity h,
        apply_staff-IsExclusive between later fb fl (Domain.resolve code) id now now' w
            (resolve-KeepsIdentity code) h,
        apply_staff-IsExclusive between later fb fl Domain.close id now now' w close-KeepsIdentity
            h,
        apply_participant-IsExclusive between later fb fl Domain.withdraw user id now now' w
            withdraw-KeepsIdentity h,
        add_evidence-IsExclusive s between fb user id filing rand now w h,
        add_internal_evidence-IsExclusive s between fb id filing staff rand now w h,
      )
