-- ===== src/Disputes/Filing/Invariant.antt =====
-- The store's invariant under the requests on evidence (service.go).
use konumlu.Base.{ℕ, ◌≡◌, Option, arith, ◌⊎◌, inl, inr, Result-cases, ◌>>◌, refuse, not}
use konumlu.Disputes.Domain
use konumlu.Disputes.Domain.{Err, Dispute, Change, active, accepts_evidence}
use konumlu.Disputes.Evidence.{Evidence, EvidenceCommand, create_evidence}
use konumlu.Disputes.Memory
use konumlu.Disputes.Memory.{Store}
use konumlu.Disputes.Memory.Index.{IsExclusive, append_evidence-IsExclusive}
use konumlu.Disputes.Setup.{Setup, World, EvidenceInput}
use konumlu.Disputes.Service.Fair.{IsFair}
use konumlu.Disputes.Filing.{
  append_evidence, add_evidence, may_add, add_internal_evidence, may_add_internal,
}

module _ {Queue : Type 0} (s : Setup Queue) (between : World Queue → World Queue)
    (fb : IsFair between) where
  append_evidence-world :
      (d : Dispute) (cmd : EvidenceCommand) (rand : Option ℕ) (now : ℕ) (w : World Queue)
      → let st = (append_evidence s between d cmd rand now w).1.store in
        (st ≡ w.store)
        ⊎ ((e : Evidence) × (st ≡ (Memory.append_evidence (between w).ctx e (between w).store).1))
  unfolding append_evidence
  append_evidence-world d cmd rand now w =
      elim (Result-cases (
        refuse (not (accepts_evidence d)) Domain.invalid_transition
        >> create_evidence rand cmd now)) [
          | inr (x, e) ↦ inl (ground (arith, e))
          | inl (x, e) ↦ inr (x, ground (arith, e))
        ]

  append-IsExclusive :
      (d : Dispute) (cmd : EvidenceCommand) (rand : Option ℕ) (now : ℕ) (w : World Queue)
      → IsExclusive w.store
      → IsExclusive (append_evidence s between d cmd rand now w).1.store
  append-IsExclusive d cmd rand now w h = elim (append_evidence-world d cmd rand now w) [
    | inl e ↦ rw e h
    | inr (x, e) ↦
        rw e (append_evidence-IsExclusive (between w).ctx x (between w).store (fb.keeps w h))
  ]

  pub add_evidence-IsExclusive :
      (user id : ℕ) (input : EvidenceInput) (rand : Option ℕ) (now : ℕ) (w : World Queue)
      → IsExclusive w.store
      → IsExclusive (add_evidence s between user id input rand now w).1.store
  unfolding add_evidence
  add_evidence-IsExclusive user id input rand now w h =
      elim (Result-cases (may_add s user id input w)) [
        | inr (x, e) ↦ rw (e, add_evidence) h
        | inl ((d, cmd), e) ↦ rw (e, add_evidence) (append-IsExclusive d cmd rand now w h)
      ]

  pub add_internal_evidence-IsExclusive :
      (id : ℕ) (input : EvidenceInput) (staff rand : Option ℕ) (now : ℕ) (w : World Queue)
      → IsExclusive w.store
      → IsExclusive (add_internal_evidence s between id input staff rand now w).1.store
  unfolding add_internal_evidence
  add_internal_evidence-IsExclusive id input staff rand now w h =
      elim (Result-cases (may_add_internal s id input staff w)) [
        | inr (x, e) ↦ rw (e, add_internal_evidence) h
        | inl ((d, cmd), e) ↦ rw (e, add_internal_evidence) (append-IsExclusive d cmd rand now w h)
      ]
