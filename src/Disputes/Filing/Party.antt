-- ===== src/Disputes/Filing/Party.antt =====
-- Who files evidence in a dispute, and when (service.go).
use konumlu.Base.{
  ℕ, ◌≡◌, true, false, Option, some, arith, inl, inr, ok, ◌>>◌, refuse, not, Result-cases, ◌∙◌,
}
use konumlu.Disputes.Domain.{invalid_transition, Dispute, accepts_evidence, participant}
use konumlu.Disputes.Evidence.{Evidence, EvidenceCommand, create_evidence, is_internal}
use konumlu.Disputes.Memory
use konumlu.Disputes.Memory.{appended, may_append}
use konumlu.Disputes.Setup.{Setup, World, EvidenceInput}
use konumlu.Disputes.Service.{get, get_for}
use konumlu.Disputes.Filing.{may_add, append_evidence, add_evidence}

-- What CreateEvidence takes over from its command.
created :
    (rand : Option ℕ) (cmd : EvidenceCommand) (now : ℕ) {e : Evidence}
    → create_evidence rand cmd now ≡ ok e
    → (e.dispute_id ≡ cmd.dispute_id)
      × (e.evidence_type ≡ cmd.evidence_type)
      × (e.actor_user_id ≡ cmd.actor_user_id)
unfolding create_evidence
created rand cmd now h = (ground arith, ground arith, ground arith)

module _ {Queue : Type 0} (s : Setup Queue) (between : World Queue → World Queue) where
  appends :
      (d : Dispute) (cmd : EvidenceCommand) (rand : Option ℕ) (now : ℕ) (w : World Queue)
      {e : Evidence}
      → (append_evidence s between d cmd rand now w).0 ≡ ok e
      → (accepts_evidence d ≡ true)
        × (create_evidence rand cmd now ≡ ok e)
        × ((append_evidence s between d cmd rand now w).1.store ≡ appended e (between w).store)
  unfolding append_evidence Memory.append_evidence
  appends d cmd rand now w h =
      let drafts =
        refuse (not (accepts_evidence d)) invalid_transition >> create_evidence rand cmd now in
      elim (Result-cases drafts) [
        | inr (x, f) ↦ absurd (ground (arith, f, h))
        | inl (x, f) ↦ elim (Result-cases (may_append (between w).ctx x (between w).store)) [
          | inr (y, g) ↦ absurd (ground (arith, f, g, h))
          | inl (_, g) ↦ (ground (arith, f), ground (arith, f, g, h), ground (arith, f, g, h))
        ]
      ]

  may_add-filed :
      (user id : ℕ) (input : EvidenceInput) (w : World Queue) {d : Dispute} {cmd : EvidenceCommand}
      → may_add s user id input w ≡ ok (d, cmd)
      → (get s id w ≡ ok d)
        × (participant d user ≡ true)
        × (cmd.dispute_id ≡ d.id)
        × (cmd.actor_user_id ≡ some user)
        × (is_internal cmd.evidence_type ≡ false)
  unfolding may_add get_for
  may_add-filed user id input w h =
      (ground arith, ground arith, ground arith, ground arith, ground arith)

  -- Where AddEvidence answers with evidence, the user is a party of the dispute, which was read
  -- as open or under review, the evidence names that dispute and that user and is no internal
  -- reference, and the store that it leaves is the one before the write with the evidence at
  -- the end of that of its dispute.
  pub add_evidence-filed :
      (user id : ℕ) (input : EvidenceInput) (rand : Option ℕ) (now : ℕ) (w : World Queue)
      {e : Evidence}
      → (add_evidence s between user id input rand now w).0 ≡ ok e
      → (d : Dispute) × (get s id w ≡ ok d)
        × (participant d user ≡ true)
        × (accepts_evidence d ≡ true)
        × (e.dispute_id ≡ d.id)
        × (e.actor_user_id ≡ some user)
        × (is_internal e.evidence_type ≡ false)
        × ((add_evidence s between user id input rand now w).1.store ≡ appended e (between w).store)
  unfolding add_evidence
  add_evidence-filed user id input rand now w {e} h =
      elim (Result-cases (may_add s user id input w)) [
        | inr (x, f) ↦ absurd (ground (arith, f, h))
        | inl ((d, cmd), f) ↦
            let (got, party, own, actor, outer) = may_add-filed user id input w f in
            let done : (append_evidence s between d cmd rand now w).0 ≡ ok e =
              ground (arith, f, h) in
            let (live, made, kept) = appends d cmd rand now w done in
            let (same, ty, by) = created rand cmd now made in
            (
              d,
              got,
              party,
              live,
              same ∙ own,
              by ∙ actor,
              ground (arith, ty, outer),
              ground (arith, f, kept),
            )
      ]
