-- ===== src/Disputes/Filing.antt =====
-- service.go: the requests on the evidence in disputes. What other requests do to the world between the read
-- of the dispute and the write is the function `between`.
pub mod Invariant
pub mod Party
use konumlu.Base.{
  ℕ, not, ◌&&◌, Option, some, List, Result, ok, err, is_empty, ◌>>◌, refuse, map_err, ◌>>=◌,
}
use konumlu.Text.{codes}
use konumlu.Disputes.Domain.{
  Err, not_found, invalid_evidence, invalid_transition, Dispute, role_of, accepts_evidence,
}
use konumlu.Disputes.Evidence.{Evidence, EvidenceCommand, create_evidence, is_internal}
use konumlu.Disputes.Memory
use konumlu.Disputes.Setup.{EvidenceInput, Setup, World, evidence_command, map_store_err}
use konumlu.Disputes.Service.{get, get_for}

module _ {Queue : Type 0} (s : Setup Queue) where
  -- ListEvidence and ListEvidenceInternal, with listEvidence
  unfoldable pub list_evidence : ℕ → ℕ → World Queue → Result Err (List Evidence)
  list_evidence user id w =
      get_for s user id w >> map_err map_store_err (Memory.list_evidence w.ctx id w.store)

  unfoldable pub list_evidence_internal : ℕ → World Queue → Result Err (List Evidence)
  list_evidence_internal id w =
      get s id w >> map_err map_store_err (Memory.list_evidence w.ctx id w.store)

  -- What AddEvidence and AddInternalEvidence decide, before they append.
  unfoldable pub may_add :
      ℕ → ℕ → EvidenceInput → World Queue → Result Err (Dispute × EvidenceCommand)
  may_add user id input w = do
    d ← get_for s user id w
    refuse (is_internal input.evidence_type) invalid_evidence
    refuse (is_empty (role_of d user)) not_found
    ok (d, evidence_command d input (some user) (role_of d user))

  unfoldable pub may_add_internal :
      ℕ → EvidenceInput → Option ℕ → World Queue → Result Err (Dispute × EvidenceCommand)
  may_add_internal id input staff w = do
    d ← get s id w
    refuse (not (is_empty input.evidence_type) && not (is_internal input.evidence_type))
        invalid_evidence
    let named = record input { evidence_type = codes "internal_reference" }
    ok (d, evidence_command d named staff (codes "internal"))

  module _ (between : World Queue → World Queue) where
    -- appendEvidence
    unfoldable pub append_evidence :
        Dispute → EvidenceCommand → Option ℕ → ℕ → World Queue → Result Err Evidence × World Queue
    append_evidence d cmd rand now w =
        elim (refuse (not (accepts_evidence d)) invalid_transition
          >> create_evidence rand cmd now) [
            | err e ↦ (err e, w)
            | ok e ↦
                let (r, st) = Memory.append_evidence (between w).ctx e (between w).store in
                (map_err map_store_err r >> ok e, record (between w) { store = st })
          ]

    -- AddEvidence and AddInternalEvidence
    unfoldable pub add_evidence :
        ℕ → ℕ → EvidenceInput → Option ℕ → ℕ → World Queue → Result Err Evidence × World Queue
    add_evidence user id input rand now w = elim (may_add user id input w) [
      | err e ↦ (err e, w)
      | ok (d, cmd) ↦ append_evidence d cmd rand now w
    ]

    unfoldable pub add_internal_evidence :
        ℕ
        → EvidenceInput
        → Option ℕ
        → Option ℕ
        → ℕ
        → World Queue
        → Result Err Evidence × World Queue
    add_internal_evidence id input staff rand now w = elim (may_add_internal id input staff w) [
      | err e ↦ (err e, w)
      | ok (d, cmd) ↦ append_evidence d cmd rand now w
    ]
