-- ===== src/Disputes/Service/Fair.antt =====
-- What the other requests on disputes (service.go) may do, and what the status changes keep.
use konumlu.Base.{ℕ, ◌≡◌, true, some, List, arith, lookup, ok}
use konumlu.Disputes.Domain
use konumlu.Disputes.Domain.{Err, Dispute, Change, active, accepts_evidence}
use konumlu.Disputes.Memory.Index.{IsExclusive}
use konumlu.Disputes.Setup.{World}

-- What other requests may do to the world: they keep the invariant, and a dispute that is stored
-- stays stored for the same transaction, under another update time if it changes.
pub record IsFair {Queue : Type 0} (f : World Queue → World Queue) : Type 0 where
  pub keeps : (w : World Queue) → IsExclusive w.store → IsExclusive (f w).store
  pub persists :
      (w : World Queue) (i : ℕ) (d : Dispute)
      → lookup i w.store.by_id ≡ some d
      → (c : Dispute) × (lookup i (f w).store.by_id ≡ some c)
        × (c.transaction_id ≡ d.transaction_id)
        × (c.updated_at ≡ d.updated_at → c ≡ d)

-- An operation that keeps the identity and the transaction of the dispute that it changes, and makes no
-- dispute active again.
abbrev pub KeepsIdentity : (Dispute → ℕ → Change) → Type 0
KeepsIdentity fn =
    (d d' : Dispute) (now : ℕ)
    → fn d now ≡ ok (d', true)
    → (d'.id ≡ d.id)
      × (d'.transaction_id ≡ d.transaction_id)
      × (active d'.status ≡ true → active d.status ≡ true)

pub start_review-KeepsIdentity : KeepsIdentity Domain.start_review
unfolding Domain.start_review
start_review-KeepsIdentity d d' now h = (ground arith, ground arith, λ a. ground arith)

pub resolve-KeepsIdentity : (code : List ℕ) → KeepsIdentity (Domain.resolve code)
unfolding Domain.resolve
resolve-KeepsIdentity code d d' now h = (ground arith, ground arith, λ a. ground arith)

pub close-KeepsIdentity : KeepsIdentity Domain.close
unfolding Domain.close
close-KeepsIdentity d d' now h = (ground arith, ground arith, λ a. ground arith)

pub withdraw-KeepsIdentity : KeepsIdentity Domain.withdraw
unfolding Domain.withdraw
withdraw-KeepsIdentity d d' now h = (ground arith, ground arith, λ a. ground arith)
