-- ===== src/Offers/Service/Exclusive.antt =====
-- The commits of service.go and the invariant of the store of offers.
use konumlu.Base.{ℕ, ◌≡◌, ◌⊎◌, false, List, [], ◌∷◌, arith, ok, Result-cases, inl, inr, refl}
use konumlu.Text.{codes}
use konumlu.Offers.Events.{submitted_type, accepted_type, rejected_type}
use konumlu.Offers.Domain
use konumlu.Offers.Domain.{
  Err, Offer, Content, is_submitted, is_accepted, is_withdrawn, is_rejected, submit,
}
use konumlu.Offers.Memory
use konumlu.Offers.Memory.Exclusive.{IsExclusive, create-IsExclusive, update-IsExclusive}
use konumlu.Offers.Memory.Accept.{accept_exclusive-IsExclusive}
use konumlu.Offers.Setup.{Setup, World}
use konumlu.Offers.Work.{Step, enqueue_transition, run_maybe_tx}
use konumlu.Offers.Service.{
  commit_submit, commit_reject, reject_events, accept_events, commit_accept,
}

-- The world's store has at most one accepted offer for a need, and one submitted for a need and a service.
abbrev pub Holds : {Queue : Type 0} → World Queue → Type 0
Holds w = IsExclusive w.store.by_id

-- What other requests do: they keep the invariant.
abbrev pub Fair : {Queue : Type 0} → (World Queue → World Queue) → Type 0
Fair f = (w : World _) → Holds w → Holds (f w)

module _ {Queue : Type 0} (s : Setup Queue) where
  enqueue-store :
      (ty tr : List ℕ) (o : Offer) (r a : ℕ) (w : World Queue)
      → (enqueue_transition s ty tr o r a w).1.store ≡ w.store
  unfolding enqueue_transition
  enqueue-store ty tr o r a w = ground arith

  run_maybe_tx-world :
      {A : Type 0} (fn : Step Queue A) (w : World Queue)
      → ((run_maybe_tx s fn w).1 ≡ w) ⊎ ((run_maybe_tx s fn w).1 ≡ (fn w).1)
  unfolding run_maybe_tx
  run_maybe_tx-world fn w = ground arith

  pub run_maybe_tx-Holds :
      {A : Type 0} (fn : Step Queue A) (w : World Queue)
      → Holds w
      → Holds (fn w).1
      → Holds (run_maybe_tx s fn w).1
  run_maybe_tx-Holds fn w a b = elim (run_maybe_tx-world fn w) [ inl e ↦ rw e a | inr e ↦ rw e b ]

  commit_submit-store :
      (o : Offer) (r p : ℕ) (w : World Queue)
      → (commit_submit s o r p w).1.store ≡ (Memory.create w.ctx o w.store).1
  unfolding commit_submit
  commit_submit-store o r p w =
      let w' = record w { store = (Memory.create w.ctx o w.store).1 } in
      ground (arith, enqueue-store submitted_type (codes "submitted") o r p w')

  commit_reject-store :
      (o : Offer) (seen r : ℕ) (w : World Queue)
      → (commit_reject s o seen r w).1.store ≡ (Memory.update w.ctx o seen w.store).1
  unfolding commit_reject
  commit_reject-store o seen r w =
      let w' = record w { store = (Memory.update w.ctx o seen w.store).1 } in
      ground (arith, enqueue-store rejected_type (codes "rejected") o r r w')

  reject_events-store :
      (os : List Offer) (r : ℕ) (w : World Queue) → (reject_events s os r w).1.store ≡ w.store
  unfolding reject_events
  reject_events-store [] r w = refl
  reject_events-store (o ∷ os) r w =
      let w' = (enqueue_transition s rejected_type (codes "rejected") o r r w).1 in
      ground
        (arith, enqueue-store rejected_type (codes "rejected") o r r w, reject_events-store os r w')

  accept_events-store :
      (o : Offer) (os : List Offer) (r : ℕ) (w : World Queue)
      → (accept_events s o os r w).1.store ≡ w.store
  unfolding accept_events
  accept_events-store o os r w =
      let w' = (enqueue_transition s accepted_type (codes "accepted") o r r w).1 in
      ground
        (arith, enqueue-store accepted_type (codes "accepted") o r r w, reject_events-store os r w')

  pub commit_accept-store :
      (r need id now : ℕ) (os : List Offer) (w : World Queue)
      → (commit_accept s r need id now os w).1.store
        ≡ (Memory.accept_exclusive w.ctx id need now w.store).1
  unfolding commit_accept
  commit_accept-store r need id now os w =
      let (q, st) = Memory.accept_exclusive w.ctx id need now w.store in
      let w' = record w { store = st } in
      elim (Result-cases q) [
        | inr (e, h) ↦ ground (arith, h)
        | inl (got, h) ↦ ground (arith, h, accept_events-store got os r w')
      ]

  pub commit_submit-Holds :
      (o : Offer) (r p : ℕ) (w : World Queue) → Holds w → Holds (commit_submit s o r p w).1
  commit_submit-Holds o r p w h =
      rw (commit_submit-store o r p w) (create-IsExclusive w.ctx o w.store h)

  pub commit_accept-Holds :
      (r need id now : ℕ) (os : List Offer) (w : World Queue)
      → Holds w
      → Holds (commit_accept s r need id now os w).1
  commit_accept-Holds r need id now os w h =
      rw (commit_accept-store r need id now os w)
        (accept_exclusive-IsExclusive w.ctx id need now w.store h)

  -- An offer that Reject or Withdraw makes is neither submitted nor accepted.
  pub ended :
      (o next : Offer) (now : ℕ)
      → (Domain.reject o now ≡ ok next) ⊎ (Domain.withdraw o now ≡ ok next)
      → (is_accepted next.status ≡ false) × (is_submitted next.status ≡ false)
  unfolding Domain.reject Domain.withdraw Domain.transition
  ended o next now (inl h) = (ground arith, ground arith)
  ended o next now (inr h) = (ground arith, ground arith)

  pub commit_reject-Holds :
      (o : Offer) (seen r : ℕ) (w : World Queue)
      → Holds w
      → (is_accepted o.status ≡ false) × (is_submitted o.status ≡ false)
      → Holds (commit_reject s o seen r w).1
  commit_reject-Holds o seen r w h (a, b) =
      rw (commit_reject-store o seen r w) (update-IsExclusive w.ctx o seen w.store h a b)
