-- ===== src/Deliveries/Service/Guard.antt =====
-- Who may move a delivery (service.go), and on which transactions.
use konumlu.Base.{
  ℕ, ◌≡◌, true, false, arith, Result, ok, err, ◌⊎◌, inl, inr, Result-cases, Bool-cases,
}
use konumlu.Text.{codes, text_eq}
use konumlu.Contracts.{TransactionRef}
use konumlu.Deliveries.Domain
use konumlu.Deliveries.Domain.{
  Err, not_eligible, not_found, Delivery, Change, participant, provider,
}
use konumlu.Deliveries.Setup.{Setup, World}
use konumlu.Deliveries.Service.{
  get, get_for, get_transaction, refuse_if_transaction_cancelled, check_transaction, apply,
  apply_provider, mark_ready, mark_in_transit, mark_delivered,
}

-- A request that leaves the world as it was: it returns the delivery, to its provider, or an error.
abbrev pub Unmoved :
    {Queue : Type 0} → ℕ → Delivery → World Queue → Result Err Delivery × World Queue → Type 0
Unmoved user d w r = ((r ≡ (ok d, w)) × (provider d user ≡ true)) ⊎ ((e : Err) × (r ≡ (err e, w)))

module _ {Queue : Type 0} (s : Setup Queue) where
  -- The user is not the provider, or the transaction is cancelled.
  abbrev pub Blocked : ℕ → Delivery → Type 0
  Blocked user d =
      (provider d user ≡ false)
      ⊎ ((ref : TransactionRef) × (get_transaction s d.transaction_id ≡ ok ref)
          × (text_eq ref.status (codes "cancelled") ≡ true))

  cancelled-refused :
      (txn : ℕ) (ref : TransactionRef)
      → get_transaction s txn ≡ ok ref
      → text_eq ref.status (codes "cancelled") ≡ true
      → check_transaction s true txn ≡ err not_eligible
  unfolding check_transaction refuse_if_transaction_cancelled
  cancelled-refused txn ref e c = ground (arith, e, c)

  pub get_for-provider :
      (user id : ℕ) (w : World Queue) {d : Delivery}
      → get s id w ≡ ok d
      → provider d user ≡ true
      → get_for s user id w ≡ ok d
  unfolding get_for
  get_for-provider user id w found p = ground arith

  module _ (between later : World Queue → World Queue) where
    apply-refused :
        (fn : Delivery → ℕ → Change) (user now now' : ℕ) (d : Delivery) (w : World Queue)
        → check_transaction s true d.transaction_id ≡ err not_eligible
        → provider d user ≡ true
        → Unmoved user d w (apply s between later true fn user now now' d w)
    unfolding apply
    apply-refused fn user now now' d w c p = elim (Result-cases (fn d now)) [
      | inr (x, e) ↦ inr (x, ground (arith, e))
      | inl ((next, false), e) ↦ inl (ground (arith, e), p)
      | inl ((next, true), e) ↦ inr (not_eligible, ground (arith, e, c))
    ]

    apply_provider-outsider :
        (fn : Delivery → ℕ → Change) (user id now now' : ℕ) (w : World Queue) {d : Delivery}
        → get s id w ≡ ok d
        → provider d user ≡ false
        → apply_provider s between later fn user id now now' w ≡ (err not_found, w)
    unfolding apply_provider get_for
    apply_provider-outsider fn user id now now' w found p = ground (arith, found, p)

    pub apply_provider-provider :
        (fn : Delivery → ℕ → Change) (user id now now' : ℕ) (w : World Queue) {d : Delivery}
        → get s id w ≡ ok d
        → provider d user ≡ true
        → apply_provider s between later fn user id now now' w
          ≡ apply s between later true fn user now now' d w
    unfolding apply_provider
    apply_provider-provider fn user id now now' w found p =
        ground (arith, get_for-provider user id w found p, p)

    apply_provider-Unmoved :
        (fn : Delivery → ℕ → Change) (user id now now' : ℕ) (w : World Queue) {d : Delivery}
        → get s id w ≡ ok d
        → Blocked user d
        → Unmoved user d w (apply_provider s between later fn user id now now' w)
    apply_provider-Unmoved fn user id now now' w {d} found b = elim (Bool-cases (provider d user)) [
      | inr out ↦ inr (not_found, apply_provider-outsider fn user id now now' w found out)
      | inl p ↦ elim b [
        | inl out ↦ inr (not_found, apply_provider-outsider fn user id now now' w found out)
        | inr (ref, e, c) ↦
            rw (apply_provider-provider fn user id now now' w found p)
              (apply-refused fn user now now' d w (cancelled-refused d.transaction_id ref e c) p)
      ]
    ]

    -- Where the delivery is stored, and the user is not its provider or its transaction is
    -- cancelled, MarkReady, MarkInTransit and MarkDelivered change nothing: they answer with
    -- an error, or, to the provider, with the delivery as it is.
    pub marks-Unmoved :
        (user id now now' : ℕ) (w : World Queue) {d : Delivery}
        → get s id w ≡ ok d
        → Blocked user d
        → Unmoved user d w (mark_ready s between later user id now now' w)
          × Unmoved user d w (mark_in_transit s between later user id now now' w)
          × Unmoved user d w (mark_delivered s between later user id now now' w)
    unfolding mark_ready mark_in_transit mark_delivered
    marks-Unmoved user id now now' w found b = (
      apply_provider-Unmoved Domain.mark_ready user id now now' w found b,
      apply_provider-Unmoved Domain.mark_in_transit user id now now' w found b,
      apply_provider-Unmoved Domain.mark_delivered user id now now' w found b,
    )
