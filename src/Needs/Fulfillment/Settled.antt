-- ===== src/Needs/Fulfillment/Settled.antt =====
-- What a fulfilment leaves of a need, and the completed transactions that ask for it.
use konumlu.Base.{
  ℕ, ◌≡◌, ◌∙◌, ap, refl, true, false, ◌||◌, Option, none, some, arith, ◌==◌, lookup, ok, err,
  Result-cases, Bool-cases, Option-cases, inl, inr, or_err, if◌then◌else◌,
}
use konumlu.Ids.{is_zero}
use konumlu.Contracts.{
  FulfillmentCommand, FulfillmentResult, Outcome, fulfilled_now, already_fulfilled, not_fulfillable,
}
use konumlu.Needs.Content.{not_found, Floats}
use konumlu.Needs.Domain
use konumlu.Needs.Domain.{Need, is_open, is_fulfilled, terminal, apply_completed, transition}
use konumlu.Needs.Memory
use konumlu.Needs.Memory.Index.{IsKeyed, update-stored}
use konumlu.Needs.Service.{Setup, World, get, save}
use konumlu.Needs.Service.Invariant.{fulfill-IsStep}
use konumlu.Needs.Fulfillment.{
  answer, settle, fulfill_read, may_fulfill, fulfill_from_completed_transaction,
}

module _ {F : Type 0} (fl : Floats F) where
  -- What ApplyCompletedTransactionFulfillment makes of a need: an open one is fulfilled, another one stays.
  pub apply_completed-open :
      (n next : Need F) (o : Outcome) (now : ℕ)
      → apply_completed fl n now ≡ ok (next, o)
      → is_open n.status ≡ true
      → (o ≡ fulfilled_now) × (Domain.fulfill fl n now ≡ ok next) × (is_open next.status ≡ false)
  unfolding apply_completed Domain.fulfill transition
  apply_completed-open n next o now h e = (ground arith, ground arith, ground arith)

  apply_completed-closed :
      (n : Need F) (now : ℕ)
      → is_open n.status ≡ false
      → apply_completed fl n now
        ≡ ok (n, if is_fulfilled n.status then already_fulfilled else not_fulfillable)
  unfolding apply_completed
  apply_completed-closed n now e = ground arith

  module _ (s : Setup) (between : World F → World F) where
    -- Where the need is not open, nothing is written.
    pub settle-closed :
        (n : Need F) (now : ℕ) (w : World F)
        → is_open n.status ≡ false
        → settle fl s between n (apply_completed fl n now) w ≡ (
          ok (answer (if is_fulfilled n.status then already_fulfilled else not_fulfillable) n),
          w,
        )
    unfolding settle
    settle-closed n now w e =
        rw (apply_completed-closed n now e)
          (elim (Bool-cases (is_fulfilled n.status)) [ inl f ↦ rw f refl | inr f ↦ rw f refl ])

    pub fulfill_from-read :
        (cmd : FulfillmentCommand) (now : ℕ) (w : World F)
        → s.store_set ≡ true
        → (is_zero cmd.need_id || is_zero cmd.requester_user_id || is_zero cmd.transaction_id)
          ≡ false
        → fulfill_from_completed_transaction fl s between cmd now w
          ≡ fulfill_read fl s between cmd now w
    unfolding fulfill_from_completed_transaction may_fulfill
    fulfill_from-read cmd now w set ids =
        let passes : may_fulfill s cmd ≡ ok tt = ground (arith, set, ids) in
        rw (passes, fulfill_from_completed_transaction) refl

    -- A fulfilment of a need that is not open answers, and leaves the world alone.
    pub fulfill_read-closed :
        (cmd : FulfillmentCommand) (now : ℕ) (w : World F) (n : Need F)
        → get s cmd.need_id w ≡ ok n
        → is_open n.status ≡ false
        → (r : FulfillmentResult) × (fulfill_read fl s between cmd now w ≡ (ok r, w))
    unfolding fulfill_read
    fulfill_read-closed cmd now w n g e =
        elim (Bool-cases (n.requester_user_id == cmd.requester_user_id)) [
          | inl q ↦ (
            answer (if is_fulfilled n.status then already_fulfilled else not_fulfillable) n,
            rw (g, fulfill_read) (rw q (settle-closed n now w e)),
          )
          | inr q ↦ (answer not_fulfillable n, rw (g, fulfill_read) (rw q refl))
        ]

    save-stored :
        (current next : Need F) (w : World F)
        → (save fl s between current next w).0 ≡ ok tt
        → lookup next.id (save fl s between current next w).1.store.by_id ≡ some next
    unfolding save
    save-stored current next w h =
        update-stored fl (between w).ctx next current.updated_at (between w).store h

    settle-stored :
        (n next : Need F) (w : World F) (r : FulfillmentResult)
        → (settle fl s between n (ok (next, fulfilled_now)) w).0 ≡ ok r
        → lookup next.id (settle fl s between n (ok (next, fulfilled_now)) w).1.store.by_id
          ≡ some next
    unfolding settle
    settle-stored n next w r h = save-stored n next w (ground (arith, h))

    pub get-found :
        (id : ℕ) (w : World F)
        → s.store_set ≡ true
        → is_zero id ≡ false
        → w.ctx ≡ none
        → w.store.fail ≡ none
        → get s id w ≡ or_err (lookup id w.store.by_id) not_found
    unfolding get Memory.get
    get-found id w set nz live working = ground (arith, set, nz, live, working)

    settle-open :
        (c n : Need F) (now i : ℕ) (w : World F) (r : FulfillmentResult)
        → c.id ≡ i
        → is_open c.status ≡ true
        → (settle fl s between c (apply_completed fl c now) w).0 ≡ ok r
        → lookup i (settle fl s between c (apply_completed fl c now) w).1.store.by_id ≡ some n
        → is_open n.status ≡ false
    unfolding settle
    settle-open c n now i w r same e h l = elim (Result-cases (apply_completed fl c now)) [
      | inr (x, f) ↦ absurd (ground (arith, rw (f, settle) at h))
      | inl ((next, o), f) ↦
          let (k, g, q) = apply_completed-open c next o now f e in
          let f' : apply_completed fl c now ≡ ok (next, fulfilled_now) =
            f ∙ ap (λ (x : Outcome). ok (next, x)) k in
          let id : next.id ≡ i = (fulfill-IsStep fl).same c next now g ∙ same in
          let st = rw id at (settle-stored c next w r (rw f' at h)) in
          ground (arith, q, st, rw f' at l)
    ]

    read-settled :
        (cmd : FulfillmentCommand) (now : ℕ) (w : World F) (r : FulfillmentResult) (c n : Need F)
        → IsKeyed fl w.store
        → get s cmd.need_id w ≡ ok c
        → lookup cmd.need_id w.store.by_id ≡ some c
        → (fulfill_read fl s between cmd now w).0 ≡ ok r
        → lookup cmd.need_id (fulfill_read fl s between cmd now w).1.store.by_id ≡ some n
        → n.requester_user_id ≡ cmd.requester_user_id
        → is_open n.status ≡ false
    unfolding fulfill_read
    read-settled cmd now w r c n k g lc h l q =
        elim (Bool-cases (c.requester_user_id == cmd.requester_user_id)) [
          | inr m ↦ ground (arith, m, lc, q, rw m at (rw (g, fulfill_read) at l))
          | inl m ↦ elim (Bool-cases (is_open c.status)) [
            | inr e ↦ ground (
              arith,
              e,
              lc,
              rw (settle-closed c now w e) at (rw m at (rw (g, fulfill_read) at l)),
            )
            | inl e ↦
                settle-open c n now cmd.need_id w r (k cmd.need_id c lc).0 e
                  (rw m at (rw (g, fulfill_read) at h)) (rw m at (rw (g, fulfill_read) at l))
          ]
        ]

    -- Once a fulfilment has answered, the need of the command's requester is not open.
    pub fulfill_read-settled :
        (cmd : FulfillmentCommand) (now : ℕ) (w : World F) (r : FulfillmentResult) (n : Need F)
        → s.store_set ≡ true
        → is_zero cmd.need_id ≡ false
        → w.ctx ≡ none
        → w.store.fail ≡ none
        → IsKeyed fl w.store
        → (fulfill_read fl s between cmd now w).0 ≡ ok r
        → lookup cmd.need_id (fulfill_read fl s between cmd now w).1.store.by_id ≡ some n
        → n.requester_user_id ≡ cmd.requester_user_id
        → is_open n.status ≡ false
    unfolding fulfill_read
    fulfill_read-settled cmd now w r n set nz live working k h l q =
        let g = get-found cmd.need_id w set nz live working in
        elim (Option-cases (lookup cmd.need_id w.store.by_id)) [
          | inl e ↦
              let g' : get s cmd.need_id w ≡ err not_found =
                g ∙ ap (λ (x : Option (Need F)). or_err x not_found) e in
              ground (arith, e, rw (g', fulfill_read) at l)
          | inr (c, e) ↦
              let g' : get s cmd.need_id w ≡ ok c =
                g ∙ ap (λ (x : Option (Need F)). or_err x not_found) e in
              read-settled cmd now w r c n k g' e h l q
        ]
