-- ===== src/Needs/Fulfillment/Invariant.antt =====
-- The requests of service.go and fulfillment.go, and the invariant of the store of needs.
use konumlu.Base.{
  ℕ, ◌≡◌, ◌∙◌, ap, Option, some, arith, lookup, ok, Result-cases, Bool-cases, inl, inr, ◌==◌,
}
use konumlu.Contracts.{FulfillmentCommand, Outcome, fulfilled_now}
use konumlu.Needs.Content.{Floats, Content}
use konumlu.Needs.Domain
use konumlu.Needs.Domain.{Need, is_open, terminal, apply_completed}
use konumlu.Needs.Memory.Index.{IsKeyed, Follows-refl}
use konumlu.Needs.Service.{
  Setup, World, get, create, update, open_need, fulfill, cancel, expire_if_due,
}
use konumlu.Needs.Service.Invariant.{
  IsFair, Kept, save-Kept, get-lookup, create-Kept, update-Kept, mutate_owned-Kept,
  expire_if_due-Kept, open_need-IsStep, fulfill-IsStep, cancel-IsStep,
}
use konumlu.Needs.Fulfillment.{
  settle, fulfill_read, may_fulfill, fulfill_from_completed_transaction,
}
use konumlu.Needs.Fulfillment.Settled.{apply_completed-open, settle-closed}

module _ {F : Type 0} (fl : Floats F) (s : Setup) (between : World F → World F)
    (fair : IsFair fl between) where
  settle-Kept :
      (n : Need F) (now i : ℕ) (w : World F)
      → IsKeyed fl w.store
      → lookup i w.store.by_id ≡ some n
      → Kept fl w (settle fl s between n (apply_completed fl n now) w).1
  unfolding settle
  settle-Kept n now i w k l = elim (Bool-cases (is_open n.status)) [
    | inr e ↦ rw (settle-closed fl s between n now w e) (k, Follows-refl w.store)
    | inl e ↦ elim (Result-cases (apply_completed fl n now)) [
      | inr (x, f) ↦ rw (f, settle) (k, Follows-refl w.store)
      | inl ((next, o), f) ↦
          let (a, b, _) = apply_completed-open fl n next o now f e in
          let f' : apply_completed fl n now ≡ ok (next, fulfilled_now) =
            f ∙ ap (λ (x : Outcome). ok (next, x)) a in
          rw (f', settle)
            (save-Kept fl s between fair n next i w k l
              ((fulfill-IsStep fl).same n next now b ∙ (k i n l).0) (ground (arith, e)))
    ]
  ]

  fulfill_read-Kept :
      (cmd : FulfillmentCommand) (now : ℕ) (w : World F)
      → IsKeyed fl w.store
      → Kept fl w (fulfill_read fl s between cmd now w).1
  unfolding fulfill_read
  fulfill_read-Kept cmd now w k = elim (Result-cases (get s cmd.need_id w)) [
    | inr (x, g) ↦ rw (g, fulfill_read) (k, Follows-refl w.store)
    | inl (n, g) ↦ elim (Bool-cases (n.requester_user_id == cmd.requester_user_id)) [
      | inr q ↦ rw (g, fulfill_read) (rw q (k, Follows-refl w.store))
      | inl q ↦
          rw (g, fulfill_read)
            (rw q
              (settle-Kept n now cmd.need_id w k (get-lookup fl s between fair cmd.need_id w n g)))
    ]
  ]

  fulfill_from-Kept :
      (cmd : FulfillmentCommand) (now : ℕ) (w : World F)
      → IsKeyed fl w.store
      → Kept fl w (fulfill_from_completed_transaction fl s between cmd now w).1
  unfolding fulfill_from_completed_transaction
  fulfill_from-Kept cmd now w k = elim (Result-cases (may_fulfill s cmd)) [
    | inr (x, e) ↦ rw (e, fulfill_from_completed_transaction) (k, Follows-refl w.store)
    | inl (_, e) ↦ rw (e, fulfill_from_completed_transaction) (fulfill_read-Kept cmd now w k)
  ]

  -- Create, Update, Open, Fulfill, Cancel, ExpireIfDue and the fulfilment by a completed
  -- transaction keep the store of needs (every need valid and under its own identifier), never
  -- remove a need or change its requester, and never change a need that has ended, whatever
  -- fair requests run before their writes: fair requests do the same, and give a need that they
  -- change another update time.
  pub need_requests-Kept :
      (user i : ℕ) (content : Content F) (rand : Option ℕ) (cmd : FulfillmentCommand) (now : ℕ)
      (w : World F)
      → IsKeyed fl w.store
      → Kept fl w (create fl s between user content rand now w).1
        × Kept fl w (update fl s between user i content now w).1
        × Kept fl w (open_need fl s between user i now w).1
        × Kept fl w (fulfill fl s between user i now w).1
        × Kept fl w (cancel fl s between user i now w).1
        × Kept fl w (expire_if_due fl s between i now w).1
        × Kept fl w (fulfill_from_completed_transaction fl s between cmd now w).1
  unfolding open_need fulfill cancel
  need_requests-Kept user i content rand cmd now w k = (
    create-Kept fl s between fair user content rand now w k,
    update-Kept fl s between fair user i content now w k,
    mutate_owned-Kept fl s between fair user i (Domain.open_need fl) now w (open_need-IsStep fl) k,
    mutate_owned-Kept fl s between fair user i (Domain.fulfill fl) now w (fulfill-IsStep fl) k,
    mutate_owned-Kept fl s between fair user i (Domain.cancel fl) now w (cancel-IsStep fl) k,
    expire_if_due-Kept fl s between fair i now w k,
    fulfill_from-Kept cmd now w k,
  )
