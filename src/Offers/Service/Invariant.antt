-- ===== src/Offers/Service/Invariant.antt =====
-- The requests of service.go and the invariant of the store of offers.
use konumlu.Base.{ℕ, Option, not, ◌&&◌, ◌==◌, keep, ◌>>◌, Result-cases, inl, inr, Bool-cases}
use konumlu.Contracts.{NeedRef}
use konumlu.Offers.Domain
use konumlu.Offers.Domain.{
  Err, Offer, Content, is_submitted, is_accepted, is_withdrawn, is_rejected, submit,
}
use konumlu.Offers.Memory
use konumlu.Offers.Memory.Exclusive.{update-IsExclusive}
use konumlu.Offers.Setup.{Setup, World, assert_need_owner, is_conflict, is_not_found}
use konumlu.Offers.Work.{run_maybe_tx, list_by_need}
use konumlu.Offers.Service.{
  may_submit, commit_submit, create_new, create, may_withdraw, withdraw, commit_reject, offer_on,
  reject, commit_accept, may_accept, accept,
}
use konumlu.Offers.Service.Exclusive.{
  Holds, Fair, run_maybe_tx-Holds, commit_accept-Holds, commit_reject-Holds, commit_submit-Holds,
  ended,
}

module _ {Queue : Type 0} (s : Setup Queue) where
  accept-Holds :
      (between : World Queue → World Queue) (requester need id now : ℕ) (w : World Queue)
      → Fair between
      → Holds w
      → Holds (accept s between requester need id now w).1
  unfolding accept
  accept-Holds between r need id now w fb h = elim (Result-cases (may_accept s r need id w)) [
    | inr (e, q) ↦ rw (q, accept) h
    | inl (c, q) ↦ elim (Bool-cases (is_accepted c.status)) [
      | inl a ↦ rw (q, accept) (rw a h)
      | inr a ↦ elim (Result-cases (list_by_need s need w)) [
        | inr (e, l) ↦ rw (q, accept) (rw a (rw l h))
        | inl (os, l) ↦
            let siblings = keep (λ (o : Offer). not (o.id == id) && is_submitted o.status) os in
            let v = between w in
            rw (q, accept)
              (rw a (
                rw l (
                  run_maybe_tx-Holds s (commit_accept s r need id now siblings) v (fb w h)
                    (commit_accept-Holds s r need id now siblings v (fb w h)))))
      ]
    ]
  ]

  reject-Holds :
      (between : World Queue → World Queue) (requester need id now : ℕ) (w : World Queue)
      → Fair between
      → Holds w
      → Holds (reject s between requester need id now w).1
  unfolding reject
  reject-Holds between r need id now w fb h =
      elim (Result-cases (assert_need_owner s need r >> offer_on s need id w)) [
        | inr (e, q) ↦ rw (q, reject) h
        | inl (c, q) ↦ elim (Bool-cases (is_rejected c.status)) [
          | inl a ↦ rw (q, reject) (rw a h)
          | inr a ↦ elim (Result-cases (Domain.reject c now)) [
            | inr (e, d) ↦ rw (q, reject) (rw a (rw d h))
            | inl (next, d) ↦
                let v = between w in
                let fn = commit_reject s next c.updated_at r in
                rw (q, reject)
                  (rw a (
                    rw d (
                      run_maybe_tx-Holds s fn v (fb w h) (
                        commit_reject-Holds s next c.updated_at r v (fb w h)
                          (ended s c next now (inl d))))))
          ]
        ]
      ]

  withdraw-Holds :
      (between : World Queue → World Queue) (provider id now : ℕ) (w : World Queue)
      → Fair between
      → Holds w
      → Holds (withdraw s between provider id now w).1
  unfolding withdraw
  withdraw-Holds between p id now w fb h = elim (Result-cases (may_withdraw s p id w)) [
    | inr (e, q) ↦ rw (q, withdraw) h
    | inl (c, q) ↦ elim (Bool-cases (is_withdrawn c.status)) [
      | inl a ↦ rw (q, withdraw) (rw a h)
      | inr a ↦ elim (Result-cases (Domain.withdraw c now)) [
        | inr (e, d) ↦ rw (q, withdraw) (rw a (rw d h))
        | inl (next, d) ↦
            let v = between w in
            let (x, y) = ended s c next now (inr d) in
            rw (q, withdraw)
              (rw a (rw d (update-IsExclusive v.ctx next c.updated_at v.store (fb w h) x y)))
      ]
    ]
  ]

  create_new-Holds :
      (between later : World Queue → World Queue) (provider : ℕ) (rand : Option ℕ) (now : ℕ)
      (c : Content) (need : NeedRef) (w : World Queue)
      → Fair between
      → Fair later
      → Holds w
      → Holds (create_new s between later provider rand now c need w).1
  unfolding create_new
  create_new-Holds between later p rand now c need w fb fl h =
      elim (Result-cases (submit rand p c now)) [
        | inr (e, q) ↦ rw (q, create_new) h
        | inl (o, q) ↦
            let r = need.requester_user_id in
            let fn = commit_submit s o r p in
            let v = between w in
            let done =
              run_maybe_tx-Holds s fn v (fb w h) (commit_submit-Holds s o r p v (fb w h)) in
            elim (Result-cases (run_maybe_tx s fn v).0) [
              | inl (_, f) ↦ rw (q, create_new) (rw f done)
              | inr (e, f) ↦ elim (Bool-cases (is_conflict e)) [
                | inl k ↦ rw (q, create_new) (rw f (rw k (fl _ done)))
                | inr k ↦ rw (q, create_new) (rw f (rw k done))
              ]
            ]
      ]

  create-Holds :
      (between later : World Queue → World Queue) (provider : ℕ) (content : Content)
      (rand : Option ℕ) (now : ℕ) (w : World Queue)
      → Fair between
      → Fair later
      → Holds w
      → Holds (create s between later provider content rand now w).1
  unfolding create
  create-Holds between later p content rand now w fb fl h =
      elim (Result-cases (may_submit s p content)) [
        | inr (e, q) ↦ rw (q, create) h
        | inl ((c, need), q) ↦
            elim (Result-cases (Memory.find_submitted w.ctx c.need_id c.service_id w.store)) [
              | inl (o, f) ↦ rw (q, create) (rw f h)
              | inr (e, f) ↦ elim (Bool-cases (is_not_found e)) [
                | inl k ↦
                    rw (q, create)
                      (rw f (rw k (create_new-Holds between later p rand now c need w fb fl h)))
                | inr k ↦ rw (q, create) (rw f (rw k h))
              ]
            ]
      ]

  -- Create, Accept, Reject and Withdraw keep the invariant of the store of offers (every offer
  -- valid and under its own identifier, at most one accepted offer for a need, at most one
  -- submitted offer for a need and a service), whatever fair requests run between their reads
  -- and their commits.
  pub requests-IsExclusive :
      (between later : World Queue → World Queue) (user need id now : ℕ) (content : Content)
      (rand : Option ℕ) (w : World Queue)
      → Fair between
      → Fair later
      → Holds w
      → Holds (create s between later user content rand now w).1
        × Holds (accept s between user need id now w).1
        × Holds (reject s between user need id now w).1
        × Holds (withdraw s between user id now w).1
  requests-IsExclusive between later user need id now content rand w fb fl h = (
    create-Holds between later user content rand now w fb fl h,
    accept-Holds between user need id now w fb h,
    reject-Holds between user need id now w fb h,
    withdraw-Holds between user id now w fb h,
  )
