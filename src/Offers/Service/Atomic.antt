-- ===== src/Offers/Service/Atomic.antt =====
-- Accept and Reject of service.go as units of work.
use konumlu.Base.{
  ℕ, ◌≡◌, ◌⊎◌, true, false, not, ◌&&◌, ◌==◌, keep, arith, ok, is_ok, is_some, ◌>>◌, Result-cases,
  Bool-cases, inl, inr,
}
use konumlu.Offers.Domain
use konumlu.Offers.Domain.{Err, Offer, Content, is_submitted, is_accepted, is_rejected, submit}
use konumlu.Offers.Setup.{Setup, World, assert_need_owner}
use konumlu.Offers.Work.{Step, run_maybe_tx, list_by_need}
use konumlu.Offers.Service.{commit_reject, offer_on, reject, commit_accept, may_accept, accept}

module _ {Queue : Type 0} (s : Setup Queue) where
  -- The service writes in a database transaction: it has an outbox and a transactor, and the request is
  -- not in a transaction already.
  abbrev pub InTransaction : World Queue → Type 0
  InTransaction w = (is_some s.outbox && s.has_tx && not w.in_tx) ≡ true

  -- A unit of work that fails leaves the store and the outbox as they were.
  pub run_maybe_tx-error :
      {A : Type 0} (fn : Step Queue A) (w : World Queue)
      → InTransaction w
      → is_ok (run_maybe_tx s fn w).0 ≡ false
      → (run_maybe_tx s fn w).1 ≡ w
  unfolding run_maybe_tx
  run_maybe_tx-error fn w t h = ground arith

  -- Where Accept fails, whatever other requests have done before its commit, it has changed neither the
  -- store nor the outbox itself.
  accept-error :
      (between : World Queue → World Queue) (requester need id now : ℕ) (w : World Queue)
      → InTransaction (between w)
      → is_ok (accept s between requester need id now w).0 ≡ false
      → ((accept s between requester need id now w).1 ≡ w)
        ⊎ ((accept s between requester need id now w).1 ≡ between w)
  unfolding accept
  accept-error between r need id now w t h = elim (Result-cases (may_accept s r need id w)) [
    | inr (e, q) ↦ inl (ground (arith, q))
    | inl (c, q) ↦ elim (Bool-cases (is_accepted c.status)) [
      | inl a ↦ inl (ground (arith, q, a))
      | inr a ↦ elim (Result-cases (list_by_need s need w)) [
        | inr (e, l) ↦ inl (ground (arith, q, a, l))
        | inl (os, l) ↦
            let siblings = keep (λ (o : Offer). not (o.id == id) && is_submitted o.status) os in
            let fn = commit_accept s r need id now siblings in
            inr (ground (arith, q, a, l, run_maybe_tx-error fn (between w) t))
      ]
    ]
  ]

  reject-error :
      (between : World Queue → World Queue) (requester need id now : ℕ) (w : World Queue)
      → InTransaction (between w)
      → is_ok (reject s between requester need id now w).0 ≡ false
      → ((reject s between requester need id now w).1 ≡ w)
        ⊎ ((reject s between requester need id now w).1 ≡ between w)
  unfolding reject
  reject-error between r need id now w t h =
      elim (Result-cases (assert_need_owner s need r >> offer_on s need id w)) [
        | inr (e, q) ↦ inl (ground (arith, q))
        | inl (c, q) ↦ elim (Bool-cases (is_rejected c.status)) [
          | inl a ↦ inl (ground (arith, q, a))
          | inr a ↦ elim (Result-cases (Domain.reject c now)) [
            | inr (e, l) ↦ inl (ground (arith, q, a, l))
            | inl (next, l) ↦
                let fn = commit_reject s next c.updated_at r in
                inr (ground (arith, q, a, l, run_maybe_tx-error fn (between w) t))
          ]
        ]
      ]

  -- In a database transaction, an Accept or a Reject that fails has changed neither the store
  -- nor the outbox itself: the world is as it was, or as the other requests have left it before
  -- the commit.
  pub decisions-error :
      (between : World Queue → World Queue) (requester need id now : ℕ) (w : World Queue)
      → InTransaction (between w)
      → (is_ok (accept s between requester need id now w).0 ≡ false
          → ((accept s between requester need id now w).1 ≡ w)
            ⊎ ((accept s between requester need id now w).1 ≡ between w))
        × (is_ok (reject s between requester need id now w).0 ≡ false
            → ((reject s between requester need id now w).1 ≡ w)
              ⊎ ((reject s between requester need id now w).1 ≡ between w))
  decisions-error between r need id now w t =
      (accept-error between r need id now w t, reject-error between r need id now w t)

  pub run_maybe_tx-ok :
      {A : Type 0} (fn : Step Queue A) (w : World Queue) (a : A)
      → (run_maybe_tx s fn w).0 ≡ ok a
      → ((fn w).0 ≡ ok a) × ((run_maybe_tx s fn w).1 ≡ (fn w).1)
  unfolding run_maybe_tx
  run_maybe_tx-ok fn w a h = (ground arith, ground arith)
