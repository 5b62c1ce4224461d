-- ===== src/Transactions/Service/Atomic.antt =====
-- The requests of service.go as units of work.
use konumlu.Base.{
  ℕ, ◌≡◌, ◌≢◌, true, false, not, ◌&&◌, Option, some, arith, lookup, Result, ok, err, is_ok, is_some,
  ok-injective, subst, ap, ◌∙◌, ◌⊎◌, inl, inr, Result-cases,
}
use konumlu.Outbox.Writer.{NewEvent}
use konumlu.Transactions.Domain.{Err, Transaction, Change, validate}
use konumlu.Transactions.Memory
use konumlu.Transactions.Memory.{Store}
use konumlu.Transactions.Setup.{Setup, World}
use konumlu.Transactions.Service.{
  get_for, reread, run_maybe_tx, commit_update, commit_change, apply,
}
use konumlu.Transactions.Service.Sent.{stored, Sent, commit_update-ok}

module _ {Queue : Type 0} (s : Setup Queue) where
  -- The service writes in a database transaction: it has an outbox and a transactor, and the request is
  -- not in a transaction already.
  abbrev pub InTransaction : World Queue → Type 0
  InTransaction w = (is_some s.outbox && s.has_tx && not w.in_tx) ≡ true

  -- A unit of work that fails leaves the store and the outbox as they were.
  pub run_maybe_tx-error :
      (fn : World Queue → Result Err (Unit {0}) × World Queue) (w : World Queue)
      → InTransaction w
      → is_ok (run_maybe_tx s fn w).0 ≡ false
      → (run_maybe_tx s fn w).1 ≡ w
  unfolding run_maybe_tx
  run_maybe_tx-error fn w t h = ground arith

  commit_change-error :
      (fn : Transaction → ℕ → Change) (ev : Option (Result Err NewEvent)) (user id now' : ℕ)
      (current next : Transaction) (w w' : World Queue) {e : Err}
      → InTransaction w
      → commit_change s (λ x. x) (λ x. x) fn ev user id now' current next w ≡ (err e, w')
      → w' ≡ w
  unfolding commit_change
  commit_change-error fn ev user id now' current next w w' t h =
      ground (arith, run_maybe_tx-error (commit_update s next current.updated_at ev) w t)

  -- In a database transaction and with no other request running, a request that fails leaves
  -- the store and the outbox as they were.
  pub apply-error :
      (fn : Transaction → ℕ → Change) (event : Transaction → Option (Result Err NewEvent))
      (user id now now' : ℕ) (w w' : World Queue) {e : Err}
      → InTransaction w
      → apply s (λ x. x) (λ x. x) fn event user id now now' w ≡ (err e, w')
      → w' ≡ w
  unfolding apply
  apply-error fn event user id now now' w w' {e = x} t h =
      elim (Result-cases (get_for s user id w)) [
        | inr (y, e) ↦ ground (arith, e)
        | inl (c, e) ↦ elim (Result-cases (fn c now)) [
          | inr (y, f) ↦ ground (arith, e, f)
          | inl ((next, false), f) ↦ ground (arith, e, f)
          | inl ((next, true), f) ↦
              commit_change-error fn (event next) user id now' c next w w' {e = x} t
                (ground (arith, e, f))
        ]
      ]

  run_maybe_tx-ok :
      (fn : World Queue → Result Err (Unit {0}) × World Queue) (w w' : World Queue)
      → run_maybe_tx s fn w ≡ (ok tt, w')
      → fn w ≡ (ok tt, w')
  unfolding run_maybe_tx
  run_maybe_tx-ok fn w w' h = ground arith

  -- There is nothing to change of the stored transaction that the user finds, at one of the two times.
  abbrev pub Settled :
      (Transaction → ℕ → Change) → ℕ → ℕ → ℕ → ℕ → World Queue → Transaction → Type 0
  Settled fn user id now now' w t =
      (get_for s user id w ≡ ok t)
      × (x : Transaction) × ((fn t now ≡ ok (x, false)) ⊎ (fn t now' ≡ ok (x, false)))

  reread-ok :
      (fn : Transaction → ℕ → Change) (user id now now' : ℕ) (w : World Queue) (t : Transaction)
      → reread s user id fn now' w ≡ ok t
      → Settled fn user id now now' w t
  unfolding reread
  reread-ok fn user id now now' w t h = elim (Result-cases (get_for s user id w)) [
    | inr (y, e) ↦ absurd (ground (arith, rw e at h))
    | inl (c, e) ↦ elim (Result-cases (fn c now')) [
      | inr (y, f) ↦ absurd (ground (arith, rw f at (rw e at h)))
      | inl ((x, true), f) ↦ absurd (ground (arith, rw f at (rw e at h)))
      | inl ((x, false), f) ↦
          let same : c ≡ t = ok-injective (rw f at (rw e at h)) in
          (e ∙ ap ok same, x, inr (rw (← same) f))
    ]
  ]

  commit_change-ok :
      (fn : Transaction → ℕ → Change) (ev : Option (Result Err NewEvent)) (user id now now' : ℕ)
      (current next t : Transaction) (w w' : World Queue)
      → InTransaction w
      → commit_change s (λ x. x) (λ x. x) fn ev user id now' current next w ≡ (ok t, w')
      → ((w' ≡ w) × Settled fn user id now now' w t)
        ⊎ ((t ≡ next)
            × (run_maybe_tx s (commit_update s next current.updated_at ev) w ≡ (ok tt, w')))
  unfolding commit_change
  commit_change-ok fn ev user id now now' current next t w w' tx h =
      let body = commit_update s next current.updated_at ev in
      let run = run_maybe_tx s body w in
      elim (Result-cases run.0) [
        | inl (_, e) ↦ inr (ground (arith, e), ground (arith, e))
        | inr (x, e) ↦
            let back : run.1 ≡ w = run_maybe_tx-error body w tx (ground (arith, e)) in
            let again : reread s user id fn now' run.1 ≡ ok t = ground (arith, e) in
            inl (
              ground (arith, e, back),
              reread-ok fn user id now now' w t
                  (subst (λ v. reread s user id fn now' v ≡ ok t) back again),
            )
      ]

  -- In a database transaction and with no other request running, a request that succeeds has
  -- found that there is nothing to change of the stored transaction, and has changed nothing,
  -- or has stored a valid transaction, the one that it returns, and in the same unit the
  -- enqueuer of the outbox has accepted the event of that change, where it has one, and put it
  -- on the queue, or has answered that the event is there already.
  pub apply-ok :
      (fn : Transaction → ℕ → Change) (event : Transaction → Option (Result Err NewEvent))
      (user id now now' : ℕ) (w w' : World Queue) (t : Transaction)
      → InTransaction w
      → apply s (λ x. x) (λ x. x) fn event user id now now' w ≡ (ok t, w')
      → ((w' ≡ w) × Settled fn user id now now' w t)
        ⊎ (Sent s (event t) (stored s t w) w' × (validate t ≡ ok tt))
  unfolding apply
  apply-ok fn event user id now now' w w' t tx h = elim (Result-cases (get_for s user id w)) [
    | inr (y, e) ↦ absurd (ground (arith, rw (e, apply) at h))
    | inl (c, e) ↦ elim (Result-cases (fn c now)) [
      | inr (y, f) ↦ absurd (ground (arith, rw f at (rw (e, apply) at h)))
      | inl ((next, false), f) ↦
          let same : c ≡ t = ok-injective (ap (λ x. x.0) (rw f at (rw (e, apply) at h))) in
          inl (
            ground (arith, rw f at (rw (e, apply) at h)),
            (e ∙ ap ok same, next, inl (rw (← same) f)),
          )
      | inl ((next, true), f) ↦
          elim (commit_change-ok fn (event next) user id now now' c next t w w' tx
            (ground (arith, e, f))) [
              | inl same ↦ inl same
              | inr (eq, run) ↦
                  let (sent, v, _) =
                    commit_update-ok s next c.updated_at (event next) w w' (ground (arith, tx))
                      (run_maybe_tx-ok (commit_update s next c.updated_at (event next)) w w' run) in
                  inr (rw eq (sent, v))
            ]
    ]
  ]

  stale_update :
      (next c : Transaction) (seen : ℕ) (ev : Option (Result Err NewEvent)) (w : World Queue)
      → lookup next.id w.store.by_id ≡ some c
      → c.updated_at ≢ seen
      → is_ok (commit_update s next seen ev w).0 ≡ false
  unfolding commit_update Memory.update Memory.may_update
  stale_update next c seen ev w l ne = ground arith

  run_maybe_tx-fails :
      (fn : World Queue → Result Err (Unit {0}) × World Queue) (w : World Queue)
      → is_ok (fn w).0 ≡ false
      → is_ok (run_maybe_tx s fn w).0 ≡ false
  unfolding run_maybe_tx
  run_maybe_tx-fails fn w h = ground arith

  -- No lost update: in a database transaction, where another request has moved the update time
  -- of the transaction since this request read it, this request writes nothing: the world is as
  -- the other requests have left it before its commit, or before its second read.
  pub apply-stale :
      (between later : World Queue → World Queue) (fn : Transaction → ℕ → Change)
      (event : Transaction → Option (Result Err NewEvent)) (user id now now' : ℕ) (w : World Queue)
      (current next c : Transaction)
      → get_for s user id w ≡ ok current
      → fn current now ≡ ok (next, true)
      → lookup next.id (between w).store.by_id ≡ some c
      → c.updated_at ≢ current.updated_at
      → InTransaction (between w)
      → let w' = (apply s between later fn event user id now now' w).1 in
        (w' ≡ between w) ⊎ (w' ≡ later (between w))
  unfolding apply commit_change
  apply-stale between later fn event user id now now' w current next c g f l ne tx =
      let commit = commit_update s next current.updated_at (event next) in
      let fails =
        run_maybe_tx-fails commit (between w)
          (stale_update next c current.updated_at (event next) (between w) l ne) in
      ground (arith, g, f, fails, run_maybe_tx-error commit (between w) tx fails)
