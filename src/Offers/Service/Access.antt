-- ===== src/Offers/Service/Access.antt =====
-- Who may accept an offer, and what the answer of Accept is.
use konumlu.Base.{
  ℕ, ◌≡◌, ap, true, not, ◌&&◌, ◌==◌, Option, some, List, keep, arith, lookup, ok, is_ok,
  Result-cases, Bool-cases, inl, inr, refl,
}
use konumlu.Offers.Domain.{Err, Offer, is_submitted, is_accepted}
use konumlu.Offers.Memory
use konumlu.Offers.Memory.{Store, first, submitted_on, find_submitted}
use konumlu.Offers.Memory.Winner.{accept_exclusive-IsWon}
use konumlu.Offers.Setup.{Setup, World, assert_need_owner, require_open_need}
use konumlu.Offers.Work.{get, run_maybe_tx, list_by_need}
use konumlu.Offers.Service.{offer_on, commit_accept, may_accept, accept}
use konumlu.Offers.Service.Exclusive.{commit_accept-store}
use konumlu.Offers.Service.Atomic.{run_maybe_tx-ok}

exclusive-got :
    (ctx : Option Err) (id need now : ℕ) (m : Store) (x : Offer)
    → (Memory.accept_exclusive ctx id need now m).0 ≡ ok x
    → (lookup id (Memory.accept_exclusive ctx id need now m).1.by_id ≡ some x)
      × (x.need_id ≡ need)
      × (is_accepted x.status ≡ true)
exclusive-got ctx id need now m x h =
    let m' = (Memory.accept_exclusive ctx id need now m).1 in
    let (o, l, n, c) = accept_exclusive-IsWon id need now ctx x m m' (ground (arith, h)) in
    elim c [
      | inl (a, e, same) ↦ (ground (arith, e, same, l), rw e n, rw e a)
      | inr won ↦ (won.held, rw won.winner n, rw won.winner refl)
    ]

module _ {Queue : Type 0} (s : Setup Queue) where
  commit_accept-got :
      (r need id now : ℕ) (os : List Offer) (w : World Queue) (x : Offer)
      → (commit_accept s r need id now os w).0 ≡ ok x
      → (Memory.accept_exclusive w.ctx id need now w.store).0 ≡ ok x
  unfolding commit_accept
  commit_accept-got r need id now os w x h =
      elim (Result-cases (Memory.accept_exclusive w.ctx id need now w.store).0) [
        | inr (e, q) ↦ absurd (ground (arith, q))
        | inl (y, q) ↦ ground (arith, q)
      ]

  may_accept-read :
      (r need id : ℕ) (w : World Queue) (c : Offer)
      → may_accept s r need id w ≡ ok c
      → (assert_need_owner s need r ≡ ok tt)
        × (is_ok (require_open_need s need) ≡ true)
        × (lookup id w.store.by_id ≡ some c)
        × (c.need_id ≡ need)
  unfolding may_accept offer_on get Memory.get
  may_accept-read r need id w c h = (ground arith, ground arith, ground arith, ground arith)

  current-found :
      (r need id now : ℕ) (os : List Offer) (w : World Queue) (x : Offer)
      → (run_maybe_tx s (commit_accept s r need id now os) w).0 ≡ ok x
      → (lookup id (run_maybe_tx s (commit_accept s r need id now os) w).1.store.by_id ≡ some x)
        × (x.need_id ≡ need)
        × (is_accepted x.status ≡ true)
  current-found r need id now os w x h =
      let (f, v) = run_maybe_tx-ok s (commit_accept s r need id now os) w x h in
      let (l, n, a) =
        exclusive-got w.ctx id need now w.store x (commit_accept-got r need id now os w x f) in
      (rw (v, commit_accept-store s r need id now os w) l, n, a)

  -- Where Accept succeeds, its caller owns the need, the need is open, and the answer is an
  -- accepted offer of that need which the store holds, whatever other requests have done before
  -- its commit.
  pub accept-owner :
      (between : World Queue → World Queue) (requester need id now : ℕ) (w w' : World Queue)
      (got : Offer)
      → accept s between requester need id now w ≡ (ok got, w')
      → (assert_need_owner s need requester ≡ ok tt)
        × (is_ok (require_open_need s need) ≡ true)
        × (got.need_id ≡ need)
        × (is_accepted got.status ≡ true)
        × (lookup id w'.store.by_id ≡ some got)
  unfolding accept
  accept-owner between r need id now w w' got h = elim (Result-cases (may_accept s r need id w)) [
    | inr (e, q) ↦ absurd (ground (arith, q))
    | inl (c, q) ↦
        let (owns, opens, l, n) = may_accept-read r need id w c q in
        elim (Bool-cases (is_accepted c.status)) [
          | inl a ↦ (owns, opens, ground (arith, q, a), ground (arith, q, a), ground (arith, q, a))
          | inr a ↦ elim (Result-cases (list_by_need s need w)) [
            | inr (e, b) ↦ absurd (ground (arith, q, a, b))
            | inl (os, b) ↦
                let siblings = keep (λ (o : Offer). not (o.id == id) && is_submitted o.status) os in
                let run = run_maybe_tx s (commit_accept s r need id now siblings) (between w) in
                let e : run ≡ (ok got, w') = ground (arith, q, a, b) in
                let (held, same, acc) =
                  current-found r need id now siblings (between w) got (ap (λ x. x.0) e) in
                (owns, opens, same, acc, rw (← ap (λ x. x.1) e) held)
          ]
        ]
  ]
