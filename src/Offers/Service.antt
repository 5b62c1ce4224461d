-- ===== src/Offers/Service.antt =====
-- service.go: the requests on offers. What other requests do to the world is a function: `between` after
-- the reads of a request and before its commit, `later` before the read after a conflict.
pub mod Exclusive
pub mod Invariant
pub mod Atomic
pub mod Access
pub mod Answers
use konumlu.Base.{
  ℕ, ◌≡◌, Bool, true, false, not, ◌&&◌, ◌||◌, Option, none, some, List, [], ◌∷◌, arith, ◌==◌,
  if◌then◌else◌, is_some, keep, Result, ok, err, ◌>>=◌, ◌>>◌, refuse, or_err, map_err,
}
use konumlu.Text.{codes}
use konumlu.Ids.{is_zero}
use konumlu.Contracts.{NeedRef}
use konumlu.Outbox.Writer.{NewEvent}
use konumlu.Offers.Domain
use konumlu.Offers.Domain.{
  Err, zero_id, store_required, not_found, conflict, outbox_conflict, Offer, Content,
  content_normalized, submit, is_submitted, is_accepted, is_rejected, is_withdrawn,
}
use konumlu.Offers.Memory
use konumlu.Offers.Memory.{Store}
use konumlu.Offers.Events.{submitted_type, accepted_type, rejected_type, encode_transition}
use konumlu.Offers.Setup.{
  Setup, World, mapped, map_store_err, is_conflict, is_not_found, require_open_need,
  assert_need_owner, assert_business_owner, assert_eligible,
}
use konumlu.Offers.Work.{Step, get, list_by_need, enqueue_transition, run_maybe_tx}

module _ {Queue : Type 0} (s : Setup Queue) where
  -- The checks of Create, and the search for an offer that is submitted already.
  unfoldable pub may_submit : ℕ → Content → Result Err (Content × NeedRef)
  may_submit provider content = do
    refuse (not s.store_set) store_required
    refuse (is_zero provider) zero_id
    c ← content_normalized content
    need ← require_open_need s c.need_id
    assert_business_owner s c.provider_business_id provider
    assert_eligible s need c.provider_business_id c.service_id
    ok (c, need)

  -- The closure that Create commits.
  unfoldable pub commit_submit : Offer → ℕ → ℕ → Step Queue (Unit {0})
  commit_submit o requester provider w =
      let (r, st) = Memory.create w.ctx o w.store in
      let w' = record w { store = st } in
      elim r [
        | err e ↦ (err (map_store_err e), w')
        | ok _ ↦ enqueue_transition s submitted_type (codes "submitted") o requester provider w'
      ]

  -- The offer that Create answers with after a conflict.
  unfoldable pub after_conflict : ℕ → Content → World Queue → Result Err Offer
  after_conflict provider c w = elim (Memory.find_submitted w.ctx c.need_id c.service_id w.store) [
    | err e ↦ err conflict
    | ok o ↦ if o.provider_user_id == provider then ok o else err conflict
  ]

  -- The rest of Create, where no submitted offer was found.
  unfoldable pub create_new :
      (World Queue → World Queue)
      → (World Queue → World Queue)
      → ℕ
      → Option ℕ
      → ℕ
      → Content
      → NeedRef
      → World Queue
      → Result Err Offer × World Queue
  create_new between later provider rand now c need w = elim (submit rand provider c now) [
    | err e ↦ (err e, w)
    | ok o ↦
        let (r, w') =
          run_maybe_tx s (commit_submit o need.requester_user_id provider) (between w) in
        elim r [
          | ok _ ↦ (ok o, w')
          | err e ↦
              if not (is_conflict e)
              then (err e, w')
              else (after_conflict provider c (later w'), later w')
        ]
  ]

  -- `Create`
  unfoldable pub create :
      (World Queue → World Queue)
      → (World Queue → World Queue)
      → ℕ
      → Content
      → Option ℕ
      → ℕ
      → World Queue
      → Result Err Offer × World Queue
  create between later provider content rand now w = elim (may_submit provider content) [
    | err e ↦ (err e, w)
    | ok (c, need) ↦ elim (Memory.find_submitted w.ctx c.need_id c.service_id w.store) [
      | ok o ↦ (
        if not (o.provider_user_id == provider)
              || not (o.provider_business_id == c.provider_business_id)
            then err conflict
            else ok o,
        w,
      )
      | err e ↦
          if not (is_not_found e)
          then (err (map_store_err e), w)
          else create_new between later provider rand now c need w
    ]
  ]

  -- `Withdraw`
  unfoldable pub may_withdraw : ℕ → ℕ → World Queue → Result Err Offer
  may_withdraw provider id w = do
    current ← get s id w
    refuse (not (current.provider_user_id == provider)) not_found
    ok current

  unfoldable pub withdraw :
      (World Queue → World Queue) → ℕ → ℕ → ℕ → World Queue → Result Err Offer × World Queue
  withdraw between provider id now w = elim (may_withdraw provider id w) [
    | err e ↦ (err e, w)
    | ok current ↦
        if is_withdrawn current.status
        then (ok current, w)
        else elim (Domain.withdraw current now) [
          | err e ↦ (err e, w)
          | ok next ↦
              let v = between w in
              let (r, st) = Memory.update v.ctx next current.updated_at v.store in
              (mapped r >> ok next, record v { store = st })
        ]
  ]

  -- The closure of Reject: the guarded update, then the event.
  unfoldable pub commit_reject : Offer → ℕ → ℕ → Step Queue (Unit {0})
  commit_reject next seen requester w =
      let (r, st) = Memory.update w.ctx next seen w.store in
      let w' = record w { store = st } in
      elim r [
        | err e ↦ (err (map_store_err e), w')
        | ok _ ↦ enqueue_transition s rejected_type (codes "rejected") next requester requester w'
      ]

  -- The reads of Reject, and of Accept after its checks of the need.
  unfoldable pub offer_on : ℕ → ℕ → World Queue → Result Err Offer
  offer_on need id w = do
    current ← get s id w
    refuse (not (current.need_id == need)) not_found
    ok current

  -- `Reject`
  unfoldable pub reject :
      (World Queue → World Queue) → ℕ → ℕ → ℕ → ℕ → World Queue → Result Err Offer × World Queue
  reject between requester need id now w =
      elim (assert_need_owner s need requester >> offer_on need id w) [
        | err e ↦ (err e, w)
        | ok current ↦
            if is_rejected current.status
            then (ok current, w)
            else elim (Domain.reject current now) [
              | err e ↦ (err e, w)
              | ok next ↦
                  let (r, w') =
                    run_maybe_tx s (commit_reject next current.updated_at requester) (between w) in
                  (r >> ok next, w')
            ]
      ]

  -- The events of the siblings that Accept has found submitted.
  unfoldable pub reject_events : List Offer → ℕ → Step Queue (Unit {0})
  reject_events [] requester w = (ok tt, w)
  reject_events (o ∷ os) requester w =
      let (r, w') = enqueue_transition s rejected_type (codes "rejected") o requester requester w in
      let rest = reject_events os requester w' in elim r [ err e ↦ (err e, w') | ok _ ↦ rest ]

  -- The events of an acceptance; `got.Status != StatusAccepted` never holds after AcceptExclusive.
  unfoldable pub accept_events : Offer → List Offer → ℕ → Step Queue (Unit {0})
  accept_events got siblings requester w =
      if not (is_accepted got.status)
      then (ok tt, w)
      else let (r, w') =
          enqueue_transition s accepted_type (codes "accepted") got requester requester w in
        elim r [ err e ↦ (err e, w') | ok _ ↦ reject_events siblings requester w' ]

  -- The closure that Accept commits; its value is `got`.
  unfoldable pub commit_accept : ℕ → ℕ → ℕ → ℕ → List Offer → Step Queue Offer
  commit_accept requester need id now siblings w =
      let (r, st) = Memory.accept_exclusive w.ctx id need now w.store in
      let w' = record w { store = st } in
      elim r [
        | err e ↦ (err (map_store_err e), w')
        | ok got ↦ let (q, v) = accept_events got siblings requester w' in (q >> ok got, v)
      ]

  -- The checks of Accept.
  unfoldable pub may_accept : ℕ → ℕ → ℕ → World Queue → Result Err Offer
  may_accept requester need id w = do
    assert_need_owner s need requester
    require_open_need s need
    offer_on need id w

  -- `Accept`
  unfoldable pub accept :
      (World Queue → World Queue) → ℕ → ℕ → ℕ → ℕ → World Queue → Result Err Offer × World Queue
  accept between requester need id now w = elim (may_accept requester need id w) [
    | err e ↦ (err e, w)
    | ok current ↦
        if is_accepted current.status then (ok current, w) else elim (list_by_need s need w) [
          | err e ↦ (err e, w)
          | ok offers ↦
              let siblings = keep (λ o. not (o.id == id) && is_submitted o.status) offers in
              run_maybe_tx s (commit_accept requester need id now siblings) (between w)
        ]
  ]
