-- ===== src/Offers/Work.antt =====
-- service.go: the reads of the service, the events and the unit of work. Begin, Commit and Rollback are
-- PostgreSQL's: a commit that fails and a rollback leave what was there before.
use konumlu.Base.{
  ℕ, not, ◌&&◌, none, some, List, if◌then◌else◌, is_some, Result, ok, err, ◌>>◌, refuse,
}
use konumlu.Ids.{is_zero}
use konumlu.Offers.Domain.{Err, zero_id, store_required, outbox_conflict, Offer}
use konumlu.Offers.Memory
use konumlu.Offers.Memory.{Store}
use konumlu.Offers.Events.{encode_transition}
use konumlu.Offers.Setup.{Setup, World, mapped, map_store_err, assert_need_owner}

-- What a step of a unit of work does: its value or error, and the world that it leaves.
abbrev pub Step : Type 0 → Type 0 → Type 0
Step Queue A = World Queue → Result Err A × World Queue

module _ {Queue : Type 0} (s : Setup Queue) where
  -- `get`
  unfoldable pub get : ℕ → World Queue → Result Err Offer
  get id w = do
    refuse (not s.store_set) store_required
    refuse (is_zero id) zero_id
    mapped (Memory.get w.ctx id w.store)

  -- `listByNeed`
  unfoldable pub list_by_need : ℕ → World Queue → Result Err (List Offer)
  list_by_need need w = do
    refuse (not s.store_set) store_required
    mapped (Memory.list_by_need w.ctx need w.store)

  -- `ListForRequester` and `ListMine`
  unfoldable pub list_for_requester : ℕ → ℕ → World Queue → Result Err (List Offer)
  list_for_requester user need w = do assert_need_owner s need user; list_by_need need w

  unfoldable pub list_mine : ℕ → World Queue → Result Err (List Offer)
  list_mine user w = do
    refuse (not s.store_set) store_required
    refuse (is_zero user) zero_id
    mapped (Memory.list_by_provider w.ctx user w.store)

  -- enqueueTransition: an event that is there already is no error
  unfoldable pub enqueue_transition : List ℕ → List ℕ → Offer → ℕ → ℕ → Step Queue (Unit {0})
  enqueue_transition ty transition o requester actor w = elim s.outbox [
    | none ↦ (ok tt, w)
    | some enqueue ↦ elim (encode_transition ty transition o requester actor) [
      | err e ↦ (err e, w)
      | ok n ↦ elim (enqueue n w.queue) [
        | ok q ↦ (ok tt, record w { queue = q })
        | err outbox_conflict ↦ (ok tt, w)
        | err e ↦ (err (map_store_err e), w)
      ]
    ]
  ]

  -- runMaybeTx
  unfoldable pub run_maybe_tx : {A : Type 0} → Step Queue A → Step Queue A
  run_maybe_tx fn w =
      if is_some s.outbox && s.has_tx && not w.in_tx
      then elim w.begin_err [
        | some e ↦ (err (map_store_err e), w)
        | none ↦
            let (r, w') = fn w in
            elim r [
              | err e ↦ (err e, w)
              | ok a ↦ elim w.commit_err [ some e ↦ (err (map_store_err e), w) | none ↦ (ok a, w') ]
            ]
      ]
      else fn w
