-- ===== src/Transactions/Service/Sent.antt =====
-- The guarded update of service.go and the event that goes with it.
use konumlu.Base.{
  ℕ, ◌≡◌, true, Option, none, some, arith, lookup, insert, Result, ok, err, is_some, ◌⊎◌, inl, inr,
  Result-cases, Option-cases,
}
use konumlu.Outbox.Writer.{NewEvent}
use konumlu.Transactions.Domain.{Err, outbox_conflict, Transaction, validate}
use konumlu.Transactions.Memory
use konumlu.Transactions.Memory.{Store}
use konumlu.Transactions.Setup.{Setup, World}
use konumlu.Transactions.Service.{emit, commit_update}

module _ {Queue : Type 0} (s : Setup Queue) where
  -- An event is in the outbox: the enqueuer has put it on the queue, and nothing else has changed, or
  -- has found it there already, and nothing has changed.
  abbrev pub Enqueued :
      (NewEvent → Queue → Result Err Queue) → NewEvent → World Queue → World Queue → Type 0
  Enqueued enqueue n w w' =
      ((q : Queue) × (enqueue n w.queue ≡ ok q) × (w' ≡ record w { queue = q }))
      ⊎ ((enqueue n w.queue ≡ err outbox_conflict) × (w' ≡ w))

  -- What the event of a change has done to the outbox: nothing where there is none to send.
  abbrev pub Sent : Option (Result Err NewEvent) → World Queue → World Queue → Type 0
  Sent none w w' = w' ≡ w
  Sent (some ev) w w' =
      (enqueue : NewEvent → Queue → Result Err Queue) × (n : NewEvent) × (s.outbox ≡ some enqueue)
      × (ev ≡ ok n)
      × Enqueued enqueue n w w'

  emit-Sent :
      (ev : Result Err NewEvent) (w w' : World Queue)
      → is_some s.outbox ≡ true
      → emit s ev w ≡ (ok tt, w')
      → Sent (some ev) w w'
  unfolding emit
  emit-Sent ev w w' set h = elim (Option-cases s.outbox) [
    | inl e ↦ absurd (ground (arith, set, e))
    | inr (enqueue, e) ↦ elim (Result-cases ev) [
      | inr (x, f) ↦ absurd (ground (arith, f, rw e at h))
      | inl (n, f) ↦ elim (Result-cases (enqueue n w.queue)) [
        | inl (q, g) ↦ (enqueue, n, e, f, inl (q, g, ground (arith, f, g, rw e at h)))
        | inr (x, g) ↦ (
          enqueue,
          n,
          e,
          f,
          inr (ground (arith, f, g, rw e at h), ground (arith, f, g, rw e at h)),
        )
      ]
    ]
  ]

  abbrev pub stored : Transaction → World Queue → World Queue
  stored next w = record w { store = record w.store { by_id = insert next.id next w.store.by_id } }

  -- An update that is committed has stored a valid transaction over the version that it was made of.
  pub commit_update-ok :
      (next : Transaction) (seen : ℕ) (ev : Option (Result Err NewEvent)) (w w' : World Queue)
      → is_some s.outbox ≡ true
      → commit_update s next seen ev w ≡ (ok tt, w')
      → Sent ev (stored next w) w'
        × (validate next ≡ ok tt)
        × ((c : Transaction) × (lookup next.id w.store.by_id ≡ some c) × (c.updated_at ≡ seen))
  unfolding commit_update Memory.update Memory.may_update
  commit_update-ok next seen none w w' set h = (ground arith, ground arith, ground arith)
  commit_update-ok next seen (some n) w w' set h =
      (emit-Sent n (stored next w) w' set (ground arith), ground arith, ground arith)
