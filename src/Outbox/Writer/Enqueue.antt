-- ===== src/Outbox/Writer/Enqueue.antt =====
-- What an enqueue leaves in the outbox.
use konumlu.Base.{ℕ, ◌≡◌, true, Option, none, some, List, ◌∷◌, arith, ok, err}
use konumlu.Text.{text_eq_refl}
use konumlu.Ids.{new_id}
use konumlu.Outbox.Event.{Err, conflict, Event, Unicode, validate}
use konumlu.Outbox.Store.{Table, insert, row_claimable}
use konumlu.Outbox.Writer.{NewEvent, enqueue}

-- An event that was enqueued is valid, stands at the head of the table, is claimable at once and
-- has no attempts.
pub enqueue-stored :
    (u : Unicode) (rand : Option ℕ) (now : ℕ) (n : NewEvent) (t t' : Table) {e : Event}
    → enqueue u rand now n t ≡ (ok e, t')
    → (validate u e ≡ ok tt)
      × (t'.rows ≡ e ∷ t.rows)
      × (row_claimable now e ≡ true)
      × (e.attempts ≡ 0)
unfolding enqueue insert new_id row_claimable
enqueue-stored u none now n t t' h = ground arith
enqueue-stored u (some r) now n t t' h = ground arith

-- An enqueue that fails leaves the table as it was.
pub enqueue-error :
    (u : Unicode) (rand : Option ℕ) (now : ℕ) (n : NewEvent) (t t' : Table) {x : Err}
    → enqueue u rand now n t ≡ (err x, t')
    → t' ≡ t
unfolding enqueue insert new_id
enqueue-error u none now n t t' h = ground arith
enqueue-error u (some r) now n t t' h = ground arith

-- Once an event with an idempotency key is in the table, another event with the same key is
-- refused as a conflict and the table stays as it is.
pub insert-once :
    (e d : Event) (t t' : Table) (key : List ℕ)
    → insert e t ≡ (ok tt, t')
    → e.idempotency_key ≡ some key
    → d.idempotency_key ≡ some key
    → insert d t' ≡ (err conflict, t')
unfolding insert
insert-once e d t t' key h ke kd = ground (arith, text_eq_refl key)
