-- ===== src/Outbox/Relay/Delivery.antt =====
-- Delivery by the relay: what a dispatch and a batch do to the rows.
use konumlu.Base.{
  ℕ, zero, suc, ◌≤◌, ◌<◌, length, true, ◌≡◌, ◌≢◌, refl, false, Option, none, some, List, [], ◌∷◌,
  map, arith, ◌==◌, if◌then◌else◌, is_empty, keep, ok, err, ◌⊎◌, inl, inr, Result-cases,
}
use konumlu.Text.{trim_space}
use konumlu.Outbox.Event.{Err, canceled, Event}
use konumlu.Outbox.Policy.{Float, Policy, next_available_at}
use konumlu.Outbox.Store.{Table, has_id, open_row, update_open, claim, complete, reschedule}
use konumlu.Outbox.Store.Claims.{reschedule-retries}
use konumlu.Outbox.Writer
use konumlu.Outbox.Writer.{or_clock, map_store_err}
use konumlu.Outbox.Relay.{
  Handler, Registry, lookup, unknown_handler, handler_failed, is_canceled, put_back, dispatch,
  dispatch_all,
}

-- The rows that bear an identifier.
abbrev pub rows_of : ℕ → Table → List Event
rows_of j t = keep (λ r. r.id == j) t.rows

keep-update :
    (i j : ℕ) (set : Event → Event) (rows : List Event)
    → i ≢ j
    → ((r : Event) → (set r).id ≡ r.id)
    → keep (λ r. r.id == j) (map (λ r. if open_row i r then set r else r) rows)
      ≡ keep (λ r. r.id == j) rows
unfolding open_row
keep-update i j set [] ne same = refl
keep-update i j set (r ∷ rows) ne same = ground (arith, same r, keep-update i j set rows ne same)

rows_of-update_open :
    (i j : ℕ) (set : Event → Event) (t : Table)
    → i ≢ j
    → ((r : Event) → (set r).id ≡ r.id)
    → rows_of j (update_open i set t).1 ≡ rows_of j t
unfolding update_open
rows_of-update_open i j set t ne same = ground (arith, keep-update i j set t.rows ne same)

rows_of-complete : (i j now : ℕ) (t : Table) → i ≢ j → rows_of j (complete i now t).1 ≡ rows_of j t
unfolding complete
rows_of-complete i j now t ne = rows_of-update_open i j _ t ne (λ r. refl)

rows_of-reschedule :
    (i j next : ℕ) (class : List ℕ) (t : Table)
    → i ≢ j
    → rows_of j (reschedule i next class t).1 ≡ rows_of j t
unfolding reschedule
rows_of-reschedule i j next class t ne = rows_of-update_open i j _ t ne (λ r. refl)

module _ (f : Float) (p : Policy f) (reg : Registry) where
  put_back-others :
      (now : ℕ) (rand : Option ℕ) (e : Event) (class : List ℕ) (t : Table) (j : ℕ)
      → e.id ≢ j
      → rows_of j (put_back f p reg now rand e class t) ≡ rows_of j t
  unfolding put_back Writer.reschedule
  put_back-others now rand e class t j ne =
      elim (Result-cases (next_available_at f p (or_clock now now) e.attempts rand)) [
        | inl (next, h) ↦ ground (arith, h, rows_of-reschedule e.id j next (trim_space class) t ne)
        | inr (x, h) ↦ ground (arith, h)
      ]

  -- A dispatch leaves the rows of every other event alone.
  pub dispatch-others :
      (now : ℕ) (rand : Option ℕ) (e : Event) (t : Table) (j : ℕ)
      → e.id ≢ j
      → rows_of j (dispatch f p reg now rand e t) ≡ rows_of j t
  unfolding dispatch Writer.complete
  dispatch-others now rand e t j ne = ground (
    arith,
    put_back-others now rand e unknown_handler t j ne,
    put_back-others now rand e handler_failed t j ne,
    rows_of-complete e.id j (or_clock now now) t ne,
  )

  -- The dispatch of a batch leaves alone the rows of every event that the batch does not hold.
  pub dispatch_all-others :
      (now : ℕ) (rand live : Option ℕ) (es : List Event) (t : Table) (j : ℕ)
      → has_id j es ≡ false
      → rows_of j (dispatch_all f p reg now rand live es t) ≡ rows_of j t
  unfolding dispatch_all has_id
  dispatch_all-others now rand live [] t j h = refl
  dispatch_all-others now rand (some zero) (e ∷ es) t j h = refl
  dispatch_all-others now rand (some (suc k)) (e ∷ es) t j h =
      let later =
        dispatch_all-others now rand (some k) es (dispatch f p reg now rand e t) j (ground arith) in
      ground (arith, later, dispatch-others now rand e t j (ground arith))
  dispatch_all-others now rand none (e ∷ es) t j h =
      let later =
        dispatch_all-others now rand none es (dispatch f p reg now rand e t) j (ground arith) in
      ground (arith, later, dispatch-others now rand e t j (ground arith))

  put_back_to :
      (now : ℕ) (rand : Option ℕ) (e : Event) (t t' : Table) (class : List ℕ) (next : ℕ)
      → trim_space class ≡ class
      → is_empty class ≡ false
      → next_available_at f p (or_clock now now) e.attempts rand ≡ ok next
      → e.id ≢ 0
      → reschedule e.id next class t ≡ (ok tt, t')
      → put_back f p reg now rand e class t ≡ t'
  unfolding put_back Writer.reschedule
  put_back_to now rand e t t' class next trimmed full n nz r = ground arith

  -- Why an event is put back: no handler is registered for it, or the handler has failed for a reason
  -- other than cancellation.
  abbrev pub Refused : Event → List ℕ → Type 0
  Refused e class =
      ((lookup reg e.event_type e.event_version ≡ none) × (class ≡ unknown_handler))
      ⊎ ((handle : Handler) × (x : Err) × (lookup reg e.event_type e.event_version ≡ some handle)
          × (handle e ≡ err x)
          × (is_canceled x ≡ false)
          × (class ≡ handler_failed))

  put_back_on :
      (now : ℕ) (rand : Option ℕ) (e : Event) (t : Table) (class : List ℕ)
      → Refused e class
      → dispatch f p reg now rand e t ≡ put_back f p reg now rand e class t
  unfolding dispatch
  put_back_on now rand e t class (inl (nothing, c)) = ground arith
  put_back_on now rand e t class (inr (handle, x, found, failed, live, c)) = ground arith

  class_trimmed :
      (e : Event) (class : List ℕ)
      → Refused e class
      → (trim_space class ≡ class) × (is_empty class ≡ false)
  unfolding trim_space
  class_trimmed e class (inl (_, c)) = rw c (refl, refl)
  class_trimmed e class (inr (_, _, _, _, _, c)) = rw c (refl, refl)

  -- An event with an identifier that no handler takes, or whose handler fails without being
  -- cancelled, is put back for its retry time once that time is found and the reschedule is
  -- written: the next claim does not return it before that time, and returns it from that time
  -- on unless the claim is full.
  pub dispatch-retried :
      (now : ℕ) (rand : Option ℕ) (e : Event) (t t' t'' : Table) (class : List ℕ)
      (next at lease limit : ℕ) {es : List Event}
      → Refused e class
      → next_available_at f p (or_clock now now) e.attempts rand ≡ ok next
      → e.id ≢ 0
      → reschedule e.id next class t ≡ (ok tt, t')
      → claim at lease limit (dispatch f p reg now rand e t) ≡ (ok es, t'')
      → ((at < next) × (has_id e.id es ≡ false))
        ⊎ ((next ≤ at) × ((has_id e.id es ≡ true) ⊎ (length es ≡ limit)))
  dispatch-retried now rand e t t' t'' class next at lease limit why n nz r k =
      let (trimmed, full) = class_trimmed e class why in
      reschedule-retries e.id next at lease limit class t t' t'' r (
        rw
          (
            put_back_on now rand e t class why,
            put_back_to now rand e t t' class next trimmed full n nz r,
          )
          at k)

  -- A handler that is cut off by cancellation leaves the table alone: the lease runs out and the
  -- event is delivered again.
  pub dispatch-canceled :
      (now : ℕ) (rand : Option ℕ) (e : Event) (t : Table) (handle : Handler)
      → lookup reg e.event_type e.event_version ≡ some handle
      → handle e ≡ err canceled
      → dispatch f p reg now rand e t ≡ t
  unfolding dispatch
  dispatch-canceled now rand e t handle found cut = ground arith
