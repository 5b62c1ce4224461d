-- ===== src/Outbox/Store/Held.antt =====
-- The rows that a lease holds, and that the statements of other workers keep (postgres.go).
use konumlu.Base.{
  ℕ, ◌≤◌, ◌<◌, ◌≡◌, refl, ◌⊎◌, ◌∙◌, Bool, true, false, not, ◌||◌, Option, none, some, List, [], ◌∷◌,
  map, arith, ◌==◌, if◌then◌else◌, keep, any, all, leb, ltb, is_some, inl, inr, Bool-cases, subst,
}
use konumlu.Outbox.Event.{Event}
use konumlu.Outbox.Store.{
  Table, row_claimable, picked, mark, has_id, same_key, insert, claim, complete, reschedule,
  increment_attempts, update_open, open_row,
}
use konumlu.Outbox.Store.Lemmas.{all-picked, all-no_id}
use konumlu.Outbox.Store.Steps.{
  Step, insert_step, claim_step, complete_step, reschedule_step, increment_step, outage, run,
  run_all, spares,
}

-- A row whose lease lasts at least to a time, or that is completed.
abbrev pub leased : ℕ → Option ℕ → Bool
leased until none = false
leased until (some u) = leb until u

abbrev pub kept : ℕ → ℕ → Event → Bool
kept i until e = not (e.id == i) || is_some e.completed_at || leased until e.claim_until

-- The table holds an event, and each row of it is kept.
pub record IsHeld (i until : ℕ) (t : Table) : Type 0 where
  pub present : has_id i t.rows ≡ true
  pub rows_kept : all (kept i until) t.rows ≡ true

-- A change of rows that keeps identifiers and keeps kept rows.
map-kept :
    (i until : ℕ) (g : Event → Event) (rows : List Event)
    → ((r : Event) → kept i until r ≡ true → ((g r).id ≡ r.id) × (kept i until (g r) ≡ true))
    → all (kept i until) rows ≡ true
    → (all (kept i until) (map g rows) ≡ true) × (has_id i (map g rows) ≡ has_id i rows)
unfolding has_id
map-kept i until g [] h a = (refl, refl)
map-kept i until g (r ∷ rows) h a = ground (arith, h r, map-kept i until g rows h)

-- A kept row of the event is not claimable before the time.
pub kept-claimable :
    (i until now : ℕ) (rows : List Event)
    → now < until
    → all (kept i until) rows ≡ true
    → all (λ e. not (e.id == i)) (keep (row_claimable now) rows) ≡ true
unfolding row_claimable
kept-claimable i until now [] lt a = refl
kept-claimable i until now (r ∷ rows) lt a = ground (arith, kept-claimable i until now rows lt)

unpicked :
    (i until now limit : ℕ) (rows : List Event)
    → all (kept i until) rows ≡ true
    → (has_id i (picked now limit rows) ≡ false) ⊎ (until ≤ now)
unpicked i until now limit rows a = elim (Bool-cases (ltb now until)) [
  | inr e ↦ inr (ground (arith, e))
  | inl e ↦ inl (
      ground (
        arith,
        all-no_id i (picked now limit rows),
        all-picked (λ x. not (x.id == i)) now limit rows
            (kept-claimable i until now rows (ground (arith, e)) a),
      ))
]

IsHeld-map :
    (i until : ℕ) (g : Event → Event) (t u : Table)
    → ((r : Event) → kept i until r ≡ true → ((g r).id ≡ r.id) × (kept i until (g r) ≡ true))
    → u.rows ≡ map g t.rows
    → IsHeld i until t
    → IsHeld i until u
IsHeld-map i until g t u h e w =
    let (a, b) = map-kept i until g t.rows h w.rows_kept in
    record { present = rw e (b ∙ w.present); rows_kept = rw e a }

claim_marks :
    (i until now lease : ℕ) (ps : List Event) (r : Event)
    → (has_id i ps ≡ false) ⊎ (until ≤ now)
    → kept i until r ≡ true
    → ((if has_id r.id ps then mark now lease r else r).id ≡ r.id)
      × (kept i until (if has_id r.id ps then mark now lease r else r) ≡ true)
unfolding mark
claim_marks i until now lease ps r (inl o) k = elim (Bool-cases (r.id == i)) [
  | inl e ↦
      let own : i ≡ r.id = ground (arith, e) in
      ground (arith, k, subst (λ n. has_id n ps ≡ false) own o)
  | inr e ↦ ground (arith, e, k)
]
claim_marks i until now lease ps r (inr o) k = ground (arith, o, k)

claim_rows :
    (now lease limit : ℕ) (t : Table)
    → let ps = picked now limit t.rows in
      let u = (claim now lease limit t).1 in
      (u ≡ t) ⊎ (u.rows ≡ map (λ r. if has_id r.id ps then mark now lease r else r) t.rows)
unfolding claim
claim_rows now lease limit t = ground arith

claim-IsHeld :
    (i until now lease limit : ℕ) (t : Table)
    → IsHeld i until t
    → IsHeld i until (claim now lease limit t).1
claim-IsHeld i until now lease limit t w =
    let ps = picked now limit t.rows in
    elim (claim_rows now lease limit t) [
      | inl e ↦ rw e w
      | inr e ↦
          IsHeld-map i until (λ r. if has_id r.id ps then mark now lease r else r) t
            (claim now lease limit t).1
            (λ r.
              claim_marks i until now lease ps r (unpicked i until now limit t.rows w.rows_kept))
            e w
    ]

update_open_rows :
    (j : ℕ) (set : Event → Event) (t : Table)
    → let u = (update_open j set t).1 in
      (u ≡ t) ⊎ (u.rows ≡ map (λ r. if open_row j r then set r else r) t.rows)
unfolding update_open
update_open_rows j set t = ground arith

-- An update of open rows that keeps identifiers and kept rows.
update_open-IsHeld :
    (i until j : ℕ) (set : Event → Event) (t : Table)
    → ((r : Event)
        → open_row j r ≡ true
        → kept i until r ≡ true
        → ((set r).id ≡ r.id) × (kept i until (set r) ≡ true))
    → IsHeld i until t
    → IsHeld i until (update_open j set t).1
update_open-IsHeld i until j set t h w = elim (update_open_rows j set t) [
  | inl e ↦ rw e w
  | inr e ↦
      IsHeld-map i until (λ r. if open_row j r then set r else r) t (update_open j set t).1
        (λ r k. ground (arith, h r, k)) e w
]

complete-IsHeld :
    (i until j now : ℕ) (t : Table) → IsHeld i until t → IsHeld i until (complete j now t).1
unfolding complete
complete-IsHeld i until j now t w =
    update_open-IsHeld i until j _ t (λ r o k. (refl, ground arith)) w

increment-IsHeld :
    (i until j : ℕ) (t : Table) → IsHeld i until t → IsHeld i until (increment_attempts j t).1
unfolding increment_attempts
increment-IsHeld i until j t w = update_open-IsHeld i until j _ t (λ r o k. (refl, k)) w

reschedule-IsHeld :
    (i until j next : ℕ) (class : List ℕ) (t : Table)
    → (j == i) ≡ false
    → IsHeld i until t
    → IsHeld i until (reschedule j next class t).1
unfolding reschedule open_row
reschedule-IsHeld i until j next class t ne w =
    update_open-IsHeld i until j _ t (λ r o k. (refl, ground (arith, o, ne))) w

fresh :
    (i j : ℕ) (q : Event → Bool) (rows : List Event)
    → any (λ r. r.id == j || q r) rows ≡ false
    → has_id i rows ≡ true
    → (j == i) ≡ false
unfolding has_id
fresh i j q [] n h = absurd (cc)
fresh i j q (r ∷ rows) n h = ground (arith, fresh i j q rows)

insert_rows :
    (e : Event) (t : Table)
    → let u = (insert e t).1 in
      (u ≡ t)
      ⊎ ((u.rows ≡ e ∷ t.rows)
          × (any (λ r. r.id == e.id || same_key r.idempotency_key e.idempotency_key) t.rows
              ≡ false))
unfolding insert
insert_rows e t = ground arith

insert-IsHeld :
    (i until : ℕ) (e : Event) (t : Table) → IsHeld i until t → IsHeld i until (insert e t).1
unfolding has_id
insert-IsHeld i until e t w = elim (insert_rows e t) [
  | inl same ↦ rw same w
  | inr (rows, n) ↦
      let other =
        fresh i e.id (λ r. same_key r.idempotency_key e.idempotency_key) t.rows n w.present in
      record {
        present = rw rows (ground (arith, w.present));
        rows_kept = rw rows (ground (arith, other, w.rows_kept));
      }
]

run-IsHeld :
    (i until : ℕ) (s : Step) (t : Table)
    → spares i s ≡ true
    → IsHeld i until t
    → IsHeld i until (run s t)
unfolding run
run-IsHeld i until (insert_step e) t sp w = insert-IsHeld i until e t w
run-IsHeld i until (claim_step now lease limit) t sp w = claim-IsHeld i until now lease limit t w
run-IsHeld i until (complete_step j now) t sp w = complete-IsHeld i until j now t w
run-IsHeld i until (reschedule_step j next class) t sp w =
    reschedule-IsHeld i until j next class t (ground (arith, sp)) w
run-IsHeld i until (increment_step j) t sp w = increment-IsHeld i until j t w
run-IsHeld i until (outage x) t sp w = record { present = w.present; rows_kept = w.rows_kept }

pub run_all-IsHeld :
    (i until : ℕ) (ss : List Step) (t : Table)
    → all (spares i) ss ≡ true
    → IsHeld i until t
    → IsHeld i until (run_all ss t)
run_all-IsHeld i until [] t sp w = w
run_all-IsHeld i until (s ∷ ss) t sp w =
    run_all-IsHeld i until ss (run s t) (ground (arith, sp))
      (run-IsHeld i until s t (ground (arith, sp)) w)
