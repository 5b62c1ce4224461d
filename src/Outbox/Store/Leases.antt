-- ===== src/Outbox/Store/Leases.antt =====
-- A lease that a claim has taken, under the statements of other workers (postgres.go).
use konumlu.Base.{
  ℕ, ◌+◌, ◌<◌, ◌≡◌, refl, true, false, not, List, [], ◌∷◌, map, arith, ◌==◌, if◌then◌else◌, all, ok,
  inl, inr, Bool-cases, all-keep_of, subst,
}
use konumlu.Outbox.Event.{Event}
use konumlu.Outbox.Store.{Table, row_claimable, picked, mark, has_id, claim}
use konumlu.Outbox.Store.Lemmas.{all-picked, all-no_id, has_id-mark}
use konumlu.Outbox.Store.Steps.{Step, run_all, spares}
use konumlu.Outbox.Store.Claims.{claimed, absent}
use konumlu.Outbox.Store.Held.{kept, IsHeld, kept-claimable, run_all-IsHeld}

-- What is picked is there.
picked-present :
    (i now limit : ℕ) (rows : List Event)
    → has_id i (picked now limit rows) ≡ true
    → has_id i rows ≡ true
picked-present i now limit rows h = elim (Bool-cases (has_id i rows)) [
  | inl e ↦ e
  | inr e ↦
      let none_there : all (λ x. not (x.id == i)) rows ≡ true =
        ground (arith, e, all-no_id i rows) in
      absurd (
        ground (
          arith,
          h,
          all-no_id i (picked now limit rows),
          all-picked (λ x. not (x.id == i)) now limit rows
              (all-keep_of (λ x. not (x.id == i)) (row_claimable now) rows none_there),
        ))
]

marked-kept :
    (i now lease : ℕ) (ps rows : List Event)
    → has_id i ps ≡ true
    → all (kept i (now + lease)) (map (λ r. if has_id r.id ps then mark now lease r else r) rows)
      ≡ true
unfolding mark
marked-kept i now lease ps [] h = refl
marked-kept i now lease ps (r ∷ rows) h = elim (Bool-cases (r.id == i)) [
  | inr e ↦ ground (arith, e, marked-kept i now lease ps rows h)
  | inl e ↦
      let own : i ≡ r.id = ground (arith, e) in
      ground (arith, subst (λ n. has_id n ps ≡ true) own h, marked-kept i now lease ps rows h)
]

marked-present :
    (i now lease : ℕ) (ps rows : List Event)
    → has_id i (map (λ r. if has_id r.id ps then mark now lease r else r) rows) ≡ has_id i rows
unfolding has_id mark
marked-present i now lease ps [] = refl
marked-present i now lease ps (r ∷ rows) = ground (arith, marked-present i now lease ps rows)

-- A claim holds the events that it returns until its lease ends.
claim-IsHeld_returned :
    (i now lease limit : ℕ) (t t' : Table) {es : List Event}
    → claim now lease limit t ≡ (ok es, t')
    → has_id i es ≡ true
    → IsHeld i (now + lease) t'
claim-IsHeld_returned i now lease limit t t' {es} h k =
    let (e, rows) = claimed now lease limit t t' h in
    let ps = picked now limit t.rows in
    let chosen : has_id i ps ≡ true = rw⁻¹ (has_id-mark i now lease ps) (rw⁻¹ e k) in
    record {
      present =
          rw (rows, marked-present i now lease ps t.rows)
            (picked-present i now limit t.rows chosen);
      rows_kept = rw rows (marked-kept i now lease ps t.rows chosen);
    }

-- While the lease of a claim lasts, no later claim returns an event that it returned, whatever
-- statements run in between (inserts, claims at any time, completions, increments of attempts and
-- reschedules, of any arguments, and outages of the database), if none of them is a reschedule of
-- that event.
pub claim_exclusive :
    (i now lease limit now' lease' limit' : ℕ) (t t' t'' : Table) (ss : List Step)
    {es fs : List Event}
    → claim now lease limit t ≡ (ok es, t')
    → has_id i es ≡ true
    → all (spares i) ss ≡ true
    → now' < now + lease
    → claim now' lease' limit' (run_all ss t') ≡ (ok fs, t'')
    → has_id i fs ≡ false
claim_exclusive i now lease limit now' lease' limit' t t' t'' ss h mine sp lt k =
    let held =
      run_all-IsHeld i (now + lease) ss t' sp
        (claim-IsHeld_returned i now lease limit t t' h mine) in
    absent i now' lease' limit' (run_all ss t') t''
      (kept-claimable i (now + lease) now' (run_all ss t').rows lt held.rows_kept) k
