-- ===== src/Outbox/Store/Claims.antt =====
-- What a claim promises to the workers that compete for the rows.
use konumlu.Base.{
  ℕ, ◌≤◌, ◌<◌, ◌≡◌, refl, ◌⊎◌, inl, inr, Bool-cases, ltb, any, true, false, not, none, some, List,
  [], ◌∷◌, map, arith, ◌==◌, if◌then◌else◌, keep, all, length, length-map, ok,
}
use konumlu.Outbox.Event.{Event}
use konumlu.Outbox.Store.{
  Table, row_claimable, picked, ordered, mark, has_id, claim, complete, reschedule, update_open,
  open_row,
}
use konumlu.Outbox.Store.Lemmas.{all-picked, picked_or_full, length-take-le, has_id-mark, all-no_id}

-- What a claim has done when it has returned `es`.
pub claimed :
    (now lease limit : ℕ) (t t' : Table) {es : List Event}
    → claim now lease limit t ≡ (ok es, t')
    → (es ≡ map (mark now lease) (picked now limit t.rows))
      × (t'.rows
          ≡ map (λ r. if has_id r.id (picked now limit t.rows) then mark now lease r else r) t.rows)
unfolding claim
claimed now lease limit t t' h = ground arith

-- A claim returns at most as many events as it was asked for.
pub claim-le-limit :
    (now lease limit : ℕ) (t t' : Table) {es : List Event}
    → claim now lease limit t ≡ (ok es, t')
    → length es ≤ limit
unfolding picked
claim-le-limit now lease limit t t' h =
    rw ((claimed now lease limit t t' h).0, length-map)
      (length-take-le limit (ordered (keep (row_claimable now) t.rows)))

-- An identifier that no claimable row bears is in no claim.
pub absent :
    (i at lease limit : ℕ) (t t' : Table) {es : List Event}
    → all (λ e. not (e.id == i)) (keep (row_claimable at) t.rows) ≡ true
    → claim at lease limit t ≡ (ok es, t')
    → has_id i es ≡ false
absent i at lease limit t t' a k =
    rw ((claimed at lease limit t t' k).0, has_id-mark)
      (ground (
        arith,
        all-no_id i (picked at limit t.rows),
        all-picked (λ e. not (e.id == i)) at limit t.rows a,
      ))

-- A row that is completed keeps out of every later claim.
closed_rows :
    (i now at : ℕ) (rows : List Event)
    → all
        (λ e. not (e.id == i))
        (keep
          (row_claimable at)
          (map (λ r. if open_row i r then record r { completed_at = some now } else r) rows))
      ≡ true
unfolding row_claimable open_row
closed_rows i now at [] = refl
closed_rows i now at (r ∷ rows) = ground (arith, closed_rows i now at rows)

completed_row :
    (i now : ℕ) (t t' : Table)
    → complete i now t ≡ (ok tt, t')
    → t'.rows ≡ map (λ r. if open_row i r then record r { completed_at = some now } else r) t.rows
unfolding complete update_open
completed_row i now t t' h = ground arith

-- An event whose completion has succeeded is in no later claim.
pub complete-final :
    (i now at lease limit : ℕ) (t t' t'' : Table) {es : List Event}
    → complete i now t ≡ (ok tt, t')
    → claim at lease limit t' ≡ (ok es, t'')
    → has_id i es ≡ false
complete-final i now at lease limit t t' t'' h k =
    absent i at lease limit t' t'' (rw (completed_row i now t t' h) (closed_rows i now at t.rows)) k

-- A rescheduled event is in no claim before its new time.
rescheduled_rows :
    (i next at : ℕ) (class : List ℕ) (rows : List Event)
    → at < next
    → all
        (λ e. not (e.id == i))
        (keep (row_claimable at) (
          map
            (λ r.
              if open_row i r
              then record r {
                available_at = next;
                claimed_at = none;
                claim_until = none;
                last_error_class = some class;
              }
              else r)
            rows))
      ≡ true
unfolding row_claimable open_row
rescheduled_rows i next at class [] h = refl
rescheduled_rows i next at class (r ∷ rows) h =
    ground (arith, rescheduled_rows i next at class rows)

rescheduled_row :
    (i next : ℕ) (class : List ℕ) (t t' : Table)
    → reschedule i next class t ≡ (ok tt, t')
    → t'.rows
      ≡ map
          (λ r.
            if open_row i r
            then record r {
              available_at = next;
              claimed_at = none;
              claim_until = none;
              last_error_class = some class;
            }
            else r)
          t.rows
unfolding reschedule update_open
rescheduled_row i next class t t' h = ground arith

-- An event that was rescheduled is in no claim made before its new time.
pub reschedule-delays :
    (i next at lease limit : ℕ) (class : List ℕ) (t t' t'' : Table) {es : List Event}
    → reschedule i next class t ≡ (ok tt, t')
    → at < next
    → claim at lease limit t' ≡ (ok es, t'')
    → has_id i es ≡ false
reschedule-delays i next at lease limit class t t' t'' h lt k =
    absent i at lease limit t' t''
      (rw (rescheduled_row i next class t t' h) (rescheduled_rows i next at class t.rows lt)) k

-- From its new time on it is claimable.
ready_rows :
    (i next at : ℕ) (class : List ℕ) (rows : List Event)
    → next ≤ at
    → any (open_row i) rows ≡ true
    → has_id i (
        keep (row_claimable at) (
          map
            (λ r.
              if open_row i r
              then record r {
                available_at = next;
                claimed_at = none;
                claim_until = none;
                last_error_class = some class;
              }
              else r)
            rows))
      ≡ true
unfolding row_claimable open_row has_id
ready_rows i next at class [] h o = absurd (cc)
ready_rows i next at class (r ∷ rows) h o = elim (Bool-cases (open_row i r)) [
  | inl e ↦ ground (arith, e)
  | inr e ↦ ground (arith, e, ready_rows i next at class rows h)
]

reschedule-open :
    (i next : ℕ) (class : List ℕ) (t t' : Table)
    → reschedule i next class t ≡ (ok tt, t')
    → any (open_row i) t.rows ≡ true
unfolding reschedule update_open
reschedule-open i next class t t' h = ground arith

returned_or_full :
    (i at lease limit : ℕ) (t t' : Table) {es : List Event}
    → has_id i (keep (row_claimable at) t.rows) ≡ true
    → claim at lease limit t ≡ (ok es, t')
    → (has_id i es ≡ true) ⊎ (length es ≡ limit)
returned_or_full i at lease limit t t' a k =
    rw ((claimed at lease limit t t' k).0, has_id-mark, length-map)
      (picked_or_full i at limit t.rows a)

-- An event that was rescheduled is in no claim made before its new time, and in each claim made from
-- that time on that is not full.
pub reschedule-retries :
    (i next at lease limit : ℕ) (class : List ℕ) (t t' t'' : Table) {es : List Event}
    → reschedule i next class t ≡ (ok tt, t')
    → claim at lease limit t' ≡ (ok es, t'')
    → ((at < next) × (has_id i es ≡ false))
      ⊎ ((next ≤ at) × ((has_id i es ≡ true) ⊎ (length es ≡ limit)))
reschedule-retries i next at lease limit class t t' t'' h k = elim (Bool-cases (ltb at next)) [
  | inl e ↦
      let lt : at < next = ground (arith, e) in
      inl (lt, reschedule-delays i next at lease limit class t t' t'' h lt k)
  | inr e ↦
      let late : next ≤ at = ground (arith, e) in
      inr (
        late,
        returned_or_full i at lease limit t' t''
            (rw (rescheduled_row i next class t t' h)
              (ready_rows i next at class t.rows late (reschedule-open i next class t t' h)))
            k,
      )
]
