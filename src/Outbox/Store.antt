-- ===== src/Outbox/Store.antt =====
-- postgres.go: the statements of PostgresStore on platform.outbox_events, as functions on the rows.
-- A statement that the database refuses leaves the rows alone; its error is `fail`, as mapDBErr gives
-- it. The unique index on idempotency_key is that of migration 000008.
pub mod Lemmas
pub mod Steps
pub mod Claims
pub mod Held
pub mod Leases
use konumlu.Base.{
  ℕ, zero, suc, ◌+◌, ◌≤◌, ◌<◌, ◌≡◌, refl, Bool, true, false, not, ◌&&◌, ◌||◌, Option, none, some,
  List, [], ◌∷◌, map, arith, ltb, leb, ◌==◌, if◌then◌else◌, is_some, is_none, keep, take, any,
  Result, ok, err, ◌>>=◌, ◌>>◌, refuse, raise,
}
use konumlu.Text.{text_eq}
use konumlu.Outbox.Event.{Err, unavailable, conflict, not_found, invalid_policy, Event}

pub record Table : Type 0 where
  pub rows : List Event
  pub fail : Option Err

unfoldable pub same_key : Option (List ℕ) → Option (List ℕ) → Bool
same_key none k = false
same_key (some _) none = false
same_key (some a) (some b) = text_eq a b

-- PostgresStore.Insert, under the primary key and the unique index
unfoldable pub insert : Event → Table → Result Err (Unit {0}) × Table
unfolding same_key
insert e t = elim t.fail [
  | some x ↦ (err x, t)
  | none ↦
      if any (λ r. r.id == e.id || same_key r.idempotency_key e.idempotency_key) t.rows
      then (err conflict, t)
      else (ok tt, record t { rows = e ∷ t.rows })
]

-- The WHERE clause of claimSQL
unfoldable pub row_claimable : ℕ → Event → Bool
row_claimable now e =
    is_none e.completed_at
    && leb e.available_at now
    && elim e.claim_until [ none ↦ true | some until ↦ leb until now ]

-- ORDER BY available_at, id
unfoldable pub row_before : Event → Event → Bool
row_before a b =
    ltb a.available_at b.available_at || (a.available_at == b.available_at && leb a.id b.id)

unfoldable pub place : Event → List Event → List Event
unfolding row_before
place e [] = e ∷ []
place e (r ∷ rs) = let rest = place e rs in if row_before e r then e ∷ (r ∷ rs) else r ∷ rest

unfoldable pub ordered : List Event → List Event
unfolding place
ordered [] = []
ordered (r ∷ rs) = place r (ordered rs)

-- The rows within the LIMIT.
unfoldable pub picked : ℕ → ℕ → List Event → List Event
unfolding row_claimable ordered
picked now limit rows = take limit (ordered (keep (row_claimable now) rows))

-- SET claimed_at, claim_until, attempts
unfoldable pub mark : ℕ → ℕ → Event → Event
mark now lease e = record e {
  claimed_at = some now;
  claim_until = some (now + lease);
  attempts = suc e.attempts;
}

unfoldable pub has_id : ℕ → List Event → Bool
has_id i = any (λ r. r.id == i)

-- PostgresStore.Claim: rows locked by another claim are not modelled, one statement runs at a time.
unfoldable pub claim : ℕ → ℕ → ℕ → Table → Result Err (List Event) × Table
unfolding picked mark has_id
claim now lease limit t =
    if lease == 0 || limit == 0 then (err invalid_policy, t) else elim t.fail [
      | some x ↦ (err x, t)
      | none ↦
          let ps = picked now limit t.rows in
          (
            ok (map (mark now lease) ps),
            record t { rows = map (λ r. if has_id r.id ps then mark now lease r else r) t.rows },
          )
    ]

-- `UPDATE … SET … WHERE id = $1 AND completed_at IS NULL`, and ErrNotFound where no row was changed
unfoldable pub open_row : ℕ → Event → Bool
open_row i e = e.id == i && is_none e.completed_at

unfoldable pub update_open : ℕ → (Event → Event) → Table → Result Err (Unit {0}) × Table
unfolding open_row
update_open i set t = elim t.fail [
  | some x ↦ (err x, t)
  | none ↦
      let t' = record t { rows = map (λ r. if open_row i r then set r else r) t.rows } in
      if any (open_row i) t.rows then (ok tt, t') else (err not_found, t')
]

-- PostgresStore.Complete
unfoldable pub complete : ℕ → ℕ → Table → Result Err (Unit {0}) × Table
complete i now = update_open i (λ e. record e { completed_at = some now })

-- PostgresStore.Reschedule
unfoldable pub reschedule : ℕ → ℕ → List ℕ → Table → Result Err (Unit {0}) × Table
reschedule i available_at error_class = update_open i (λ e. record e {
  available_at = available_at;
  claimed_at = none;
  claim_until = none;
  last_error_class = some error_class;
})

-- PostgresStore.IncrementAttempts
unfoldable pub increment_attempts : ℕ → Table → Result Err (Unit {0}) × Table
increment_attempts i = update_open i (λ e. record e { attempts = suc e.attempts })
