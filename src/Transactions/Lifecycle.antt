-- ===== src/Transactions/Lifecycle.antt =====
-- What the status changes of a transaction do: validity, totality, terminal states.
use konumlu.Base.{
  ℕ, ◌≤◌, ◌≡◌, ◌≢◌, refl, true, false, Option, none, some, List, [], ◌∷◌, arith, is_some, ◌⊎◌, inl,
  inr, ok, err,
}
use konumlu.Transactions.Domain.{
  invalid_transition, is_completed, is_cancelled, Status, pending, active, completed, cancelled,
  terminal, Transaction, validate, with_status, AcceptedSource, create_pending, price_normalized,
  Change, start, complete, cancel,
}
use konumlu.Ids.{new_id}

-- A transaction that CreatePending makes is valid, pending, made at the given time, of the
-- parties of the source, and has the price of the source in its normal form.
pub create_pending_lem :
    (rand : Option ℕ) (src : AcceptedSource) (now : ℕ) {t : Transaction}
    → create_pending rand src now ≡ ok t
    → (validate t ≡ ok tt)
      × (t.status ≡ pending)
      × (t.created_at ≡ now)
      × (t.requester_user_id ≡ src.requester_user_id)
      × (t.provider_user_id ≡ src.provider_user_id)
      × (price_normalized src.price ≡ ok t.price)
unfolding create_pending new_id
create_pending_lem none src now h = ground arith
create_pending_lem (some r) src now h = ground arith

-- A pending transaction that is valid can be started at any time from its creation on; the result is
-- valid.
pub start_pending :
    (t : Transaction) (now : ℕ)
    → validate t ≡ ok tt
    → t.status ≡ pending
    → t.created_at ≤ now
    → (start t now ≡ ok (with_status t active now, true))
      × (validate (with_status t active now) ≡ ok tt)
unfolding start validate
start_pending t now v s h = ground arith

-- The events of a transaction's life.
pub data Op : Type 0 where
  start_op complete_op cancel_op : Op

unfoldable pub apply_op : Op → Transaction → ℕ → Change
unfolding start complete cancel
apply_op start_op t now = start t now
apply_op complete_op t now = complete t now
apply_op cancel_op t now = cancel t now

-- Which status an operation may lead to.
pub data Edge : Op → Status → Status → Type 0 where
  begin : Edge start_op pending active
  finish : Edge complete_op active completed
  call_off : Edge cancel_op pending cancelled
  break_off : Edge cancel_op active cancelled

-- What an operation writes.
abbrev pub written : Op → Transaction → ℕ → Transaction
written start_op t now = with_status t active now
written complete_op t now = record t {
  status = completed;
  updated_at = now;
  completed_at = some now;
}
written cancel_op t now = record t { status = cancelled; updated_at = now; cancelled_at = some now }

apply_op-written :
    (op : Op) (t : Transaction) (now : ℕ) {t' : Transaction}
    → apply_op op t now ≡ ok (t', true)
    → (t' ≡ written op t now) × (validate (written op t now) ≡ ok tt)
unfolding apply_op
apply_op-written start_op t now h = ground arith
apply_op-written complete_op t now h = ground arith
apply_op-written cancel_op t now h = ground arith

expected-Edge :
    (op : Op) (t : Transaction) (now : ℕ) {t' : Transaction}
    → apply_op op t now ≡ ok (t', true)
    → Edge op t.status (written op t now).status
unfolding apply_op
expected-Edge start_op t now h = let e : t.status ≡ pending = ground arith in rw e begin
expected-Edge complete_op t now h = let e : t.status ≡ active = ground arith in rw e finish
expected-Edge cancel_op t now h =
    let e : (t.status ≡ pending) ⊎ (t.status ≡ active) = ground arith in
    elim e [ inl p ↦ rw p call_off | inr a ↦ rw a break_off ]

written_times :
    (op : Op) (t : Transaction) (now : ℕ)
    → validate (written op t now) ≡ ok tt
    → (t.created_at ≤ now) × ((written op t now).updated_at ≡ now)
unfolding validate
written_times start_op t now v = ground arith
written_times complete_op t now v = ground arith
written_times cancel_op t now v = ground arith

-- The identity, the parties, the price and the creation time of a transaction.
abbrev pub Same : Transaction → Transaction → Type 0
Same t t' =
    (t'.id ≡ t.id)
    × (t'.offer_id ≡ t.offer_id)
    × (t'.need_id ≡ t.need_id)
    × (t'.requester_user_id ≡ t.requester_user_id)
    × (t'.provider_user_id ≡ t.provider_user_id)
    × (t'.price ≡ t.price)
    × (t'.created_at ≡ t.created_at)

written-Same : (op : Op) (t : Transaction) (now : ℕ) → Same t (written op t now)
written-Same start_op t now = (refl, refl, refl, refl, refl, refl, refl)
written-Same complete_op t now = (refl, refl, refl, refl, refl, refl, refl)
written-Same cancel_op t now = (refl, refl, refl, refl, refl, refl, refl)

-- An operation that changes a transaction follows an edge of the status diagram at a time not
-- before the creation, and leaves a valid transaction with the same identity, parties, price and
-- creation time.
pub apply_op-changed :
    (op : Op) (t : Transaction) (now : ℕ) {t' : Transaction}
    → apply_op op t now ≡ ok (t', true)
    → Edge op t.status t'.status
      × (validate t' ≡ ok tt)
      × (t.created_at ≤ now)
      × (t'.updated_at ≡ now)
      × Same t t'
apply_op-changed op t now h =
    let (e, v) = apply_op-written op t now h in
    let (le, up) = written_times op t now v in
    rw e (expected-Edge op t now h, v, le, up, written-Same op t now)

-- An operation that reports no change returns the transaction that it was given.
pub apply_op-unchanged :
    (op : Op) (t : Transaction) (now : ℕ) {t' : Transaction}
    → apply_op op t now ≡ ok (t', false)
    → t' ≡ t
unfolding apply_op
apply_op-unchanged start_op t now h = ground arith
apply_op-unchanged complete_op t now h = ground arith
apply_op-unchanged cancel_op t now h = ground arith

-- What the diagram says of an operation, without the code's validation of the result.
abbrev pub expected : Op → Status → Transaction → ℕ → Change
expected start_op pending t now = ok (written start_op t now, true)
expected start_op active t now = ok (t, false)
expected complete_op active t now = ok (written complete_op t now, true)
expected complete_op completed t now = ok (t, false)
expected cancel_op pending t now = ok (written cancel_op t now, true)
expected cancel_op active t now = ok (written cancel_op t now, true)
expected cancel_op cancelled t now = ok (t, false)
expected _ _ t now = err invalid_transition

-- On a valid transaction, from its creation on, Start, Complete and Cancel do exactly what the
-- status diagram says: the validation of the result never refuses it.
pub apply_op-expected :
    (op : Op) (t : Transaction) (now : ℕ)
    → validate t ≡ ok tt
    → t.created_at ≤ now
    → apply_op op t now ≡ expected op t.status t now
unfolding apply_op validate
apply_op-expected start_op t now v h = ground arith
apply_op-expected complete_op t now v h = ground arith
apply_op-expected cancel_op t now v h = ground arith

-- A transaction's history: operations, each with the clock that it reads; a refused one leaves the
-- transaction as it is.
abbrev pub kept : Transaction → Change → Transaction
kept t (ok (t', _)) = t'
kept t (err _) = t

unfoldable pub run : List (Op × ℕ) → Transaction → Transaction
run [] t = t
run ((op, now) ∷ ops) t = run ops (kept t (apply_op op t now))

kept-valid :
    (op : Op) (t : Transaction) (now : ℕ)
    → validate t ≡ ok tt
    → validate (kept t (apply_op op t now)) ≡ ok tt
unfolding apply_op
kept-valid start_op t now v = ground arith
kept-valid complete_op t now v = ground arith
kept-valid cancel_op t now v = ground arith

-- Whatever happens to it, a valid transaction stays valid.
pub run-valid :
    (ops : List (Op × ℕ)) (t : Transaction) → validate t ≡ ok tt → validate (run ops t) ≡ ok tt
unfolding run
run-valid [] t v = v
run-valid ((op, now) ∷ ops) t v = run-valid ops (kept t (apply_op op t now)) (kept-valid op t now v)

kept-terminal :
    (op : Op) (t : Transaction) (now : ℕ)
    → terminal t.status ≡ true
    → kept t (apply_op op t now) ≡ t
unfolding apply_op
kept-terminal start_op t now h = ground arith
kept-terminal complete_op t now h = ground arith
kept-terminal cancel_op t now h = ground arith

-- A completed or cancelled transaction never changes again, under any sequence of operations.
pub run-terminal :
    (ops : List (Op × ℕ)) (t : Transaction) → terminal t.status ≡ true → run ops t ≡ t
unfolding run
run-terminal [] t h = refl
run-terminal ((op, now) ∷ ops) t h = rw (kept-terminal op t now h) (run-terminal ops t h)

-- A valid transaction has a completion time exactly if it is completed, a cancellation time
-- exactly if it is cancelled, two different parties, and an update time not before its creation.
pub validate-stamps :
    (t : Transaction)
    → validate t ≡ ok tt
    → (is_some t.completed_at ≡ is_completed t.status)
      × (is_some t.cancelled_at ≡ is_cancelled t.status)
      × (t.requester_user_id ≢ t.provider_user_id)
      × (t.created_at ≤ t.updated_at)
unfolding validate
validate-stamps t v = ground arith
