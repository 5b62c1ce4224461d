-- ===== src/Outbox/Store/Steps.antt =====
-- The statements of postgres.go in any order, as the workers that compete for the rows run them.
use konumlu.Base.{ℕ, Bool, true, not, Option, List, [], ◌∷◌, ◌==◌}
use konumlu.Outbox.Event.{Err, Event}
use konumlu.Outbox.Store.{Table, insert, claim, complete, reschedule, increment_attempts}

-- A statement with its arguments. `outage` is what the database does: from there on it refuses
-- statements with an error, or no longer does.
pub data Step : Type 0 where
  insert_step : Event → Step
  claim_step : ℕ → ℕ → ℕ → Step
  complete_step : ℕ → ℕ → Step
  reschedule_step : ℕ → ℕ → List ℕ → Step
  increment_step : ℕ → Step
  outage : Option Err → Step

-- The table that a statement leaves, whatever its result.
unfoldable pub run : Step → Table → Table
run (insert_step e) t = (insert e t).1
run (claim_step now lease limit) t = (claim now lease limit t).1
run (complete_step i now) t = (complete i now t).1
run (reschedule_step i next class) t = (reschedule i next class t).1
run (increment_step i) t = (increment_attempts i t).1
run (outage x) t = record t { fail = x }

abbrev pub run_all : List Step → Table → Table
run_all [] t = t
run_all (s ∷ ss) t = run_all ss (run s t)

-- Every statement but a Reschedule of the event leaves its lease alone.
abbrev pub spares : ℕ → Step → Bool
spares i (reschedule_step j next class) = not (j == i)
spares i _ = true
