-- ===== src/Disputes/Setup.antt =====
-- service.go: what the service of disputes is built from, its error mappings and the inputs of its requests.
use konumlu.Base.{ℕ, Bool, true, false, Option, List, if◌then◌else◌, ltb, Result, ◌-◌}
use konumlu.Contracts
use konumlu.Contracts.{TransactionRef, may_open_dispute, dispute_anchor}
use konumlu.Outbox.Writer.{NewEvent}
use konumlu.Disputes.Domain.{
  Err, zero_id, unavailable, not_found, conflict, canceled, db_no_rows, db_conflict, db_unavailable,
  outbox_conflict, foreign, Dispute, CreateCommand,
}
use konumlu.Disputes.Evidence.{EvidenceCommand}
use konumlu.Disputes.Memory.{Store}

-- mapTxnErr and mapStoreErr
abbrev pub map_txn_err : Contracts.Err → Err
map_txn_err Contracts.zero_id = zero_id
map_txn_err Contracts.not_found = not_found
map_txn_err Contracts.canceled = canceled
map_txn_err _ = unavailable

abbrev pub map_store_err : Err → Err
map_store_err db_no_rows = not_found
map_store_err db_conflict = conflict
map_store_err db_unavailable = unavailable
map_store_err outbox_conflict = unavailable
map_store_err foreign = unavailable
map_store_err e = e

abbrev pub is_conflict : Err → Bool
is_conflict conflict = true
is_conflict _ = false

abbrev pub is_not_found : Err → Bool
is_not_found not_found = true
is_not_found _ = false

-- The parts of Service that stay fixed. A nil lookup is `none`; `store_set` says that the service and its
-- store are not nil. `outbox` is the enqueuer of SetOutbox, over the outbox that it writes, and
-- `window` the policy's, in nanoseconds.
pub record Setup (Queue : Type 0) : Type 0 where
  pub store_set : Bool
  pub txns : Option (ℕ → Result Contracts.Err TransactionRef)
  pub outbox : Option (NewEvent → Queue → Result Err Queue)
  pub has_tx : Bool
  pub window : ℕ

-- What a request meets: the store and the outbox, the context's error, whether the context carries a
-- database transaction, and the errors of Begin and Commit.
pub record World (Queue : Type 0) : Type 0 where
  pub store : Store
  pub queue : Queue
  pub ctx : Option Err
  pub in_tx : Bool
  pub begin_err : Option Err
  pub commit_err : Option Err

-- CreateInput and EvidenceInput
pub record CreateInput : Type 0 where
  pub reason_code : List ℕ
  pub statement : Option (List ℕ)

pub record EvidenceInput : Type 0 where
  pub evidence_type : List ℕ
  pub title : List ℕ
  pub description : Option (List ℕ)
  pub reference_value : Option (List ℕ)

-- `now.Sub(anchor)`, where a duration ends at 2^63 - 1 nanoseconds and one before the anchor is no more
-- than 0.
unfoldable pub since : ℕ → ℕ → ℕ
since now anchor =
    if ltb 0x7fffffffffffffff (now - anchor) then 0x7fffffffffffffff else now - anchor

-- The command that CreateForTransaction makes of a transaction.
abbrev pub command_of : ℕ → TransactionRef → CreateInput → CreateCommand
command_of user ref input = record {
  transaction_id = ref.id;
  requester_user_id = ref.requester_user_id;
  provider_user_id = ref.provider_user_id;
  opened_by_user_id = user;
  reason_code = input.reason_code;
  statement = input.statement;
}

-- The commands of AddEvidence and AddInternalEvidence
abbrev pub evidence_command : Dispute → EvidenceInput → Option ℕ → List ℕ → EvidenceCommand
evidence_command d input actor role = record {
  dispute_id = d.id;
  evidence_type = input.evidence_type;
  title = input.title;
  description = input.description;
  reference_value = input.reference_value;
  actor_user_id = actor;
  actor_role = role;
}
