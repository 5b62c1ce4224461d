-- ===== src/Deliveries/Setup.antt =====
-- service.go: what the service of deliveries is built from, its error mappings and the inputs of its requests.
use konumlu.Base.{ℕ, Bool, true, false, Option, List, Result}
use konumlu.Contracts
use konumlu.Contracts.{TransactionRef, may_create_delivery}
use konumlu.Outbox.Writer.{NewEvent}
use konumlu.Deliveries.Domain.{
  Err, zero_id, unavailable, not_found, conflict, canceled, db_no_rows, db_conflict, db_unavailable,
  outbox_conflict, foreign, CreateCommand,
}
use konumlu.Deliveries.Memory.{Store}

-- mapTxnErr and mapStoreErr
abbrev pub map_txn_err : Contracts.Err → Err
map_txn_err Contracts.zero_id = zero_id
map_txn_err Contracts.not_found = not_found
map_txn_err Contracts.canceled = canceled
map_txn_err _ = unavailable

abbrev pub map_store_err : Err → Err
map_store_err db_no_rows = not_found
map_store_err db_conflict = conflict
map_store_err db_unavailable = unavailable
map_store_err outbox_conflict = unavailable
map_store_err foreign = unavailable
map_store_err e = e

abbrev pub is_conflict : Err → Bool
is_conflict conflict = true
is_conflict _ = false

abbrev pub is_not_found : Err → Bool
is_not_found not_found = true
is_not_found _ = false

-- The parts of Service that stay fixed. A nil lookup is `none`; `store_set` says that the service and its
-- store are not nil. `outbox` is the enqueuer of SetOutbox, over the outbox that it writes.
pub record Setup (Queue : Type 0) : Type 0 where
  pub store_set : Bool
  pub txns : Option (ℕ → Result Contracts.Err TransactionRef)
  pub outbox : Option (NewEvent → Queue → Result Err Queue)
  pub has_tx : Bool

-- What a request meets: the store and the outbox, the context's error, whether the context carries a
-- database transaction, and the errors of Begin and Commit.
pub record World (Queue : Type 0) : Type 0 where
  pub store : Store
  pub queue : Queue
  pub ctx : Option Err
  pub in_tx : Bool
  pub begin_err : Option Err
  pub commit_err : Option Err

-- CreateInput
pub record CreateInput : Type 0 where
  pub eligibility : List ℕ
  pub method : Option (List ℕ)
  pub note : Option (List ℕ)

-- The command that CreateForTransaction makes of a transaction.
abbrev pub command_of : TransactionRef → CreateInput → CreateCommand
command_of ref input = record {
  transaction_id = ref.id;
  requester_user_id = ref.requester_user_id;
  provider_user_id = ref.provider_user_id;
  eligibility = input.eligibility;
  method = input.method;
  note = input.note;
}
