-- ===== src/Transactions/Contracts.antt =====
-- lookup.go: what other packages are told of a transaction.
use konumlu.Base.{ℕ, ◌≤◌, ◌≡◌, refl, not, none, some, List, arith, ok}
use konumlu.Text.{codes}
use konumlu.Contracts
use konumlu.Contracts.{TransactionRef, may_create_delivery, may_open_dispute, dispute_anchor}
use konumlu.Transactions.Domain.{
  Err, zero_id, not_found, canceled, Status, pending, active, completed, cancelled, other, terminal,
  is_cancelled, Transaction, validate, participant,
}

-- `string(t.Status)`
unfoldable pub status_text : Status → List ℕ
status_text pending = codes "pending"
status_text active = codes "active"
status_text completed = codes "completed"
status_text cancelled = codes "cancelled"
status_text (other s) = s

-- toTransactionRef
unfoldable pub to_transaction_ref : Transaction → TransactionRef
unfolding status_text
to_transaction_ref t = record {
  id = t.id;
  requester_user_id = t.requester_user_id;
  provider_user_id = t.provider_user_id;
  price = t.price;
  status = status_text t.status;
  created_at = t.created_at;
  completed_at = t.completed_at;
}

-- mapTxnLookupErr
unfoldable pub map_lookup_err : Err → Contracts.Err
map_lookup_err zero_id = Contracts.zero_id
map_lookup_err not_found = Contracts.not_found
map_lookup_err canceled = Contracts.canceled
map_lookup_err _ = Contracts.unavailable

-- The reference of a valid transaction admits a delivery exactly until the transaction ends,
-- admits a dispute exactly unless it is cancelled, starts the dispute window at the completion or
-- else the creation, never before the creation, and has the same participants.
pub to_transaction_ref_lem :
    (t : Transaction)
    → validate t ≡ ok tt
    → (may_create_delivery (to_transaction_ref t) ≡ not (terminal t.status))
      × (may_open_dispute (to_transaction_ref t) ≡ not (is_cancelled t.status))
      × (dispute_anchor (to_transaction_ref t)
          ≡ elim t.completed_at [ some at ↦ at | none ↦ t.created_at ])
      × (t.created_at ≤ dispute_anchor (to_transaction_ref t))
      × ((user : ℕ) → Contracts.participant (to_transaction_ref t) user ≡ participant t user)
unfolding to_transaction_ref may_create_delivery may_open_dispute dispute_anchor
    Contracts.participant validate
to_transaction_ref_lem t v = (ground arith, ground arith, ground arith, ground arith, λ user. refl)
