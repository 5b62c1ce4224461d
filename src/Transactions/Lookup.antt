-- ===== src/Transactions/Lookup.antt =====
-- lookup.go: GetTransaction, the lookup that other packages are given.
use konumlu.Base.{ℕ, ◌≡◌, ◌||◌, Result, ok, err, lookup, some, arith, Result-cases, inl, inr, not}
use konumlu.Text.{codes, text_eq}
use konumlu.Contracts
use konumlu.Contracts.{TransactionRef}
use konumlu.Transactions.Domain.{Transaction, validate, terminal}
use konumlu.Transactions.Memory
use konumlu.Transactions.Setup.{Setup, World}
use konumlu.Transactions.Service.{get}
use konumlu.Transactions.Contracts.{to_transaction_ref, map_lookup_err}

-- GetTransaction
unfoldable pub get_transaction :
    {Queue : Type 0} → Setup Queue → World Queue → ℕ → Result Contracts.Err TransactionRef
unfolding to_transaction_ref map_lookup_err
get_transaction s w id = elim (get s id w) [
  | ok t ↦ ok (to_transaction_ref t)
  | err e ↦ err (map_lookup_err e)
]

-- A reference that GetTransaction gives is that of the stored transaction.
pub get_transaction-stored :
    {Queue : Type 0} (s : Setup Queue) (w : World Queue) (id : ℕ) (ref : TransactionRef)
    → get_transaction s w id ≡ ok ref
    → (t : Transaction) × (lookup id w.store.by_id ≡ some t) × (ref ≡ to_transaction_ref t)
unfolding get_transaction get Memory.get
get_transaction-stored s w id ref h = elim (Result-cases (get s id w)) [
  | inr (e, q) ↦ absurd (ground (arith, q))
  | inl (t, q) ↦ (t, ground (arith, q), ground (arith, q))
]

-- The text of a valid transaction's status is "pending" or "active" exactly until the transaction ends.
pub to_transaction_ref-open :
    (t : Transaction)
    → validate t ≡ ok tt
    → (text_eq (to_transaction_ref t).status (codes "pending")
        || text_eq (to_transaction_ref t).status (codes "active"))
      ≡ not (terminal t.status)
unfolding to_transaction_ref validate
to_transaction_ref-open t v = ground arith
