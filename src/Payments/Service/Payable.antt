-- ===== src/Payments/Service/Payable.antt =====
-- The payment service on the transaction service: the lookup of transactions is GetTransaction of
-- internal/transactions.
use konumlu.Base.{ℕ, ◌≡◌, true, false, ◌||◌, some, lookup, arith, ok, Result-cases, inl, inr}
use konumlu.Text.{codes, text_eq}
use konumlu.Contracts.{TransactionRef}
use konumlu.Money.{Price}
use konumlu.Transactions
use konumlu.Transactions.Domain.{Transaction, terminal}
use konumlu.Transactions.Memory.Index.{IsIndexed}
use konumlu.Transactions.Contracts.{to_transaction_ref}
use konumlu.Transactions.Lookup.{get_transaction-stored, to_transaction_ref-open}
use konumlu.Payments.Domain.{CreateCommand}
use konumlu.Payments.Service.{Setup, get_transaction, assert_payable, payable}

-- What `payable` has found out.
payable-ref :
    (s : Setup) (payer txn : ℕ) (cmd : CreateCommand)
    → payable s payer txn ≡ ok cmd
    → (ref : TransactionRef) × (get_transaction s txn ≡ ok ref)
      × (ref.requester_user_id ≡ payer)
      × (assert_payable ref ≡ ok cmd.amount)
      × (cmd.transaction_id ≡ ref.id)
      × (cmd.payer_user_id ≡ payer)
      × (cmd.payee_user_id ≡ ref.provider_user_id)
unfolding payable
payable-ref s payer txn cmd h = elim (Result-cases (get_transaction s txn)) [
  | inr (e, q) ↦ absurd (ground (arith, q))
  | inl (ref, q) ↦ (
    ref,
    q,
    ground (arith, q),
    ground (arith, q),
    ground (arith, q),
    ground (arith, q),
    ground (arith, q),
  )
]

module _ {Queue : Type 0} (t : Transactions.Setup.Setup Queue)
    (w : Transactions.Setup.World Queue) where
  -- The payment service whose transactions are those of the transaction service.
  abbrev pub over_transactions : Setup
  over_transactions = record {
    store_set = true;
    txns = some (Transactions.Lookup.get_transaction t w);
  }

  looked_up :
      (id : ℕ) (ref : TransactionRef)
      → get_transaction over_transactions id ≡ ok ref
      → Transactions.Lookup.get_transaction t w id ≡ ok ref
  unfolding get_transaction
  looked_up id ref h = elim (Result-cases (Transactions.Lookup.get_transaction t w id)) [
    | inl (r, e) ↦ ground (arith, e)
    | inr (x, e) ↦ absurd (ground (arith, e))
  ]

  payable-open :
      (ref : TransactionRef) (price : Price)
      → assert_payable ref ≡ ok price
      → (ref.price ≡ some price)
        × ((text_eq ref.status (codes "pending") || text_eq ref.status (codes "active")) ≡ true)
  unfolding assert_payable
  payable-open ref price h = (ground arith, ground arith)

  -- With the transaction service behind the lookup and its invariant held, the checks before a
  -- payment is created pass only for a stored transaction that has not ended, on the request of
  -- its requester, and ask for its price, to be paid to its provider.
  pub payable-stored :
      (payer txn : ℕ) (cmd : CreateCommand)
      → IsIndexed w.store
      → payable over_transactions payer txn ≡ ok cmd
      → (x : Transaction) × (lookup txn w.store.by_id ≡ some x)
        × (terminal x.status ≡ false)
        × (x.requester_user_id ≡ payer)
        × (x.price ≡ some cmd.amount)
        × (cmd.transaction_id ≡ txn)
        × (cmd.payer_user_id ≡ payer)
        × (cmd.payee_user_id ≡ x.provider_user_id)
  unfolding to_transaction_ref
  payable-stored payer txn cmd ix h =
      let (ref, g, r, p, i, y, e) = payable-ref over_transactions payer txn cmd h in
      let (x, l, q) = get_transaction-stored t w txn ref (looked_up txn ref g) in
      let (pr, o) = payable-open ref cmd.amount p in
      let (k, v) = ix.keyed txn x l in
      let live = to_transaction_ref-open x v in
      (
        x,
        l,
        ground (arith, q, o, live),
        ground (arith, q, r),
        ground (arith, q, pr),
        ground (arith, q, i, k),
        y,
        ground (arith, q, e),
      )
