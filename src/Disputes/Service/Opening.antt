-- ===== src/Disputes/Service/Opening.antt =====
-- When a dispute about a transaction is opened (service.go).
use konumlu.Base.{
  ℕ, ◌≡◌, refl, ◌∷◌, is_empty, ◌≢◌, ◌≤◌, true, Option, none, List, [], arith, ◌⊎◌, inl, inr, ok,
  err, Result-cases, keep, values,
}
use konumlu.Contracts
use konumlu.Contracts.{TransactionRef, may_open_dispute, dispute_anchor}
use konumlu.Disputes.Domain.{Err, Dispute}
use konumlu.Disputes.Memory
use konumlu.Disputes.Memory.{Store, active_of, concluded_of, first, ready}
use konumlu.Disputes.Setup.{Setup, World, CreateInput, since}
use konumlu.Disputes.Service.{
  get_transaction, assert_window, may_open, party_transaction, create_for_transaction,
}

first-nil : (xs : List Dispute) → first xs ≡ none → xs ≡ []
first-nil [] h = refl
first-nil (x ∷ xs) h = absurd (cc)

is_empty-nil : (xs : List Dispute) → is_empty xs ≡ true → xs ≡ []
is_empty-nil [] h = refl
is_empty-nil (x ∷ xs) h = absurd (cc)

no-active :
    (ctx : Option Err) (txn : ℕ) (m : Store) (x : Err)
    → ready ctx m ≡ ok tt
    → Memory.get_active ctx txn m ≡ err x
    → keep (active_of txn) (values m.by_id) ≡ []
unfolding Memory.get_active
no-active ctx txn m x r h = first-nil (keep (active_of txn) (values m.by_id)) (ground arith)

module _ {Queue : Type 0} (s : Setup Queue) where
  -- The conditions under which a dispute may be opened at a time.
  abbrev pub Opens : ℕ → ℕ → ℕ → Store → TransactionRef → Type 0
  Opens user txn opened m ref =
      (get_transaction s txn ≡ ok ref)
      × (Contracts.participant ref user ≡ true)
      × (may_open_dispute ref ≡ true)
      × (dispute_anchor ref ≢ 0)
      × (since opened (dispute_anchor ref) ≤ s.window)
      × (keep (active_of txn) (values m.by_id) ≡ [])
      × (keep (concluded_of txn) (values m.by_id) ≡ [])

  party-found :
      (user txn : ℕ) (ref : TransactionRef)
      → party_transaction s user txn ≡ ok ref
      → (get_transaction s txn ≡ ok ref) × (Contracts.participant ref user ≡ true)
  unfolding party_transaction
  party-found user txn ref h = (ground arith, ground arith)

  opens :
      (ref : TransactionRef) (txn opened : ℕ) (w : World Queue)
      → may_open s ref txn opened w ≡ ok tt
      → (may_open_dispute ref ≡ true)
        × (dispute_anchor ref ≢ 0)
        × (since opened (dispute_anchor ref) ≤ s.window)
        × (keep (concluded_of txn) (values w.store.by_id) ≡ [])
        × (ready w.ctx w.store ≡ ok tt)
  unfolding may_open assert_window Memory.list_concluded
  opens ref txn opened w h = (
    ground arith,
    ground arith,
    ground arith,
    is_empty-nil (keep (concluded_of txn) (values w.store.by_id)) (ground arith),
    ground arith,
  )

  -- CreateForTransaction leaves the world as it was, unless the transaction is found, the user
  -- is a party of it, its status and its anchor allow a dispute, the window since the anchor
  -- has not passed, and the store that the request read holds neither an active nor a concluded
  -- dispute of it.
  pub create_for_transaction-Opens :
      (between later : World Queue → World Queue) (user txn : ℕ) (input : CreateInput)
      (rand : Option ℕ) (opened now : ℕ) (w : World Queue)
      → ((create_for_transaction s between later user txn input rand opened now w).1 ≡ w)
        ⊎ ((ref : TransactionRef) × Opens user txn opened w.store ref)
  unfolding create_for_transaction
  create_for_transaction-Opens between later user txn input rand opened now w =
      elim (Result-cases (party_transaction s user txn)) [
        | inr (x, e) ↦ inl (ground (arith, e))
        | inl (ref, e) ↦ elim (Result-cases (Memory.get_active w.ctx txn w.store)) [
          | inl (x, g) ↦ inl (ground (arith, e, g))
          | inr (x, g) ↦ elim (Result-cases (may_open s ref txn opened w)) [
            | inr (y, f) ↦ inl (ground (arith, e, g, f))
            | inl (_, f) ↦
                let (got, party) = party-found user txn ref e in
                let (may, anchor, soon, none_done, r) = opens ref txn opened w f in
                inr (
                  ref,
                  (got, party, may, anchor, soon, no-active w.ctx txn w.store x r g, none_done),
                )
          ]
        ]
      ]
