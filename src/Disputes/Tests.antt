-- ===== src/Disputes/Tests.antt =====
-- The disputes at a small store: one dispute under review.
use konumlu.Base.{ℕ, ◌≡◌, refl, subst, ◌⊎◌, true, false, none, some, suc, Result, ok}
use konumlu.Text.{codes, trim_space}
use konumlu.Ids.{new_id}
use konumlu.Contracts.{TransactionRef}
use konumlu.Disputes.Domain.{
  Err, Dispute, under_review, validate, valid_reason, participant, accepts_evidence,
  normalize_optional_text,
}
use konumlu.Disputes.Evidence
use konumlu.Disputes.Evidence.{
  Evidence, create_evidence, is_internal, forbids_reference, requires_reference, valid_role,
  internal_role,
}
use konumlu.Disputes.Memory
use konumlu.Disputes.Memory.{Store, new_store, stored, appended}
use konumlu.Disputes.Memory.Index.{IsExclusive, new_store-IsExclusive, create-IsExclusive}
use konumlu.Disputes.Setup.{Setup, World, CreateInput, EvidenceInput}
use konumlu.Disputes.Service.{
  get, get_for, create_for_transaction, start_review, resolve, close, withdraw,
}
use konumlu.Disputes.Filing.{may_add, append_evidence, add_evidence, add_internal_evidence}
use konumlu.Disputes.Service.Fair.{IsFair}
use konumlu.Disputes.Service.Invariant.{dispute_requests-IsExclusive}
use konumlu.Disputes.Service.Opening.{Opens, create_for_transaction-Opens}
use konumlu.Disputes.Filing.Party.{add_evidence-filed}

abbrev complaint : Dispute
complaint = record {
  id = 1;
  transaction_id = 2;
  requester_user_id = 4;
  provider_user_id = 5;
  opened_by_user_id = 4;
  reason_code = codes "non_delivery";
  statement = none;
  status = under_review;
  resolution_code = none;
  created_at = 10;
  updated_at = 12;
  resolved_at = none;
}

-- A service with an outbox that counts what it is sent, and completed transactions.
abbrev agreement : ℕ → TransactionRef
agreement i = record {
  id = i;
  requester_user_id = 4;
  provider_user_id = 5;
  price = none;
  status = codes "completed";
  created_at = 9;
  completed_at = some 11;
}

abbrev setup : Setup ℕ
setup = record {
  store_set = true;
  txns = some (λ i. ok (agreement i));
  outbox = some (λ n q. ok (suc q));
  has_tx = true;
  window = 100;
}

abbrev store : Store
store = stored complaint new_store

abbrev world : World ℕ
world = record {
  store = store;
  queue = 0;
  ctx = none;
  in_tx = false;
  begin_err = none;
  commit_err = none;
}

store-made : Memory.create none complaint new_store ≡ (ok tt, store)
unfolding Memory.create Memory.may_create validate valid_reason
store-made = refl

store-IsExclusive : IsExclusive store
store-IsExclusive =
    subst (λ (r : Result Err (Unit {0}) × Store). IsExclusive r.1) store-made
      (create-IsExclusive none complaint new_store new_store-IsExclusive)

abbrev nothing : World ℕ → World ℕ
nothing w = w

nothing-IsFair : IsFair nothing
nothing-IsFair = record { keeps = λ w h. h; persists = λ w i d l. (d, l, refl, λ e. refl) }

abbrev input : CreateInput
input = record { reason_code = codes "other"; statement = none }

abbrev filing : EvidenceInput
filing = record {
  evidence_type = codes "party_statement";
  title = codes "photo";
  description = none;
  reference_value = none;
}

dispute_requests-IsExclusive_example :
    IsExclusive
      (create_for_transaction setup nothing nothing 4 1 input (some 7) 20 20 world).1.store
    × IsExclusive (start_review setup nothing nothing 1 20 21 world).1.store
    × IsExclusive (resolve setup nothing nothing 1 20 21 (codes "no_action") world).1.store
    × IsExclusive (close setup nothing nothing 1 20 21 world).1.store
    × IsExclusive (withdraw setup nothing nothing 1 20 21 4 world).1.store
    × IsExclusive (add_evidence setup nothing 4 1 filing (some 7) 20 world).1.store
    × IsExclusive (add_internal_evidence setup nothing 1 filing none (some 7) 20 world).1.store
dispute_requests-IsExclusive_example =
    dispute_requests-IsExclusive setup nothing nothing 4 1 input filing (codes "no_action") (some 7)
      none 20 20 21 world nothing-IsFair nothing-IsFair store-IsExclusive

-- A dispute about another transaction.
create_for_transaction-Opens_example :
    ((create_for_transaction setup nothing nothing 4 3 input (some 7) 20 20 world).1 ≡ world)
    ⊎ ((ref : TransactionRef) × Opens setup 4 3 20 store ref)
create_for_transaction-Opens_example =
    create_for_transaction-Opens setup nothing nothing 4 3 input (some 7) 20 20 world

abbrev filed : Evidence
filed = record {
  id = 0x40008000000000000007;
  dispute_id = 1;
  evidence_type = codes "party_statement";
  title = codes "photo";
  description = none;
  reference_value = none;
  actor_user_id = some 4;
  actor_role = codes "requester";
  created_at = 20;
}

add_evidence-filed_example :
    (d : Dispute) × (get setup 1 world ≡ ok d)
    × (participant d 4 ≡ true)
    × (accepts_evidence d ≡ true)
    × (filed.dispute_id ≡ d.id)
    × (filed.actor_user_id ≡ some 4)
    × (is_internal filed.evidence_type ≡ false)
    × ((add_evidence setup nothing 4 1 filing (some 7) 20 world).1.store ≡ appended filed store)
add_evidence-filed_example =
    add_evidence-filed setup nothing 4 1 filing (some 7) 20 world {e = filed} (
      unfold add_evidence may_add get_for get Memory.get append_evidence create_evidence
        Evidence.validate normalize_optional_text trim_space Memory.append_evidence
        Memory.may_append is_internal forbids_reference requires_reference valid_role internal_role
        new_id in
      refl)
