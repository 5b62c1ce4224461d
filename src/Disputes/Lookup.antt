-- ===== src/Disputes/Lookup.antt =====
-- lookup.go: what other packages read of disputes (disputes/contracts).
use konumlu.Base.{ℕ, Option, List, Result, ok, map_err, ◌>>=◌}
use konumlu.Contracts
use konumlu.Disputes.Domain.{Err, zero_id, not_found, canceled, Dispute}
use konumlu.Disputes.Events.{status_text}
use konumlu.Disputes.Setup.{Setup, World}
use konumlu.Disputes.Service.{get}

-- DisputeRef
pub record DisputeRef : Type 0 where
  pub id : ℕ
  pub transaction_id : ℕ
  pub reason_code : List ℕ
  pub status : List ℕ
  pub resolution_code : Option (List ℕ)

-- mapDisputeLookupErr
abbrev pub map_lookup_err : Err → Contracts.Err
map_lookup_err zero_id = Contracts.zero_id
map_lookup_err not_found = Contracts.not_found
map_lookup_err canceled = Contracts.canceled
map_lookup_err _ = Contracts.unavailable

-- toDisputeRef
unfoldable pub to_dispute_ref : Dispute → DisputeRef
to_dispute_ref d = record {
  id = d.id;
  transaction_id = d.transaction_id;
  reason_code = d.reason_code;
  status = status_text d.status;
  resolution_code = d.resolution_code;
}

-- GetDispute
unfoldable pub get_dispute :
    {Queue : Type 0} → Setup Queue → ℕ → World Queue → Result Contracts.Err DisputeRef
get_dispute s id w = map_err map_lookup_err (get s id w) >>= λ d. ok (to_dispute_ref d)
