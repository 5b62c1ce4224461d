-- ===== src/Disputes/Evidence.antt =====
-- domain.go: the evidence in a dispute. Types and roles are texts, as they are in the source.
use konumlu.Base.{
  ℕ, Bool, not, ◌&&◌, ◌||◌, Option, List, if◌then◌else◌, is_some, is_none, Result, ok, ◌>>=◌, ◌>>◌,
  refuse, or_err,
}
use konumlu.Text.{codes, text_eq, trim_space}
use konumlu.Ids.{is_zero, new_id}
use konumlu.Disputes.Domain.{
  Err, zero_id, unavailable, invalid_evidence, normalize_optional_text, clone_normalized_optional,
  check_text,
}

abbrev pub max_title_runes : ℕ
max_title_runes = 200

abbrev pub max_description_runes : ℕ
max_description_runes = 2000

abbrev pub max_reference_runes : ℕ
max_reference_runes = 512

-- `(t EvidenceType) valid`, requiresReference and forbidsReference
unfoldable pub forbids_reference : List ℕ → Bool
forbids_reference t = text_eq t (codes "party_statement")

unfoldable pub is_internal : List ℕ → Bool
is_internal t = text_eq t (codes "internal_reference")

unfoldable pub requires_reference : List ℕ → Bool
unfolding is_internal
requires_reference t = text_eq t (codes "external_reference") || is_internal t

abbrev pub valid_type : List ℕ → Bool
valid_type t = forbids_reference t || requires_reference t

-- The three roles
unfoldable pub internal_role : List ℕ → Bool
internal_role r = text_eq r (codes "internal")

unfoldable pub valid_role : List ℕ → Bool
unfolding internal_role
valid_role r = text_eq r (codes "requester") || text_eq r (codes "provider") || internal_role r

pub record Evidence : Type 0 where
  pub id : ℕ
  pub dispute_id : ℕ
  pub evidence_type : List ℕ
  pub title : List ℕ
  pub description : Option (List ℕ)
  pub reference_value : Option (List ℕ)
  pub actor_user_id : Option ℕ
  pub actor_role : List ℕ
  pub created_at : ℕ

-- The reference that a type asks for.
abbrev pub check_reference : Evidence → Result Err (Unit {0})
check_reference e =
    refuse (forbids_reference e.evidence_type && is_some e.reference_value) invalid_evidence
    >> refuse (requires_reference e.evidence_type && is_none e.reference_value) invalid_evidence
    >> (if requires_reference e.evidence_type
        then check_text e.reference_value max_reference_runes invalid_evidence
        else ok tt)

-- Internal references are those of the internal role.
abbrev pub check_role : Evidence → Result Err (Unit {0})
check_role e =
    refuse (not (valid_role e.actor_role)) invalid_evidence
    >> (if internal_role e.actor_role
        then refuse (not (is_internal e.evidence_type)) invalid_evidence
        else refuse (is_internal e.evidence_type) invalid_evidence)

-- `(e Evidence) Validate`
unfoldable pub validate : Evidence → Result Err (Unit {0})
validate e = do
  refuse (is_zero e.id || is_zero e.dispute_id) zero_id
  refuse (not (valid_type e.evidence_type)) invalid_evidence
  title ← normalize_optional_text e.title max_title_runes invalid_evidence
  refuse (not (text_eq title e.title)) invalid_evidence
  check_text e.description max_description_runes invalid_evidence
  check_reference e
  check_role e
  refuse (is_zero e.created_at) invalid_evidence

-- EvidenceCommand
pub record EvidenceCommand : Type 0 where
  pub dispute_id : ℕ
  pub evidence_type : List ℕ
  pub title : List ℕ
  pub description : Option (List ℕ)
  pub reference_value : Option (List ℕ)
  pub actor_user_id : Option ℕ
  pub actor_role : List ℕ

-- The value that CreateEvidence makes, before it is validated.
abbrev pub evidence_from :
    ℕ → EvidenceCommand → List ℕ → Option (List ℕ) → Option (List ℕ) → ℕ → Evidence
evidence_from id cmd title desc ref now = record {
  id = id;
  dispute_id = cmd.dispute_id;
  evidence_type = cmd.evidence_type;
  title = title;
  description = desc;
  reference_value = ref;
  actor_user_id = cmd.actor_user_id;
  actor_role = trim_space cmd.actor_role;
  created_at = now;
}

-- CreateEvidence, over the random bytes of the identifier
unfoldable pub create_evidence : Option ℕ → EvidenceCommand → ℕ → Result Err Evidence
create_evidence rand cmd now = do
  refuse (is_zero cmd.dispute_id) zero_id
  refuse (is_zero now) invalid_evidence
  title ← normalize_optional_text cmd.title max_title_runes invalid_evidence
  desc ← clone_normalized_optional cmd.description max_description_runes invalid_evidence
  ref ← clone_normalized_optional cmd.reference_value max_reference_runes invalid_evidence
  id ← or_err (new_id rand) unavailable
  let e = evidence_from id cmd title desc ref now
  validate e
  ok e
