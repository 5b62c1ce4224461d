-- ===== src/Needs/Domain.antt =====
-- domain.go: the need, its validation and its status changes. The clones of a need are values here.
use konumlu.Base.{
  ℕ, Bool, true, false, not, ◌&&◌, ◌||◌, Option, none, some, List, ltb, leb, if◌then◌else◌, Result,
  ok, err, ◌>>=◌, ◌>>◌, refuse, or_err,
}
use konumlu.Text.{text_eq}
use konumlu.Ids.{is_zero, new_id}
use konumlu.Contracts.{Outcome, fulfilled_now, already_fulfilled, not_fulfillable}
use konumlu.Needs.Content.{
  Err, zero_id, invalid_status, invalid_content, invalid_need, invalid_expiry, invalid_transition,
  unavailable, Floats, Content, content_normalized,
}

-- A status text; `other` is one that the package does not name.
pub data Status : Type 0 where
  draft opened fulfilled cancelled expired : Status
  other : List ℕ → Status

-- `(s Status) valid`
abbrev pub valid : Status → Bool
valid (other _) = false
valid _ = true

abbrev pub is_draft : Status → Bool
is_draft draft = true
is_draft _ = false

abbrev pub is_open : Status → Bool
is_open opened = true
is_open _ = false

abbrev pub is_fulfilled : Status → Bool
is_fulfilled fulfilled = true
is_fulfilled _ = false

-- `(s Status) Terminal` and `(s Status) ownerEditable`
abbrev pub terminal : Status → Bool
terminal fulfilled = true
terminal cancelled = true
terminal expired = true
terminal _ = false

abbrev pub owner_editable : Status → Bool
owner_editable s = is_draft s || is_open s

-- Need, with its title, description, category, budget, coordinates, radius and expiry as one Content: that
-- which Validate makes of them.
pub record Need (F : Type 0) : Type 0 where
  pub id : ℕ
  pub requester_user_id : ℕ
  pub content : Content F
  pub status : Status
  pub created_at : ℕ
  pub updated_at : ℕ

-- A time that is set, and not after another.
abbrev pub set_by : Option ℕ → ℕ → Bool
set_by none t = false
set_by (some at) t = not (ltb t at)

-- Whether the expiry is set and has come.
abbrev pub is_due : Option ℕ → ℕ → Bool
is_due none now = false
is_due (some at) now = leb at now

module _ {F : Type 0} (fl : Floats F) where
  -- `(n Need) Validate`
  unfoldable pub validate : Need F → Result Err (Unit {0})
  validate n = do
    refuse (is_zero n.id || is_zero n.requester_user_id) zero_id
    refuse (not (valid n.status)) invalid_status
    normalized ← content_normalized fl n.content
    refuse (not (text_eq n.content.title normalized.title)) invalid_content
    refuse (not (text_eq n.content.description normalized.description)) invalid_content
    refuse (is_zero n.created_at || ltb n.updated_at n.created_at) invalid_need
    refuse (set_by n.content.expires_at n.created_at) invalid_expiry

  abbrev pub validated : Need F → Result Err (Need F)
  validated n = validate n >> ok n

  -- The value that NewDraft makes, before it is validated.
  abbrev pub draft_from : ℕ → ℕ → Content F → ℕ → Need F
  draft_from id requester content now = record {
    id = id;
    requester_user_id = requester;
    content = content;
    status = draft;
    created_at = now;
    updated_at = now;
  }

  -- NewDraft, over the random bytes of the identifier
  unfoldable pub new_draft : Option ℕ → ℕ → Content F → ℕ → Result Err (Need F)
  new_draft rand requester raw now = do
    refuse (is_zero requester) zero_id
    refuse (is_zero now) invalid_need
    content ← content_normalized fl raw
    refuse (set_by content.expires_at now) invalid_expiry
    id ← or_err (new_id rand) unavailable
    validated (draft_from id requester content now)

  -- `(n Need) UpdateContent`
  unfoldable pub update_content : Content F → Need F → ℕ → Result Err (Need F)
  update_content raw n now = do
    refuse (not (owner_editable n.status)) invalid_transition
    content ← content_normalized fl raw
    refuse (ltb now n.created_at) invalid_need
    refuse (set_by content.expires_at n.created_at) invalid_expiry
    validated (record n { content = content; updated_at = now })

  -- `(n Need) transition`
  unfoldable pub transition : Status → Need F → ℕ → Result Err (Need F)
  transition next n now =
      if ltb now n.created_at
      then err invalid_need
      else validated (record n { status = next; updated_at = now })

  -- `(n Need) Open`, Fulfill and Cancel
  unfoldable pub open_need : Need F → ℕ → Result Err (Need F)
  open_need n now =
      if not (is_draft n.status) then err invalid_transition else transition opened n now

  unfoldable pub fulfill : Need F → ℕ → Result Err (Need F)
  fulfill n now =
      if not (is_open n.status) then err invalid_transition else transition fulfilled n now

  unfoldable pub cancel : Need F → ℕ → Result Err (Need F)
  cancel n now =
      if not (is_draft n.status) && not (is_open n.status)
      then err invalid_transition
      else transition cancelled n now

  -- `(n Need) Expire`
  unfoldable pub expire : Need F → ℕ → Result Err (Need F)
  expire n now =
      if not (is_draft n.status) && not (is_open n.status)
      then err invalid_transition
      else if not (is_due n.content.expires_at now)
      then err invalid_transition
      else transition expired n now

abbrev pub fulfilled_from : {F : Type 0} → Result Err (Need F) → Result Err (Need F × Outcome)
fulfilled_from (ok next) = ok (next, fulfilled_now)
fulfilled_from (err e) = err e

-- `(n Need) ApplyCompletedTransactionFulfillment`
unfoldable pub apply_completed :
    {F : Type 0} → Floats F → Need F → ℕ → Result Err (Need F × Outcome)
apply_completed fl n now =
    if is_open n.status
    then fulfilled_from (fulfill fl n now)
    else if is_fulfilled n.status
    then ok (n, already_fulfilled)
    else ok (n, not_fulfillable)
