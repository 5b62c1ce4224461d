-- ===== src/Outbox/Event.antt =====
-- event.go: the durable row, its validation and the test for claiming it.
use konumlu.Base.{
  ℕ, Bool, true, false, not, ◌||◌, Option, none, some, List, [], ◌∷◌, ltb, ◌==◌, if◌then◌else◌,
  is_some, is_empty, keep, any, map, Result, ok, err, ◌>>◌, refuse,
}
use konumlu.Text.{codes, text_eq, trim_space}
use konumlu.Ids.{is_zero}

-- The package's errors; `canceled` is an error of the context, `foreign` any other. `panicked` is no
-- error value: it stands for a run-time panic, which ends the process.
pub data Err : Type 0 where
  unavailable invalid_event invalid_policy sensitive_payload conflict not_found store_required : Err
  handler_required duplicate_handler relay_required canceled foreign panicked : Err

-- A decoded JSON value, as json.Unmarshal gives it.
mutual
  pub data Value : Type 0 where
    null : Value
    boolean : Bool → Value
    number : ℕ → Value
    text : List ℕ → Value
    array : Items → Value
    object : Fields → Value

  pub data Items : Type 0 where
    nil : Items
    item : Value → Items → Items

  pub data Fields : Type 0 where
    end : Fields
    field : List ℕ → Value → Fields → Fields

-- json.RawMessage by what json.Valid and json.Unmarshal say of it: `none` is a message that is empty
-- or no JSON.
abbrev pub Raw : Type 0
Raw = Option Value

-- An event. Versions and attempts are naturals: the code refuses a negative one.
pub record Event : Type 0 where
  pub id : ℕ
  pub event_type : List ℕ
  pub event_version : ℕ
  pub aggregate_type : Option (List ℕ)
  pub aggregate_id : Option (List ℕ)
  pub payload : Raw
  pub idempotency_key : Option (List ℕ)
  pub correlation_id : Option (List ℕ)
  pub created_at : ℕ
  pub available_at : ℕ
  pub claimed_at : Option ℕ
  pub claim_until : Option ℕ
  pub completed_at : Option ℕ
  pub attempts : ℕ
  pub last_error_class : Option (List ℕ)

-- The character classes of Go's `unicode` package, which the code takes as they are.
pub record Unicode : Type 0 where
  pub lower : ℕ → ℕ
  pub is_letter : ℕ → Bool
  pub is_number : ℕ → Bool

abbrev sensitive_words : List (List ℕ)
sensitive_words =
    codes "password"
    ∷ codes "passwd"
    ∷ codes "otp"
    ∷ codes "token"
    ∷ codes "secret"
    ∷ codes "cookie"
    ∷ codes "authorization"
    ∷ codes "sessiontoken"
    ∷ codes "accesstoken"
    ∷ codes "refreshtoken"
    ∷ codes "apikey"
    ∷ codes "privatekey"
    ∷ codes "rawtoken"
    ∷ codes "rawsecret"
    ∷ codes "rawotp"
    ∷ []

-- sensitiveKey
unfoldable pub sensitive_key : Unicode → List ℕ → Bool
sensitive_key u k =
    let b = keep (λ r. u.is_letter r || u.is_number r) (map u.lower k) in
    any (λ w. text_eq b w) sensitive_words

-- rejectSensitive. A Go map is walked in any order; every refusal is the same error.
unfoldable mutual
  pub reject_sensitive : Unicode → Value → Result Err (Unit {0})
  reject_sensitive u null = ok tt
  reject_sensitive u (boolean b) = ok tt
  reject_sensitive u (number n) = ok tt
  reject_sensitive u (text s) = ok tt
  reject_sensitive u (array xs) = reject_items u xs
  reject_sensitive u (object fs) = reject_fields u fs

  pub reject_items : Unicode → Items → Result Err (Unit {0})
  reject_items u nil = ok tt
  reject_items u (item x xs) = reject_sensitive u x >> reject_items u xs

  pub reject_fields : Unicode → Fields → Result Err (Unit {0})
  reject_fields u end = ok tt
  reject_fields u (field k x fs) =
      refuse (sensitive_key u k) sensitive_payload >> (reject_sensitive u x >> reject_fields u fs)

-- validatePayload
unfoldable pub validate_payload : Unicode → Raw → Result Err (Unit {0})
validate_payload u none = err invalid_event
validate_payload u (some (array xs)) = reject_sensitive u (array xs)
validate_payload u (some (object fs)) = reject_sensitive u (object fs)
validate_payload u (some _) = err invalid_event

-- `e.ClaimedAt != nil && !e.ClaimUntil.After(*e.ClaimedAt)`, after the test that both are set or none
bad_window : Option ℕ → Option ℕ → Bool
bad_window none none = false
bad_window none (some _) = true
bad_window (some _) none = true
bad_window (some a) (some b) = not (ltb a b)

-- `(e Event) Validate`
unfoldable pub validate : Unicode → Event → Result Err (Unit {0})
unfolding bad_window
validate u e = do
  refuse (is_zero e.id) invalid_event
  refuse
      (is_empty (trim_space e.event_type) || not (text_eq e.event_type (trim_space e.event_type)))
      invalid_event
  refuse (e.event_version == 0) invalid_event
  refuse (e.created_at == 0 || ltb e.available_at e.created_at) invalid_event
  refuse (bad_window e.claimed_at e.claim_until) invalid_event
  validate_payload u e.payload

before_opt : ℕ → Option ℕ → Bool
before_opt now none = false
before_opt now (some t) = ltb now t

-- isClaimable
unfoldable pub is_claimable : Event → ℕ → Bool
unfolding before_opt
is_claimable e now =
    if is_some e.completed_at
    then false
    else if ltb now e.available_at
    then false
    else if before_opt now e.claim_until
    then false
    else true
