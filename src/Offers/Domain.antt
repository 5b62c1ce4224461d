-- ===== src/Offers/Domain.antt =====
-- domain.go: the offer, its validation and its status changes. An instant is the number of nanoseconds
-- since Go's zero time; the clones of an offer are values here.
use konumlu.Base.{
  ℕ, Bool, true, false, not, ◌||◌, Option, List, ltb, if◌then◌else◌, Result, ok, err, ◌>>=◌, ◌>>◌,
  refuse, or_err,
}
use konumlu.Text.{trim_space, text_eq}
use konumlu.Money.{Price, normalized}
use konumlu.Ids.{is_zero, new_id}
use konumlu.Offers.Message.{normalize_message}

-- The package's errors, the context's (`canceled`), those of the database and the outbox that the
-- package maps, and any other.
pub data Err : Type 0 where
  zero_id invalid_offer invalid_status invalid_transition invalid_message invalid_price : Err
  store_required unavailable not_found forbidden conflict not_eligible : Err
  canceled db_no_rows db_conflict db_unavailable : Err
  outbox_conflict outbox_unavailable outbox_invalid_event outbox_sensitive_payload foreign : Err

-- A status text; `other` is one that the package does not name.
pub data Status : Type 0 where
  submitted withdrawn accepted rejected expired : Status
  other : List ℕ → Status

-- `(s Status) valid`
abbrev pub valid : Status → Bool
valid (other _) = false
valid _ = true

abbrev pub is_submitted : Status → Bool
is_submitted submitted = true
is_submitted _ = false

abbrev pub is_accepted : Status → Bool
is_accepted accepted = true
is_accepted _ = false

abbrev pub is_rejected : Status → Bool
is_rejected rejected = true
is_rejected _ = false

abbrev pub is_withdrawn : Status → Bool
is_withdrawn withdrawn = true
is_withdrawn _ = false

abbrev pub is_expired : Status → Bool
is_expired expired = true
is_expired _ = false

-- `(s Status) Terminal`
abbrev pub terminal : Status → Bool
terminal s = is_withdrawn s || is_accepted s || is_rejected s || is_expired s

abbrev pub price_normalized : Option Price → Result Err (Option Price)
price_normalized = normalized invalid_price

pub record Content : Type 0 where
  pub need_id : ℕ
  pub provider_business_id : ℕ
  pub service_id : ℕ
  pub message : List ℕ
  pub price : Option Price

-- `(c Content) normalized`
unfoldable pub content_normalized : Content → Result Err Content
content_normalized c = do
  refuse (is_zero c.need_id || is_zero c.provider_business_id || is_zero c.service_id) zero_id
  msg ← normalize_message invalid_message c.message
  price ← price_normalized c.price
  ok (record c { message = msg; price = price })

pub record Offer : Type 0 where
  pub id : ℕ
  pub need_id : ℕ
  pub provider_business_id : ℕ
  pub service_id : ℕ
  pub provider_user_id : ℕ
  pub message : List ℕ
  pub price : Option Price
  pub status : Status
  pub created_at : ℕ
  pub updated_at : ℕ

-- `(o Offer) Validate`
unfoldable pub validate : Offer → Result Err (Unit {0})
validate o = do
  refuse
      (is_zero o.id
        || is_zero o.need_id
        || is_zero o.provider_business_id
        || is_zero o.service_id
        || is_zero o.provider_user_id)
      zero_id
  refuse (not (valid o.status)) invalid_status
  normalize_message invalid_message o.message
  refuse (not (text_eq o.message (trim_space o.message))) invalid_message
  price_normalized o.price
  refuse (is_zero o.created_at || ltb o.updated_at o.created_at) invalid_offer

-- `if err := o.Validate(); err != nil { return err }`, and the value
abbrev pub validated : Offer → Result Err Offer
validated o = validate o >>= λ _. ok o

-- The value that Submit makes, before it is validated.
abbrev pub submitted_from : ℕ → ℕ → Content → ℕ → Offer
submitted_from id provider c now = record {
  id = id;
  need_id = c.need_id;
  provider_business_id = c.provider_business_id;
  service_id = c.service_id;
  provider_user_id = provider;
  message = c.message;
  price = c.price;
  status = submitted;
  created_at = now;
  updated_at = now;
}

-- Submit, over the random bytes of the identifier
unfoldable pub submit : Option ℕ → ℕ → Content → ℕ → Result Err Offer
submit rand provider content now = do
  refuse (is_zero provider) zero_id
  refuse (is_zero now) invalid_offer
  c ← content_normalized content
  id ← or_err (new_id rand) unavailable
  validated (submitted_from id provider c now)

-- `(o Offer) transition`
unfoldable pub transition : Offer → Status → ℕ → Result Err Offer
transition o next now = do
  refuse (ltb now o.created_at) invalid_offer
  validated (record o { status = next; updated_at = now })

-- The guard of Withdraw, Accept, Reject and Expire, and the transition.
abbrev pub from_submitted : Status → Offer → ℕ → Result Err Offer
from_submitted next o now =
    if not (is_submitted o.status) then err invalid_transition else transition o next now

-- `Withdraw`, `Accept`, `Reject` and `Expire`
unfoldable pub withdraw : Offer → ℕ → Result Err Offer
withdraw = from_submitted withdrawn

unfoldable pub accept : Offer → ℕ → Result Err Offer
accept = from_submitted accepted

unfoldable pub reject : Offer → ℕ → Result Err Offer
reject = from_submitted rejected

unfoldable pub expire : Offer → ℕ → Result Err Offer
expire = from_submitted expired
