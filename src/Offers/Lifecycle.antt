-- ===== src/Offers/Lifecycle.antt =====
-- The life of an offer (domain.go), against its status diagram.
use konumlu.Base.{ℕ, ◌≡◌, refl, true, false, Option, arith, ltb, if◌then◌else◌, Result, ok, err}
use konumlu.Offers.Domain.{
  Err, invalid_transition, invalid_offer, Status, submitted, withdrawn, accepted, rejected, expired,
  is_submitted, Offer, validate, Content, content_normalized, submit, transition, withdraw, accept,
  reject, expire,
}

pub data Op : Type 0 where
  withdraw_op accept_op reject_op expire_op : Op

abbrev pub target : Op → Status
target withdraw_op = withdrawn
target accept_op = accepted
target reject_op = rejected
target expire_op = expired

unfoldable pub move : Op → Offer → ℕ → Result Err Offer
unfolding withdraw accept reject expire
move withdraw_op = withdraw
move accept_op = accept
move reject_op = reject
move expire_op = expire

-- The offer that a transition writes.
abbrev pub moved : Status → Offer → ℕ → Offer
moved s o now = record o { status = s; updated_at = now }

-- The status diagram: every operation leads from `submitted` to its target, at a time that is not
-- before the creation.
unfoldable pub expected : Op → Offer → ℕ → Result Err Offer
expected op o now =
    if is_submitted o.status
    then if ltb now o.created_at then err invalid_offer else ok (moved (target op) o now)
    else err invalid_transition

moved-valid :
    (op : Op) (o : Offer) (now : ℕ)
    → validate o ≡ ok tt
    → ltb now o.created_at ≡ false
    → validate (moved (target op) o now) ≡ ok tt
unfolding validate
moved-valid withdraw_op o now v le = ground arith
moved-valid accept_op o now v le = ground arith
moved-valid reject_op o now v le = ground arith
moved-valid expire_op o now v le = ground arith

-- On a valid offer, Withdraw, Accept, Reject and Expire do exactly what the status diagram says:
-- the validation of the result never refuses it.
pub move-expected :
    (op : Op) (o : Offer) (now : ℕ) → validate o ≡ ok tt → move op o now ≡ expected op o now
unfolding move withdraw accept reject expire transition expected
move-expected withdraw_op o now v = ground (arith, moved-valid withdraw_op o now v)
move-expected accept_op o now v = ground (arith, moved-valid accept_op o now v)
move-expected reject_op o now v = ground (arith, moved-valid reject_op o now v)
move-expected expire_op o now v = ground (arith, moved-valid expire_op o now v)

-- An offer that is not submitted is refused by every operation.
move-refused :
    (op : Op) (o : Offer) (now : ℕ)
    → is_submitted o.status ≡ false
    → move op o now ≡ err invalid_transition
unfolding move withdraw accept reject expire
move-refused withdraw_op o now h = ground arith
move-refused accept_op o now h = ground arith
move-refused reject_op o now h = ground arith
move-refused expire_op o now h = ground arith

-- What a successful operation has found and written.
move-written :
    (op : Op) (o o' : Offer) (now : ℕ)
    → move op o now ≡ ok o'
    → (is_submitted o.status ≡ true)
      × (validate o' ≡ ok tt)
      × (o' ≡ moved (target op) o now)
      × (ltb now o.created_at ≡ false)
unfolding move withdraw accept reject expire transition
move-written withdraw_op o o' now h = ground arith
move-written accept_op o o' now h = ground arith
move-written reject_op o o' now h = ground arith
move-written expire_op o o' now h = ground arith

target-final : (op : Op) → is_submitted (target op) ≡ false
target-final withdraw_op = refl
target-final accept_op = refl
target-final reject_op = refl
target-final expire_op = refl

-- An operation on an offer that succeeds has found it submitted, not before its creation, and
-- leaves a valid offer in its target status which no operation changes again.
pub move-final :
    (op next_op : Op) (o o' : Offer) (now later : ℕ)
    → move op o now ≡ ok o'
    → (is_submitted o.status ≡ true)
      × (validate o' ≡ ok tt)
      × (o' ≡ moved (target op) o now)
      × (ltb now o.created_at ≡ false)
      × (move next_op o' later ≡ err invalid_transition)
move-final op next_op o o' now later h =
    let (s, v, e, c) = move-written op o o' now h in
    let final = move-refused next_op (moved (target op) o now) later (target-final op) in
    (s, v, e, c, rw e final)

-- An offer that Submit makes is valid, submitted, made at the given time by the given provider, and has
-- the content in its normal form.
pub submit_lem :
    (rand : Option ℕ) (provider : ℕ) (content : Content) (now : ℕ) (o : Offer)
    → submit rand provider content now ≡ ok o
    → (validate o ≡ ok tt)
      × (content_normalized content
          ≡ ok (record {
            need_id = o.need_id;
            provider_business_id = o.provider_business_id;
            service_id = o.service_id;
            message = o.message;
            price = o.price;
          }))
      × (o.status ≡ submitted)
      × (o.provider_user_id ≡ provider)
      × (o.created_at ≡ now)
      × (o.updated_at ≡ now)
unfolding submit content_normalized
submit_lem rand provider content now o h = ground arith
