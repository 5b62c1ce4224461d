-- ===== src/Money.antt =====
-- The optional price of an offer and of a transaction, and the amount of a payment. The Go packages
-- internal/offers, internal/transactions and internal/payments each hold a copy of this code; it is
-- modelled once, over the error that the package returns.
mod Patterns
pub mod Decimal
mod Tests
unfoldable pub use Patterns.*
use konumlu.Base.{
  ℕ, ◌≡◌, refl, Bool, true, false, not, ◌&&◌, ◌||◌, Option, none, some, List, arith, if◌then◌else◌,
  is_empty, Result, ok, err, Result-cases, inl, inr, Bool-cases,
}
use konumlu.Text.{trim_space, trim_space_idem}

pub record Price : Type 0 where
  pub amount : List ℕ
  pub currency : List ℕ

module _ {E : Type 0} (invalid : E) where
  -- The patterns, and then big.Rat.SetString.
  checked : List ℕ → List ℕ → Result E Price
  checked amt cur =
      if not (amount_pattern amt) || not (currency_pattern cur)
      then err invalid
      else if not (rat_set_string amt)
      then err invalid
      else ok (record { amount = amt; currency = cur })

  -- `(p *Price) normalized`
  unfoldable pub normalized : Option Price → Result E (Option Price)
  unfolding checked
  normalized none = ok none
  normalized (some p) =
      let amt = trim_space p.amount in
      let cur = trim_space p.currency in
      if is_empty amt && is_empty cur
      then ok none
      else if is_empty amt || is_empty cur
      then err invalid
      else elim (checked amt cur) [ ok q ↦ ok (some q) | err e ↦ err e ]

  -- `(m Money) normalized`, where a missing part is an error
  unfoldable pub money_normalized : Price → Result E Price
  unfolding checked
  money_normalized m =
      let amt = trim_space m.amount in
      let cur = trim_space m.currency in
      if is_empty amt || is_empty cur then err invalid else checked amt cur

  pub normalized_idem : (p q : Option Price) → normalized p ≡ ok q → normalized q ≡ ok q
  unfolding normalized
  normalized_idem none q h = ground arith
  normalized_idem (some p) q h =
      ground (arith, trim_space_idem p.amount, trim_space_idem p.currency)

  pub money_normalized_idem : (p q : Price) → money_normalized p ≡ ok q → money_normalized q ≡ ok q
  unfolding money_normalized
  money_normalized_idem p q h = ground (arith, trim_space_idem p.amount, trim_space_idem p.currency)
