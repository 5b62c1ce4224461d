-- ===== src/Outbox/Policy.antt =====
-- policy.go: claim sizes, leases and the retry delay.
use konumlu.Base.{
  ℕ, zero, suc, ◌+◌, ◌-◌, ◌%◌, ◌≤◌, ◌<◌, inl, inr, Bool-cases, ◌≡◌, Bool, true, false, ◌||◌, Option,
  none, some, arith, ltb, ◌==◌, if◌then◌else◌, Result, ok, err, ◌>>=◌, ◌>>◌, refuse,
}
use konumlu.Outbox.Event.{Err, invalid_policy, foreign, panicked}
use native.Mathlib.Nat.{le_refl}

-- Go's float64, as far as the delay uses it. `Positive` is a value above zero, infinity included, and
-- no NaN. `truncate` is the conversion to int64, as the 64 bits of its result. The laws are IEEE 754's:
-- a positive duration converts to a positive value, a product by a factor of one or more stays
-- positive, and truncation is monotone below a duration whose conversion to float64 stays below
-- 2 ^ 63, as it does where the duration is less than 2 ^ 63 - 512. Go leaves the conversion of a value
-- outside the range of int64 to the platform, so there is no law about it.
pub record Float : Type 1 where
  pub F : Type 0
  pub Positive : F → Type 0
  pub of_duration : ℕ → F
  pub times : F → F → F
  pub lt : F → F → Bool
  pub ge : F → F → Bool
  pub gt : F → F → Bool
  pub one : F
  pub truncate : F → ℕ
  pub positive_of : (d : ℕ) → 0 < d → Positive (of_duration d)
  pub positive_times : (x m : F) → Positive x → ge m one ≡ true → Positive (times x m)
  pub truncate_mono :
      (x : F) (c : ℕ)
      → Positive x
      → gt x (of_duration c) ≡ false
      → c + 512 < 0x8000000000000000
      → truncate x ≤ truncate (of_duration c)

-- jitter, over the number that the random source gives. `int64(max) + 1` overflows at the largest
-- duration, and rand.Int panics where its bound is not positive, whatever the random source.
unfoldable pub jitter_of : ℕ → Option ℕ → Result Err ℕ
jitter_of max rand =
    if max == 0
    then ok 0
    else if max == 0x7fffffffffffffff
    then err panicked
    else elim rand [ none ↦ err foreign | some r ↦ ok (r % (max + 1)) ]

-- now.Add of the 64 bits of a duration, which are those of a negative one from 2 ^ 63 on. A time
-- before Go's zero time is the zero time here.
unfoldable pub add_duration : ℕ → ℕ → ℕ
add_duration now d = if ltb d 0x8000000000000000 then now + d else now - (0x10000000000000000 - d)

module _ (f : Float) where
  open f use {
    F, Positive, of_duration, times, lt, ge, gt, one, truncate, positive_of, positive_times,
    truncate_mono,
  }

  -- A duration or a size that is negative in Go is refused like zero (a negative jitter alone has a
  -- test of its own), so naturals do.
  pub record Policy : Type 0 where
    pub batch_size : ℕ
    pub lease : ℕ
    pub backoff_base : ℕ
    pub backoff_multiplier : F
    pub backoff_cap : ℕ
    pub jitter : ℕ

  -- `(p Policy) Validate`
  unfoldable pub validate : Policy → Result Err (Unit {0})
  validate p = do
    refuse (p.batch_size == 0 || p.lease == 0) invalid_policy
    refuse (p.backoff_base == 0 || lt p.backoff_multiplier one || ltb p.backoff_cap p.backoff_base)
        invalid_policy

  -- The loop of NextAvailableAt: `exp` rounds, left early at the cap.
  unfoldable pub grow : ℕ → F → F → F → F
  grow zero m cap delay = delay
  grow (suc exp) m cap delay =
      let next = times delay m in
      let rest = grow exp m cap next in if ge next cap then cap else rest

  -- The delay of NextAvailableAt; `attempts - 1` stops at 0, as the code's `if exp < 0` makes it.
  unfoldable pub delay_for : Policy → ℕ → F
  unfolding grow
  delay_for p attempts =
      let cap = of_duration p.backoff_cap in
      let delay = grow (attempts - 1) p.backoff_multiplier cap (of_duration p.backoff_base) in
      if gt delay cap then cap else delay

  -- `(p Policy) NextAvailableAt`; the sum of the delay and the jitter wraps as an int64.
  unfoldable pub next_available_at : Policy → ℕ → ℕ → Option ℕ → Result Err ℕ
  unfolding jitter_of add_duration
  next_available_at p now attempts rand = jitter_of p.jitter rand >>= λ j.
      ok (add_duration now ((truncate (delay_for p attempts) + j) % 0x10000000000000000))

  grow-Positive :
      (exp : ℕ) (m : F) (c : ℕ) (delay : F)
      → ge m one ≡ true
      → 0 < c
      → Positive delay
      → Positive (grow exp m (of_duration c) delay)
  unfolding grow
  grow-Positive zero m c delay g h p = p
  grow-Positive (suc exp) m c delay g h p = elim (Bool-cases (ge (times delay m) (of_duration c))) [
    | inl e ↦ rw e (positive_of c h)
    | inr e ↦ rw e (grow-Positive exp m c (times delay m) g h (positive_times delay m p g))
  ]

  delay_for-le :
      (p : Policy) (attempts : ℕ)
      → validate p ≡ ok tt
      → ge p.backoff_multiplier one ≡ true
      → p.backoff_cap + 512 < 0x8000000000000000
      → truncate (delay_for p attempts) ≤ truncate (of_duration p.backoff_cap)
  unfolding validate delay_for
  delay_for-le p attempts v g small =
      let cap = of_duration p.backoff_cap in
      let delay = grow (attempts - 1) p.backoff_multiplier cap (of_duration p.backoff_base) in
      elim (Bool-cases (gt delay cap)) [
        | inl e ↦ rw e (le_refl _)
        | inr e ↦ rw e (
            truncate_mono delay p.backoff_cap
              (grow-Positive (attempts - 1) p.backoff_multiplier p.backoff_cap
                (of_duration p.backoff_base) g (ground arith)
                (positive_of p.backoff_base (ground arith)))
              e small)
      ]

  -- Under a valid policy whose multiplier is a number of one or more, whose cap is less than 2
  -- ^ 63 - 512 nanoseconds and, as a converted number with the jitter, less than 2 ^ 63, a
  -- retry time that is found is not in the past and not later than the cap and the whole jitter
  -- allow, whatever the number of attempts.
  pub next_available_at_bounds :
      (p : Policy) (now attempts : ℕ) (rand : Option ℕ) {t : ℕ}
      → validate p ≡ ok tt
      → ge p.backoff_multiplier one ≡ true
      → p.backoff_cap + 512 < 0x8000000000000000
      → truncate (of_duration p.backoff_cap) + p.jitter < 0x8000000000000000
      → next_available_at p now attempts rand ≡ ok t
      → (now ≤ t) × (t ≤ now + truncate (of_duration p.backoff_cap) + p.jitter)
  unfolding next_available_at
  next_available_at_bounds p now attempts rand v g small fits e =
      ground (arith, delay_for-le p attempts v g small)
