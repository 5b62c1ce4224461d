-- ===== src/Offers/Service/Answers.antt =====
-- Who may create an offer, and what the answer of Create is.
use konumlu.Base.{
  ℕ, ◌≡◌, ap, Bool, true, Option, some, List, [], ◌∷◌, arith, values, ok, Result-cases, Bool-cases,
  inl, inr,
}
use konumlu.Contracts.{NeedRef}
use konumlu.Offers.Domain.{Err, Offer, Content, content_normalized, submit}
use konumlu.Offers.Memory.{Store, first, submitted_on, find_submitted}
use konumlu.Offers.Setup.{
  Setup, World, require_open_need, assert_business_owner, assert_eligible, is_conflict,
  is_not_found,
}
use konumlu.Offers.Work.{run_maybe_tx}
use konumlu.Offers.Service.{may_submit, commit_submit, create_new, after_conflict, create}

first-holds : (p : Offer → Bool) (os : List Offer) (o : Offer) → first p os ≡ some o → p o ≡ true
first-holds p [] o h = absurd (cc)
first-holds p (x ∷ os) o h = ground (arith, first-holds p os o)

find-submitted_on :
    (ctx : Option Err) (need service : ℕ) (m : Store) (o : Offer)
    → find_submitted ctx need service m ≡ ok o
    → submitted_on need service o ≡ true
unfolding find_submitted
find-submitted_on ctx need service m o h =
    ground (arith, first-holds (submitted_on need service) (values m.by_id) o)

module _ {Queue : Type 0} (s : Setup Queue) where
  -- The answer of Create is a submitted offer of the provider for the need and the service.
  abbrev pub Answers : ℕ → Content → Offer → Type 0
  Answers provider c o =
      (submitted_on c.need_id c.service_id o ≡ true) × (o.provider_user_id ≡ provider)

  submit-Answers :
      (rand : Option ℕ) (provider : ℕ) (c : Content) (now : ℕ) (o : Offer)
      → submit rand provider c now ≡ ok o
      → Answers provider c o
  unfolding submit content_normalized
  submit-Answers rand provider c now o h = (ground arith, ground arith)

  conflict-Answers :
      (provider : ℕ) (c : Content) (w : World Queue) (o : Offer)
      → after_conflict s provider c w ≡ ok o
      → Answers provider c o
  unfolding after_conflict
  conflict-Answers provider c w o h =
      elim (Result-cases (find_submitted w.ctx c.need_id c.service_id w.store)) [
        | inr (e, q) ↦ absurd (ground (arith, q))
        | inl (x, q) ↦ (
          ground (arith, q, find-submitted_on w.ctx c.need_id c.service_id w.store x q),
          ground (arith, q),
        )
      ]

  create_new-Answers :
      (between later : World Queue → World Queue) (provider : ℕ) (rand : Option ℕ) (now : ℕ)
      (c : Content) (need : NeedRef) (w : World Queue) (o : Offer)
      → (create_new s between later provider rand now c need w).0 ≡ ok o
      → Answers provider c o
  unfolding create_new
  create_new-Answers between later provider rand now c need w o h =
      elim (Result-cases (submit rand provider c now)) [
        | inr (e, q) ↦ absurd (ground (arith, q))
        | inl (x, q) ↦
            elim (Result-cases
              (run_maybe_tx s (commit_submit s x need.requester_user_id provider) (between w)).0) [
                | inl (_, f) ↦ submit-Answers rand provider c now o (ground (arith, q, f))
                | inr (e, f) ↦ elim (Bool-cases (is_conflict e)) [
                  | inr k ↦ absurd (ground (arith, q, f, k))
                  | inl k ↦
                      let run =
                        run_maybe_tx s (commit_submit s x need.requester_user_id provider)
                          (between w) in
                      conflict-Answers provider c (later run.1) o (ground (arith, q, f, k))
                ]
              ]
      ]

  may_submit-read :
      (provider : ℕ) (content c : Content) (need : NeedRef)
      → may_submit s provider content ≡ ok (c, need)
      → (c.need_id ≡ content.need_id)
        × (c.service_id ≡ content.service_id)
        × (assert_business_owner s content.provider_business_id provider ≡ ok tt)
        × (require_open_need s content.need_id ≡ ok need)
        × (assert_eligible s need content.provider_business_id content.service_id ≡ ok tt)
  unfolding may_submit content_normalized
  may_submit-read provider content c need h =
      (ground arith, ground arith, ground arith, ground arith, ground arith)

  found-Answers :
      (between later : World Queue → World Queue) (provider : ℕ) (content c : Content)
      (need : NeedRef) (rand : Option ℕ) (now : ℕ) (w : World Queue) (o : Offer)
      → may_submit s provider content ≡ ok (c, need)
      → (create s between later provider content rand now w).0 ≡ ok o
      → Answers provider c o
  unfolding create
  found-Answers between later provider content c need rand now w o q h =
      elim (Result-cases (find_submitted w.ctx c.need_id c.service_id w.store)) [
        | inl (x, f) ↦
            let sub = find-submitted_on w.ctx c.need_id c.service_id w.store x f in
            (ground (arith, q, f, sub), ground (arith, q, f, sub))
        | inr (e, f) ↦ elim (Bool-cases (is_not_found e)) [
          | inr k ↦ absurd (ground (arith, q, f, k))
          | inl k ↦
              create_new-Answers between later provider rand now c need w o
                (ground (arith, q, f, k))
        ]
      ]

  -- Where Create succeeds, its caller owns the business, the need is open, the service is
  -- eligible for it, and the answer is a submitted offer of the caller for that need and
  -- service, whether it is new or was there already.
  pub create-Answers :
      (between later : World Queue → World Queue) (provider : ℕ) (content : Content)
      (rand : Option ℕ) (now : ℕ) (w w' : World Queue) (o : Offer)
      → create s between later provider content rand now w ≡ (ok o, w')
      → Answers provider content o
        × (assert_business_owner s content.provider_business_id provider ≡ ok tt)
        × ((need : NeedRef) × (require_open_need s content.need_id ≡ ok need)
            × (assert_eligible s need content.provider_business_id content.service_id ≡ ok tt))
  unfolding create
  create-Answers between later provider content rand now w w' o h =
      elim (Result-cases (may_submit s provider content)) [
        | inr (e, q) ↦ absurd (ground (arith, q))
        | inl ((c, need), q) ↦
            let (n, v, owns, opens, fits) = may_submit-read provider content c need q in
            let (sub, by) =
              found-Answers between later provider content c need rand now w o q
                (ap (λ x. x.0) h) in
            ((ground (arith, n, v, sub), by), owns, (need, opens, fits))
      ]
