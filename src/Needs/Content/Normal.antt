-- ===== src/Needs/Content/Normal.antt =====
-- The normal form of a content.
use konumlu.Base.{ℕ, ◌≡◌, Option, none, some, List, arith, ok}
use konumlu.Text.{trim_space_idem}
use konumlu.Needs.Content.{
  Floats, Content, Budget, normalize_title, normalize_description, check_budget, budget_normalized,
  normalize_radius, content_normalized,
}

normalize_title_idem : (s t : List ℕ) → normalize_title s ≡ ok t → normalize_title t ≡ ok t
unfolding normalize_title
normalize_title_idem s t h = ground (arith, trim_space_idem s)

normalize_description_idem :
    (s t : List ℕ) → normalize_description s ≡ ok t → normalize_description t ≡ ok t
unfolding normalize_description
normalize_description_idem s t h = ground (arith, trim_space_idem s)

budget_normalized_idem :
    (b c : Option Budget) → budget_normalized b ≡ ok c → budget_normalized c ≡ ok c
unfolding budget_normalized check_budget
budget_normalized_idem none c h = ground arith
budget_normalized_idem (some b) c h =
    ground (
      arith,
      trim_space_idem b.min_amount,
      trim_space_idem b.max_amount,
      trim_space_idem b.currency,
    )

module _ {F : Type 0} (fl : Floats F) where
  normalize_radius_idem :
      (r q : Option F) → normalize_radius fl r ≡ ok q → normalize_radius fl q ≡ ok q
  unfolding normalize_radius
  normalize_radius_idem none q h = ground arith
  normalize_radius_idem (some v) q h = ground arith

  -- A content in its normal form is left alone.
  pub content_normalized_idem :
      (c d : Content F) → content_normalized fl c ≡ ok d → content_normalized fl d ≡ ok d
  unfolding content_normalized
  content_normalized_idem c d h = ground (
    arith,
    normalize_title_idem c.title d.title,
    normalize_description_idem c.description d.description,
    budget_normalized_idem c.budget d.budget,
    normalize_radius_idem c.radius_km d.radius_km,
  )
