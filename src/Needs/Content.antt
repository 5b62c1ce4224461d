-- ===== src/Needs/Content.antt =====
-- domain.go: the content of a need and its normal form. Coordinates and radii are floats, a type with the
-- comparisons that the code makes; a string is a list of code points.
pub mod Normal
use konumlu.Base.{
  ℕ, zero, suc, ◌+◌, ◌*◌, ◌-◌, ◌^◌, Bool, true, false, not, ◌&&◌, ◌||◌, Option, none, some, List,
  [], ◌∷◌, ltb, ◌==◌, if◌then◌else◌, length, is_empty, any, Result, ok, err, ◌>>=◌, ◌>>◌, refuse,
}
use konumlu.Text.{trim_space}
use konumlu.Ids.{is_zero}
use konumlu.Money.{amount_pattern, currency_pattern, rat_set_string}
use konumlu.Offers.Message.{is_control, bad_rune}

-- The package's errors, the context's (`canceled`), those of the database that the package maps, and
-- any other.
pub data Err : Type 0 where
  zero_id invalid_need invalid_status invalid_transition invalid_content invalid_location : Err
  invalid_latitude invalid_longitude invalid_budget invalid_radius invalid_expiry : Err
  invalid_category store_required unavailable not_found forbidden conflict : Err
  canceled db_no_rows db_conflict db_unavailable foreign : Err

-- What the code asks of float64, with its constants -90, 90, -180, 180, MinRadiusKm and MaxRadiusKm.
pub record Floats (F : Type 0) : Type 0 where
  pub is_nan : F → Bool
  pub is_inf : F → Bool
  pub lt : F → F → Bool
  pub min_latitude : F
  pub max_latitude : F
  pub min_longitude : F
  pub max_longitude : F
  pub min_radius : F
  pub max_radius : F

pub record Coordinates (F : Type 0) : Type 0 where
  pub latitude : F
  pub longitude : F

pub record Budget : Type 0 where
  pub min_amount : List ℕ
  pub max_amount : List ℕ
  pub currency : List ℕ

-- Content
pub record Content (F : Type 0) : Type 0 where
  pub title : List ℕ
  pub description : List ℕ
  pub category_id : Option ℕ
  pub budget : Option Budget
  pub location : Coordinates F
  pub radius_km : Option F
  pub expires_at : Option ℕ

abbrev pub max_title_runes : ℕ
max_title_runes = 120

abbrev pub max_description_runes : ℕ
max_description_runes = 4000

-- normalizeTitle
unfoldable pub normalize_title : List ℕ → Result Err (List ℕ)
normalize_title raw =
    let trimmed = trim_space raw in
    if is_empty trimmed
    then err invalid_content
    else if ltb max_title_runes (length trimmed)
    then err invalid_content
    else if any (λ r. r == 0x7f || is_control r) trimmed
    then err invalid_content
    else ok trimmed

-- normalizeDescription
unfoldable pub normalize_description : List ℕ → Result Err (List ℕ)
normalize_description raw =
    let trimmed = trim_space raw in
    if is_empty trimmed
    then ok []
    else if ltb max_description_runes (length trimmed)
    then err invalid_content
    else if any bad_rune trimmed
    then err invalid_content
    else ok trimmed

-- big.Rat.Cmp on decimals with at most eight digits after the point: the digits of the number times
-- 10 ^ 8.
unfoldable pub fraction_value : ℕ → ℕ → List ℕ → ℕ
fraction_value k acc [] = acc * 10 ^ k
fraction_value zero acc (c ∷ s) = acc
fraction_value (suc k) acc (c ∷ s) = fraction_value k (acc * 10 + (c - b'0')) s

unfoldable pub amount_value : ℕ → List ℕ → ℕ
unfolding fraction_value
amount_value acc [] = acc * 10 ^ 8
amount_value acc (c ∷ s) =
    let rest = amount_value (acc * 10 + (c - b'0')) s in
    if c == b'.' then fraction_value 8 acc s else rest

-- The checks of the budget on the trimmed texts.
unfoldable pub check_budget : List ℕ → List ℕ → List ℕ → Result Err Budget
check_budget lo hi cur = do
  refuse (is_empty lo || is_empty hi || is_empty cur) invalid_budget
  refuse (not (amount_pattern lo) || not (amount_pattern hi) || not (currency_pattern cur))
      invalid_budget
  refuse
      (not (rat_set_string lo)
        || not (rat_set_string hi)
        || ltb (amount_value 0 hi) (amount_value 0 lo))
      invalid_budget
  ok (record { min_amount = lo; max_amount = hi; currency = cur })

-- `(b *Budget) normalized`
unfoldable pub budget_normalized : Option Budget → Result Err (Option Budget)
budget_normalized none = ok none
budget_normalized (some b) =
    let lo = trim_space b.min_amount in
    let hi = trim_space b.max_amount in
    let cur = trim_space b.currency in
    if is_empty lo && is_empty hi && is_empty cur
    then ok none
    else (do q ← check_budget lo hi cur; ok (some q))

-- The category of a content.
unfoldable pub check_category : Option ℕ → Result Err (Unit {0})
check_category none = ok tt
check_category (some id) = refuse (is_zero id) zero_id

-- The expiry of a content.
unfoldable pub check_expiry : Option ℕ → Result Err (Unit {0})
check_expiry none = ok tt
check_expiry (some t) = refuse (is_zero t) invalid_expiry

module _ {F : Type 0} (fl : Floats F) where
  -- ValidateCoordinates
  unfoldable pub validate_coordinates : Coordinates F → Result Err (Unit {0})
  validate_coordinates c = do
    refuse (fl.is_nan c.latitude || fl.is_inf c.latitude) invalid_latitude
    refuse (fl.is_nan c.longitude || fl.is_inf c.longitude) invalid_longitude
    refuse (fl.lt c.latitude fl.min_latitude || fl.lt fl.max_latitude c.latitude) invalid_latitude
    refuse (fl.lt c.longitude fl.min_longitude || fl.lt fl.max_longitude c.longitude)
        invalid_longitude

  -- normalizeRadius
  unfoldable pub normalize_radius : Option F → Result Err (Option F)
  normalize_radius none = ok none
  normalize_radius (some v) =
      if fl.is_nan v || fl.is_inf v || fl.lt v fl.min_radius || fl.lt fl.max_radius v
      then err invalid_radius
      else ok (some v)

  -- `(c Content) normalized`
  unfoldable pub content_normalized : Content F → Result Err (Content F)
  content_normalized c = do
    title ← normalize_title c.title
    refuse (is_empty title) invalid_content
    desc ← normalize_description c.description
    validate_coordinates c.location
    budget ← budget_normalized c.budget
    radius ← normalize_radius c.radius_km
    check_category c.category_id
    check_expiry c.expires_at
    ok (record {
      title = title;
      description = desc;
      category_id = c.category_id;
      budget = budget;
      location = c.location;
      radius_km = radius;
      expires_at = c.expires_at;
    })
