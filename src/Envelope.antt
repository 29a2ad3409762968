-- ===== src/Envelope.antt =====
-- apps/devices/control_governance.py: `_intersect_limits`, and the limits that
-- `validate_control_value` holds a value against. Numbers are counted in millionths, as far as that
-- resolves them; `decimal` reads a text as `Decimal` does. `rounded k n` is the float next to
-- `n / 10 ^ k` as `str` writes it, which takes no more decimals than the number did, counted again in
-- units of `10 ^ -k`.
pub mod Int
pub mod Extrema
pub mod Sets
pub mod Cases
pub mod Within
pub mod Value
pub mod Safe
use Prim.Native.String.{◌++◌}
use novena_hub.Prelude.{
  ℕ, Bool, true, false, not, ◌&&◌, ◌||◌, String, ◌⊎◌, inl, inr, Option, none, some, List, [], ◌∷◌,
  map, str_eq, leb, ltb, any, all, select, if◌then◌else◌,
}
use novena_hub.RemoteControl.Types.{Denial}
use novena_hub.RemoteControl.Revalidation.{or_else}
use novena_hub.Envelope.Int.{ℤ, pos, negsuc, leb_int, distance, max_int, min_int}

-- A value of a limit or of a control key.
pub data Scalar : Type 0 where
  number : ℤ → Scalar
  text : String → Scalar
  flag : Bool → Scalar

-- The keys of a limits document that `_intersect_limits` reads; an absent key or a null is `none`.
pub record Limits : Type 0 where
  pub min : Option Scalar
  pub max : Option Scalar
  pub enum : Option (List Scalar)
  pub max_delta : Option Scalar
  pub max_rate : Option Scalar
  pub cooldown_seconds : Option Scalar

-- What it returns; the order in which `sorted` puts the values of `enum` is left open.
pub record Effective : Type 0 where
  pub min : Option ℤ
  pub max : Option ℤ
  pub enum : Option (List Scalar)
  pub max_delta : Option ℤ
  pub max_rate : Option ℤ
  pub cooldown_seconds : Option ℤ

pub data Checked {ℓ} (A : Type ℓ) : Type ℓ where
  passed : A → Checked A
  refused : Denial → Checked A

abbrev pub refuse {ℓ} : {A : Type ℓ} → String → String → Checked A
refuse code message = refused (record { code = code; message = message })

abbrev pub not_numeric {ℓ} : {A : Type ℓ} → String → Checked A
not_numeric label = refuse "invalid_data_type" (label ++ " must be numeric.")

-- What `==` compares: `True == 1` and `False == 0`.
abbrev pub canonical : Scalar → ℤ ⊎ String
canonical (number n) = inl n
canonical (text s) = inr s
canonical (flag true) = inl (pos 1000000)
canonical (flag false) = inl (pos 0)

abbrev pub same : ℤ ⊎ String → ℤ ⊎ String → Bool
same (inl a) (inl b) = leb_int a b && leb_int b a
same (inr a) (inr b) = str_eq a b
same (inl a) (inr b) = false
same (inr a) (inl b) = false

-- `value in values`
abbrev pub allowed_in : Scalar → List Scalar → Bool
allowed_in v = any (λ u. same (canonical u) (canonical v))

unfoldable pub greatest : List ℤ → Option ℤ
greatest [] = none
greatest (n ∷ rest) = elim (greatest rest) [ none ↦ some n | some m ↦ some (max_int n m) ]

unfoldable pub least : List ℤ → Option ℤ
least [] = none
least (n ∷ rest) = elim (least rest) [ none ↦ some n | some m ↦ some (min_int n m) ]

abbrev overlap : Option ℤ → Option ℤ → Bool
overlap (some low) (some high) = leb_int low high
overlap _ _ = true

-- `float` of a number that is there.
abbrev pub floated : (ℤ → ℤ) → Option ℤ → Option ℤ
floated float none = none
floated float (some n) = some (float n)

abbrev bounds : (ℤ → ℤ) → Option (List ℤ) → Option (List ℤ) → Checked (Option ℤ × Option ℤ)
bounds float none _ = not_numeric "Minimum"
bounds float (some minima) none = not_numeric "Maximum"
bounds float (some minima) (some maxima) =
    let low = floated float (greatest minima) in
    let high = floated float (least maxima) in
    if overlap low high
    then passed (low, high)
    else refuse "empty_policy_intersection" "Configured safety envelopes do not overlap."

-- `[source["enum"] for source in sources if source.get("enum") is not None]`
unfoldable pub enum_sets : List Limits → List (List Scalar)
enum_sets [] = []
enum_sets (s ∷ rest) =
    let sets = enum_sets rest in elim s.enum [ none ↦ sets | some set ↦ set ∷ sets ]

abbrev pub common : List Scalar → List (List Scalar) → List Scalar
common set rest = select (λ v. all (allowed_in v) rest) set

abbrev when_any : List Scalar → Checked (Option (List Scalar))
when_any [] = refuse "empty_policy_intersection" "Configured allowed-value sets do not overlap."
when_any (v ∷ rest) = passed (some (v ∷ rest))

abbrev intersect_sets : List (List Scalar) → Checked (Option (List Scalar))
intersect_sets [] = passed none
intersect_sets (set ∷ rest) = when_any (common set rest)

abbrev rates :
    (ℤ → ℤ)
    → Option (List ℤ)
    → Option (List ℤ)
    → Option (List ℤ)
    → Checked (Option ℤ × (Option ℤ × Option ℤ))
rates float none _ _ = not_numeric "max_delta"
rates float (some _) none _ = not_numeric "max_rate"
rates float (some _) (some _) none = not_numeric "cooldown_seconds"
rates float (some deltas) (some speeds) (some pauses) =
    passed
      (floated float (least deltas), (floated float (least speeds), floated float (least pauses)))

abbrev assemble :
    Checked (Option ℤ × Option ℤ)
    → Checked (Option (List Scalar))
    → Checked (Option ℤ × (Option ℤ × Option ℤ))
    → Checked Effective
assemble (refused d) _ _ = refused d
assemble (passed _) (refused d) _ = refused d
assemble (passed _) (passed _) (refused d) = refused d
assemble (passed (low, high)) (passed set) (passed (delta, (rate, pause))) = passed (record {
  min = low;
  max = high;
  enum = set;
  max_delta = delta;
  max_rate = rate;
  cooldown_seconds = pause;
})

module _ (decimal : String → Option ℤ) where
  -- `_number`
  unfoldable pub number_of : Scalar → Option ℤ
  number_of (number n) = some n
  number_of (text s) = decimal s
  number_of (flag b) = none

  -- The numbers of the given values, unless one of them is none.
  unfoldable pub numbers : List (Option Scalar) → Option (List ℤ)
  unfolding number_of
  numbers [] = some []
  numbers (none ∷ rest) = numbers rest
  numbers (some v ∷ rest) =
      let others = numbers rest in
      elim (number_of v) [
        | none ↦ none
        | some n ↦ elim others [ none ↦ none | some ns ↦ some (n ∷ ns) ]
      ]

  -- `_intersect_limits`
  unfoldable pub intersect_limits : (ℕ → ℤ → ℤ) → List Limits → Checked Effective
  unfolding numbers greatest least enum_sets
  intersect_limits rounded sources =
      assemble
        (bounds (rounded 6) (numbers (map (λ s. s.min) sources))
          (numbers (map (λ s. s.max) sources)))
        (intersect_sets (enum_sets sources))
        (rates (rounded 6) (numbers (map (λ s. s.max_delta) sources))
          (numbers (map (λ s. s.max_rate) sources))
          (numbers (map (λ s. s.cooldown_seconds) sources)))

  abbrev enum_error : Option (List Scalar) → Scalar → Option Denial
  enum_error none v = none
  enum_error (some set) v =
      if allowed_in v set
      then none
      else some (record {
        code = "value_not_allowed";
        message = "Value is not in the effective allowed set.";
      })

  abbrev value_error : Option Denial
  value_error = some (record { code = "invalid_data_type"; message = "Value must be numeric." })

  abbrev min_error : Option ℤ → Option ℤ → Option Denial
  min_error none n = none
  min_error (some low) none = value_error
  min_error (some low) (some n) =
      if leb_int low n
      then none
      else some (record {
        code = "value_below_minimum";
        message = "Value is below the effective safe minimum.";
      })

  abbrev max_error : Option ℤ → Option ℤ → Option Denial
  max_error none n = none
  max_error (some high) none = value_error
  max_error (some high) (some n) =
      if leb_int n high
      then none
      else some (record {
        code = "value_above_maximum";
        message = "Value is above the effective safe maximum.";
      })

  -- The checks of `enum`, `min` and `max` in `validate_control_value`.
  unfoldable pub limits_error : Effective → Scalar → Option Denial
  unfolding number_of
  limits_error limits v =
      or_else (enum_error limits.enum v)
        (or_else (min_error limits.min (number_of v)) (max_error limits.max (number_of v)))
