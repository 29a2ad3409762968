-- ===== src/Envelope/Safe.antt =====
-- apps/devices/control_governance.py: proofs on `validate_control_value`.
use novena_hub.Prelude.{
  ℕ, ◌≡◌, ◌==◌, ◌&&◌, not, ap, subst, refl, Bool, true, false, String, Option, none, some, List,
  All, arith, Bool-cases, inl, inr,
}
use novena_hub.RemoteControl.Types.{Denial}
use novena_hub.Envelope.Int.{ℤ, pos, leb_int, distance, magnitude, IsMonotone}
use novena_hub.Envelope.{
  Scalar, flag, Limits, Effective, Checked, passed, refused, number_of, intersect_limits,
}
use novena_hub.Envelope.Cases.{or_else-none}
use novena_hub.Envelope.Within.{IsWithin, limits_error-IsWithin}
use novena_hub.Envelope.Value.{
  Target, Encoded, last_issued, is_within, cooldown_error, delta_case, delta_error, normalize,
  safety_error, paired, unless, check_value, validate_control_value, is_integer_type, is_float_type,
  is_bool_type, is_text_type,
}

abbrev invalid : String → Denial
invalid message = record { code = "invalid_data_type"; message = message }

module _ (decimal : String → Option ℤ) (rounded : ℕ → ℤ → ℤ) where
  -- What a value meets that passes: every document of limits, rounded to floats, the greatest step from the current
  -- value, and the cooldown since the last command of the key.
  pub record IsSafe (sources : List Limits) (now : ℕ) (limits : Effective) (target : Target)
      (value v : Scalar) : Type 0 where
    pub normal : normalize decimal rounded target.data_type value ≡ passed v
    pub within : All (IsWithin decimal rounded v) sources
    pub step :
        (current : Scalar) (d : ℤ)
        → target.current ≡ some current
        → limits.max_delta ≡ some d
        → (n c : ℤ) × (number_of decimal v ≡ some n)
          × (number_of decimal current ≡ some c)
          × (leb_int (pos (distance n c)) d ≡ true)
    pub rested :
        (c : ℤ) (created : ℕ)
        → limits.cooldown_seconds ≡ some c
        → last_issued target.device target.command_key target.issued ≡ some created
        → (not (magnitude c == 0) && is_within now created c) ≡ false

  delta_case_lem :
      (x y : Option ℤ) (d : ℤ)
      → delta_case x y d ≡ none
      → (n c : ℤ) × (x ≡ some n) × (y ≡ some c) × (leb_int (pos (distance n c)) d ≡ true)
  delta_case_lem none y d h = cc
  delta_case_lem (some n) none d h = cc
  delta_case_lem (some n) (some c) d h = (n, c, refl, refl, ground arith)

  delta_lem :
      (o : Option Scalar) (l : Option ℤ) (v current : Scalar) (d : ℤ)
      → delta_error decimal rounded o l v ≡ none
      → o ≡ some current
      → l ≡ some d
      → (n c : ℤ) × (number_of decimal v ≡ some n)
        × (number_of decimal current ≡ some c)
        × (leb_int (pos (distance n c)) d ≡ true)
  delta_lem none l v current d h e k = cc
  delta_lem (some x) none v current d h e k = cc
  delta_lem (some x) (some m) v current d h e k =
      let same_value : current ≡ x = cc in
      let same_limit : d ≡ m = cc in rw (same_value, same_limit) (delta_case_lem _ _ m h)

  cooldown_lem :
      (now : ℕ) (l : Option ℤ) (r : Option ℕ) (c : ℤ) (created : ℕ)
      → cooldown_error now l r ≡ none
      → l ≡ some c
      → r ≡ some created
      → (not (magnitude c == 0) && is_within now created c) ≡ false
  cooldown_lem now none r c created h e k = cc
  cooldown_lem now (some x) none c created h e k = cc
  cooldown_lem now (some x) (some t) c created h e k =
      let same_limit : c ≡ x = cc in
      let same_time : created ≡ t = cc in rw (same_limit, same_time) (ground arith)

  paired_lem :
      (v w : Scalar) (x : Checked Encoded) {e : Encoded}
      → paired decimal rounded v x ≡ passed (w, e)
      → v ≡ w
  paired_lem v w (refused d) h = cc
  paired_lem v w (passed x) h = cc

  unless_lem :
      (o : Option Denial) (x : Checked (Scalar × Encoded)) {y : Scalar × Encoded}
      → unless decimal rounded o x ≡ passed y
      → (o ≡ none) × (x ≡ passed y)
  unless_lem none x h = (refl, h)
  unless_lem (some d) x h = cc

  check_value_lem :
      (now : ℕ) (limits : Effective) (target : Target) (x : Checked Scalar) {v : Scalar}
      {e : Encoded}
      → check_value decimal rounded now limits target x ≡ passed (v, e)
      → (x ≡ passed v) × (safety_error decimal rounded now limits target v ≡ none)
  unfolding check_value
  check_value_lem now limits target (refused d) h = cc
  check_value_lem now limits target (passed w) {v} {e} h =
      let (safe, coded) =
        unless_lem (safety_error decimal rounded now limits target w) _ {y = (v, e)} h in
      let same_value = paired_lem w v _ {e = e} coded in
      (
        ap (λ (x : Scalar). passed x) same_value,
        subst (λ x. safety_error decimal rounded now limits target x ≡ none) same_value safe,
      )

  -- Where rounding to floats is monotone: a value that passes under limits that were intersected from
  -- documents of limits lies within each of the documents, whose bounds are rounded to floats; it
  -- keeps the greatest step of the limits from the current value; and the cooldown of the limits
  -- since the last counted command of the key is over.
  pub validate_control_value-IsSafe :
      (sources : List Limits) (now : ℕ) (limits : Effective) (target : Target) (value v : Scalar)
      (e : Encoded)
      → IsMonotone (rounded 6)
      → intersect_limits decimal rounded sources ≡ passed limits
      → validate_control_value decimal rounded now limits target value ≡ passed (v, e)
      → IsSafe sources now limits target value v
  unfolding validate_control_value safety_error
  validate_control_value-IsSafe sources now limits target value v e mono made h =
      let (normal, safe) = check_value_lem now limits target _ {v = v} {e = e} h in
      let (bounded, others) = or_else-none decimal _ _ safe in
      let (stepped, rested) = or_else-none decimal _ _ others in
      record {
        normal = normal;
        within = limits_error-IsWithin decimal rounded sources limits v mono made bounded;
        step = λ current d. delta_lem target.current limits.max_delta v current d stepped;
        rested = λ c created. cooldown_lem now limits.cooldown_seconds _ c created rested;
      }

  unless_refuses :
      (o : Option Denial) (d : Denial)
      → (x : Denial) × (unless decimal rounded o (refused d) ≡ refused x)
  unless_refuses none d = (d, refl)
  unless_refuses (some x) d = (x, refl)

  -- A Boolean value is refused for every data type, also for the Boolean ones.
  pub validate_flag_refuses :
      (now : ℕ) (limits : Effective) (target : Target) (b : Bool)
      → (d : Denial) × (validate_control_value decimal rounded now limits target (flag b)
          ≡ refused d)
  unfolding validate_control_value normalize check_value number_of
  validate_flag_refuses now limits target b = elim (Bool-cases (is_integer_type target.data_type)) [
    | inl integral ↦ (invalid "Value must be numeric.", rw integral refl)
    | inr other ↦ elim (Bool-cases (is_float_type target.data_type)) [
      | inl floating ↦ (invalid "Value must be numeric.", rw (other, floating) refl)
      | inr neither ↦ elim (Bool-cases (is_bool_type target.data_type)) [
        | inl boolean ↦
            let (d, e) =
              unless_refuses (safety_error decimal rounded now limits target (flag b))
                (invalid "Value must be numeric.") in
            (d, rw (other, neither, boolean) e)
        | inr unknown ↦ elim (Bool-cases (is_text_type target.data_type)) [
          | inl textual ↦
              (invalid "Value must be text.", rw (other, neither, unknown, textual) refl)
          | inr outside ↦
              (invalid "Unsupported control data type.", rw (other, neither, unknown, outside) refl)
        ]
      ]
    ]
  ]
