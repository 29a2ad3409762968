-- ===== src/Envelope/Value.antt =====
-- apps/devices/control_governance.py: `validate_control_value`. `data_type` is in lower case, as
-- `.lower()` leaves it; an encoded value is counted in units of 10^-12. What
-- `float` makes of a number is `rounded`, as in Envelope.
use novena_hub.Prelude.{
  ℕ, ◌+◌, ◌%◌, ◌^◌, suc, ◌==◌, max, Bool, true, false, not, ◌&&◌, String, Option, none, some, List,
  [], ◌∷◌, str_eq, ltb, contains, if◌then◌else◌,
}
use novena_hub.RemoteControl.Types.{Status, Denial}
use novena_hub.RemoteControl.Revalidation.{deny, or_else}
use novena_hub.Envelope.Int.{ℤ, pos, negsuc, leb_int, distance, add_int, mul_int, magnitude}
use novena_hub.Envelope.{
  Scalar, number, text, flag, Effective, Checked, passed, refused, refuse, not_numeric, number_of,
  limits_error,
}

abbrev pub is_integer_type : String → Bool
is_integer_type = contains ("int" ∷ "integer" ∷ "uint16" ∷ "int16" ∷ "uint32" ∷ "int32" ∷ [])

abbrev pub is_float_type : String → Bool
is_float_type = contains ("float" ∷ "float32" ∷ "float64" ∷ "number" ∷ "decimal" ∷ [])

abbrev pub is_bool_type : String → Bool
is_bool_type = contains ("bool" ∷ "boolean" ∷ [])

abbrev pub is_text_type : String → Bool
is_text_type = contains ("str" ∷ "string" ∷ "enum" ∷ [])

-- A row of `RemoteCommand`, as the query for the cooldown reads it.
pub record Issued : Type 0 where
  pub device : ℕ
  pub command_key : String
  pub status : Status
  pub created_at : ℕ

-- What the check reads of the device, of the template's definition and of the tables.
pub record Target : Type 0 where
  pub device : ℕ
  pub command_key : String
  pub data_type : String
  pub current : Option Scalar
  pub scale : Scalar
  pub offset : Scalar
  pub issued : List Issued

-- `encoded`, and whether it is handed on as an `int`.
pub record Encoded : Type 0 where
  pub amount : ℤ
  pub is_int : Bool

abbrev counts_for_cooldown : Status → Bool
counts_for_cooldown Status.publish_accepted = true
counts_for_cooldown Status.gateway_received = true
counts_for_cooldown Status.executing = true
counts_for_cooldown Status.field_protocol_accepted = true
counts_for_cooldown Status.verified = true
counts_for_cooldown _ = false

abbrev later : ℕ → Option ℕ → Option ℕ
later t none = some t
later t (some u) = some (max t u)

-- `created_at` of the row that `.order_by("-created_at").first()` gives.
unfoldable pub last_issued : ℕ → String → List Issued → Option ℕ
last_issued device key [] = none
last_issued device key (i ∷ rest) =
    let found = last_issued device key rest in
    if (i.device == device) && (str_eq i.command_key key && counts_for_cooldown i.status)
    then later i.created_at found
    else found

-- `(timezone.now() - recent.created_at).total_seconds() < cooldown`
abbrev pub is_within : ℕ → ℕ → ℤ → Bool
is_within now created (pos c) = ltb now (created + c)
is_within now created (negsuc c) = ltb (now + suc c) created

abbrev pub cooldown_error : ℕ → Option ℤ → Option ℕ → Option Denial
cooldown_error now none recent = none
cooldown_error now (some c) none = none
cooldown_error now (some c) (some created) =
    if not (magnitude c == 0) && is_within now created c
    then deny "cooldown_active" "Command key is in its configured cooldown period."
    else none

abbrev pub is_whole : ℕ → ℤ → Bool
is_whole unit n = magnitude n % unit == 0

abbrev pub delta_case : Option ℤ → Option ℤ → ℤ → Option Denial
delta_case none current d = deny "invalid_data_type" "Value must be numeric."
delta_case (some n) none d = deny "invalid_data_type" "Current value must be numeric."
delta_case (some n) (some c) d =
    if leb_int (pos (distance n c)) d
    then none
    else deny "delta_exceeded" "Requested change exceeds the effective delta limit."

module _ (decimal : String → Option ℤ) (rounded : ℕ → ℤ → ℤ) where
  abbrev whole_case : Option ℤ → Checked Scalar
  whole_case none = not_numeric "Value"
  whole_case (some n) =
      if is_whole 1000000 n
      then passed (number n)
      else refuse "invalid_data_type" "Value must be an integer."

  abbrev float_case : Option ℤ → Checked Scalar
  float_case none = not_numeric "Value"
  float_case (some n) = passed (number (rounded 6 n))

  abbrev pub bool_case : Scalar → Checked Scalar
  bool_case (flag b) = passed (flag b)
  bool_case (number n) = refuse "invalid_data_type" "Value must be true or false."
  bool_case (text s) = refuse "invalid_data_type" "Value must be true or false."

  abbrev text_case : Scalar → Checked Scalar
  text_case (text s) = passed (text s)
  text_case (number n) = refuse "invalid_data_type" "Value must be text."
  text_case (flag b) = refuse "invalid_data_type" "Value must be text."

  -- `normalized`
  unfoldable pub normalize : String → Scalar → Checked Scalar
  unfolding number_of
  normalize data_type value =
      if is_integer_type data_type
      then whole_case (number_of decimal value)
      else if is_float_type data_type
      then float_case (number_of decimal value)
      else if is_bool_type data_type
      then bool_case value
      else if is_text_type data_type
      then text_case value
      else refuse "invalid_data_type" "Unsupported control data type."

  abbrev pub delta_error : Option Scalar → Option ℤ → Scalar → Option Denial
  delta_error none limit v = none
  delta_error (some current) none v = none
  delta_error (some current) (some d) v =
      delta_case (number_of decimal v) (number_of decimal current) d

  abbrev pub encode_case : Bool → Option ℤ → Option ℤ → Option ℤ → Checked Encoded
  encode_case integral none scale offset = not_numeric "Value"
  encode_case integral (some n) none offset = not_numeric "Scale"
  encode_case integral (some n) (some scale) none = not_numeric "Offset"
  encode_case integral (some n) (some scale) (some offset) =
      let amount = rounded 12 (add_int (mul_int n scale) (mul_int offset (pos 1000000))) in
      passed (record { amount = amount; is_int = integral && is_whole (10 ^ 12) amount })

  -- The checks of a normalized value, up to its encoding.
  unfoldable pub safety_error : ℕ → Effective → Target → Scalar → Option Denial
  unfolding limits_error last_issued number_of
  safety_error now limits target v = or_else (limits_error decimal limits v) (
      or_else (delta_error target.current limits.max_delta v) (
        cooldown_error now limits.cooldown_seconds
          (last_issued target.device target.command_key target.issued)))

  abbrev pub paired : Scalar → Checked Encoded → Checked (Scalar × Encoded)
  paired v (refused d) = refused d
  paired v (passed e) = passed (v, e)

  abbrev pub encode : Target → Scalar → Checked (Scalar × Encoded)
  encode target v = paired v (
      encode_case (is_integer_type target.data_type) (number_of decimal v)
        (number_of decimal target.scale) (number_of decimal target.offset))

  abbrev pub unless : Option Denial → Checked (Scalar × Encoded) → Checked (Scalar × Encoded)
  unless none answer = answer
  unless (some d) answer = refused d

  unfoldable pub check_value : ℕ → Effective → Target → Checked Scalar → Checked (Scalar × Encoded)
  unfolding safety_error number_of
  check_value now limits target (refused d) = refused d
  check_value now limits target (passed v) =
      unless (safety_error now limits target v) (encode target v)

  -- `validate_control_value`
  unfoldable pub validate_control_value :
      ℕ → Effective → Target → Scalar → Checked (Scalar × Encoded)
  unfolding check_value normalize
  validate_control_value now limits target value =
      check_value now limits target (normalize target.data_type value)
