-- ===== src/Tests/Values.antt =====
-- Runs of the limits on a value.
use novena_hub.Prelude.{ℕ, ◌*◌, ◌/◌, ◌≡◌, refl, true, String, Option, none, some, [], ◌∷◌}
use novena_hub.RemoteControl.Types.{Status, Denial}
use novena_hub.Envelope.Int.{ℤ, pos, negsuc}
use novena_hub.Envelope.{number, flag, Limits, Effective, passed, refused, intersect_limits}
use novena_hub.Envelope.Value.{Target, Encoded, validate_control_value}
use novena_hub.Envelope.Safe.{IsSafe, validate_control_value-IsSafe, validate_flag_refuses}

-- No text is a number.
abbrev wordy : String → Option ℤ
wordy s = none

-- Numbers of few digits are kept.
abbrev kept : ℕ → ℤ → ℤ
kept k n = n

abbrev technical : Limits
technical = record {
  min = some (number (negsuc 9999999));
  max = some (number (pos 90000000));
  enum = none;
  max_delta = some (number (pos 20000000));
  max_rate = none;
  cooldown_seconds = none;
}

abbrev customer : Limits
customer = record {
  min = some (number (pos 10000000));
  max = some (number (pos 60000000));
  enum = none;
  max_delta = none;
  max_rate = none;
  cooldown_seconds = some (number (pos 30000000));
}

abbrev effective : Effective
effective = record {
  min = some (pos 10000000);
  max = some (pos 60000000);
  enum = none;
  max_delta = some (pos 20000000);
  max_rate = none;
  cooldown_seconds = some (pos 30000000);
}

intersect_run : intersect_limits wordy kept (technical ∷ customer ∷ []) ≡ passed effective
unfolding intersect_limits
intersect_run = refl

abbrev setpoint : Target
setpoint = record {
  device = 21;
  command_key = "setpoint";
  data_type = "uint16";
  current = some (number (pos 30000000));
  scale = number (pos 10000000);
  offset = number (pos 0);
  issued =
      record { device = 21; command_key = "setpoint"; status = Status.verified; created_at = 0 }
      ∷ [];
}

abbrev encoded : Encoded
encoded = record { amount = pos 400000000000000; is_int = true }

validate_run :
    validate_control_value wordy kept 30000000 effective setpoint (number (pos 40000000))
    ≡ passed (number (pos 40000000), encoded)
unfolding validate_control_value
validate_run = refl

validate_control_value-IsSafe_example :
    IsSafe wordy kept
      (technical ∷ customer ∷ [])
      30000000
      effective
      setpoint
      (number (pos 40000000))
      (number (pos 40000000))
validate_control_value-IsSafe_example =
    validate_control_value-IsSafe wordy kept (technical ∷ customer ∷ []) 30000000 effective setpoint
      (number (pos 40000000)) (number (pos 40000000)) encoded (λ a b h. h) intersect_run
      validate_run

abbrev switch : Target
switch = record setpoint { data_type = "bool"; current = none }

abbrev open_limits : Effective
open_limits = record {
  min = none;
  max = none;
  enum = none;
  max_delta = none;
  max_rate = none;
  cooldown_seconds = none;
}

validate_flag_refuses_example :
    (d : Denial) × (validate_control_value wordy kept 5 open_limits switch (flag true) ≡ refused d)
validate_flag_refuses_example = validate_flag_refuses wordy kept 5 open_limits switch true

-- Where floats are told apart by two only, the minimum of 101 counts as 100.
abbrev coarse : ℕ → ℤ → ℤ
coarse k (pos n) = pos (n / 2 * 2)
coarse k (negsuc n) = negsuc n

abbrev odd : Limits
odd = record {
  min = some (number (pos 101));
  max = none;
  enum = none;
  max_delta = none;
  max_rate = none;
  cooldown_seconds = none;
}

rounded_minimum :
    intersect_limits wordy coarse (odd ∷ []) ≡ passed (record open_limits { min = some (pos 100) })
unfolding intersect_limits
rounded_minimum = refl
