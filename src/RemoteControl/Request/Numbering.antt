-- ===== src/RemoteControl/Request/Numbering.antt =====
-- apps/devices/remote_control.py: the sequence number and the expiry of a new command.
use novena_hub.Prelude.{
  ℕ, ◌+◌, ◌≤◌, ◌<◌, ◌≡◌, true, Option, List, [], ◌∷◌, arith, All, option_eq, Bool-cases, inl, inr,
}
use novena_hub.RemoteControl.Types.{CommandRow}
use novena_hub.RemoteControl.Request.Record.{last_sequence, lifetime}

pub lifetime_bounds : (ttl : ℕ) → (5 ≤ lifetime ttl) × (lifetime ttl ≤ 300)
unfolding lifetime
lifetime_bounds ttl = omega arith

-- Sequence numbers of the commands of a device stay below the next one.
abbrev pub IsBelow : Option ℕ → ℕ → CommandRow → Type 0
IsBelow device n row =
    option_eq row.command.device_id device ≡ true → row.command.sequence_number < n

IsBelow-more :
    (device : Option ℕ) (m n : ℕ) (rows : List CommandRow)
    → m ≤ n
    → All (IsBelow device m) rows
    → All (IsBelow device n) rows
IsBelow-more device m n [] le h = tt
IsBelow-more device m n (row ∷ rows) le h =
    ((λ e. omega (arith, h.0 e)), IsBelow-more device m n rows le h.1)

grows :
    (device : Option ℕ) (row : CommandRow) (rows : List CommandRow)
    → last_sequence device rows + 1 ≤ last_sequence device (row ∷ rows) + 1
unfolding last_sequence
grows device row rows = elim (Bool-cases (option_eq row.command.device_id device)) [
  | inl same ↦ rw same (omega arith)
  | inr other ↦ rw other (omega arith)
]

pub last_sequence_above :
    (device : Option ℕ) (rows : List CommandRow)
    → All (IsBelow device (last_sequence device rows + 1)) rows
unfolding last_sequence
last_sequence_above device [] = tt
last_sequence_above device (row ∷ rows) = (
  (λ e. rw e (omega arith)),
  IsBelow-more device (last_sequence device rows + 1) _ rows (grows device row rows)
      (last_sequence_above device rows),
)
