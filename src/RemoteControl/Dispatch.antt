-- ===== src/RemoteControl/Dispatch.antt =====
-- apps/devices/remote_control.py: claiming an outbox row, publishing its command, and recording
-- what came of it. Each of the three transactions is a function on the row of the command; the
-- broker's answer is an argument.
pub mod Claim
pub mod Record
pub mod Tells
pub mod Safety
pub mod Meanwhile
pub mod Outcomes
pub mod Backoff
pub mod Once
pub mod Delivered
pub mod Defects
use novena_hub.Prelude.{
  ℕ, ◌+◌, ◌*◌, ◌-◌, ◌^◌, min, Bool, true, false, ◌||◌, String, Option, none, some, List, [], ◌∷◌,
  ◌==◌, leb, ltb, str_eq, seconds, if◌then◌else◌,
}
use novena_hub.RemoteControl.Types.{Status, OutboxStatus, Outbox, Command}
use novena_hub.RemoteControl.Catalog.{status_order}

-- The settings `REMOTE_CONTROL_OUTBOX_*`.
pub record Settings : Type 0 where
  pub lease_seconds : ℕ
  pub retry_base_seconds : ℕ
  pub retry_max_seconds : ℕ
  pub max_attempts : ℕ

-- The values that `getattr(settings, name, default)` falls back to.
abbrev pub default_settings : Settings
default_settings = record {
  lease_seconds = 60;
  retry_base_seconds = 5;
  retry_max_seconds = 300;
  max_attempts = 5;
}

-- `_retry_delay`; an attempt count is no less than 0, so `max(0, n - 1)` is the truncated `n - 1`.
unfoldable pub retry_delay : Settings → ℕ → ℕ
retry_delay s attempt_count =
    seconds (min s.retry_max_seconds (s.retry_base_seconds * 2 ^ (attempt_count - 1)))

-- `if STATUS_ORDER[status] <= STATUS_ORDER[bound]: status = target`
unfoldable pub move_up_to : Status → Status → Status → Status
unfolding status_order
move_up_to bound target status =
    if leb (status_order status) (status_order bound) then target else status

-- `if STATUS_ORDER[status] < STATUS_ORDER[target]: status = target`
unfoldable pub raise_to : Status → Status → Status
unfolding status_order
raise_to target status = if ltb (status_order status) (status_order target) then target else status

abbrev pub lease_has_expired : Option ℕ → ℕ → Bool
lease_has_expired none now = false
lease_has_expired (some t) now = leb t now

abbrev pub status_is_claimable : OutboxStatus → Option ℕ → ℕ → Bool
status_is_claimable OutboxStatus.pending lease now = true
status_is_claimable OutboxStatus.retry lease now = true
status_is_claimable OutboxStatus.claimed lease now = lease_has_expired lease now
status_is_claimable _ lease now = false

-- `not (not claimable or outbox.next_attempt_at > now)`
unfoldable pub is_due : Outbox → ℕ → Bool
is_due outbox now =
    if status_is_claimable outbox.status outbox.lease_expires_at now
    then leb outbox.next_attempt_at now
    else false

-- `text or default`
abbrev pub text_or : String → String → String
text_or text default = if str_eq text "" then default else text
