-- ===== src/Freshness/Order.antt =====
-- apps/devices/freshness.py and apps/devices/tasks.py: proofs on the states of a device.
use novena_hub.Prelude.{
  ℕ, ◌-◌, ◌≤◌, ◌<◌, ◌≡◌, ◌↔◌, refl, false, inl, inr, some, none, Option, leb, str_eq, seconds,
  arith, Bool-cases, sym, ◌∙◌, if◌then◌else◌,
}
use novena_hub.Freshness.{
  Thresholds, MonitoredDevice, FreshnessStatus, device_freshness_state, device_freshness_thresholds,
  device_offline_cutoff, sample_state, alarm_state, age,
}

-- How far a state is from a live one.
unfoldable pub rank : FreshnessStatus → ℕ
rank FreshnessStatus.live = 0
rank FreshnessStatus.delayed = 1
rank FreshnessStatus.offline = 2
rank FreshnessStatus.alarm = 3
rank FreshnessStatus.maintenance = 3

-- The status that an age has under two thresholds.
unfoldable grade : ℕ → ℕ → ℕ → FreshnessStatus
grade delayed offline age =
    if leb offline age
    then FreshnessStatus.offline
    else if leb delayed age
    then FreshnessStatus.delayed
    else FreshnessStatus.live

sample-grade :
    (t : Thresholds) (now : ℕ) (d : MonitoredDevice) (last : ℕ)
    → (sample_state t now d (some last)).status
      ≡ grade (device_freshness_thresholds t d).0 (device_freshness_thresholds t d).1 (age last now)
unfolding sample_state grade
sample-grade t now d last =
    elim (Bool-cases (leb (device_freshness_thresholds t d).1 (age last now))) [
      | inl h ↦ rw h refl
      | inr h ↦ elim (Bool-cases (leb (device_freshness_thresholds t d).0 (age last now))) [
        | inl k ↦ rw (h, k) refl
        | inr k ↦ rw (h, k) refl
      ]
    ]

rank-grade_monotonic :
    (delayed offline a b : ℕ)
    → a ≤ b
    → rank (grade delayed offline a) ≤ rank (grade delayed offline b)
unfolding rank grade
rank-grade_monotonic delayed offline a b h = ground arith

grade-offline :
    (delayed offline a : ℕ) → grade delayed offline a ≡ FreshnessStatus.offline → offline ≤ a
unfolding grade
grade-offline delayed offline a h = ground arith

offline-grade :
    (delayed offline a : ℕ) → offline ≤ a → grade delayed offline a ≡ FreshnessStatus.offline
unfolding grade
offline-grade delayed offline a h = ground arith

age_monotonic : (last now later : ℕ) → now ≤ later → age last now ≤ age last later
age_monotonic last now later h = omega arith

before_cutoff :
    (off last now : ℕ) → 0 < off → seconds off ≤ now → off ≤ age last now → last ≤ now - seconds off
before_cutoff off last now p h k = omega arith

after_cutoff :
    (off last now : ℕ) → seconds off ≤ now → last ≤ now - seconds off → off ≤ age last now
after_cutoff off last now h k = omega arith

device-sample :
    (t : Thresholds) (now : ℕ) (d : MonitoredDevice) (last : ℕ)
    → str_eq d.status "alarm" ≡ false
    → d.last_telemetry_at ≡ some last
    → (device_freshness_state t now d).status
      ≡ grade (device_freshness_thresholds t d).0 (device_freshness_thresholds t d).1 (age last now)
unfolding device_freshness_state
device-sample t now d last h e = rw (h, e) (sample-grade t now d last)

grade_live :
    (delayed offline a : ℕ)
    → a < delayed
    → a < offline
    → grade delayed offline a ≡ FreshnessStatus.live
unfolding grade
grade_live delayed offline a h k = ground arith

-- A device whose last sample is younger than both of its thresholds is live.
pub young_is_live :
    (t : Thresholds) (now : ℕ) (d : MonitoredDevice) (last : ℕ)
    → str_eq d.status "alarm" ≡ false
    → d.last_telemetry_at ≡ some last
    → age last now < (device_freshness_thresholds t d).0
    → age last now < (device_freshness_thresholds t d).1
    → (device_freshness_state t now d).status ≡ FreshnessStatus.live
young_is_live t now d last h e k l =
    device-sample t now d last h e ∙ grade_live _ _ (age last now) k l

-- For a device that is not in alarm and has sent its last sample at a known time, and while the
-- offline threshold is not zero and does not reach back before the beginning of time, `device_freshness_state` says
-- offline exactly when that time is at or before `device_offline_cutoff`.
pub offline_iff_cutoff :
    (t : Thresholds) (now : ℕ) (d : MonitoredDevice) (last : ℕ)
    → str_eq d.status "alarm" ≡ false
    → d.last_telemetry_at ≡ some last
    → 0 < (device_freshness_thresholds t d).1
    → seconds (device_freshness_thresholds t d).1 ≤ now
    → (device_freshness_state t now d).status ≡ FreshnessStatus.offline
      ↔ last ≤ device_offline_cutoff t now d
unfolding device_offline_cutoff
offline_iff_cutoff t now d last h e p r =
    let off = (device_freshness_thresholds t d).1 in
    let same = device-sample t now d last h e in
    (
      λ o. before_cutoff off last now p r (grade-offline _ off _ (sym same ∙ o)),
      λ b. same ∙ offline-grade _ off _ (after_cutoff off last now r b),
    )

rank-sample :
    (t : Thresholds) (now later : ℕ) (d : MonitoredDevice) (last : Option ℕ)
    → now ≤ later
    → rank (sample_state t now d last).status ≤ rank (sample_state t later d last).status
unfolding sample_state
rank-sample t now later d none h = omega arith
rank-sample t now later d (some last) h =
    rw (sample-grade t now d last, sample-grade t later d last)
      (rank-grade_monotonic _ _ _ _ (age_monotonic last now later h))

rank-alarm :
    (now later : ℕ) (last : Option ℕ)
    → rank (alarm_state now last).status ≤ rank (alarm_state later last).status
unfolding alarm_state
rank-alarm now later none = omega arith
rank-alarm now later (some last) = omega arith

-- While no sample comes in, time never makes a device fresher: live, then delayed, then offline; an
-- alarm stays one.
pub freshness_monotonic :
    (t : Thresholds) (now later : ℕ) (d : MonitoredDevice)
    → now ≤ later
    → rank (device_freshness_state t now d).status ≤ rank (device_freshness_state t later d).status
unfolding device_freshness_state
freshness_monotonic t now later d h = elim (Bool-cases (str_eq d.status "alarm")) [
  | inl a ↦ rw a (rank-alarm now later d.last_telemetry_at)
  | inr a ↦ rw a (rank-sample t now later d d.last_telemetry_at h)
]
