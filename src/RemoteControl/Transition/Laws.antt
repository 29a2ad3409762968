-- ===== src/RemoteControl/Transition/Laws.antt =====
-- apps/devices/remote_control.py: proofs on `transition_command`.
use mathlib.Core.Logic.{if_pos, if_neg}
use novena_hub.Prelude.{
  ℕ, ◌≤◌, ◌≡◌, ◌≢◌, inl, inr, refl, Bool, true, false, ◌||◌, some, ltb, arith, Bool-cases, Option,
  none,
}
use novena_hub.RemoteControl.Types.{Status, Status-discrete, EventPayload, Command, CommandRow}
use novena_hub.RemoteControl.Catalog.{status_order, is_terminal}
use novena_hub.RemoteControl.Events.{append_event}
use novena_hub.RemoteControl.Events.Trail.{Tells, silent, told}
use novena_hub.RemoteControl.Transition.{
  Updates, Request, given, given_time, apply_updates, refuses, advance, transition_command,
}

given_twice {ℓ} : {A : Type ℓ} (o : Option A) (old : A) → given o (given o old) ≡ given o old
given_twice none old = refl
given_twice (some a) old = refl

given_time_twice :
    (o : Option ℕ) (old : Option ℕ) → given_time o (given_time o old) ≡ given_time o old
given_time_twice none old = refl
given_time_twice (some a) old = refl

apply_updates_twice :
    (u : Updates) (c : Command) → apply_updates u (apply_updates u c) ≡ apply_updates u c
unfolding apply_updates
apply_updates_twice u c = simp (given_twice, given_time_twice)

or_ltb-false : (b : Bool) (m n : ℕ) → (b || ltb m n) ≡ false → (b ≡ false) × (n ≤ m)
or_ltb-false b m n h = ground arith

-- `advance` is allowed only out of a status that is not terminal, to one that is not below it.
refuses-false :
    (previous next : Status)
    → refuses previous next ≡ false
    → (is_terminal previous ≡ false) × (status_order previous ≤ status_order next)
unfolding refuses
refuses-false previous next h =
    or_ltb-false (is_terminal previous) (status_order next) (status_order previous) h

module _ (digest : EventPayload → ℕ) where
  transition_same :
      (r : Request) (row : CommandRow)
      → row.command.status ≡ r.to_status
      → transition_command digest r row
        ≡ (record row { command = apply_updates r.updates row.command }, false)
  unfolding transition_command
  transition_same r row e = rw (if_pos _ e) refl

  transition_refused :
      (r : Request) (row : CommandRow)
      → row.command.status ≢ r.to_status
      → refuses row.command.status r.to_status ≡ true
      → transition_command digest r row ≡ (row, false)
  unfolding transition_command
  transition_refused r row ne h = rw (if_neg _ ne, h) refl

  transition_advances :
      (r : Request) (row : CommandRow)
      → row.command.status ≢ r.to_status
      → refuses row.command.status r.to_status ≡ false
      → transition_command digest r row ≡ (advance digest r row, true)
  unfolding transition_command
  transition_advances r row ne h = rw (if_neg _ ne, h) refl

  -- The three ways in which a call ends.
  pub data Ends (r : Request) (row : CommandRow) : Type 0 where
    same :
        row.command.status ≡ r.to_status
        → transition_command digest r row
          ≡ (record row { command = apply_updates r.updates row.command }, false)
        → Ends r row
    refused :
        row.command.status ≢ r.to_status
        → refuses row.command.status r.to_status ≡ true
        → transition_command digest r row ≡ (row, false)
        → Ends r row
    advanced :
        row.command.status ≢ r.to_status
        → is_terminal row.command.status ≡ false
        → status_order row.command.status ≤ status_order r.to_status
        → transition_command digest r row ≡ (advance digest r row, true)
        → Ends r row

  pub transition-Ends : (r : Request) (row : CommandRow) → Ends r row
  transition-Ends r row = elim (Status-discrete row.command.status r.to_status) [
    | yes e ↦ same e (transition_same r row e)
    | no ne ↦ elim (Bool-cases (refuses row.command.status r.to_status)) [
      | inl h ↦ refused ne h (transition_refused r row ne h)
      | inr h ↦
          advanced ne (refuses-false _ _ h).0 (refuses-false _ _ h).1
            (transition_advances r row ne h)
    ]
  ]

  transition-Tells_case :
      (r : Request) (row : CommandRow)
      → Ends r row
      → Tells digest row (transition_command digest r row).0
  unfolding apply_updates append_event
  transition-Tells_case r row (same e h) = rw h (silent refl refl refl)
  transition-Tells_case r row (refused ne t h) = rw h (silent refl refl refl)
  transition-Tells_case r row (advanced ne t o h) = rw h (told _ refl refl refl refl)

  -- Whatever is asked for, the log tells the change.
  pub transition-Tells :
      (r : Request) (row : CommandRow) → Tells digest row (transition_command digest r row).0
  transition-Tells r row = transition-Tells_case r row (transition-Ends r row)

  monotonic_of :
      (r : Request) (row : CommandRow)
      → Ends r row
      → status_order row.command.status
        ≤ status_order (transition_command digest r row).0.command.status
  unfolding apply_updates append_event
  monotonic_of r row (same e h) = rw h (omega arith)
  monotonic_of r row (refused ne t h) = rw h (omega arith)
  monotonic_of r row (advanced ne t o h) = rw h o

  -- `transition_command` never gives a command a status of a lower order than it has.
  pub transition_monotonic :
      (r : Request) (row : CommandRow)
      → status_order row.command.status
        ≤ status_order (transition_command digest r row).0.command.status
  transition_monotonic r row = monotonic_of r row (transition-Ends r row)

  absorbs_of :
      (r : Request) (row : CommandRow)
      → is_terminal row.command.status ≡ true
      → Ends r row
      → ((transition_command digest r row).1 ≡ false)
        × ((transition_command digest r row).0.command.status ≡ row.command.status)
        × ((transition_command digest r row).0.events ≡ row.events)
  unfolding apply_updates
  absorbs_of r row t (same e h) = rw h (refl, refl, refl)
  absorbs_of r row t (refused ne _ h) = rw h (refl, refl, refl)
  absorbs_of r row t (advanced ne f o h) = cc

  -- A command in a terminal status keeps its status and its events, whatever is asked for, and the
  -- call reports no change.
  pub transition_absorbs :
      (r : Request) (row : CommandRow)
      → is_terminal row.command.status ≡ true
      → ((transition_command digest r row).1 ≡ false)
        × ((transition_command digest r row).0.command.status ≡ row.command.status)
        × ((transition_command digest r row).0.events ≡ row.events)
  transition_absorbs r row t = absorbs_of r row t (transition-Ends r row)

  again_of :
      (r : Request) (row : CommandRow)
      → Ends r row
      → transition_command digest r (transition_command digest r row).0
        ≡ ((transition_command digest r row).0, false)
  unfolding apply_updates append_event
  again_of r row (same e h) = rw h (
      rw (transition_same r (record row { command = apply_updates r.updates row.command }) e)
        (rw apply_updates_twice refl))
  again_of r row (refused ne t h) = rw (h, h) refl
  again_of r row (advanced ne t o h) =
      rw h (rw (transition_same r (advance digest r row) refl) (rw apply_updates_twice refl))

  -- A report that is delivered a second time changes nothing and reports no change.
  pub transition_idempotent :
      (r : Request) (row : CommandRow)
      → transition_command digest r (transition_command digest r row).0
        ≡ ((transition_command digest r row).0, false)
  transition_idempotent r row = again_of r row (transition-Ends r row)
