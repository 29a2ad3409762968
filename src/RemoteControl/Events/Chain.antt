-- ===== src/RemoteControl/Events/Chain.antt =====
-- apps/devices/remote_control.py: the chain of checksums that `_append_command_event_locked` writes.
use novena_hub.Prelude.{ℕ, ◌≡◌, refl, ap, List, [], ◌∷◌, All}
use novena_hub.RemoteControl.Types.{CommandEvent, EventPayload}
use novena_hub.RemoteControl.Events.{Entry, next_sequence, last_checksum, new_event}

-- The payload that a stored event was digested from, given the events before it.
abbrev pub payload_at : ℕ → CommandEvent → List CommandEvent → EventPayload
payload_at pk e before = record {
  command = pk;
  sequence_number = e.sequence_number;
  event_type = e.event_type;
  from_status = e.from_status;
  to_status = e.to_status;
  actor = e.actor_snapshot;
  evidence = e.evidence;
  previous = last_checksum before;
}

abbrev pub payloads : ℕ → List CommandEvent → List EventPayload
payloads pk [] = []
payloads pk (e ∷ before) = payload_at pk e before ∷ payloads pk before

module _ (digest : EventPayload → ℕ) where
  -- Sequence numbers count up from 1, and each checksum is the digest of its event's payload.
  abbrev pub IsChained : ℕ → List CommandEvent → Type 0
  IsChained pk [] = Unit {0}
  IsChained pk (e ∷ before) =
      (e.sequence_number ≡ next_sequence before)
      × (e.checksum ≡ digest (payload_at pk e before))
      × IsChained pk before

  pub new_event-IsChained :
      (pk : ℕ) (entry : Entry) (events : List CommandEvent)
      → IsChained pk events
      → IsChained pk (new_event digest pk events entry ∷ events)
  unfolding new_event
  new_event-IsChained pk entry events h = (refl, refl, h)

  -- No two different payloads of the two lists have one digest.
  abbrev pub IsCollisionFree : List EventPayload → List EventPayload → Type 0
  IsCollisionFree ps qs = All (λ p. All (λ q. digest p ≡ digest q → p ≡ q) qs) ps

  drop_left :
      (p : EventPayload) (ps qs : List EventPayload)
      → IsCollisionFree (p ∷ ps) qs
      → IsCollisionFree ps qs
  drop_left p ps qs h = h.1

  drop_right :
      (q : EventPayload) (ps qs : List EventPayload)
      → IsCollisionFree ps (q ∷ qs)
      → IsCollisionFree ps qs
  drop_right q [] qs h = tt
  drop_right q (p ∷ ps) qs h = (h.0.1, drop_right q ps qs h.1)

  -- If two logs of one command are well chained, no two different payloads of them have the same
  -- digest, and their last checksums agree, then they record the same payloads.
  pub chain_determines_log :
      (pk : ℕ) (es fs : List CommandEvent)
      → IsChained pk es
      → IsChained pk fs
      → IsCollisionFree (payloads pk es) (payloads pk fs)
      → last_checksum es ≡ last_checksum fs
      → payloads pk es ≡ payloads pk fs
  unfolding last_checksum
  chain_determines_log pk [] [] ce cf free same = refl
  chain_determines_log pk [] (f ∷ fs) ce cf free same = cc
  chain_determines_log pk (e ∷ es) [] ce cf free same = cc
  chain_determines_log pk (e ∷ es) (f ∷ fs) ce cf free same =
      let p = payload_at pk e es in
      let q = payload_at pk f fs in
      let heads : p ≡ q = free.0.0 (cc) in
      let tails : payloads pk es ≡ payloads pk fs =
        chain_determines_log pk es fs ce.2 cf.2
          (drop_right q (payloads pk es) (payloads pk fs)
            (drop_left p (payloads pk es) (q ∷ payloads pk fs) free))
          (ap (λ (x : EventPayload). x.previous) heads) in
      cc
