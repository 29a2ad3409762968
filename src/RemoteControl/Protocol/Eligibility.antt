-- ===== src/RemoteControl/Protocol/Eligibility.antt =====
-- apps/devices/remote_control_protocol.py: proofs on `state_change_capability_error`.
use novena_hub.Prelude.{
  ◌≡◌, refl, Bool, true, false, not, String, none, List, [], ◌∷◌, arith, contains, select, All,
  Bool-cases, inl, inr,
}
use novena_hub.RemoteControl.Types.{Gateway}
use novena_hub.RemoteControl.Protocol.{
  required_state_change_capabilities, missing_capabilities, missing_error,
  state_change_capability_error,
}

-- The Gateway speaks the protocol, advertises every required capability and has the installer's
-- local switch on.
pub record IsEligible (g : Gateway) : Type 0 where
  pub version : g.remote_control_protocol_version ≡ 1
  pub capable :
      All (λ c. contains g.remote_control_capabilities c ≡ true) required_state_change_capabilities
  pub writeback : g.remote_control_local_writeback_enabled ≡ true

select_none :
    (p : String → Bool) (xs : List String)
    → select (λ c. not (p c)) xs ≡ []
    → All (λ c. p c ≡ true) xs
select_none p [] h = tt
select_none p (x ∷ xs) h = elim (Bool-cases (p x)) [
  | inl has ↦ (has, select_none p xs (ground arith))
  | inr lacks ↦ ground arith
]

missing_error-none :
    (missing : List String) (writeback : Bool)
    → missing_error missing writeback ≡ none
    → (missing ≡ []) × (writeback ≡ true)
unfolding missing_error
missing_error-none [] true h = (refl, refl)
missing_error-none [] false h = cc
missing_error-none (c ∷ rest) writeback h = cc

-- A Gateway that is not refused speaks protocol version 1, has advertised every required
-- capability, and has local write-back enabled.
pub no_error-IsEligible : (g : Gateway) → state_change_capability_error g ≡ none → IsEligible g
unfolding state_change_capability_error
no_error-IsEligible g h = record {
  version = ground arith;
  capable =
      select_none (contains g.remote_control_capabilities) required_state_change_capabilities
        none_missing.0;
  writeback = none_missing.1;
}
  where
    none_missing :
        (missing_capabilities g.remote_control_capabilities ≡ [])
        × (g.remote_control_local_writeback_enabled ≡ true)
    none_missing = missing_error-none _ _ (ground arith)
