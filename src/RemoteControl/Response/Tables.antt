-- ===== src/RemoteControl/Response/Tables.antt =====
-- apps/telemetry/management/commands/mqtt_consumer.py: proofs on the governing tables after an answer.
use novena_hub.Prelude.{
  ℕ, ◌≡◌, refl, ◌∙◌, ap, true, false, Option, none, some, Bool-cases, Option-cases, inl, inr,
}
use novena_hub.Json.{Fields}
use novena_hub.RemoteControl.Types.{Status, EventPayload, CommandRow}
use novena_hub.RemoteControl.Protocol.{gateway_stage_to_command_status}
use novena_hub.RemoteControl.Events.{append_event}
use novena_hub.RemoteControl.Transition.{Request, apply_updates, transition_command}
use novena_hub.RemoteControl.Transition.Laws.{Ends, same, refused, advanced, transition-Ends}
use novena_hub.RemoteControl.Response.{
  Rpc, Exchange, Answer, response_stage, allowed_stage, response_status,
}
use novena_hub.RemoteControl.Response.Sync.{
  Verdict, verdict, sync_request, sync_governed, sync_governed_as, sync_device_command_from_rpc,
}
use novena_hub.RemoteControl.Response.Handle.{
  suspend_key, verification_of, is_mismatch, is_answered, is_other_method, is_interim, apply_stage,
  stage_request, check_verification, suspend_for, conclude_response, handle_rpc_response,
  answered_rpc,
}

-- The key of a command stays what it is.
pub record SameKey (old new : CommandRow) : Type 0 where
  pub team : new.command.team_id ≡ old.command.team_id
  pub device : new.command.device_id ≡ old.command.device_id
  pub key : new.command.command_key ≡ old.command.command_key

unmoved :
    {old new : CommandRow}
    → new.command.team_id ≡ old.command.team_id
    → new.command.device_id ≡ old.command.device_id
    → new.command.command_key ≡ old.command.command_key
    → SameKey old new
unmoved t d k = record { team = t; device = d; key = k }

SameKey-trans : {a b c : CommandRow} → SameKey a b → SameKey b c → SameKey a c
SameKey-trans h k = unmoved (k.team ∙ h.team) (k.device ∙ h.device) (k.key ∙ h.key)

module _ (digest : EventPayload → ℕ) where
  transition-SameKey_case :
      (r : Request) (row : CommandRow)
      → Ends digest r row
      → SameKey row (transition_command digest r row).0
  unfolding apply_updates append_event
  transition-SameKey_case r row (same e h) = rw h (unmoved refl refl refl)
  transition-SameKey_case r row (refused ne t h) = rw h (unmoved refl refl refl)
  transition-SameKey_case r row (advanced ne t o h) = rw h (unmoved refl refl refl)

  transition-SameKey :
      (r : Request) (row : CommandRow) → SameKey row (transition_command digest r row).0
  transition-SameKey r row = transition-SameKey_case r row (transition-Ends digest r row)

  sync-SameKey_case :
      (now : ℕ) (r : Rpc) (v : Verdict) (o : Option Status) (row : CommandRow)
      → SameKey row (sync_governed_as digest now r v o row)
  unfolding sync_governed_as apply_updates
  sync-SameKey_case now r v (some target) row = transition-SameKey (sync_request now r v target) row
  sync-SameKey_case now r v none row = unmoved refl refl refl

  sync-SameKey :
      (now : ℕ) (r : Rpc) (row : CommandRow) → SameKey row (sync_governed digest now r row)
  unfolding sync_governed
  sync-SameKey now r row = sync-SameKey_case now r (verdict r) (verdict r).target row

abbrev IsGovernedBy : Exchange → CommandRow → Type 0
IsGovernedBy x row = (row' : CommandRow) × (x.governed ≡ some row') × SameKey row row'

module _ (digest : EventPayload → ℕ) (now : ℕ) (a : Answer) where
  apply_stage-governance : (x : Exchange) → (apply_stage digest now a x).governance ≡ x.governance
  unfolding apply_stage
  apply_stage-governance x =
      elim (Option-cases (gateway_stage_to_command_status (response_stage a))) [
        | inl h ↦ rw (apply_stage, h) refl
        | inr (target, h) ↦ elim (Bool-cases (allowed_stage x.rpc.method (response_stage a))) [
          | inl k ↦ rw (apply_stage, h, k) refl
          | inr k ↦ rw (apply_stage, h, k) refl
        ]
      ]

  apply_stage-governed :
      (x : Exchange) (row : CommandRow)
      → x.governed ≡ some row
      → IsGovernedBy (apply_stage digest now a x) row
  unfolding apply_stage
  apply_stage-governed x row e =
      elim (Option-cases (gateway_stage_to_command_status (response_stage a))) [
        | inl h ↦ rw (apply_stage, h) (row, e, unmoved refl refl refl)
        | inr (target, h) ↦ elim (Bool-cases (allowed_stage x.rpc.method (response_stage a))) [
          | inl k ↦
              rw (apply_stage, h, k, e)
                (
                  (transition_command digest (stage_request now a target) row).0,
                  refl,
                  transition-SameKey digest (stage_request now a target) row,
                )
          | inr k ↦ rw (apply_stage, h, k) (row, e, unmoved refl refl refl)
        ]
      ]

  -- The exchange when the verification of a final answer is looked at.
  abbrev synced : Exchange → Exchange
  synced x = sync_device_command_from_rpc digest now (record x { rpc = answered_rpc now a x.rpc })

  synced-governed :
      (x : Exchange) (row : CommandRow) → IsGovernedBy x row → IsGovernedBy (synced x) row
  unfolding sync_device_command_from_rpc
  synced-governed x row (row', e, k) = rw e (
    sync_governed digest now (answered_rpc now a x.rpc) row',
    refl,
    SameKey-trans k (sync-SameKey digest now (answered_rpc now a x.rpc) row'),
  )

  suspend_for-governance :
      (v : Fields) (row row' : CommandRow) (o : Option ℕ) (device : ℕ) (x : Exchange)
      → o ≡ some device
      → SameKey row row'
      → (suspend_for digest v row' o x).governance ≡ suspend_key row.command device x.governance
  unfolding suspend_for suspend_key
  suspend_for-governance v row row' none device x e k = cc
  suspend_for-governance v row row' (some d) device x e k =
      let same_device : d ≡ device = cc in rw (same_device, k.team, k.key) refl

  check-governance :
      (v : Fields) (row row' : CommandRow) (device : ℕ) (x : Exchange)
      → is_mismatch v ≡ true
      → row'.command.device_id ≡ some device
      → SameKey row row'
      → (check_verification digest (some v) (some row') x).governance
        ≡ suspend_key row.command device x.governance
  unfolding check_verification
  check-governance v row row' device x bad e k =
      rw (check_verification, bad)
        (suspend_for-governance v row row' row'.command.device_id device x e k)

  conclude-governance :
      (x : Exchange) (row : CommandRow) (v : Fields) (device : ℕ)
      → IsGovernedBy x row
      → row.command.device_id ≡ some device
      → verification_of a.result ≡ some v
      → is_mismatch v ≡ true
      → (conclude_response digest now a x).governance ≡ suspend_key row.command device x.governance
  unfolding conclude_response sync_device_command_from_rpc answered_rpc
  conclude-governance x row v device g d found bad =
      let (row', e, k) = synced-governed x row g in
      ap (λ o. (check_verification digest o (synced x).governed (synced x)).governance) found
      ∙ (ap (λ o. (check_verification digest (some v) o (synced x)).governance) e
          ∙ check-governance v row row' device (synced x) bad (k.device ∙ d) k)

  -- The tables after the handler.
  pub handle-governance :
      (gateway : Option ℕ) (x : Exchange) (row : CommandRow) (v : Fields) (device : ℕ)
      → is_answered gateway a x.rpc ≡ true
      → is_other_method a.method x.rpc ≡ false
      → is_interim (response_status a) ≡ false
      → x.governed ≡ some row
      → row.command.device_id ≡ some device
      → verification_of a.result ≡ some v
      → is_mismatch v ≡ true
      → (handle_rpc_response digest gateway now a x).governance
        ≡ suspend_key row.command device x.governance
  unfolding handle_rpc_response
  handle-governance gateway x row v device answered method final e d found bad =
      rw (handle_rpc_response, answered, method, final)
        (conclude-governance (apply_stage digest now a x) row v device
            (apply_stage-governed x row e) d found bad
          ∙ ap (suspend_key row.command device) (apply_stage-governance x))
