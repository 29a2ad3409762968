-- ===== src/Tests/Responses.antt =====
-- Runs of the answers of a Gateway.
use novena_hub.Prelude.{Bool, List, [], ◌∷◌, ◌&&◌, str_eq, ◌≡◌, ◌≢◌, refl, true, false, none, some}
use novena_hub.Json.{Json, Fields, field, end, text, get}
use novena_hub.RemoteControl.Types.{Status}
use novena_hub.RemoteControl.Dispatch.{default_settings}
use novena_hub.RemoteControl.Dispatch.Claim.{claimed_as, claim_row}
use novena_hub.RemoteControl.Response.{Rpc, Exchange, Answer, response_status, allowed_stage}
use novena_hub.RemoteControl.Response.Handle.{
  is_answered, is_other_method, verification_of, is_mismatch, is_interim, handle_rpc_response,
}
use novena_hub.RemoteControl.Response.Mismatch.{mismatch_blocks}
use novena_hub.RemoteControl.Events.{append_event}
use novena_hub.RemoteControl.Response.Reconcile.{EdgeEvent, reconcile}
use novena_hub.RemoteControl.Response.Reconcile.Again.{reconcile_idempotent}
use novena_hub.Tests.Fixtures.{tag, queued_row, governed, ctx}

abbrev sent : Rpc
sent = record {
  gateway = 11;
  request_id = "q-1";
  method = "write_device";
  sent_at = 500;
  status = "pending";
  response_stage = "";
  result = Json.null;
  error_message = "";
  responded_at = none;
}

abbrev exchange : Exchange
exchange = record { rpc = sent; governed = some queued_row; mirror = none; governance = governed }

abbrev verification : Fields
verification = field "status" (text "mismatch") end

abbrev mismatch : Answer
mismatch = record {
  request_id = some "q-1";
  status = some "error";
  stage = some "failed";
  method = some "write_device";
  result = Json.obj (field "verification" (Json.obj verification) end);
  error = "read back 39";
}

abbrev after : Exchange
after = handle_rpc_response tag (some 11) 900 mismatch exchange

-- A write may not report the end of an update of the firmware, but that of a diagnostic.
stages_of_write :
    (allowed_stage "write_device" "ota_initiated" ≡ false)
    × (allowed_stage "write_device" "diagnostic_completed" ≡ true)
unfolding allowed_stage
stages_of_write = (refl, refl)

comes_from_gateway : is_answered (some 11) mismatch sent ≡ true
unfolding is_answered
comes_from_gateway = refl

same_method : is_other_method (some "write_device") sent ≡ false
unfolding is_other_method
same_method = refl

says_mismatch : verification_of mismatch.result ≡ some verification
unfolding verification_of
says_mismatch = refl

is_final : is_interim (response_status mismatch) ≡ false
unfolding response_status
is_final = refl

mismatches : is_mismatch verification ≡ true
unfolding get
mismatches = refl

mismatch_blocks_example :
    claim_row tag default_settings 1000 1000
      (record ctx { governance = after.governance })
      queued_row
    ≢ claimed_as 1 queued_row
mismatch_blocks_example =
    mismatch_blocks tag (some 11) 900 mismatch exchange queued_row verification 21 default_settings
      1000 1000 (record ctx { governance = after.governance }) queued_row 1 queued_row
      comes_from_gateway same_method is_final refl refl says_mismatch mismatches refl refl refl refl
      refl

-- A function in the place of the comparison of documents.
abbrev same_keys : Fields → Fields → Bool
same_keys (field a v rest) (field b w others) = str_eq a b && same_keys rest others
same_keys end end = true
same_keys _ _ = false

abbrev journal : List EdgeEvent
journal =
    record {
      command_id = some 31;
      status = some "success";
      stage = some "executing";
      document = field "command_id" (Json.int 31) end;
    }
    ∷ record {
      command_id = some 31;
      status = some "success";
      stage = some "verified";
      document = field "status" (text "success") end;
    }
    ∷ []

-- The first entry settles the command as unresolved, and the second comes too late.
first_entry_settles :
    (reconcile same_keys tag 11 journal queued_row).command.status ≡ Status.reconciled_unresolved
unfolding reconcile append_event
first_entry_settles = refl

reconcile_idempotent_example :
    reconcile same_keys tag 11 journal (reconcile same_keys tag 11 journal queued_row)
    ≡ reconcile same_keys tag 11 journal queued_row
reconcile_idempotent_example = reconcile_idempotent same_keys tag 11 journal queued_row
