-- ===== src/Verification/Methods.antt =====
-- Who holds a round, across the methods of src/verification/services.
use Prim.Native.String.{String}
use laicos_backend.Prelude.{ℕ, inl, inr, Option, Bool-cases}
use laicos_backend.Schema.{
  Db, Result-cases, Tx, transaction, VerificationCheckKey, CheckResult, round_keyed, farm_keyed,
  agent_keyed, farmer_keyed,
}
use laicos_backend.Order.Service.Frames.{transaction_keeps}
use laicos_backend.Verification.Checklist.{is_result_allowed}
use laicos_backend.Verification.Assignment
use laicos_backend.Verification.Assignment.{waiting}
use laicos_backend.Verification.Service
use laicos_backend.Verification.Service.{
  is_well_formed, own_round, require_open, put_rounds, transition, in_progress, start, start_unless,
  record_draft, audit_round, farm_of, SaveLocationDto, set_location, UpdateVerificationDto,
  set_fields, AddEvidenceDto, set_document, put_check, put_evidence, store_evidence, farm_documents,
  refresh_farm_evidence_status, hand_back, put_decline, decide, put_verified,
}
use laicos_backend.Verification.Placed.{IsPlaced, assign_each-IsPlaced, open_round-IsPlaced}
use laicos_backend.Verification.Steps.{
  Keeps, save_location_Keeps, save_check_Keeps, update_Keeps, add_evidence_Keeps,
  remove_evidence_Keeps, decline_Keeps, reject_Keeps, approve_Keeps,
}

-- The methods that write rounds. The agent of each is the caller.
pub data RoundCall : Type 0 where
  open_round : ℕ → Option ℕ → RoundCall
  assign_waiting : RoundCall
  save_location : ℕ → ℕ → SaveLocationDto → RoundCall
  save_check : ℕ → ℕ → VerificationCheckKey → String → CheckResult → Option String → RoundCall
  update : ℕ → ℕ → UpdateVerificationDto → RoundCall
  add_evidence : ℕ → ℕ → AddEvidenceDto → String → RoundCall
  remove_evidence : ℕ → ℕ → ℕ → RoundCall
  decline reject : ℕ → ℕ → String → RoundCall
  approve : ℕ → ℕ → RoundCall

-- What the database holds after a call at `now` that read `seen` before its transaction.
unfoldable pub after_round_call : ℕ → RoundCall → Db → Db → Db
after_round_call now (RoundCall.open_round farm_id preferred) seen db =
    (Assignment.open_round now farm_id preferred db).1
after_round_call now RoundCall.assign_waiting seen db = (Assignment.assign_waiting seen db).1
after_round_call now (RoundCall.save_location agent_id id dto) seen db =
    (transaction (Service.save_location_tx now agent_id id dto) db).1
after_round_call now (RoundCall.save_check agent_id id key key_text result remark) seen db =
    (Service.save_check now agent_id id key key_text result remark db).1
after_round_call now (RoundCall.update agent_id id dto) seen db =
    (transaction (Service.update_tx now agent_id id dto) db).1
after_round_call now (RoundCall.add_evidence agent_id id dto storage_key) seen db =
    (Service.add_evidence now agent_id id dto storage_key seen db).1
after_round_call now (RoundCall.remove_evidence agent_id id evidence_id) seen db =
    (transaction (Service.remove_evidence_tx now agent_id id evidence_id) db).1
after_round_call now (RoundCall.decline agent_id id reason) seen db =
    (transaction (Service.decline_tx agent_id id reason) db).1
after_round_call now (RoundCall.reject agent_id id reason) seen db =
    (transaction (Service.reject_tx now agent_id id reason) db).1
after_round_call now (RoundCall.approve agent_id id) seen db =
    (transaction (Service.approve_tx now agent_id id) db).1

committed :
    {A : Type 0} (m : Tx A) (db : Db) → Keeps m → IsPlaced db → IsPlaced (transaction m db).1
committed m db keeps h = transaction_keeps IsPlaced m db h (λ a db'. keeps db db' a h)

-- Every round has an agent unless it is unassigned, and never an agent who declined it: opening a
-- round, the retry job and every writing method of the verification service but the upload of
-- documents keep this, on every branch and whatever a method read before its transaction.
pub after_round_call-IsPlaced :
    (now : ℕ) (call : RoundCall) (seen db : Db)
    → IsPlaced db
    → IsPlaced (after_round_call now call seen db)
unfolding after_round_call Assignment.assign_waiting Service.save_check Service.add_evidence
after_round_call-IsPlaced now (RoundCall.open_round farm_id preferred) seen db h =
    open_round-IsPlaced now farm_id preferred db h
after_round_call-IsPlaced now RoundCall.assign_waiting seen db h =
    assign_each-IsPlaced (waiting seen) db h
after_round_call-IsPlaced now (RoundCall.save_location agent_id id dto) seen db h =
    committed (Service.save_location_tx now agent_id id dto) db
      (save_location_Keeps now agent_id id dto) h
after_round_call-IsPlaced now (RoundCall.save_check agent_id id key key_text result remark) seen db
      h =
    elim (Bool-cases (is_result_allowed key result)) [
      | inl allowed ↦
          rw (allowed, after_round_call)
            (committed (Service.save_check_tx now agent_id id key key_text result remark) db
              (save_check_Keeps now agent_id id key key_text result remark) h)
      | inr refused ↦ rw (refused, after_round_call) h
    ]
after_round_call-IsPlaced now (RoundCall.update agent_id id dto) seen db h =
    committed (Service.update_tx now agent_id id dto) db (update_Keeps now agent_id id dto) h
after_round_call-IsPlaced now (RoundCall.add_evidence agent_id id dto storage_key) seen db h =
    elim (Bool-cases (is_well_formed dto)) [
      | inr refused ↦ rw (refused, after_round_call) h
      | inl formed ↦
          rw (formed, after_round_call)
            (elim (Result-cases (require_open agent_id id seen)) [
              | inl (e, closed) ↦ rw closed h
              | inr (r, is_open) ↦ rw is_open (
                  committed (Service.add_evidence_tx now agent_id id dto storage_key) db
                    (add_evidence_Keeps now agent_id id dto storage_key) h)
            ])
    ]
after_round_call-IsPlaced now (RoundCall.remove_evidence agent_id id evidence_id) seen db h =
    committed (Service.remove_evidence_tx now agent_id id evidence_id) db
      (remove_evidence_Keeps now agent_id id evidence_id) h
after_round_call-IsPlaced now (RoundCall.decline agent_id id reason) seen db h =
    committed (Service.decline_tx agent_id id reason) db (decline_Keeps agent_id id reason) h
after_round_call-IsPlaced now (RoundCall.reject agent_id id reason) seen db h =
    committed (Service.reject_tx now agent_id id reason) db (reject_Keeps now agent_id id reason) h
after_round_call-IsPlaced now (RoundCall.approve agent_id id) seen db h =
    committed (Service.approve_tx now agent_id id) db (approve_Keeps now agent_id id) h
