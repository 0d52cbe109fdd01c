-- ===== src/Farm/Agents.antt =====
-- What farmers, agents and admins do with farms and their verification rounds, as any run of calls
-- (src/farm/services, src/verification/services).
use laicos_backend.Prelude.{ℕ, ◌≡◌, inl, inr, Bool, true, false, none, some, Bool-cases}
use laicos_backend.Schema.{
  Farm, FarmVerification, VerificationTaskStatus, Db, Result-cases, Tx, ok, transaction,
  round_keyed, farm_keyed, agent_keyed, farmer_keyed,
}
use laicos_backend.Order.Service.Frames.{transaction_keeps}
use laicos_backend.Verification.Checklist.{is_result_allowed}
use laicos_backend.Verification.Assignment
use laicos_backend.Verification.Assignment.{waiting, assign_each}
use laicos_backend.Verification.Service
use laicos_backend.Verification.Service.{
  is_well_formed, require_open, decide, reject_farm, verify_farm,
}
use laicos_backend.Verification.Methods.{RoundCall, after_round_call}
use laicos_backend.Farm.InStep.{IsInStep, IsInStep-same, SameRounds}
use laicos_backend.Farm.Rounds.{
  save_location_SameRounds, save_check_SameRounds, update_SameRounds, add_evidence_SameRounds,
  remove_evidence_SameRounds, decline_SameRounds, assign_each-SameRounds,
}
use laicos_backend.Farm.Decisions.{Decides, approve_Decides, reject_Decides, Decides-IsInStep}

-- Only a farm's own methods open a round.
abbrev pub is_opening : RoundCall → Bool
is_opening (RoundCall.open_round farm_id preferred) = true
is_opening _ = false

-- A predicate that the steps of a round keep: those that leave it open, and a decision.
record KeepsRounds (P : Db → Type 0) : Type 0 where
  steady : (db db' : Db) → SameRounds db db' → P db → P db'
  decided :
      (id : ℕ) (f : FarmVerification → FarmVerification) (g : Farm → Farm) (db db' : Db)
      → Decides id f g db db'
      → P db
      → P db'

module _ (P : Db → Type 0) (keeps : KeepsRounds P) where
  steady_tx :
      {A : Type 0} (m : Tx A) (db : Db)
      → ((a : A) (db' : Db) → m db ≡ ok (a, db') → SameRounds db db')
      → P db
      → P (transaction m db).1
  steady_tx m db same h =
      transaction_keeps P m db h λ a db' run. keeps.steady db db' (same a db' run) h

  after_round_call_keeps :
      (now : ℕ) (call : RoundCall) (seen db : Db)
      → is_opening call ≡ false
      → P db
      → P (after_round_call now call seen db)
  unfolding after_round_call Assignment.assign_waiting Service.save_check Service.add_evidence
  after_round_call_keeps now (RoundCall.open_round farm_id preferred) seen db other h = absurd cc
  after_round_call_keeps now RoundCall.assign_waiting seen db other h =
      keeps.steady db (assign_each (waiting seen) db).1 (assign_each-SameRounds (waiting seen) db) h
  after_round_call_keeps now (RoundCall.save_location agent_id id dto) seen db other h =
      steady_tx (Service.save_location_tx now agent_id id dto) db
        (λ u db' run. save_location_SameRounds now agent_id id dto db db' u run) h
  after_round_call_keeps now (RoundCall.save_check agent_id id key key_text result remark) seen db
        other h =
      elim (Bool-cases (is_result_allowed key result)) [
        | inl allowed ↦
            rw (allowed, after_round_call)
              (steady_tx (Service.save_check_tx now agent_id id key key_text result remark) db
                (λ u db' run.
                  save_check_SameRounds now agent_id id key key_text result remark db db' u run)
                h)
        | inr refused ↦ rw (refused, after_round_call) h
      ]
  after_round_call_keeps now (RoundCall.update agent_id id dto) seen db other h =
      steady_tx (Service.update_tx now agent_id id dto) db
        (λ u db' run. update_SameRounds now agent_id id dto db db' u run) h
  after_round_call_keeps now (RoundCall.add_evidence agent_id id dto storage_key) seen db other h =
      elim (Bool-cases (is_well_formed dto)) [
        | inr refused ↦ rw (refused, after_round_call) h
        | inl formed ↦
            rw (formed, after_round_call)
              (elim (Result-cases (require_open agent_id id seen)) [
                | inl (e, closed) ↦ rw closed h
                | inr (r, is_open) ↦ rw is_open (
                    steady_tx (Service.add_evidence_tx now agent_id id dto storage_key) db
                      (λ u db' run.
                        add_evidence_SameRounds now agent_id id dto storage_key db db' u run)
                      h)
              ])
      ]
  after_round_call_keeps now (RoundCall.remove_evidence agent_id id evidence_id) seen db other h =
      steady_tx (Service.remove_evidence_tx now agent_id id evidence_id) db
        (λ key db' run. remove_evidence_SameRounds now agent_id id evidence_id db db' key run) h
  after_round_call_keeps now (RoundCall.decline agent_id id reason) seen db other h =
      steady_tx (Service.decline_tx agent_id id reason) db
        (λ keys db' run. decline_SameRounds agent_id id reason db db' keys run) h
  after_round_call_keeps now (RoundCall.reject agent_id id reason) seen db other h =
      transaction_keeps P (Service.reject_tx now agent_id id reason) db h λ u db' run.
        keeps.decided id (decide VerificationTaskStatus.rejected (some reason) now) reject_farm db
          db' (reject_Decides now agent_id id reason db db' u run) h
  after_round_call_keeps now (RoundCall.approve agent_id id) seen db other h =
      transaction_keeps P (Service.approve_tx now agent_id id) db h λ u db' run.
        keeps.decided id (decide VerificationTaskStatus.approved none now) (verify_farm agent_id) db
          db' (approve_Decides now agent_id id db db' u run) h

-- The retry job and every writing method of the verification service but the opening of a round
-- and the upload of documents, on every branch and whatever a method read before its transaction,
-- keep a farm's status in step with its rounds: a pending farm has exactly one open round, a
-- verified or rejected farm none, a suspended farm at most one.
pub after_round_call-IsInStep :
    (now : ℕ) (call : RoundCall) (seen db : Db)
    → is_opening call ≡ false
    → IsInStep db
    → IsInStep (after_round_call now call seen db)
after_round_call-IsInStep now call seen db other h =
    after_round_call_keeps IsInStep
      (record {
        steady = λ db db' same h. IsInStep-same db db' same.0 same.1 h;
        decided = λ id f g db db' d h. Decides-IsInStep id f g db db' d h;
      })
      now call seen db other h
