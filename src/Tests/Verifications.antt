-- ===== src/Tests/Verifications.antt =====
-- The verification services run on a round that an agent has, and that another agent could have.
use laicos_backend.Prelude.{
  none, ℕ, ◌≡◌, refl, true, inl, inr, Option, some, List, [], ◌∷◌, arith, ◌==◌, Bool-cases,
}
use laicos_backend.Verification.Checklist.{check_keys, checklist_gaps}
use laicos_backend.Verification.Service.{approve_tx, approve_round}
use laicos_backend.Verification.Approve.{IsApproval, approve_tx-IsApproval}
use laicos_backend.Schema.{
  VerificationCheckKey, VerificationCheck, CheckResult, FarmerStatus, ok, transaction, agent_keyed,
  farmer_keyed, Db, Agent, FarmVerification, round_keyed, farm_keyed,
}
use laicos_backend.Verification.Agents.{pick_agent}
use laicos_backend.Verification.Assignment.{new_round, assigned_to, assign, reset_round}
use laicos_backend.Verification.Service
use laicos_backend.Verification.Placed.{IsPlaced}
use laicos_backend.Verification.Methods.{RoundCall, after_round_call, after_round_call-IsPlaced}
use laicos_backend.Tests.Shop.{shop}

abbrev pub agent : ℕ → Agent
agent id = record {
  id = id;
  created_at = 10;
  is_verified = true;
  lga_id = some 5;
  has_cluster = true;
  agent_code = "AGT-1";
  full_name = "Ada Obi";
}

abbrev verifying : Db
verifying = record shop {
  agents = agent 5 ∷ agent 6 ∷ agent 7 ∷ [];
  rounds = assigned_to 5 (new_round 100 51 3) ∷ [];
  declines = record { verification_id = 51; agent_id = 7; reason = "Away" } ∷ [];
}

verifying-IsPlaced : IsPlaced verifying
verifying-IsPlaced = record {
  placed = λ i r e. elim (Bool-cases (51 == i)) [
    | inl here ↦ (ground arith, λ a e'. ground arith)
    | inr other ↦ absurd (ground arith)
  ];
}

abbrev holders : Db → List (Option ℕ)
holders db = at db.rounds
  where
    at : List FarmVerification → List (Option ℕ)
    at [] = []
    at (r ∷ rs) = r.agent_id ∷ at rs

-- The first agent declines; the third declined before; the second, who has a farm, gets the round.
decline_run :
    holders (after_round_call 300 (RoundCall.decline 5 51 "Too far") verifying verifying)
    ≡ some 6 ∷ []
unfolding after_round_call Service.decline_tx Service.transition Service.require_open reset_round
    assign pick_agent
decline_run = refl

after_round_call-IsPlaced_example :
    IsPlaced (after_round_call 300 (RoundCall.decline 5 51 "Too far") verifying verifying)
after_round_call-IsPlaced_example =
    after_round_call-IsPlaced 300 (RoundCall.decline 5 51 "Too far") verifying verifying
      verifying-IsPlaced

-- A round whose checklist is complete.
abbrev visited : FarmVerification
visited = record (assigned_to 5 (new_round 100 51 3)) {
  location_matches = some true;
  identity_note = some "Seen";
  general_note = some "Fine";
  documents = record {
    location_evidence_key = some "gate";
    production_evidence_key = some "maize";
    farm_plot_sketch_key = some "plot";
    harvest_estimate_key = some "yield";
  };
}

abbrev checked : List VerificationCheckKey → List VerificationCheck
checked [] = []
checked (key ∷ keys) =
    record { verification_id = 51; key = key; result = CheckResult.verified; note = none }
    ∷ checked keys

abbrev approving : Db
approving = record verifying {
  rounds = visited ∷ [];
  checks = checked check_keys;
  farmers =
      record {
        id = 4;
        user_id = 7;
        id_type = none;
        id_document_key = some "id";
        status = FarmerStatus.inactive;
      }
      ∷ [];
}

abbrev approved : Db
approved = (transaction (approve_tx 400 5 51) approving).1

approve_run : approve_tx 400 5 51 approving ≡ ok (tt, approved)
unfolding approve_tx approve_round Service.transition Service.require_open checklist_gaps
approve_run = refl

approve_tx-IsApproval_example : IsApproval 400 5 51 approving approved
approve_tx-IsApproval_example = approve_tx-IsApproval 400 5 51 approving approved tt approve_run
