-- ===== src/Verification/Assignment.antt =====
-- src/verification/services/assignment.service.ts: the only place where a round gets an agent.
use Prim.Native.String.{String}
use laicos_backend.Prelude.{
  ℕ, ◌+◌, Bool, true, false, ◌&&◌, not, Option, none, some, List, [], ◌∷◌, ◌++◌ as append, map,
  same_id, ◌==◌, if◌then◌else◌, is_some,
}
use laicos_backend.Prelude.Table.{find, find_many, any, modify, sum_by, sort_by}
use laicos_backend.Schema.{
  Db, ok, err, Failure, Tx, Agent, FarmVerification, VerificationTaskStatus, EvidenceStatus,
  RoundDocuments, AssignmentDecline, round_keyed, farm_keyed,
}
use laicos_backend.Verification.Agents.{AgentCandidate, pick_agent}
use laicos_backend.Verification.Documents.{is_given}

-- `OPEN_TASK_STATUSES.includes(status)`.
abbrev pub is_open_task : VerificationTaskStatus → Bool
is_open_task VerificationTaskStatus.assigned = true
is_open_task VerificationTaskStatus.in_progress = true
is_open_task _ = false

abbrev pub is_unassigned : VerificationTaskStatus → Bool
is_unassigned VerificationTaskStatus.unassigned = true
is_unassigned _ = false

abbrev pub no_documents : RoundDocuments
no_documents = record {
  location_evidence_key = none;
  production_evidence_key = none;
  farm_plot_sketch_key = none;
  harvest_estimate_key = none;
}

-- `CLEARED_ROUND`.
abbrev pub cleared_round : FarmVerification → FarmVerification
cleared_round r = record r {
  agent_id = none;
  status = VerificationTaskStatus.unassigned;
  location_matches = none;
  discrepancy_lat = none;
  discrepancy_lng = none;
  discrepancy_note = none;
  identity_note = none;
  measured_size = none;
  estimated_yield = none;
  estimated_yield_unit = none;
  general_note = none;
  evidence_status = EvidenceStatus.missing_docs;
  documents = no_documents;
  information_request_note = none;
  information_requested_at = none;
  started_at = none;
}

abbrev pub has_declined : ℕ → ℕ → AssignmentDecline → Bool
has_declined round_id agent_id d = d.verification_id == round_id && d.agent_id == agent_id

abbrev pub is_assignable : ℕ → ℕ → Db → Agent → Bool
is_assignable round_id lga_id db agent =
    agent.is_verified
    && (same_id agent.lga_id lga_id && not (any (has_declined round_id agent.id) db.declines))

abbrev pub candidate_of : Db → Agent → AgentCandidate
candidate_of db agent = record {
  id = agent.id;
  created_at = agent.created_at;
  cluster_size = sum_by (λ farm. if same_id farm.cluster_agent_id agent.id then 1 else 0) db.farms;
  open_tasks =
      sum_by (λ r. if same_id r.agent_id agent.id && is_open_task r.status then 1 else 0) db.rounds;
}

abbrev pub candidates : ℕ → ℕ → Db → List AgentCandidate
candidates round_id lga_id db =
    map (candidate_of db) (find_many (is_assignable round_id lga_id db) db.agents)

abbrev pub assigned_to : ℕ → FarmVerification → FarmVerification
assigned_to agent_id r = record r {
  agent_id = some agent_id;
  status = VerificationTaskStatus.assigned;
}

abbrev pub assign_round : FarmVerification → Option ℕ → Db → Option ℕ × Db
assign_round round none db = (none, db)
assign_round round (some agent_id) db =
    if is_unassigned round.status
    then (some agent_id, record db { rounds = modify round.id (assigned_to agent_id) db.rounds })
    else (none, db)

-- `assign`; it throws nothing.
unfoldable pub assign : ℕ → Option ℕ → Db → Option ℕ × Db
assign round_id preferred db = elim (find round_id db.rounds) [
  | none ↦ (none, db)
  | some round ↦ elim (find round.farm_id db.farms) [
    | none ↦ (none, db)
    | some farm ↦ assign_round round (pick_agent (candidates round_id farm.lga_id db) preferred) db
  ]
]

abbrev pub new_round : ℕ → ℕ → ℕ → FarmVerification
new_round now id farm_id = record {
  id = id;
  farm_id = farm_id;
  agent_id = none;
  status = VerificationTaskStatus.unassigned;
  location_matches = none;
  discrepancy_lat = none;
  discrepancy_lng = none;
  discrepancy_note = none;
  identity_note = none;
  measured_size = none;
  estimated_yield = none;
  estimated_yield_unit = none;
  general_note = none;
  rejection_reason = none;
  evidence_status = EvidenceStatus.missing_docs;
  documents = no_documents;
  information_request_note = none;
  information_requested_at = none;
  started_at = none;
  decided_at = none;
  created_at = now;
}

abbrev pub put_round : FarmVerification → Db → Db
put_round round db = record db { rounds = round ∷ db.rounds; next_id = db.next_id + 1 }

-- `openRound`: the new round's id.
unfoldable pub open_round : ℕ → ℕ → Option ℕ → Db → ℕ × Db
open_round now farm_id preferred db =
    let db' = put_round (new_round now db.next_id farm_id) db in
    (db.next_id, (assign db.next_id preferred db').1)

-- `filter((key) => Boolean(key))`.
abbrev pub given_keys : List (Option String) → List String
given_keys [] = []
given_keys (none ∷ keys) = given_keys keys
given_keys (some key ∷ keys) =
    if is_given (some key) then key ∷ given_keys keys else given_keys keys

abbrev pub document_keys : RoundDocuments → List (Option String)
document_keys d =
    d.location_evidence_key ∷ d.production_evidence_key ∷ d.farm_plot_sketch_key
    ∷ d.harvest_estimate_key ∷ []

-- `resetRound`: the storage keys to delete after the commit.
unfoldable pub reset_round : ℕ → Tx (List String)
reset_round round_id db = elim (find round_id db.rounds) [
  | none ↦ err Failure.record_not_found
  | some round ↦
      let own = find_many (λ item. item.verification_id == round_id) db.evidence in
      let keys = append (map (λ item. some item.storage_key) own) (document_keys round.documents) in
      ok (
        given_keys keys,
        record db {
          evidence = find_many (λ item. not (item.verification_id == round_id)) db.evidence;
          checks = find_many (λ c. not (c.verification_id == round_id)) db.checks;
          rounds = modify round_id cleared_round db.rounds;
        },
      )
]

abbrev pub waiting : Db → List FarmVerification
waiting db = sort_by (λ r. r.created_at) (find_many (λ r. is_unassigned r.status) db.rounds)

unfoldable pub assign_each : List FarmVerification → Db → ℕ × Db
assign_each [] db = (0, db)
assign_each (round ∷ rounds) db =
    let (agent, db1) = assign round.id none db in
    let (assigned, db2) = assign_each rounds db1 in
    ((if is_some agent then 1 else 0) + assigned, db2)

-- `assignWaiting`: `seen` is when the waiting rounds are read.
unfoldable pub assign_waiting : Db → Db → ℕ × Db
assign_waiting seen db = assign_each (waiting seen) db
