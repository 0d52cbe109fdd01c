-- ===== src/Schema/Rounds.antt =====
-- The models of prisma/schema.prisma about farm verification, with their enums. Measurements and
-- coordinates, which nothing computes with, are the texts of their decimals.
use Prim.Native.String.{String}
use laicos_backend.Prelude.{ℕ, Bool, Option}
use laicos_backend.Prelude.Table.{Keyed}

pub data VerificationTaskStatus : Type 0 where
  unassigned assigned in_progress approved rejected : VerificationTaskStatus

pub data EvidenceStatus : Type 0 where
  incomplete awaiting_docs follow_up missing_docs : EvidenceStatus

pub record RoundDocuments : Type 0 where
  pub location_evidence_key : Option String
  pub production_evidence_key : Option String
  pub farm_plot_sketch_key : Option String
  pub harvest_estimate_key : Option String

pub data VerificationCheckKey : Type 0 where
  farmer_id farm_ownership chief_confirmation farm_active access_route measurements :
      VerificationCheckKey
  declared_produce crop_health estimated_yield : VerificationCheckKey

pub data CheckResult : Type 0 where
  verified issue unable not_applicable : CheckResult

pub data EvidenceKind : Type 0 where
  check location_discrepancy photo : EvidenceKind

pub data FarmerStatus : Type 0 where
  active inactive disabled : FarmerStatus

pub record Agent : Type 0 where
  pub id : ℕ
  pub created_at : ℕ
  pub is_verified : Bool
  pub lga_id : Option ℕ
  pub has_cluster : Bool  -- whether a Cluster row has the agent's id
  pub agent_code : String  -- agent.agentId
  pub full_name : String  -- of agent.user

pub record Farmer : Type 0 where
  pub id : ℕ
  pub user_id : ℕ
  pub id_type : Option String  -- as the audit prints it
  pub id_document_key : Option String
  pub status : FarmerStatus

pub record FarmVerification : Type 0 where
  pub id : ℕ
  pub farm_id : ℕ
  pub agent_id : Option ℕ
  pub status : VerificationTaskStatus
  pub location_matches : Option Bool
  pub discrepancy_lat : Option String
  pub discrepancy_lng : Option String
  pub discrepancy_note : Option String
  pub identity_note : Option String
  pub measured_size : Option String
  pub estimated_yield : Option String
  pub estimated_yield_unit : Option String
  pub general_note : Option String
  pub rejection_reason : Option String
  pub evidence_status : EvidenceStatus
  pub documents : RoundDocuments
  pub information_request_note : Option String
  pub information_requested_at : Option ℕ
  pub started_at : Option ℕ
  pub decided_at : Option ℕ
  pub created_at : ℕ

pub record VerificationCheck : Type 0 where
  pub verification_id : ℕ
  pub key : VerificationCheckKey
  pub result : CheckResult
  pub note : Option String

pub record VerificationEvidence : Type 0 where
  pub id : ℕ
  pub verification_id : ℕ
  pub kind : EvidenceKind
  pub check_key : Option VerificationCheckKey
  pub storage_key : String

pub record AssignmentDecline : Type 0 where
  pub verification_id : ℕ
  pub agent_id : ℕ
  pub reason : String

instance abbrev pub agent_keyed : Keyed Agent
agent_keyed = record { key = λ r. r.id }

instance abbrev pub farmer_keyed : Keyed Farmer
farmer_keyed = record { key = λ r. r.id }

instance abbrev pub round_keyed : Keyed FarmVerification
round_keyed = record { key = λ r. r.id }

instance abbrev pub evidence_keyed : Keyed VerificationEvidence
evidence_keyed = record { key = λ r. r.id }
