-- ===== src/Verification/Service.antt =====
-- src/verification/services/verification.service.ts: an agent's work on a round. The answers, which
-- read the round again, the object store, which gives an uploaded file its key, and the invites and
-- notifications after a commit are left out.
use Prim.Native.String.{String, ◌++◌}
use laicos_backend.Prelude.{
  ℕ, ◌+◌, Bool, true, false, ◌&&◌, ◌||◌, not, Option, none, some, List, [], ◌∷◌, map, same_id,
  is_some, ◌==◌, if◌then◌else◌,
}
use laicos_backend.Prelude.Table.{find, find_first, find_many, any, update_many, modify, delete}
use laicos_backend.Schema.{
  Db, Result, ok, err, Failure, Tx, ◌>>=◌, ◌>>◌, pure, gets, or_throw, throw_if, modify_db,
  transaction, record_audit, Farm, FarmVerificationStatus, Farmer, FarmerStatus, HandoverStatus,
  OrderHandover, FarmVerification, VerificationTaskStatus, VerificationCheckKey, CheckResult,
  VerificationCheck, EvidenceKind, EvidenceStatus, AuditEvent, AuditActorType, AuditCategory,
  AuditResource, round_keyed, farm_keyed, farmer_keyed, agent_keyed, order_keyed, evidence_keyed,
}
use laicos_backend.Verification.Documents.{
  ExpectedDocument, FarmDocuments, document_update, refresh_round, is_tracked,
}
use laicos_backend.Verification.Checklist.{
  ChecklistState, Gap, checklist_gaps, is_result_allowed, place_of,
}
use laicos_backend.Verification.Assignment.{is_open_task, has_declined, reset_round, assign}

abbrev pub own_round : ℕ → ℕ → Db → Option FarmVerification
own_round agent_id id db = elim (find id db.rounds) [
  | none ↦ none
  | some r ↦ if same_id r.agent_id agent_id then some r else none
]

-- `requireOpen`.
unfoldable pub require_open : ℕ → ℕ → Tx FarmVerification
require_open agent_id id db = elim (own_round agent_id id db) [
  | none ↦ err Failure.verification_not_found
  | some r ↦ if is_open_task r.status then ok (r, db) else err Failure.verification_closed
]

abbrev pub put_rounds : ℕ → (FarmVerification → FarmVerification) → Db → Db
put_rounds id f db = record db { rounds = modify id f db.rounds }

-- `transition`: the row as it was. Its `updateMany` repeats the conditions of the read, which are
-- still so in one transaction.
unfoldable pub transition : ℕ → ℕ → (FarmVerification → FarmVerification) → Tx FarmVerification
transition agent_id id f = do
  round ← require_open agent_id id
  modify_db (put_rounds id f)
  pure round

abbrev pub in_progress : (FarmVerification → FarmVerification) → FarmVerification → FarmVerification
in_progress f r = record (f r) { status = VerificationTaskStatus.in_progress }

abbrev pub start : ℕ → FarmVerification → FarmVerification
start now r = record r { started_at = some now }

abbrev pub start_unless : Bool → ℕ → ℕ → Db → Db
start_unless true now id db = db
start_unless false now id db = put_rounds id (start now) db

-- `record`: the first draft starts the task.
unfoldable pub record_draft :
    ℕ → ℕ → ℕ → (FarmVerification → FarmVerification) → Tx FarmVerification
record_draft now agent_id id f = do
  round ← transition agent_id id (in_progress f)
  modify_db (start_unless (is_some round.started_at) now id)
  pure round

abbrev round_event : ℕ → ℕ → String → String → AuditEvent
round_event agent_id farm_id title summary = record {
  actor_type = AuditActorType.extension_agent;
  farmer_id = none;
  agent_id = some agent_id;
  farm_id = some farm_id;
  category = AuditCategory.verification;
  title = title;
  summary = summary;
  action_label = some "View farm";
  resource = some AuditResource.farm;
  resource_id = some farm_id;
  sourcing_request_id = none;
}

-- `auditVerificationRound`.
abbrev pub audit_round : ℕ → ℕ → String → String → Tx (Unit {0})
audit_round agent_id farm_id title summary =
    modify_db (record_audit (round_event agent_id farm_id title summary))

abbrev pub farm_of : ℕ → Tx Farm
farm_of farm_id = gets (λ db. find farm_id db.farms) >>= or_throw Failure.record_not_found

pub record SaveLocationDto : Type 0 where
  pub matches : Bool
  pub latitude : Option String
  pub longitude : Option String
  pub note : Option String

abbrev pub set_location : SaveLocationDto → FarmVerification → FarmVerification
set_location dto r =
    if dto.matches
    then record r {
      location_matches = some true;
      discrepancy_lat = none;
      discrepancy_lng = none;
      discrepancy_note = none;
    }
    else record r {
      location_matches = some false;
      discrepancy_lat = dto.latitude;
      discrepancy_lng = dto.longitude;
      discrepancy_note = dto.note;
    }

-- `saveLocation`.
unfoldable pub save_location_tx : ℕ → ℕ → ℕ → SaveLocationDto → Tx (Unit {0})
save_location_tx now agent_id id dto = do
  round ← record_draft now agent_id id (set_location dto)
  farm ← farm_of round.farm_id
  audit_round agent_id round.farm_id "Verification location saved" farm.farm_code

abbrev pub is_check : ℕ → VerificationCheckKey → VerificationCheck → Bool
is_check id key c = c.verification_id == id && place_of c.key == place_of key

abbrev pub put_check : VerificationCheck → Db → Db
put_check new db =
    if any (is_check new.verification_id new.key) db.checks
    then record db {
      checks =
          update_many (is_check new.verification_id new.key)
            (λ c. record c { result = new.result; note = new.note }) db.checks;
    }
    else record db { checks = new ∷ db.checks }

-- `saveCheck`; the text of the check's name is the caller's.
unfoldable pub save_check_tx :
    ℕ → ℕ → ℕ → VerificationCheckKey → String → CheckResult → Option String → Tx (Unit {0})
save_check_tx now agent_id id key key_text result remark = do
  round ← record_draft now agent_id id (λ r. r)
  modify_db (put_check (record { verification_id = id; key = key; result = result; note = remark }))
  farm ← farm_of round.farm_id
  audit_round agent_id round.farm_id "Verification check saved"
      (key_text ++ (" on " ++ farm.farm_code))

unfoldable pub save_check :
    ℕ
    → ℕ
    → ℕ
    → VerificationCheckKey
    → String
    → CheckResult
    → Option String
    → Db
    → Result (Unit {0}) × Db
save_check now agent_id id key key_text result remark db =
    if is_result_allowed key result
    then transaction (save_check_tx now agent_id id key key_text result remark) db
    else (err Failure.check_result_refused, db)

-- `UpdateVerificationDto`: an absent field is left alone.
pub record UpdateVerificationDto : Type 0 where
  pub identity_note : Option String
  pub measured_size : Option String
  pub estimated_yield : Option String
  pub estimated_yield_unit : Option String
  pub general_note : Option String
  pub evidence_status : Option EvidenceStatus

abbrev pub or_kept : {A : Type 0} → Option A → Option A → Option A
or_kept none old = old
or_kept (some given) old = some given

abbrev pub status_or : Option EvidenceStatus → EvidenceStatus → EvidenceStatus
status_or none old = old
status_or (some given) old = given

abbrev pub set_fields : UpdateVerificationDto → FarmVerification → FarmVerification
set_fields dto r = record r {
  identity_note = or_kept dto.identity_note r.identity_note;
  measured_size = or_kept dto.measured_size r.measured_size;
  estimated_yield = or_kept dto.estimated_yield r.estimated_yield;
  estimated_yield_unit = or_kept dto.estimated_yield_unit r.estimated_yield_unit;
  general_note = or_kept dto.general_note r.general_note;
  evidence_status = status_or dto.evidence_status r.evidence_status;
}

-- `update`.
unfoldable pub update_tx : ℕ → ℕ → ℕ → UpdateVerificationDto → Tx (Unit {0})
update_tx now agent_id id dto = do record_draft now agent_id id (set_fields dto); pure tt

-- `farm: { select: CHECKLIST_DOCUMENTS_SELECT }`.
abbrev pub farm_documents : Farm → Db → FarmDocuments
farm_documents farm db = record {
  id_document_key = elim (find farm.owner_id db.farmers) [
    | none ↦ none
    | some f ↦ f.id_document_key
  ];
  ownership_document_key = farm.ownership_document_key;
}

-- `refreshFarmEvidenceStatus`.
unfoldable pub refresh_farm_evidence_status : ℕ → Db → Db
refresh_farm_evidence_status farm_id db = elim (find farm_id db.farms) [
  | none ↦ db
  | some farm ↦ record db {
    rounds =
        update_many (λ r. r.farm_id == farm_id && is_tracked r.status)
          (refresh_round (farm_documents farm db)) db.rounds;
  }
]

pub record AddEvidenceDto : Type 0 where
  pub document : Option ExpectedDocument
  pub check_key : Option VerificationCheckKey

-- `evidenceRequestError` is null: one of the two, and not both.
abbrev pub is_well_formed : AddEvidenceDto → Bool
is_well_formed dto =
    is_some dto.document && not (is_some dto.check_key)
    || not (is_some dto.document) && is_some dto.check_key

abbrev pub set_document : ExpectedDocument → String → FarmVerification → FarmVerification
set_document document key r = record r { documents = document_update document key r.documents }

abbrev pub put_evidence : ℕ → Option VerificationCheckKey → String → Db → Db
put_evidence id check_key storage_key db = record db {
  evidence =
      record {
        id = db.next_id;
        verification_id = id;
        kind = EvidenceKind.check;
        check_key = check_key;
        storage_key = storage_key;
      }
      ∷ db.evidence;
  next_id = db.next_id + 1;
}

abbrev pub store_evidence : ℕ → ℕ → AddEvidenceDto → String → Db → Db
store_evidence id farm_id dto storage_key db = elim dto.document [
  | some document ↦
      refresh_farm_evidence_status farm_id (put_rounds id (set_document document storage_key) db)
  | none ↦ put_evidence id dto.check_key storage_key db
]

unfoldable pub add_evidence_tx : ℕ → ℕ → ℕ → AddEvidenceDto → String → Tx (Unit {0})
add_evidence_tx now agent_id id dto storage_key = do
  round ← record_draft now agent_id id (λ r. r)
  farm ← farm_of round.farm_id
  audit_round agent_id round.farm_id "Verification evidence saved" farm.farm_code
  modify_db (store_evidence id round.farm_id dto storage_key)

-- `addEvidence`: the first check reads `seen`, before the upload.
unfoldable pub add_evidence : ℕ → ℕ → ℕ → AddEvidenceDto → String → Db → Db → Result (Unit {0}) × Db
add_evidence now agent_id id dto storage_key seen db =
    if is_well_formed dto
    then elim (require_open agent_id id seen) [
      | err e ↦ (err e, db)
      | ok _ ↦ transaction (add_evidence_tx now agent_id id dto storage_key) db
    ]
    else (err Failure.evidence_request_invalid, db)

-- `removeEvidence`: the storage key to delete.
unfoldable pub remove_evidence_tx : ℕ → ℕ → ℕ → ℕ → Tx String
remove_evidence_tx now agent_id id evidence_id = do
  record_draft now agent_id id (λ r. r)
  item ←
      or_throw Failure.evidence_not_found
        (← gets λ db. find_first (λ e. e.id == evidence_id && e.verification_id == id) db.evidence)
  modify_db (λ db. record db { evidence = delete evidence_id db.evidence })
  pure item.storage_key

abbrev pub hand_back : FarmVerification → FarmVerification
hand_back r = record r { status = VerificationTaskStatus.unassigned; agent_id = none }

-- `assignmentDecline.create`, with its unique index.
abbrev pub put_decline : ℕ → ℕ → String → Tx (Unit {0})
put_decline id agent_id reason db =
    if any (has_declined id agent_id) db.declines
    then err Failure.unique_violation
    else ok (
      tt,
      record db {
        declines =
            record { verification_id = id; agent_id = agent_id; reason = reason } ∷ db.declines;
      },
    )

-- `decline`: the storage keys to delete.
unfoldable pub decline_tx : ℕ → ℕ → String → Tx (List String)
decline_tx agent_id id reason = do
  round ← transition agent_id id hand_back
  put_decline id agent_id reason
  audit_round agent_id round.farm_id "Verification declined" reason
  keys ← reset_round id
  modify_db (λ db. (assign id none db).1)
  pure keys

-- The round as `checklistGaps` reads it.
abbrev pub checklist_state : FarmVerification → FarmDocuments → Db → ChecklistState
checklist_state r farm db = record {
  documents = r.documents;
  location_matches = r.location_matches;
  discrepancy_lat = r.discrepancy_lat;
  discrepancy_lng = r.discrepancy_lng;
  discrepancy_note = r.discrepancy_note;
  identity_note = r.identity_note;
  general_note = r.general_note;
  checks =
      map (λ c. record { key = c.key; result = c.result; note = c.note })
        (find_many (λ c. c.verification_id == r.id) db.checks);
  evidence =
      map (λ e. record { kind = e.kind; check_key = e.check_key })
        (find_many (λ e. e.verification_id == r.id) db.evidence);
  farm = farm;
}

abbrev pub has_gap : List Gap → Bool
has_gap [] = false
has_gap (_ ∷ _) = true

abbrev pub decide : VerificationTaskStatus → Option String → ℕ → FarmVerification → FarmVerification
decide status reason now r = record r {
  status = status;
  rejection_reason = or_kept reason r.rejection_reason;
  decided_at = some now;
}

abbrev pub verify_farm : ℕ → Farm → Farm
verify_farm agent_id farm = record farm {
  verification_status = FarmVerificationStatus.verified;
  cluster_agent_id = some agent_id;
  is_clustered = true;
}

abbrev pub is_open_handover : HandoverStatus → Bool
is_open_handover HandoverStatus.pending = true
is_open_handover HandoverStatus.verified = true
is_open_handover _ = false

-- `{ agentId: null, status: { in: OPEN_HANDOVER_STATUSES }, order: { farmId } }`.
abbrev pub waits_for_agent : ℕ → Db → OrderHandover → Bool
waits_for_agent farm_id db h =
    not (is_some h.agent_id)
    && (is_open_handover h.status
        && elim (find h.order_id db.orders) [ none ↦ false | some o ↦ o.farm_id == farm_id ])

abbrev pub put_verified : ℕ → ℕ → Db → Db
put_verified agent_id farm_id db = record db {
  farms = modify farm_id (verify_farm agent_id) db.farms;
  handovers =
      update_many (waits_for_agent farm_id db) (λ h. record h { agent_id = some agent_id })
        db.handovers;
}

abbrev pub activate : Farmer → Farmer
activate f = record f { status = FarmerStatus.active }

-- The writes of `approve`, once the checklist has no gap.
unfoldable pub approve_round : ℕ → ℕ → ℕ → Tx (Unit {0})
approve_round now agent_id id = do
  round ← transition agent_id id (decide VerificationTaskStatus.approved none now)
  farm ← farm_of round.farm_id
  audit_round agent_id round.farm_id ("Farm " ++ (farm.farm_code ++ " verified")) farm.name
  agent ← or_throw Failure.record_not_found (← gets λ db. find agent_id db.agents)
  throw_if (not agent.has_cluster) Failure.record_not_found
  or_throw Failure.record_not_found (← gets λ db. find farm.owner_id db.farmers)
  modify_db (put_verified agent_id round.farm_id)
  modify_db (λ db. record db { farmers = modify farm.owner_id activate db.farmers })

-- `approve`.
unfoldable pub approve_tx : ℕ → ℕ → ℕ → Tx (Unit {0})
approve_tx now agent_id id db = elim (own_round agent_id id db) [
  | none ↦ err Failure.verification_not_found
  | some own ↦ elim (find own.farm_id db.farms) [
    | none ↦ err Failure.record_not_found
    | some farm ↦
        if has_gap (checklist_gaps (checklist_state own (farm_documents farm db) db))
        then err Failure.checklist_incomplete
        else approve_round now agent_id id db
  ]
]

abbrev pub reject_farm : Farm → Farm
reject_farm farm = record farm {
  verification_status = FarmVerificationStatus.rejected;
  cluster_agent_id = none;
  is_clustered = false;
}

-- `reject`.
unfoldable pub reject_tx : ℕ → ℕ → ℕ → String → Tx (Unit {0})
reject_tx now agent_id id reason = do
  round ← transition agent_id id (decide VerificationTaskStatus.rejected (some reason) now)
  farm ← farm_of round.farm_id
  audit_round agent_id round.farm_id ("Farm " ++ (farm.farm_code ++ " rejected")) reason
  modify_db (λ db. record db { farms = modify round.farm_id reject_farm db.farms })
