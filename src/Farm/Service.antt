-- ===== src/Farm/Service.antt =====
-- src/farm/services/farm.service.ts. What a method reads before its transaction it reads from
-- `seen`. The object store, which keeps the uploaded documents, is left out: a document is the key
-- that it gave.
use Prim.Native.String.{String, ◌++◌}
use laicos_backend.Prelude.{
  ℕ, ◌+◌, Bool, false, ◌&&◌, not, Option, none, some, ◌∷◌, is_some, ◌==◌, if◌then◌else◌,
}
use laicos_backend.Prelude.Table.{find, find_first, any}
use laicos_backend.Schema.{
  Db, Result, ok, err, Failure, Tx, ◌>>=◌, ◌>>◌, gets, modify_db, throw_if, transaction, map_error,
  record_audit, User, Farm, FarmVerificationStatus, Farmer, FarmVerification, AuditEvent,
  AuditActorType, AuditCategory, AuditResource, farm_keyed, agent_keyed,
}
use laicos_backend.Produce.Service.{given_or}
use laicos_backend.Verification.Documents.{is_given, is_tracked}
use laicos_backend.Verification.Assignment.{open_round}

pub record CreateFarmDto : Type 0 where
  pub name : String
  pub state_id : ℕ
  pub lga_id : ℕ
  pub location : String
  pub size : String
  pub unit : Option String
  pub main_produce : String
  pub is_exporting : Option Bool
  pub referral_agent_id : Option ℕ

abbrev pub find_farmer : ℕ → Db → Option Farmer
find_farmer user_id db = find_first (λ f. f.user_id == user_id) db.farmers

-- `LocationService.requireLga`.
abbrev pub lga_exists : ℕ → ℕ → Db → Bool
lga_exists state_id lga_id db = any (λ l. l.id == lga_id && l.state_id == state_id) db.lgas

-- `mapFarmSaveError`.
abbrev pub farm_save_error : Failure → Failure
farm_save_error Failure.record_not_found = Failure.farm_not_found
farm_save_error Failure.foreign_key_violation = Failure.referral_agent_not_found
farm_save_error Failure.unique_violation = Failure.farm_already_open
farm_save_error e = e

-- The foreign key of the referral agent.
abbrev pub agent_missing : Option ℕ → Db → Bool
agent_missing none db = false
agent_missing (some id) db = not (is_some (find id db.agents))

-- The statuses of `OPEN_ROUND_STATUSES` are those of a tracked round.
abbrev pub is_open_round : ℕ → FarmVerification → Bool
is_open_round farm_id r = r.farm_id == farm_id && is_tracked r.status

-- `openRound` on a farm, with the unique index on its open rounds.
unfoldable pub open_farm_round : ℕ → ℕ → Option ℕ → Tx ℕ
open_farm_round now farm_id preferred db =
    if any (is_open_round farm_id) db.rounds
    then err Failure.unique_violation
    else ok (open_round now farm_id preferred db)

abbrev pub new_farm : ℕ → String → Farmer → CreateFarmDto → Option String → Option String → Farm
new_farm id farm_code farmer dto ownership_key chief_key = record {
  id = id;
  owner_id = farmer.id;
  owner_user_id = farmer.user_id;
  farm_code = farm_code;
  name = dto.name;
  verification_status = FarmVerificationStatus.pending;
  cluster_agent_id = none;
  is_clustered = false;
  state_id = dto.state_id;
  lga_id = dto.lga_id;
  location = dto.location;
  size = dto.size;
  unit = given_or dto.unit "ha";
  main_produce = dto.main_produce;
  is_exporting = given_or dto.is_exporting false;
  referral_agent_id = dto.referral_agent_id;
  ownership_document_key = ownership_key;
  chief_confirmation_key = chief_key;
}

abbrev put_farm : Farm → Db → Db
put_farm farm db = record db { farms = farm ∷ db.farms; next_id = db.next_id + 1 }

-- `insertFarm`.
unfoldable pub insert_farm : ℕ → Farm → Option ℕ → Tx ℕ
insert_farm now farm preferred = do
  missing ← gets λ db. agent_missing farm.referral_agent_id db
  throw_if missing Failure.foreign_key_violation
  modify_db (put_farm farm)
  open_farm_round now farm.id preferred

abbrev pub farm_event : ℕ → ℕ → AuditCategory → String → String → AuditEvent
farm_event farmer_id farm_id category title summary = record {
  actor_type = AuditActorType.farmer;
  farmer_id = some farmer_id;
  agent_id = none;
  farm_id = some farm_id;
  category = category;
  title = title;
  summary = summary;
  action_label = some "View farm";
  resource = some AuditResource.farm;
  resource_id = some farm_id;
  sourcing_request_id = none;
}

-- `farmDocumentsSummary`.
unfoldable pub farm_documents_summary : Option String → Option String → Option String
farm_documents_summary ownership_key chief_key =
    if is_given ownership_key
    then if is_given chief_key then some "ownership and chief confirmation" else some "ownership"
    else if is_given chief_key
    then some "chief confirmation"
    else none

abbrev pub audit_documents : ℕ → ℕ → Option String → Db → Db
audit_documents farmer_id farm_id none db = db
audit_documents farmer_id farm_id (some summary) db =
    record_audit
      (farm_event farmer_id farm_id AuditCategory.documents "Farm documents uploaded" summary) db

-- The transaction of `create`.
unfoldable pub create_tx :
    ℕ → Farmer → CreateFarmDto → Option String → Option String → Tx (Unit {0})
create_tx now farmer dto ownership_key chief_key = do
  farm ←
      gets λ db. new_farm db.next_id (db.farm_codes db.next_id) farmer dto ownership_key chief_key
  insert_farm now farm none
  modify_db (
      record_audit (
        farm_event farmer.id farm.id AuditCategory.farm ("Farm " ++ (farm.farm_code ++ " created"))
          (farm.name ++ (", " ++ farm.main_produce))))
  modify_db (audit_documents farmer.id farm.id (farm_documents_summary ownership_key chief_key))

-- `create`.
unfoldable pub create :
    ℕ → User → CreateFarmDto → Option String → Option String → Db → Db → Result (Unit {0}) × Db
create now user dto ownership_key chief_key seen db = elim (find_farmer user.id seen) [
  | none ↦ (err Failure.farmer_not_found, db)
  | some farmer ↦
      if not (is_given farmer.id_document_key)
      then (err Failure.id_document_missing, db)
      else if not (lga_exists dto.state_id dto.lga_id seen)
      then (err Failure.invalid_lga, db)
      else map_error farm_save_error
          (transaction (create_tx now farmer dto ownership_key chief_key) db)
]
