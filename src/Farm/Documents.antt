-- ===== src/Farm/Documents.antt =====
-- src/verification/services/farm-documents.service.ts (`replace`), and the methods of
-- src/farm/services that take a farm out of the market: `remove` of farm.service.ts and `suspend`
-- of admin-farm.service.ts.
use Prim.Native.String.{String}
use laicos_backend.Prelude.{
  ℕ, Bool, false, ◌&&◌, ◌||◌, not, Option, none, some, is_some, same_id, ◌==◌, if◌then◌else◌,
}
use laicos_backend.Prelude.Table.{find, find_first, find_many, any, update_many, modify, delete}
use laicos_backend.Schema.{
  Db, Result, ok, err, Failure, Tx, ◌>>=◌, ◌>>◌, gets, modify_db, throw_if, transaction, map_error,
  record_audit, User, Farm, FarmVerificationStatus, Farmer, FarmerStatus, Produce, AuditEvent,
  AuditCategory, AuditResource, farm_keyed, farmer_keyed, is_farm_verified,
}
use laicos_backend.Produce.Service.{is_open_paid}
use laicos_backend.Verification.Service.{refresh_farm_evidence_status}
use laicos_backend.Farm.Service.{find_farmer, farm_event, farm_documents_summary, audit_documents}
use laicos_backend.Farm.Update.{is_own}

-- The storage keys of the documents sent.
pub record FarmDocumentUploads : Type 0 where
  pub id_document : Option String
  pub ownership_document : Option String
  pub chief_confirmation : Option String

abbrev pub is_nothing : FarmDocumentUploads → Bool
is_nothing sent =
    not (is_some sent.id_document)
    && not (is_some sent.ownership_document)
    && not (is_some sent.chief_confirmation)

abbrev or_kept : Option String → Option String → Option String
or_kept none old = old
or_kept (some key) old = some key

abbrev pub with_documents : FarmDocumentUploads → Farm → Farm
with_documents sent farm = record farm {
  ownership_document_key = or_kept sent.ownership_document farm.ownership_document_key;
  chief_confirmation_key = or_kept sent.chief_confirmation farm.chief_confirmation_key;
}

abbrev pub with_identity : Option String → ℕ → Db → Db
with_identity none farmer_id db = db
with_identity (some key) farmer_id db = record db {
  farmers = modify farmer_id (λ f. record f { id_document_key = some key }) db.farmers;
}

abbrev or_else : Option String → String → String
or_else none text = text
or_else (some text) _ = text

abbrev identity_event : Farmer → AuditEvent
identity_event farmer =
    record (farm_event farmer.id farmer.id AuditCategory.documents "ID document uploaded"
      (or_else farmer.id_type "ID document")) {
        farm_id = none;
        action_label = some "View profile";
        resource = some AuditResource.farmer;
      }

abbrev audit_identity : Option String → Farmer → Db → Db
audit_identity none farmer db = db
audit_identity (some _) farmer db = record_audit (identity_event farmer) db

abbrev marked : Option String → String → Option String
marked none word = none
marked (some _) word = some word

-- `farmerDocumentEvents`.
unfoldable pub farmer_document_events : Farmer → ℕ → FarmDocumentUploads → Db → Db
farmer_document_events farmer farm_id sent db =
    audit_documents farmer.id farm_id
      (farm_documents_summary (marked sent.ownership_document "ownership")
        (marked sent.chief_confirmation "chief"))
      (audit_identity sent.id_document farmer db)

-- The WHERE of the update: the owner's, and not verified in the meantime.
abbrev pub is_replaceable : ℕ → ℕ → Farm → Bool
is_replaceable user_id id farm =
    is_own user_id id farm && not (is_farm_verified farm.verification_status)

-- The transaction of `replace`.
unfoldable pub replace_tx : User → ℕ → ℕ → Farmer → FarmDocumentUploads → Tx (Unit {0})
replace_tx user id owner_id farmer sent = do
  found ← gets λ db. any (is_replaceable user.id id) db.farms
  throw_if (not found) Failure.record_not_found
  modify_db λ db. record db { farms = modify id (with_documents sent) db.farms }
  modify_db (with_identity sent.id_document owner_id)
  modify_db (refresh_farm_evidence_status id)
  modify_db (farmer_document_events farmer id sent)

abbrev pub locked_error : Failure → Failure
locked_error Failure.record_not_found = Failure.farm_documents_locked
locked_error e = e

-- `replaceDocuments` and `replace`.
unfoldable pub replace_documents : User → ℕ → FarmDocumentUploads → Db → Db → Result (Unit {0}) × Db
replace_documents user id sent seen db = elim (find_farmer user.id seen) [
  | none ↦ (err Failure.farmer_not_found, db)
  | some farmer ↦
      if is_nothing sent
      then (err Failure.documents_missing, db)
      else elim (find_first (is_own user.id id) seen.farms) [
        | none ↦ (err Failure.farm_not_found, db)
        | some current ↦
            if is_farm_verified current.verification_status
            then (err Failure.farm_documents_locked, db)
            else map_error locked_error
                (transaction (replace_tx user id current.owner_id farmer sent) db)
      ]
]

-- A listing of the farm that an order or a selection still refers to.
abbrev is_pinned : ℕ → Db → Produce → Bool
is_pinned id db p =
    p.farm_id == id
    && (any (λ o. o.produce_id == p.id) db.orders || any (λ a. a.produce_id == p.id) db.allocations)

abbrev of_round : ℕ → Db → ℕ → Bool
of_round id db round_id = any (λ r. r.id == round_id && r.farm_id == id) db.rounds

abbrev of_listing : ℕ → Db → ℕ → Bool
of_listing id db produce_id = any (λ p. p.id == produce_id && p.farm_id == id) db.produces

-- The row with what its foreign keys cascade to.
abbrev pub without_farm : ℕ → Db → Db
without_farm id db = record db {
  farms = delete id db.farms;
  produces = find_many (λ p. not (p.farm_id == id)) db.produces;
  cart_items = find_many (λ item. not (of_listing id db item.produce_id)) db.cart_items;
  rounds = find_many (λ r. not (r.farm_id == id)) db.rounds;
  checks = find_many (λ c. not (of_round id db c.verification_id)) db.checks;
  evidence = find_many (λ e. not (of_round id db e.verification_id)) db.evidence;
  declines = find_many (λ d. not (of_round id db d.verification_id)) db.declines;
  audit_events =
      update_many (λ e. same_id e.farm_id id) (λ e. record e { farm_id = none }) db.audit_events;
}

-- `farm.delete` with the owner in its WHERE, and RESTRICT on orders and selections.
unfoldable pub delete_farm : ℕ → ℕ → Tx (Unit {0})
delete_farm user_id id db =
    if not (any (is_own user_id id) db.farms)
    then err Failure.record_not_found
    else if any (λ o. o.farm_id == id) db.orders || any (is_pinned id db) db.produces
    then err Failure.foreign_key_violation
    else ok (tt, without_farm id db)

-- `mapFarmDeleteError`.
abbrev pub farm_delete_error : Failure → Failure
farm_delete_error Failure.record_not_found = Failure.farm_not_found
farm_delete_error Failure.foreign_key_violation = Failure.farm_has_orders
farm_delete_error e = e

-- `remove`, by a farmer, whose own farms are those it can read.
unfoldable pub remove : User → ℕ → Db → Db → Result (Unit {0}) × Db
remove user id seen db = elim (find_first (is_own user.id id) seen.farms) [
  | none ↦ (err Failure.farm_not_found, db)
  | some farm ↦ map_error farm_delete_error (transaction (delete_farm user.id id) db)
]

abbrev owned_by : ℕ → Db → ℕ → Bool
owned_by farmer_id db farm_id = elim (find farm_id db.farms) [
  | none ↦ false
  | some farm ↦ farm.owner_id == farmer_id
]

abbrev pub suspended : Farm → Farm
suspended farm = record farm { verification_status = FarmVerificationStatus.suspended }

-- The transaction of `AdminFarmService.suspend`.
unfoldable pub suspend_tx : ℕ → Tx (Unit {0})
suspend_tx id = do
  found ← gets λ db. is_some (find id db.farmers)
  throw_if (not found) Failure.farmer_not_found
  busy ← gets λ db. any (λ o. is_open_paid o.status && owned_by id db o.farm_id) db.orders
  throw_if busy Failure.farmer_has_open_orders
  modify_db λ db. record db {
    farmers = modify id (λ f. record f { status = FarmerStatus.disabled }) db.farmers;
    farms = update_many (λ farm. farm.owner_id == id) suspended db.farms;
  }

-- `suspend`.
unfoldable pub suspend : ℕ → Db → Result (Unit {0}) × Db
suspend id = transaction (suspend_tx id)
