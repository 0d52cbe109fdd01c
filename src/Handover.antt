-- ===== src/Handover.antt =====
-- src/handover/handover.service.ts: an agent verifies the goods of a ready order and hands them to
-- logistics, which ships the order. The key that the object store gives a file is an argument.
pub mod Complete
use Prim.Native.String.{String, ◌++◌}
use laicos_backend.Prelude.{
  ℕ, ◌+◌, Bool, true, false, ◌&&◌, not, Option, none, some, List, ◌∷◌, ◌==◌, if◌then◌else◌, same_id,
}
use laicos_backend.Prelude.Table.{find, find_first, modify, delete}
use laicos_backend.Schema.{
  Db, Result, ok, err, Failure, Tx, ◌>>=◌, ◌>>◌, pure, gets, or_throw, modify_db, throw_if,
  transaction, map_error, record_audit, Order, OrderStatus, OrderHandover, HandoverStatus,
  HandoverProof, Farm, AuditEvent, AuditActorType, AuditCategory, AuditResource, is_ready,
  order_keyed, farm_keyed, handover_keyed, proof_keyed,
}
use laicos_backend.SourcingRequest.Sync.{sourcing_request_id_for_order}
use laicos_backend.Order.Service.{update_order, set_status, sync_linked}

abbrev pub is_handover_pending : HandoverStatus → Bool
is_handover_pending HandoverStatus.pending = true
is_handover_pending _ = false

abbrev pub is_handover_verified : HandoverStatus → Bool
is_handover_verified HandoverStatus.verified = true
is_handover_verified _ = false

abbrev pub is_handed_over : HandoverStatus → Bool
is_handed_over HandoverStatus.handed_over = true
is_handed_over _ = false

-- `{ orderId, agentId: agent.id }` on the row of the order.
abbrev pub handover_of : ℕ → ℕ → Db → Option OrderHandover
handover_of agent_id order_id db = elim (find order_id db.handovers) [
  | none ↦ none
  | some h ↦ if same_id h.agent_id agent_id then some h else none
]

-- `guarded` round an update with the expected status in its WHERE, and `refuse` when it misses.
unfoldable pub update_handover :
    ℕ → ℕ → (HandoverStatus → Bool) → (OrderHandover → OrderHandover) → Tx OrderHandover
update_handover agent_id order_id expected f db = elim (handover_of agent_id order_id db) [
  | none ↦ err Failure.handover_not_found
  | some h ↦
      if expected h.status
      then ok (f h, record db { handovers = modify order_id f db.handovers })
      else err Failure.handover_wrong_status
]

abbrev handover_event : ℕ → Order → Farm → String → Option ℕ → AuditEvent
handover_event agent_id order farm title link = record {
  actor_type = AuditActorType.extension_agent;
  farmer_id = none;
  agent_id = some agent_id;
  farm_id = some farm.id;
  category = AuditCategory.handover;
  title = title;
  summary = order.order_number ++ (" at " ++ farm.farm_code);
  action_label = some "View order";
  resource = some AuditResource.order;
  resource_id = some order.id;
  sourcing_request_id = link;
}

-- `recordHandoverAudit`, with the order and farm that the handover is joined with.
unfoldable pub record_handover_audit : ℕ → ℕ → ℕ → String → Tx (Unit {0})
record_handover_audit now agent_id order_id title = do
  order ← or_throw Failure.record_not_found (← gets λ db. find order_id db.orders)
  farm ← or_throw Failure.record_not_found (← gets λ db. find order.farm_id db.farms)
  link ← gets λ db. sourcing_request_id_for_order order_id db
  modify_db (record_audit (handover_event agent_id order farm title link))
  modify_db (sync_linked now link)

abbrev pub verified_at_now : ℕ → Option String → OrderHandover → OrderHandover
verified_at_now now note h = record h {
  status = HandoverStatus.verified;
  verification_note = note;
  verified_at = some now;
}

-- `verify`.
unfoldable pub verify_tx : ℕ → ℕ → ℕ → Option String → Tx OrderHandover
verify_tx now agent_id order_id note = do
  updated ← update_handover agent_id order_id is_handover_pending (verified_at_now now note)
  record_handover_audit now agent_id order_id "Handover verified"
  pure updated

abbrev pub verify : ℕ → ℕ → ℕ → Option String → Db → Result OrderHandover × Db
verify now agent_id order_id note db = transaction (verify_tx now agent_id order_id note) db

pub record CompleteHandoverDto : Type 0 where
  pub recipient_name : String
  pub recipient_phone : Option String
  pub note : Option String

abbrev pub hand_over : ℕ → CompleteHandoverDto → OrderHandover → OrderHandover
hand_over now dto h = record h {
  status = HandoverStatus.handed_over;
  recipient_name = some dto.recipient_name;
  recipient_phone = dto.recipient_phone;
  handover_note = dto.note;
  handed_over_at = some now;
}

-- `complete`.
unfoldable pub complete_tx : ℕ → ℕ → ℕ → CompleteHandoverDto → Tx OrderHandover
complete_tx now agent_id order_id dto = do
  handed_over ← update_handover agent_id order_id is_handover_verified (hand_over now dto)
  update_order order_id is_ready (set_status OrderStatus.shipped)
  record_handover_audit now agent_id order_id "Handover completed"
  pure handed_over

abbrev pub not_ready_error : Failure → Failure
not_ready_error Failure.record_not_found = Failure.order_not_ready
not_ready_error e = e

abbrev pub complete : ℕ → ℕ → ℕ → CompleteHandoverDto → Db → Result OrderHandover × Db
complete now agent_id order_id dto db =
    map_error not_ready_error (transaction (complete_tx now agent_id order_id dto) db)

-- `requireOpen`.
unfoldable pub require_open : ℕ → ℕ → Db → Option Failure
require_open agent_id order_id db = elim (handover_of agent_id order_id db) [
  | none ↦ some Failure.handover_not_found
  | some h ↦ if is_handed_over h.status then some Failure.handover_wrong_status else none
]

abbrev pub put_proof : ℕ → String → Db → Db
put_proof order_id storage_key db = record db {
  proofs = record { id = db.next_id; order_id = order_id; storage_key = storage_key } ∷ db.proofs;
  next_id = db.next_id + 1;
}

unfoldable pub add_proof_tx : ℕ → ℕ → ℕ → String → Tx (Unit {0})
add_proof_tx now agent_id order_id storage_key = do
  modify_db (put_proof order_id storage_key)
  handover ← or_throw Failure.record_not_found (← gets (handover_of agent_id order_id))
  record_handover_audit now agent_id order_id "Handover proof added"

-- `addProof`: the check reads `seen`, before the upload. It answers with the stored row.
unfoldable pub add_proof : ℕ → ℕ → ℕ → String → Db → Db → Result OrderHandover × Db
add_proof now agent_id order_id storage_key seen db = elim (require_open agent_id order_id seen) [
  | some e ↦ (err e, db)
  | none ↦ elim (add_proof_tx now agent_id order_id storage_key db) [
    | err e ↦ (err e, db)
    | ok (_, db') ↦ elim (handover_of agent_id order_id db') [
      | none ↦ (err Failure.handover_not_found, db')
      | some h ↦ (ok h, db')
    ]
  ]
]

abbrev has_proof : ℕ → ℕ → HandoverProof → Bool
has_proof order_id proof_id p = p.id == proof_id && p.order_id == order_id

-- What `removeProof` checks on its read.
unfoldable pub proof_refusal : ℕ → ℕ → ℕ → Db → Option Failure
proof_refusal agent_id order_id proof_id seen =
    elim (find_first (has_proof order_id proof_id) seen.proofs) [
      | none ↦ some Failure.handover_not_found
      | some proof ↦ require_open agent_id order_id seen
    ]

-- `removeProof`.
unfoldable pub remove_proof : ℕ → ℕ → ℕ → Db → Db → Result OrderHandover × Db
remove_proof agent_id order_id proof_id seen db =
    elim (proof_refusal agent_id order_id proof_id seen) [
      | some e ↦ (err e, db)
      | none ↦ elim (find proof_id db.proofs) [
        | none ↦ (err Failure.record_not_found, db)
        | some proof ↦
            let db' = record db { proofs = delete proof_id db.proofs } in
            elim (handover_of agent_id order_id db') [
              | none ↦ (err Failure.handover_not_found, db')
              | some h ↦ (ok h, db')
            ]
      ]
    ]
