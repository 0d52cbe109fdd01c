-- ===== src/Order/Service/Ready.antt =====
-- src/order/order.service.ts: the preparation checklist, and marking an order ready.
use laicos_backend.Prelude.{ℕ, Bool, true, false, ◌&&◌, Option, none, some, ◌∷◌, if◌then◌else◌}
use laicos_backend.Prelude.Table.{find, modify}
use laicos_backend.Schema.{
  Db, Result, ok, err, Failure, Tx, ◌>>=◌, ◌>>◌, pure, gets, or_throw, modify_db, throw_if, User,
  Order, OrderStatus, OrderChecklist, OrderHandover, HandoverStatus, is_preparing, order_keyed,
  farm_keyed, checklist_keyed,
}
use laicos_backend.Order.Service.{
  find_one, update_order, set_status, record_farmer_order, guarded, unless, order_title,
}

-- `UpdateOrderChecklistDto`: an absent item is left alone.
pub record UpdateOrderChecklistDto : Type 0 where
  pub harvested : Option Bool
  pub sorted : Option Bool
  pub packaged : Option Bool
  pub ready_for_pickup : Option Bool

abbrev given_or : Option Bool → Bool → Bool
given_or none old = old
given_or (some new) old = new

abbrev pub tick : UpdateOrderChecklistDto → OrderChecklist → OrderChecklist
tick dto c = record {
  order_id = c.order_id;
  harvested = given_or dto.harvested c.harvested;
  sorted = given_or dto.sorted c.sorted;
  packaged = given_or dto.packaged c.packaged;
  ready_for_pickup = given_or dto.ready_for_pickup c.ready_for_pickup;
}

-- Every item of `CHECKLIST_ITEMS` is ticked.
abbrev pub is_complete : OrderChecklist → Bool
is_complete c = c.harvested && (c.sorted && (c.packaged && c.ready_for_pickup))

-- `findChecklist`.
unfoldable pub find_checklist : User → ℕ → Db → Result OrderChecklist
find_checklist user id db = elim (find_one user id db) [
  | err Failure.order_not_found ↦ err Failure.checklist_not_found
  | err e ↦ err e
  | ok order ↦ elim (find id db.checklists) [
    | none ↦ err Failure.checklist_not_found
    | some checklist ↦ ok checklist
  ]
]

-- `orderChecklist.update`, guarded on the order's status.
unfoldable pub update_checklist_tx : ℕ → User → UpdateOrderChecklistDto → Order → Tx OrderChecklist
update_checklist_tx now user dto order = do
  current ← or_throw Failure.record_not_found (← gets λ db. find order.id db.orders)
  throw_if (if is_preparing current.status then false else true) Failure.record_not_found
  checklist ← or_throw Failure.record_not_found (← gets λ db. find order.id db.checklists)
  modify_db (λ db. record db { checklists = modify order.id (tick dto) db.checklists })
  record_farmer_order now user order (order_title order " checklist updated") none none false
  pure (tick dto checklist)

unfoldable pub update_checklist :
    ℕ → User → ℕ → UpdateOrderChecklistDto → Db → Db → Result OrderChecklist × Db
update_checklist now user id dto seen =
    guarded (find_one user id seen) (λ o. unless (is_preparing o.status) Failure.order_wrong_status)
      (update_checklist_tx now user dto)

-- The WHERE of the ready update: the status, and the complete checklist.
unfoldable pub can_be_ready : Order → Db → Bool
can_be_ready order db = elim (find order.id db.checklists) [
  | none ↦ false
  | some checklist ↦ is_complete checklist
]

abbrev pub new_handover : ℕ → Option ℕ → OrderHandover
new_handover order_id agent_id = record {
  order_id = order_id;
  agent_id = agent_id;
  status = HandoverStatus.pending;
  verification_note = none;
  verified_at = none;
  recipient_name = none;
  recipient_phone = none;
  handover_note = none;
  handed_over_at = none;
}

unfoldable pub mark_ready_tx : ℕ → User → Order → Tx Order
unfolding update_order
mark_ready_tx now user order = do
  farm ← or_throw Failure.record_not_found (← gets λ db. find order.farm_id db.farms)
  complete ← gets (can_be_ready order)
  throw_if (if complete then false else true) Failure.record_not_found
  ready ← update_order order.id is_preparing (set_status OrderStatus.ready)
  modify_db
      λ db. record db { handovers = new_handover order.id farm.cluster_agent_id ∷ db.handovers }
  record_farmer_order now user order (order_title order " marked ready") none (some farm) true
  pure ready

-- What `markReady` checks on its reads before the transaction.
unfoldable pub ready_refusal : User → Db → Order → Option Failure
ready_refusal user seen order =
    if is_preparing order.status
    then elim (find_checklist user order.id seen) [
      | err e ↦ some e
      | ok checklist ↦ unless (is_complete checklist) Failure.checklist_incomplete
    ]
    else some Failure.order_wrong_status

unfoldable pub mark_ready : ℕ → User → ℕ → Db → Db → Result Order × Db
mark_ready now user id seen =
    guarded (find_one user id seen) (ready_refusal user seen) (mark_ready_tx now user)
