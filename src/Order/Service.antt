-- ===== src/Order/Service.antt =====
-- src/order/order.service.ts: reads of an order, and the transactions of its life. What a method
-- reads before its transaction it reads from `seen`; the transaction runs on `db`, which other
-- requests may have changed since.
pub mod Frames
pub mod Ready
pub mod Cancel
use Prim.Native.String.{String, ◌++◌}
use laicos_backend.Prelude.{
  ℕ, ◌+◌, ◌-◌, Bool, true, false, ◌&&◌, ◌||◌, not, Option, none, some, List, ◌∷◌, leb, is_some,
  ◌==◌, if◌then◌else◌,
}
use laicos_backend.Prelude.Table.{find, find_first, modify, delete}
use laicos_backend.Schema.{
  Db, Result, ok, err, Failure, Tx, ◌>>=◌, ◌>>◌, pure, throw, gets, or_throw, modify_db, throw_if,
  transaction, map_error, record_audit, put_produce, User, Buyer, Role, Farm, Produce, Order,
  OrderStatus, OrderChecklist, OrderHandover, HandoverStatus, AuditActorType, AuditCategory,
  AuditResource, AuditEvent, is_awaiting_payment, is_pending, is_confirmed, is_preparing,
  order_keyed, farm_keyed, produce_keyed, checklist_keyed,
}
use laicos_backend.Produce.{derive_produce_status}
use laicos_backend.SourcingRequest.Sync.{sync_sourcing_request, sourcing_request_id_for_order}
use laicos_backend.Order.Reservation.{release_stock}

-- `requireBuyer` (src/buyer/utils/require-buyer.ts).
unfoldable pub require_buyer : User → Db → Result Buyer
require_buyer user db = elim (find_first (λ b. b.user_id == user.id) db.buyers) [
  | none ↦ err Failure.buyer_not_found
  | some buyer ↦ ok buyer
]

abbrev pub farm_owned_by : User → Db → ℕ → Bool
farm_owned_by user db farm_id = elim (find farm_id db.farms) [
  | none ↦ false
  | some farm ↦ farm.owner_user_id == user.id
]

abbrev in_role : Role → User → Db → Order → Result Bool
in_role Role.admin user db order = ok true
in_role Role.farmer user db order =
    ok (farm_owned_by user db order.farm_id && not (is_awaiting_payment order.status))
in_role _ user db order = elim (require_buyer user db) [
  | ok buyer ↦ ok (order.buyer_id == buyer.id)
  | err e ↦ err e
]

-- `scopedTo`, as a test on a row.
unfoldable pub scoped_to : User → Db → Order → Result Bool
scoped_to user db order = in_role user.role user db order

-- A caller with no profile is refused before the order is looked for.
abbrev has_scope : Role → User → Db → Result (Unit {0})
has_scope Role.admin user db = ok tt
has_scope Role.farmer user db = ok tt
has_scope _ user db = elim (require_buyer user db) [ ok buyer ↦ ok tt | err e ↦ err e ]

abbrev refuse_unless : Order → Result Bool → Result Order
refuse_unless order (ok true) = ok order
refuse_unless order (ok false) = err Failure.order_not_found
refuse_unless order (err e) = err e

-- `findOne`.
unfoldable pub find_one : User → ℕ → Db → Result Order
unfolding scoped_to
find_one user id db = elim (has_scope user.role user db) [
  | err e ↦ err e
  | ok _ ↦ elim (find id db.orders) [
    | none ↦ err Failure.order_not_found
    | some order ↦ refuse_unless order (scoped_to user db order)
  ]
]

-- `mapOrderRaceError`.
abbrev pub order_race_error : Failure → Failure
order_race_error Failure.record_not_found = Failure.order_changed
order_race_error e = e

-- `order.update` with the id and a test of the status in its WHERE.
unfoldable pub update_order : ℕ → (OrderStatus → Bool) → (Order → Order) → Tx Order
update_order id guard f db = elim (find id db.orders) [
  | none ↦ err Failure.record_not_found
  | some o ↦
      if guard o.status
      then ok (f o, record db { orders = modify id f db.orders })
      else err Failure.record_not_found
]

abbrev pub set_status : OrderStatus → Order → Order
set_status status o = record o { status = status }

abbrev or_else : Option String → String → String
or_else none text = text
or_else (some given) text = given

abbrev pub sync_linked : ℕ → Option ℕ → Db → Db
sync_linked now none db = db
sync_linked now (some id) db = sync_sourcing_request now id db

-- The audit events that `recordFarmerOrder` writes.
abbrev farmer_event : Order → String → Option String → Option ℕ → Farm → AuditEvent
farmer_event order title summary link farm = record {
  actor_type = AuditActorType.farmer;
  farmer_id = some farm.owner_id;
  agent_id = none;
  farm_id = some order.farm_id;
  category = AuditCategory.order;
  title = title;
  summary = or_else summary farm.farm_code;
  action_label = some "View order";
  resource = some AuditResource.order;
  resource_id = some order.id;
  sourcing_request_id = link;
}

abbrev linked_event : AuditActorType → Order → String → Option String → ℕ → AuditEvent
linked_event actor order title summary link = record {
  actor_type = actor;
  farmer_id = none;
  agent_id = none;
  farm_id = some order.farm_id;
  category = AuditCategory.order;
  title = title;
  summary = or_else summary order.order_number;
  action_label = some "View order";
  resource = some AuditResource.order;
  resource_id = some order.id;
  sourcing_request_id = some link;
}

abbrev audit_linked : Role → Order → String → Option String → Option ℕ → Db → Db
audit_linked Role.admin order title summary (some link) db =
    record_audit (linked_event AuditActorType.admin order title summary link) db
audit_linked Role.buyer order title summary (some link) db =
    record_audit (linked_event AuditActorType.buyer order title summary link) db
audit_linked _ order title summary link db = db

abbrev audit_order : Role → Order → String → Option String → Option Farm → Option ℕ → Tx (Unit {0})
audit_order Role.farmer order title summary (some farm) link =
    modify_db (record_audit (farmer_event order title summary link farm))
audit_order Role.farmer order title summary none link = do
  farm ← or_throw Failure.record_not_found (← gets λ db. find order.farm_id db.farms)
  modify_db (record_audit (farmer_event order title summary link farm))
audit_order role order title summary farm link =
    modify_db (audit_linked role order title summary link)

-- `recordFarmerOrder`.
unfoldable pub record_farmer_order :
    ℕ → User → Order → String → Option String → Option Farm → Bool → Tx (Unit {0})
record_farmer_order now user order title summary farm link_sourcing = do
  link ← gets λ db. if link_sourcing then sourcing_request_id_for_order order.id db else none
  audit_order user.role order title summary farm link
  modify_db (sync_linked now link)

abbrev pub order_title : Order → String → String
order_title order done = "Order " ++ (order.order_number ++ done)

-- A method that reads the order, refuses a wrong status, and runs its transaction.
abbrev pub guarded :
    {A : Type 0} → Result Order → (Order → Option Failure) → (Order → Tx A) → Db → Result A × Db
guarded (err e) refusal body db = (err e, db)
guarded (ok order) refusal body db = elim (refusal order) [
  | some e ↦ (err e, db)
  | none ↦ map_error order_race_error (transaction (body order) db)
]

abbrev pub unless : Bool → Failure → Option Failure
unless true e = none
unless false e = some e

-- The transaction of `confirm`. The produce row it writes takes its status from the row read.
unfoldable pub confirm_tx : ℕ → User → Order → Tx Order
unfolding update_order
confirm_tx now user order = do
  confirmed ← update_order order.id is_pending (set_status OrderStatus.confirmed)
  produce ← or_throw Failure.record_not_found (← gets λ db. find order.produce_id db.produces)
  throw_if (not (leb (produce.floating_quantity + order.quantity) produce.actual_quantity))
      Failure.check_violation
  modify_db (
      put_produce produce.id λ p. record p {
        actual_quantity = p.actual_quantity - order.quantity;
        status =
            derive_produce_status produce.status (produce.actual_quantity - order.quantity)
              produce.floating_quantity;
      })
  record_farmer_order now user order (order_title order " confirmed") none none true
  pure confirmed

unfoldable pub confirm : ℕ → User → ℕ → Db → Db → Result Order × Db
confirm now user id seen =
    guarded (find_one user id seen) (λ o. unless (is_pending o.status) Failure.order_wrong_status)
      (confirm_tx now user)

abbrev pub new_checklist : ℕ → OrderChecklist
new_checklist order_id = record {
  order_id = order_id;
  harvested = false;
  sorted = false;
  packaged = false;
  ready_for_pickup = false;
}

unfoldable pub prepare_tx : ℕ → User → Order → Tx Order
unfolding update_order
prepare_tx now user order = do
  preparing ← update_order order.id is_confirmed (set_status OrderStatus.preparing)
  modify_db (λ db. record db { checklists = new_checklist order.id ∷ db.checklists })
  record_farmer_order now user order (order_title order " prepared") none none true
  pure preparing

unfoldable pub prepare : ℕ → User → ℕ → Db → Db → Result Order × Db
prepare now user id seen =
    guarded (find_one user id seen) (λ o. unless (is_confirmed o.status) Failure.order_wrong_status)
      (prepare_tx now user)
