-- ===== src/System/Run.antt =====
-- Requests one after the other: buyers at their carts and checkouts, admins at sourcing requests,
-- farmers at their orders, and the payment provider's webhook. Each request reads and writes the
-- database that the one before it left; one that fails leaves it as it was.
use Prim.Native.String.{String}
use laicos_backend.Prelude.{ℕ, ◌≡◌, ap, Option, List, [], ◌∷◌, arith}
use laicos_backend.Schema.{Db, ok, User, Order, OrderChecklist, order_keyed, produce_keyed}
use laicos_backend.Order.Stock.{IsStocked}
use laicos_backend.Order.Stock.Rows.{KeepsOrders}
use laicos_backend.Order.Stock.Methods.{OrderCall, after_call, after_call-IsStocked}
use laicos_backend.Order.Reservation.{release_stock, sync_produce_status}
use laicos_backend.Order.Service
use laicos_backend.Order.Service.{find_one, confirm_tx, prepare_tx, record_farmer_order}
use laicos_backend.Order.Service.Ready.{UpdateOrderChecklistDto, mark_ready_tx, update_checklist_tx}
use laicos_backend.Order.Service.Cancel.{cancel_tx, remove_tx, delete_order}
use laicos_backend.Order.Service.Frames.{guarded_keeps}
use laicos_backend.Cart.Place.{CheckoutConfig}
use laicos_backend.Cart.Methods.{CheckoutCall, after_checkout_call, after_checkout_call-IsStocked}
use laicos_backend.Payment.Service.{VerifiedTransaction}
use laicos_backend.Payment.Refund.{RefundReply, apply_verified_charge}
use laicos_backend.SourcingRequest.Methods.{
  SourcingCall, after_sourcing_call, after_sourcing_call-IsStocked,
}
use laicos_backend.SourcingRequest.Live.{OneLive, OneLive-same}
use laicos_backend.SourcingRequest.OneLive.{
  after_checkout_call-OneLive, after_sourcing_call-OneLive,
}
use laicos_backend.System.Charged.{apply_verified_charge_keeps_shop}

KeepsOrders-refl : (db : Db) → KeepsOrders db db
KeepsOrders-refl db id o o' found again =
    let same : o' ≡ o = cc in (ap (λ r. r.produce_id) same, ap (λ r. r.quantity) same)

confirm_tx_checkouts :
    (now : ℕ) (user : User) (order o : Order) (db db' : Db)
    → confirm_tx now user order db ≡ ok (o, db')
    → db'.checkouts ≡ db.checkouts
unfolding confirm_tx record_farmer_order
confirm_tx_checkouts now user order o db db' run = ground arith

prepare_tx_checkouts :
    (now : ℕ) (user : User) (order o : Order) (db db' : Db)
    → prepare_tx now user order db ≡ ok (o, db')
    → db'.checkouts ≡ db.checkouts
unfolding prepare_tx record_farmer_order
prepare_tx_checkouts now user order o db db' run = ground arith

mark_ready_tx_checkouts :
    (now : ℕ) (user : User) (order o : Order) (db db' : Db)
    → mark_ready_tx now user order db ≡ ok (o, db')
    → db'.checkouts ≡ db.checkouts
unfolding mark_ready_tx record_farmer_order
mark_ready_tx_checkouts now user order o db db' run = ground arith

cancel_tx_checkouts :
    (now : ℕ) (user : User) (reason : String) (order o : Order) (db db' : Db)
    → cancel_tx now user reason order db ≡ ok (o, db')
    → db'.checkouts ≡ db.checkouts
unfolding cancel_tx record_farmer_order release_stock sync_produce_status
cancel_tx_checkouts now user reason order o db db' run = ground arith

remove_tx_checkouts :
    (order o : Order) (db db' : Db)
    → remove_tx order db ≡ ok (o, db')
    → db'.checkouts ≡ db.checkouts
unfolding remove_tx release_stock sync_produce_status
remove_tx_checkouts order o db db' run = ground arith

update_checklist_tx_checkouts :
    (now : ℕ) (user : User) (dto : UpdateOrderChecklistDto) (order : Order) (o : OrderChecklist)
    (db db' : Db)
    → update_checklist_tx now user dto order db ≡ ok (o, db')
    → db'.checkouts ≡ db.checkouts
unfolding update_checklist_tx record_farmer_order
update_checklist_tx_checkouts now user dto order o db db' run = ground arith

-- The order service's methods touch no checkout.
after_call-OneLive :
    (now : ℕ) (call : OrderCall) (seen db : Db) → OneLive db → OneLive (after_call now call seen db)
unfolding after_call Service.confirm Service.prepare Service.Ready.mark_ready Service.Cancel.cancel
    Service.Cancel.remove Service.Ready.update_checklist
after_call-OneLive now (OrderCall.confirm user id) seen db h =
    guarded_keeps OneLive (find_one user id seen) _ _ db h λ order a db' found allowed run.
      OneLive-same db db' (confirm_tx_checkouts now user order a db db' run) h
after_call-OneLive now (OrderCall.prepare user id) seen db h =
    guarded_keeps OneLive (find_one user id seen) _ _ db h λ order a db' found allowed run.
      OneLive-same db db' (prepare_tx_checkouts now user order a db db' run) h
after_call-OneLive now (OrderCall.mark_ready user id) seen db h =
    guarded_keeps OneLive (find_one user id seen) _ _ db h λ order a db' found allowed run.
      OneLive-same db db' (mark_ready_tx_checkouts now user order a db db' run) h
after_call-OneLive now (OrderCall.remove user id) seen db h =
    guarded_keeps OneLive (find_one user id seen) _ _ db h λ order a db' found allowed run.
      OneLive-same db db' (remove_tx_checkouts order a db db' run) h
after_call-OneLive now (OrderCall.cancel user id reason) seen db h =
    guarded_keeps OneLive (find_one user id seen) _ _ db h λ order a db' found allowed run.
      OneLive-same db db' (cancel_tx_checkouts now user reason order a db db' run) h
after_call-OneLive now (OrderCall.update_checklist user id dto) seen db h =
    guarded_keeps OneLive (find_one user id seen) _ _ db h λ order a db' found allowed run.
      OneLive-same db db' (update_checklist_tx_checkouts now user dto order a db db' run) h

pub data Request : Type 0 where
  at_checkout : CheckoutCall → Request
  at_sourcing : SourcingCall → Request
  at_order : OrderCall → Request
  charge : VerifiedTransaction → Option ℕ → RefundReply → Request

-- A request, with when it is made.
pub record Event : Type 0 where
  pub now : ℕ
  pub today : ℕ
  pub request : Request

module _ (show : ℕ → String) (config : CheckoutConfig) where
  abbrev pub after_request : ℕ → ℕ → Request → Db → Db
  after_request now today (Request.at_checkout call) db =
      after_checkout_call now today config call db
  after_request now today (Request.at_sourcing call) db =
      after_sourcing_call show now today config call db
  after_request now today (Request.at_order call) db = after_call now call db db
  after_request now today (Request.charge v by reply) db =
      (apply_verified_charge now v by reply db).1

  unfoldable pub run : List Event → Db → Db
  run [] db = db
  run (e ∷ events) db = run events (after_request e.now e.today e.request db)

  after_request_keeps :
      (now today : ℕ) (request : Request) (db : Db)
      → IsStocked [] db × OneLive db
      → IsStocked [] (after_request now today request db)
        × OneLive (after_request now today request db)
  after_request_keeps now today (Request.at_checkout call) db (stocked, one) = (
    after_checkout_call-IsStocked now today config call db stocked,
    after_checkout_call-OneLive now today config call db one,
  )
  after_request_keeps now today (Request.at_sourcing call) db (stocked, one) = (
    after_sourcing_call-IsStocked show now today config call db stocked,
    after_sourcing_call-OneLive show now today config call db one,
  )
  after_request_keeps now today (Request.at_order call) db (stocked, one) = (
    after_call-IsStocked now call db db (KeepsOrders-refl db) stocked,
    after_call-OneLive now call db db one,
  )
  after_request_keeps now today (Request.charge v by reply) db h =
      apply_verified_charge_keeps_shop now v by reply db h

-- Any sequence of requests - placing, buying now, cancelling and expiring checkouts, every call
-- about sourcing requests, every writing method of the order service, and verified charges with
-- whatever Paystack answers - keeps two invariants of the whole database: on each listing the
-- actual stock is the floating stock and what unpaid and unconfirmed orders hold, with a status
-- that says whether there is stock; and each sourcing request has at most one checkout that awaits
-- payment or is paid.
pub run_keeps :
    (show : ℕ → String) (config : CheckoutConfig) (events : List Event) (db : Db)
    → IsStocked [] db
    → OneLive db
    → IsStocked [] (run show config events db) × OneLive (run show config events db)
unfolding run
run_keeps show config [] db stocked one = (stocked, one)
run_keeps show config (e ∷ events) db stocked one =
    let (stocked', one') =
      after_request_keeps show config e.now e.today e.request db (stocked, one) in
    run_keeps show config events (after_request show config e.now e.today e.request db) stocked'
      one'
