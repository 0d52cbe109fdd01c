-- ===== src/Order/Stock/Methods.antt =====
-- The stock promise of `OrderService` (src/order/order.service.ts), method by method.
use Prim.Native.String.{String}
use laicos_backend.Prelude.{ℕ, ◌≡◌, none, some, [], arith, true}
use laicos_backend.Prelude.Table.{find}
use laicos_backend.Schema.{Db, ok, User, Order, is_pending, order_keyed}
use laicos_backend.Order.Service
use laicos_backend.Order.Service.{find_one}
use laicos_backend.Order.Service.Ready.{UpdateOrderChecklistDto}
use laicos_backend.Order.Service.Cancel.{remove_refusal}
use laicos_backend.Order.Service.Frames.{guarded_keeps}
use laicos_backend.Order.Stock.{IsStocked}
use laicos_backend.Order.Stock.Rows.{KeepsOrders, find_one_inv}
use laicos_backend.Order.Stock.Confirm.{confirm_tx-IsStocked}
use laicos_backend.Order.Stock.Cancel.{cancel_tx-IsStocked, remove_tx-IsStocked}
use laicos_backend.Order.Stock.Progress.{
  prepare_tx-IsStocked, update_checklist_tx-IsStocked, mark_ready_tx-IsStocked,
}

-- The methods of `OrderService` that write, with their arguments.
pub data OrderCall : Type 0 where
  confirm prepare mark_ready remove : User → ℕ → OrderCall
  cancel : User → ℕ → String → OrderCall
  update_checklist : User → ℕ → UpdateOrderChecklistDto → OrderCall

-- What the database holds after a call at `now` that read `seen` and ran its transaction on `db`.
unfoldable pub after_call : ℕ → OrderCall → Db → Db → Db
after_call now (OrderCall.confirm user id) seen db = (Service.confirm now user id seen db).1
after_call now (OrderCall.prepare user id) seen db = (Service.prepare now user id seen db).1
after_call now (OrderCall.mark_ready user id) seen db =
    (Service.Ready.mark_ready now user id seen db).1
after_call now (OrderCall.remove user id) seen db = (Service.Cancel.remove user id seen db).1
after_call now (OrderCall.cancel user id reason) seen db =
    (Service.Cancel.cancel now user id reason seen db).1
after_call now (OrderCall.update_checklist user id dto) seen db =
    (Service.Ready.update_checklist now user id dto seen db).1

agrees_with :
    (user : User) (id : ℕ) (seen db : Db) (order : Order)
    → KeepsOrders seen db
    → find_one user id seen ≡ ok order
    → (o : Order) → find order.id db.orders ≡ some o
    → (o.produce_id ≡ order.produce_id) × (o.quantity ≡ order.quantity)
agrees_with user id seen db order keeps found o e =
    keeps order.id order o (find_one_inv user id seen order found) e

remove_was_pending :
    (user : User) (seen : Db) (order : Order)
    → remove_refusal user seen order ≡ none
    → is_pending order.status ≡ true
unfolding remove_refusal
remove_was_pending user seen order h = ground arith

-- If the order rows have kept their produce and quantity since they were read, every writing
-- method of the order service, on every branch, keeps the stock invariant: on each listing the
-- actual stock is the floating stock and what unpaid and unconfirmed orders hold, and the
-- listing's status says whether there is stock.
pub after_call-IsStocked :
    (now : ℕ) (call : OrderCall) (seen db : Db)
    → KeepsOrders seen db
    → IsStocked [] db
    → IsStocked [] (after_call now call seen db)
unfolding after_call Service.confirm Service.prepare Service.Ready.mark_ready Service.Cancel.cancel
    Service.Cancel.remove Service.Ready.update_checklist
after_call-IsStocked now (OrderCall.confirm user id) seen db keeps h =
    guarded_keeps (IsStocked []) (find_one user id seen) _ _ db h λ order a db' found allowed run.
      confirm_tx-IsStocked now user order db db' a h (agrees_with user id seen db order keeps found)
        run
after_call-IsStocked now (OrderCall.prepare user id) seen db keeps h =
    guarded_keeps (IsStocked []) (find_one user id seen) _ _ db h
      λ order a db' found allowed run. prepare_tx-IsStocked now user order db db' a h run
after_call-IsStocked now (OrderCall.mark_ready user id) seen db keeps h =
    guarded_keeps (IsStocked []) (find_one user id seen) _ _ db h
      λ order a db' found allowed run. mark_ready_tx-IsStocked now user order db db' a h run
after_call-IsStocked now (OrderCall.remove user id) seen db keeps h =
    guarded_keeps (IsStocked []) (find_one user id seen) _ _ db h λ order a db' found allowed run.
      remove_tx-IsStocked order db db' a h (remove_was_pending user seen order allowed)
        (agrees_with user id seen db order keeps found) run
after_call-IsStocked now (OrderCall.cancel user id reason) seen db keeps h =
    guarded_keeps (IsStocked []) (find_one user id seen) _ _ db h λ order a db' found allowed run.
      cancel_tx-IsStocked now user reason order db db' a h
        (agrees_with user id seen db order keeps found) run
after_call-IsStocked now (OrderCall.update_checklist user id dto) seen db keeps h =
    guarded_keeps (IsStocked []) (find_one user id seen) _ _ db h λ order a db' found allowed run.
      update_checklist_tx-IsStocked now user dto order db db' a h run
