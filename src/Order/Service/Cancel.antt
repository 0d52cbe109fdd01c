-- ===== src/Order/Service/Cancel.antt =====
-- src/order/order.service.ts: cancelling and removing an order.
use Prim.Native.String.{String}
use laicos_backend.Prelude.{
  ℕ, Bool, true, false, ◌&&◌, Option, none, some, is_some, ◌==◌, if◌then◌else◌,
}
use laicos_backend.Prelude.Table.{find, delete}
use laicos_backend.Schema.{
  Db, Result, ok, err, Failure, Tx, ◌>>=◌, ◌>>◌, pure, User, Role, Order, OrderStatus,
  is_awaiting_payment, is_pending, order_keyed,
}
use laicos_backend.Order.Reservation.{release_stock}
use laicos_backend.Order.Service.{
  find_one, require_buyer, update_order, record_farmer_order, guarded, unless, order_title,
}

-- `SELLER_CANCELLABLE.includes(status)`.
abbrev pub is_seller_cancellable : OrderStatus → Bool
is_seller_cancellable OrderStatus.pending = true
is_seller_cancellable OrderStatus.confirmed = true
is_seller_cancellable OrderStatus.preparing = true
is_seller_cancellable _ = false

-- `isSeller`.
abbrev pub is_seller : Role → Bool
is_seller Role.farmer = true
is_seller Role.admin = true
is_seller _ = false

abbrev pub is_cancellable : Role → OrderStatus → Bool
is_cancellable role status =
    if is_seller role then is_seller_cancellable status else is_pending status

unfoldable pub cancel_refusal : User → Order → Option Failure
cancel_refusal user order =
    if is_awaiting_payment order.status
    then some Failure.order_in_checkout
    else unless (is_cancellable user.role order.status) Failure.order_wrong_status

abbrev pub cancel_with : String → Order → Order
cancel_with reason o = record o {
  status = OrderStatus.cancelled;
  cancellation_reason = some reason;
}

-- `status: order.status` in a WHERE.
abbrev pub same_status : OrderStatus → OrderStatus → Bool
same_status OrderStatus.awaiting_payment OrderStatus.awaiting_payment = true
same_status OrderStatus.pending OrderStatus.pending = true
same_status OrderStatus.confirmed OrderStatus.confirmed = true
same_status OrderStatus.preparing OrderStatus.preparing = true
same_status OrderStatus.ready OrderStatus.ready = true
same_status OrderStatus.shipped OrderStatus.shipped = true
same_status OrderStatus.fulfilled OrderStatus.fulfilled = true
same_status OrderStatus.cancelled OrderStatus.cancelled = true
same_status _ _ = false

unfoldable pub cancel_tx : ℕ → User → String → Order → Tx Order
unfolding update_order
cancel_tx now user reason order = do
  cancelled ← update_order order.id (same_status order.status) (cancel_with reason)
  release_stock order
  record_farmer_order now user order (order_title order " cancelled") (some reason) none true
  pure cancelled

unfoldable pub cancel : ℕ → User → ℕ → String → Db → Db → Result Order × Db
cancel now user id reason seen =
    guarded (find_one user id seen) (cancel_refusal user) (cancel_tx now user reason)

-- `order.delete` with the status in its WHERE.
unfoldable pub delete_order : ℕ → Tx Order
delete_order id db = elim (find id db.orders) [
  | none ↦ err Failure.record_not_found
  | some o ↦
      if is_pending o.status
      then ok (o, record db { orders = delete id db.orders })
      else err Failure.record_not_found
]

unfoldable pub remove_refusal : User → Db → Order → Option Failure
remove_refusal user seen order =
    if is_awaiting_payment order.status
    then some Failure.order_in_checkout
    else if is_some order.checkout_id
    then some Failure.order_paid
    else elim (require_buyer user seen) [
      | err e ↦ some e
      | ok buyer ↦
          unless (order.buyer_id == buyer.id && is_pending order.status) Failure.order_wrong_status
    ]

unfoldable pub remove_tx : Order → Tx Order
unfolding delete_order
remove_tx order = do deleted ← delete_order order.id; release_stock order; pure deleted

unfoldable pub remove : User → ℕ → Db → Db → Result Order × Db
remove user id seen = guarded (find_one user id seen) (remove_refusal user seen) remove_tx
