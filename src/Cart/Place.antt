-- ===== src/Cart/Place.antt =====
-- src/cart/utils: why a cart line cannot be ordered, where and when it is delivered, and the
-- checkout that reserved lines are placed as. Dates are day numbers, so `addDays` is addition;
-- `today` is the calendar date in Lagos that the runtime gives.
use Prim.Native.String.{String}
use text.Mathlib.Text.{◌==◌ as str_eq}
use laicos_backend.Prelude.{
  ℕ, ◌+◌, ◌*◌, ◌&&◌, ◌||◌, not, Option, none, some, List, [], ◌∷◌, ltb, ◌==◌, if◌then◌else◌,
}
use laicos_backend.Prelude.Table.{find_first, sum_by}
use laicos_backend.Schema.{
  Db, Failure, Tx, ◌>>=◌, ◌>>◌, pure, gets, or_throw, modify_db, throw_if, Produce, Order,
  OrderStatus, Checkout, CheckoutStatus, CartItem, Address, DeliverySnapshot, is_published,
  produce_keyed,
}
use laicos_backend.Common.Money.{percent_of}
use laicos_backend.Order.Reservation.{OrderLine, farm_verified}

-- src/payment/checkout-config.ts.
pub record CheckoutConfig : Type 0 where
  pub delivery_fee : ℕ
  pub service_fee_percent : ℕ
  pub hold_minutes : ℕ
  pub delivery_min_days : ℕ
  pub delivery_max_days : ℕ

pub data CartItemIssue : Type 0 where
  unavailable insufficient_stock : CartItemIssue

-- `cartItemIssue`, on the line and the listing that it is joined with.
unfoldable pub cart_item_issue : Db → CartItem → Option Produce → Option CartItemIssue
cart_item_issue db item none = some CartItemIssue.unavailable
cart_item_issue db item (some produce) =
    if not (is_published produce.status) || not (farm_verified db produce)
    then some CartItemIssue.unavailable
    else if ltb produce.floating_quantity item.quantity
    then some CartItemIssue.insufficient_stock
    else none

pub record CheckoutDraft : Type 0 where
  pub buyer_id : ℕ
  pub idempotency_key : String
  pub lines : List OrderLine
  pub delivery : DeliverySnapshot
  pub expected_total : ℕ
  pub sourcing_request_id : Option ℕ

-- `findReplay`.
unfoldable pub find_replay : ℕ → String → Db → Option Checkout
find_replay buyer_id idempotency_key db =
    find_first (λ c. c.buyer_id == buyer_id && str_eq c.idempotency_key idempotency_key)
      db.checkouts

abbrev snapshot_address : Address → ℕ → DeliverySnapshot
snapshot_address address delivery_date = record {
  delivery_date = delivery_date;
  delivery_label = address.label;
  delivery_street = address.street;
  delivery_state = address.state;
  delivery_lga = address.lga;
  delivery_contact_name = address.contact_name;
  delivery_contact_phone = address.contact_phone;
}

-- `resolveDelivery`.
unfoldable pub resolve_delivery : ℕ → ℕ → ℕ → CheckoutConfig → ℕ → Tx DeliverySnapshot
resolve_delivery buyer_id address_id delivery_date config today = do
  address ←
      or_throw Failure.address_not_found
        (← gets λ db. find_first (λ a. a.id == address_id && a.buyer_id == buyer_id) db.addresses)
  throw_if
      (ltb delivery_date (today + config.delivery_min_days)
        || ltb (today + config.delivery_max_days) delivery_date)
      Failure.invalid_delivery_date
  pure (snapshot_address address delivery_date)

abbrev pub subtotal_of : List OrderLine → ℕ
subtotal_of lines = sum_by (λ line. line.total_price) lines

abbrev pub new_order : Db → ℕ → ℕ → ℕ → OrderLine → Order
new_order db id buyer_id checkout_id line = record {
  id = id;
  order_number = db.order_numbers id;
  produce_id = line.produce_id;
  farm_id = line.farm_id;
  buyer_id = buyer_id;
  quantity = line.quantity;
  total_price = line.total_price;
  status = OrderStatus.awaiting_payment;
  produce_name = line.produce_name;
  checkout_id = some checkout_id;
  cancellation_reason = none;
  fulfilled_at = none;
}

-- The nested `orders: { create: … }`: a row for each line, with fresh ids.
unfoldable pub create_orders : ℕ → ℕ → List OrderLine → Db → Db
create_orders buyer_id checkout_id [] db = db
create_orders buyer_id checkout_id (line ∷ lines) db =
    create_orders buyer_id checkout_id lines (record db {
      orders = new_order db db.next_id buyer_id checkout_id line ∷ db.orders;
      next_id = db.next_id + 1;
    })

abbrev pub service_fee_of : CheckoutConfig → List OrderLine → ℕ
service_fee_of config lines = percent_of (subtotal_of lines) config.service_fee_percent

abbrev pub total_of : CheckoutConfig → List OrderLine → ℕ
total_of config lines = subtotal_of lines + config.delivery_fee + service_fee_of config lines

abbrev pub new_checkout : ℕ → CheckoutDraft → CheckoutConfig → ℕ → Checkout
new_checkout id draft config now = record {
  id = id;
  buyer_id = draft.buyer_id;
  idempotency_key = draft.idempotency_key;
  status = CheckoutStatus.awaiting_payment;
  subtotal = subtotal_of draft.lines;
  delivery_fee = config.delivery_fee;
  service_fee = service_fee_of config draft.lines;
  total_price = total_of config draft.lines;
  expires_at = now + config.hold_minutes * 60000;
  paid_at = none;
  sourcing_request_id = draft.sourcing_request_id;
  delivery = draft.delivery;
}

abbrev pub put_checkout : Checkout → Db → Db
put_checkout c db = record db { checkouts = c ∷ db.checkouts; next_id = db.next_id + 1 }

-- `createCheckout`.
unfoldable pub create_checkout : CheckoutDraft → CheckoutConfig → ℕ → Tx Checkout
unfolding create_orders
create_checkout draft config now = do
  throw_if (not (total_of config draft.lines == draft.expected_total)) Failure.cart_price_changed
  id ← gets λ db. db.next_id
  modify_db (put_checkout (new_checkout id draft config now))
  modify_db (create_orders draft.buyer_id id draft.lines)
  pure (new_checkout id draft config now)
