-- ===== src/Cart/Checkout.antt =====
-- src/cart/checkout.service.ts, and the release of an unpaid checkout
-- (src/payment/utils/release-checkout.ts).
use Prim.Native.String.{String}
use laicos_backend.Prelude.{
  ℕ, Bool, true, false, ◌&&◌, not, Option, none, some, List, [], ◌∷◌, is_some, same_id, ◌==◌,
  if◌then◌else◌,
}
use laicos_backend.Prelude.Table.{find, find_first, find_many, any, update_many, modify, sort_by}
use laicos_backend.Schema.{
  Db, Result, ok, err, Failure, Tx, ◌>>=◌, ◌>>◌, pure, gets, or_throw, modify_db, throw_if,
  transaction, record_audit, User, AuditEvent, AuditActorType, AuditCategory, AuditResource, Order,
  OrderStatus, Checkout, CheckoutStatus, CartItem, Payment, PaymentStatus, is_awaiting_payment,
  is_unpaid, is_payment_pending, DeliverySnapshot, produce_keyed, checkout_keyed,
}
use laicos_backend.Order.Reservation.{OrderLine, order_line, try_reserve_produce, release_stock}
use laicos_backend.Order.Service.{require_buyer, sync_linked}
use laicos_backend.Cart.Place.{
  CheckoutConfig, CheckoutDraft, cart_item_issue, find_replay, resolve_delivery, create_checkout,
}

pub record CreateCheckoutDto : Type 0 where
  pub address_id : ℕ
  pub delivery_date : ℕ
  pub expected_total : ℕ

-- The buyer's lines, in produce order.
abbrev pub cart_of : ℕ → Db → List CartItem
cart_of buyer_id db =
    sort_by (λ item. item.produce_id) (find_many (λ item. item.buyer_id == buyer_id) db.cart_items)

abbrev pub has_issue : Db → CartItem → Bool
has_issue db item = is_some (cart_item_issue db item (find item.produce_id db.produces))

abbrev pub is_empty_cart : List CartItem → Bool
is_empty_cart [] = true
is_empty_cart (_ ∷ _) = false

-- The reservation loop of `placeOrders`.
unfoldable pub reserve_lines : List CartItem → Tx (List OrderLine)
reserve_lines [] db = ok ([], db)
reserve_lines (item ∷ items) db =
    let ((found, reserved), db') = try_reserve_produce item.produce_id item.quantity db in
    let rest = reserve_lines items db' in
    elim found [
      | none ↦ err Failure.cart_needs_attention
      | some produce ↦
          if reserved
          then elim rest [
            | ok (lines, db'') ↦ ok (order_line produce item.quantity ∷ lines, db'')
            | err e ↦ err e
          ]
          else err Failure.cart_needs_attention
    ]

abbrev pub clear_cart : ℕ → Db → Db
clear_cart buyer_id db = record db {
  cart_items = find_many (λ item. not (item.buyer_id == buyer_id)) db.cart_items;
}

abbrev pub draft_of :
    ℕ → String → CreateCheckoutDto → DeliverySnapshot → List OrderLine → CheckoutDraft
draft_of buyer_id idempotency_key dto delivery lines = record {
  buyer_id = buyer_id;
  idempotency_key = idempotency_key;
  lines = lines;
  delivery = delivery;
  expected_total = dto.expected_total;
  sourcing_request_id = none;
}

-- The end of `placeOrders`, with the lines reserved.
unfoldable pub place_lines : ℕ → CheckoutConfig → CheckoutDraft → Tx Checkout
place_lines now config draft = do
  checkout ← create_checkout draft config now
  modify_db (clear_cart draft.buyer_id)
  pure checkout

-- `placeOrders` from the reservation loop on.
unfoldable pub reserve_and_place :
    ℕ
    → CheckoutConfig
    → ℕ
    → String
    → CreateCheckoutDto
    → List CartItem
    → DeliverySnapshot
    → Tx Checkout
reserve_and_place now config buyer_id idempotency_key dto items delivery =
    reserve_lines items >>= λ lines.
    place_lines now config (draft_of buyer_id idempotency_key dto delivery lines)

-- The transaction of `placeOrders` after the replay check.
unfoldable pub place_new : ℕ → ℕ → CheckoutConfig → ℕ → String → CreateCheckoutDto → Tx Checkout
place_new now today config buyer_id idempotency_key dto = do
  items ← gets (cart_of buyer_id)
  throw_if (is_empty_cart items) Failure.cart_empty
  stuck ← gets λ db. any (has_issue db) items
  throw_if stuck Failure.cart_needs_attention
  delivery ← resolve_delivery buyer_id dto.address_id dto.delivery_date config today
  reserve_and_place now config buyer_id idempotency_key dto items delivery

-- `placeOrders`: a key that was used before replays its checkout.
unfoldable pub place_orders : ℕ → ℕ → CheckoutConfig → ℕ → String → CreateCheckoutDto → Tx Checkout
place_orders now today config buyer_id idempotency_key dto db =
    elim (find_replay buyer_id idempotency_key db) [
      | some checkout ↦ ok (checkout, db)
      | none ↦ place_new now today config buyer_id idempotency_key dto db
    ]

-- The release loop, in produce order.
unfoldable pub release_orders : List Order → Tx (Unit {0})
release_orders [] db = ok (tt, db)
release_orders (order ∷ orders) db = elim (release_stock order db) [
  | ok (_, db') ↦ release_orders orders db'
  | err e ↦ err e
]

-- `{ checkoutId, status: AWAITING_PAYMENT }`.
abbrev pub is_unpaid_order : ℕ → Order → Bool
is_unpaid_order checkout_id o = is_awaiting_payment o.status && same_id o.checkout_id checkout_id

abbrev pub cancel_unpaid : String → Order → Order
cancel_unpaid reason o = record o {
  status = OrderStatus.cancelled;
  cancellation_reason = some reason;
}

abbrev pub abandon : Payment → Payment
abandon p = record p { status = PaymentStatus.abandoned }

abbrev pub is_open_attempt : ℕ → Payment → Bool
is_open_attempt checkout_id p = p.checkout_id == checkout_id && is_payment_pending p.status

abbrev pub set_checkout_status : CheckoutStatus → Checkout → Checkout
set_checkout_status status c = record c { status = status }

-- `releaseCheckout`.
unfoldable pub release_checkout : ℕ → CheckoutStatus → String → Tx Checkout
release_checkout checkout_id status reason = do
  orders ←
      gets λ db. sort_by (λ o. o.produce_id) (find_many (is_unpaid_order checkout_id) db.orders)
  release_orders orders
  modify_db (λ db. record db {
    orders = update_many (is_unpaid_order checkout_id) (cancel_unpaid reason) db.orders;
    payments = update_many (is_open_attempt checkout_id) abandon db.payments;
  })
  checkout ← or_throw Failure.record_not_found (← gets λ db. find checkout_id db.checkouts)
  modify_db
      λ db. record db { checkouts = modify checkout_id (set_checkout_status status) db.checkouts }
  pure (set_checkout_status status checkout)

-- The audit event of a change to a request's checkout.
abbrev pub request_event : AuditActorType → String → String → ℕ → AuditEvent
request_event actor title summary request_id = record {
  actor_type = actor;
  farmer_id = none;
  agent_id = none;
  farm_id = none;
  category = AuditCategory.order;
  title = title;
  summary = summary;
  action_label = some "View request";
  resource = some AuditResource.sourcing_request;
  resource_id = some request_id;
  sourcing_request_id = some request_id;
}

-- `syncSourcingRequest` and `recordLinkedAudit`, when the checkout has a request.
abbrev pub record_request : ℕ → AuditActorType → String → String → Option ℕ → Db → Db
record_request now actor title summary none db = db
record_request now actor title summary (some request_id) db =
    record_audit (request_event actor title summary request_id)
      (sync_linked now (some request_id) db)

-- The transaction of `release`, behind `cancel`.
unfoldable pub cancel_tx : ℕ → ℕ → ℕ → Tx Checkout
cancel_tx now buyer_id id = do
  checkout ←
      or_throw Failure.checkout_not_found
        (← gets λ db. find_first (λ c. c.id == id && c.buyer_id == buyer_id) db.checkouts)
  throw_if (not (is_unpaid checkout.status)) Failure.checkout_not_cancellable
  released ← release_checkout id CheckoutStatus.cancelled "Cancelled by buyer"
  modify_db (
      record_request now AuditActorType.buyer "Checkout cancelled" "Cancelled by buyer"
        checkout.sourcing_request_id)
  pure released

abbrev pub as_buyer : {A : Type 0} → Result ℕ → (ℕ → Tx A) → Db → Result A × Db
as_buyer (err e) body db = (err e, db)
as_buyer (ok buyer_id) body db = transaction (body buyer_id) db

abbrev pub buyer_id_of : User → Db → Result ℕ
buyer_id_of user db = elim (require_buyer user db) [ ok buyer ↦ ok buyer.id | err e ↦ err e ]

-- `checkout`.
unfoldable pub checkout :
    ℕ → ℕ → CheckoutConfig → User → String → CreateCheckoutDto → Db → Result Checkout × Db
checkout now today config user idempotency_key dto db =
    as_buyer (buyer_id_of user db)
      (λ buyer_id. place_orders now today config buyer_id idempotency_key dto) db

-- `cancel`.
unfoldable pub cancel : ℕ → User → ℕ → Db → Result Checkout × Db
cancel now user id db = as_buyer (buyer_id_of user db) (λ buyer_id. cancel_tx now buyer_id id) db
