-- ===== src/Cart/Methods.antt =====
-- What `CheckoutService` (src/cart/checkout.service.ts) and the expiry sweep promise.
use Prim.Native.String.{String}
use text.Mathlib.TextPositions.{eq_refl}
use laicos_backend.Prelude.{
  ℕ, ◌+◌, ◌*◌, ◌≡◌, refl, ap, ◌∙◌, inl, inr, not, none, some, List, [], ◌∷◌, ◌==◌, arith,
  Option-cases, ==_refl,
}
use laicos_backend.Prelude.Table.{find_many}
use laicos_backend.Schema.{
  Db, Result, ok, err, Tx, User, Checkout, CartItem, CheckoutStatus, DeliverySnapshot,
}
use laicos_backend.Common.Money.{percent_of}
use laicos_backend.Order.Reservation.{OrderLine}
use laicos_backend.Order.Stock.{IsStocked}
use laicos_backend.Order.Service.Frames.{>>=-eq-ok}
use laicos_backend.Cart.Place.{
  CheckoutConfig, CheckoutDraft, find_replay, create_checkout, create_orders, new_checkout,
  put_checkout, total_of,
}
use laicos_backend.Cart.Checkout
use laicos_backend.Cart.Checkout.{
  CreateCheckoutDto, place_orders, place_new, place_lines, reserve_and_place, reserve_lines,
  draft_of, cart_of, cancel_tx, as_buyer, buyer_id_of,
}
use laicos_backend.Cart.Stock.{place_orders-IsStocked, place_new_inv}
use laicos_backend.Cart.Release.{KeepsRelease-IsStocked, cancel_tx_keeps, expire_each_keeps}
use laicos_backend.Cart.BuyNow
use laicos_backend.Cart.BuyNow.{CreateOrderDto, buy_now_tx-IsStocked}
use laicos_backend.Payment.Expiry
use laicos_backend.Payment.Expiry.{overdue}

-- What a buyer does to place or cancel a checkout, and the sweep.
pub data CheckoutCall : Type 0 where
  checkout : User → String → CreateCheckoutDto → CheckoutCall
  create : User → String → CreateOrderDto → CheckoutCall
  cancel : User → ℕ → CheckoutCall
  expire_overdue : CheckoutCall

unfoldable pub after_checkout_call : ℕ → ℕ → CheckoutConfig → CheckoutCall → Db → Db
after_checkout_call now today config (CheckoutCall.checkout user key dto) db =
    (Checkout.checkout now today config user key dto db).1
after_checkout_call now today config (CheckoutCall.create user key dto) db =
    (BuyNow.create now today config user key dto db).1
after_checkout_call now today config (CheckoutCall.cancel user id) db =
    (Checkout.cancel now user id db).1
after_checkout_call now today config CheckoutCall.expire_overdue db =
    (Expiry.expire_overdue now db).1

pub as_buyer_keeps :
    {A : Type 0} (P : Db → Type 0) (who : Result ℕ) (body : ℕ → Tx A) (db : Db)
    → P db
    → ((buyer_id : ℕ) (a : A) (db' : Db) → body buyer_id db ≡ ok (a, db') → P db')
    → P (as_buyer who body db).1
as_buyer_keeps P (err e) body db h keep = h
as_buyer_keeps {A} P (ok buyer_id) body db h keep = ran (body buyer_id db) refl
  where
    ran :
        (r : Result (A × Db))
        → body buyer_id db ≡ r
        → P (elim r as (λ _. Result A × Db) [ ok (a, db') ↦ (ok a, db') | err e ↦ (err e, db) ]).1
    ran (ok (a, db')) e = keep buyer_id a db' e
    ran (err x) e = h

-- Placing a checkout from the cart, Buy Now, cancelling a checkout and the expiry sweep keep the
-- stock invariant, on every branch: each listing's actual stock stays its floating stock and what
-- unpaid and unconfirmed orders hold, and its status says whether there is stock.
pub after_checkout_call-IsStocked :
    (now today : ℕ) (config : CheckoutConfig) (call : CheckoutCall) (db : Db)
    → IsStocked [] db
    → IsStocked [] (after_checkout_call now today config call db)
unfolding after_checkout_call BuyNow.create Checkout.checkout Checkout.cancel Expiry.expire_overdue
after_checkout_call-IsStocked now today config (CheckoutCall.checkout user key dto) db h =
    as_buyer_keeps (IsStocked []) (buyer_id_of user db) _ db h
      λ buyer_id c db' run. place_orders-IsStocked now today config buyer_id key dto db db' c h run
after_checkout_call-IsStocked now today config (CheckoutCall.create user key dto) db h =
    as_buyer_keeps (IsStocked []) (buyer_id_of user db) _ db h
      λ buyer_id c db' run. buy_now_tx-IsStocked now today config buyer_id key dto db db' c h run
after_checkout_call-IsStocked now today config (CheckoutCall.cancel user id) db h =
    as_buyer_keeps (IsStocked []) (buyer_id_of user db) _ db h λ buyer_id c db' run.
      cancel_tx_keeps (IsStocked []) KeepsRelease-IsStocked now buyer_id id db db' c h run
after_checkout_call-IsStocked now today config CheckoutCall.expire_overdue db h =
    expire_each_keeps (IsStocked []) KeepsRelease-IsStocked now (overdue now db) db h

pub checkouts-create_orders :
    (buyer_id checkout_id : ℕ) (lines : List OrderLine) (db : Db)
    → ((create_orders buyer_id checkout_id lines db).checkouts ≡ db.checkouts)
      × ((create_orders buyer_id checkout_id lines db).cart_items ≡ db.cart_items)
unfolding create_orders
checkouts-create_orders buyer_id checkout_id [] db = (refl, refl)
checkouts-create_orders buyer_id checkout_id (line ∷ lines) db =
    checkouts-create_orders buyer_id checkout_id lines _

-- What `createCheckout` stores once the price is as the buyer was shown it.
pub place_lines_inv :
    (now : ℕ) (config : CheckoutConfig) (draft : CheckoutDraft) (db db' : Db) (c : Checkout)
    → place_lines now config draft db ≡ ok (c, db')
    → (c ≡ new_checkout db.next_id draft config now)
      × (db'.checkouts ≡ c ∷ db.checkouts)
      × (total_of config draft.lines ≡ draft.expected_total)
      × (db'.cart_items ≡ find_many (λ item. not (item.buyer_id == draft.buyer_id)) db.cart_items)
unfolding place_lines create_checkout
place_lines_inv now config draft db db' c run =
    let (kept, cart) =
      checkouts-create_orders draft.buyer_id db.next_id draft.lines
        (put_checkout (new_checkout db.next_id draft config now) db) in
    (ground arith, ground (arith, kept), ground arith, ground (arith, cart))

-- A first placement ends by placing its reserved lines.
pub placed_lines :
    (now today : ℕ) (config : CheckoutConfig) (buyer_id : ℕ) (key : String)
    (dto : CreateCheckoutDto) (db db' : Db) (c : Checkout)
    → find_replay buyer_id key db ≡ none
    → place_orders now today config buyer_id key dto db ≡ ok (c, db')
    → (delivery : DeliverySnapshot) × ((lines : List OrderLine) × ((db1 : Db) × (reserve_lines
              (cart_of buyer_id db)
              db
            ≡ ok (lines, db1))
          × (place_lines now config (draft_of buyer_id key dto delivery lines) db1 ≡ ok (c, db'))))
unfolding place_orders reserve_and_place
placed_lines now today config buyer_id key dto db db' c fresh run =
    let (delivery, placed) =
      place_new_inv now today config buyer_id key dto db db' c (ground (arith, fresh)) in
    let (lines, (db1, reserved, rest)) =
      >>=-eq-ok (reserve_lines (cart_of buyer_id db))
        (λ lines. place_lines now config (draft_of buyer_id key dto delivery lines)) db placed in
    (delivery, (lines, (db1, reserved, rest)))

pub find_replay-cons :
    (buyer_id : ℕ) (key : String) (c : Checkout) (db : Db) (rest : List Checkout)
    → db.checkouts ≡ c ∷ rest
    → c.buyer_id ≡ buyer_id
    → c.idempotency_key ≡ key
    → find_replay buyer_id key db ≡ some c
unfolding find_replay
find_replay-cons buyer_id key c db rest e b k = rw (e, b, k, ==_refl buyer_id, eq_refl key)

-- After a checkout has been placed under a key, placing again under that key, at any time and with
-- any other request body, answers the same checkout and writes nothing.
pub place_orders_replay :
    (now today : ℕ) (config : CheckoutConfig) (buyer_id : ℕ) (key : String)
    (dto : CreateCheckoutDto) (db db' : Db) (c : Checkout)
    → place_orders now today config buyer_id key dto db ≡ ok (c, db')
    → (later later_day : ℕ) (config' : CheckoutConfig) (dto' : CreateCheckoutDto)
    → place_orders later later_day config' buyer_id key dto' db' ≡ ok (c, db')
unfolding place_orders
place_orders_replay now today config buyer_id key dto db db' c run later later_day config' dto' =
    elim (Option-cases (find_replay buyer_id key db)) [
      | inr (old, found) ↦ ground (arith, found)
      | inl fresh ↦
          let (delivery, (lines, (db1, reserved, placed))) =
            placed_lines now today config buyer_id key dto db db' c fresh run in
          let (made, stored, total, cart) =
            place_lines_inv now config (draft_of buyer_id key dto delivery lines) db1 db' c
              placed in
          let again : find_replay buyer_id key db' ≡ some c =
            find_replay-cons buyer_id key c db' db1.checkouts stored (ap (λ k. k.buyer_id) made)
              (ap (λ k. k.idempotency_key) made) in
          ground (arith, again)
    ]

-- A checkout placed under a key that is new costs what the buyer was shown, the sum of its parts,
-- with the service fee the configured percentage of the subtotal; it awaits payment for the hold
-- time and leaves the buyer's cart empty.
pub place_orders_price :
    (now today : ℕ) (config : CheckoutConfig) (buyer_id : ℕ) (key : String)
    (dto : CreateCheckoutDto) (db db' : Db) (c : Checkout)
    → find_replay buyer_id key db ≡ none
    → place_orders now today config buyer_id key dto db ≡ ok (c, db')
    → (c.total_price ≡ dto.expected_total)
      × (c.total_price ≡ c.subtotal + c.delivery_fee + c.service_fee)
      × (c.service_fee ≡ percent_of c.subtotal config.service_fee_percent)
      × (c.status ≡ CheckoutStatus.awaiting_payment)
      × (c.expires_at ≡ now + config.hold_minutes * 60000)
      × (find_many (λ item. item.buyer_id == buyer_id) db'.cart_items ≡ [])
place_orders_price now today config buyer_id key dto db db' c fresh run =
    let (delivery, (lines, (db1, reserved, placed))) =
      placed_lines now today config buyer_id key dto db db' c fresh run in
    let (made, stored, total, cart) =
      place_lines_inv now config (draft_of buyer_id key dto delivery lines) db1 db' c placed in
    (
      ap (λ k. k.total_price) made ∙ total,
      rw made (omega arith),
      rw made,
      ap (λ k. k.status) made,
      ap (λ k. k.expires_at) made,
      rw cart (emptied buyer_id db1.cart_items),
    )
  where
    emptied :
        (id : ℕ) (items : List CartItem)
        → find_many
            (λ item. item.buyer_id == id)
            (find_many (λ item. not (item.buyer_id == id)) items)
          ≡ []
    emptied id [] = refl
    emptied id (item ∷ items) = ground (arith, emptied id items)
