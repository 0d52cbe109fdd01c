-- ===== src/Cart/BuyNow.antt =====
-- `create` of src/order/order.service.ts: a checkout of one line that leaves the cart alone, and
-- the stock invariant across it.
use Prim.Native.String.{String}
use mathlib.Core.Path.{subst}
use laicos_backend.Prelude.{
  ℕ, ◌≡◌, sym, refl, ap, inl, inr, Bool, true, Option, none, some, [], ◌∷◌, arith, Option-cases,
  if◌then◌else◌, false,
}
use laicos_backend.Schema.{
  Db, Result, ok, err, Tx, ◌>>=◌, User, Produce, Checkout, DeliverySnapshot,
}
use laicos_backend.Order.Reservation.{
  order_line, order_refusal, reserve_produce, try_reserve_produce,
}
use laicos_backend.Order.Service.Frames.{>>=-eq-ok}
use laicos_backend.Order.Stock.{IsStocked}
use laicos_backend.Order.Stock.Rows.{IsStocked-same}
use laicos_backend.Order.Stock.Moves.{try_reserve_produce-IsStocked}
use laicos_backend.Cart.Place.{
  CheckoutConfig, CheckoutDraft, find_replay, resolve_delivery, create_checkout,
}
use laicos_backend.Cart.Checkout.{as_buyer, buyer_id_of}
use laicos_backend.Cart.Stock.{create_checkout-IsStocked, reserved_line, resolve_delivery_reads}

pub record CreateOrderDto : Type 0 where
  pub produce_id : ℕ
  pub quantity : ℕ
  pub address_id : ℕ
  pub delivery_date : ℕ
  pub expected_total : ℕ

abbrev pub draft_of : ℕ → String → CreateOrderDto → DeliverySnapshot → Produce → CheckoutDraft
draft_of buyer_id idempotency_key dto delivery produce = record {
  buyer_id = buyer_id;
  idempotency_key = idempotency_key;
  lines = order_line produce dto.quantity ∷ [];
  delivery = delivery;
  expected_total = dto.expected_total;
  sourcing_request_id = none;
}

-- `buyNow` from the reservation on.
unfoldable pub buy_reserved :
    ℕ → CheckoutConfig → ℕ → String → CreateOrderDto → DeliverySnapshot → Tx Checkout
buy_reserved now config buyer_id idempotency_key dto delivery =
    reserve_produce dto.produce_id dto.quantity >>= λ produce.
    create_checkout (draft_of buyer_id idempotency_key dto delivery produce) config now

-- The transaction of `buyNow`.
unfoldable pub buy_now_tx : ℕ → ℕ → CheckoutConfig → ℕ → String → CreateOrderDto → Tx Checkout
buy_now_tx now today config buyer_id idempotency_key dto db =
    elim (find_replay buyer_id idempotency_key db) [
      | some checkout ↦ ok (checkout, db)
      | none ↦
          (resolve_delivery buyer_id dto.address_id dto.delivery_date config today
              >>= buy_reserved now config buyer_id idempotency_key dto)
            db
    ]

-- `create`.
unfoldable pub create :
    ℕ → ℕ → CheckoutConfig → User → String → CreateOrderDto → Db → Result Checkout × Db
create now today config user idempotency_key dto db =
    as_buyer (buyer_id_of user db)
      (λ buyer_id. buy_now_tx now today config buyer_id idempotency_key dto) db

pub reserve_produce_inv :
    (i quantity : ℕ) (db db' : Db) (p : Produce)
    → reserve_produce i quantity db ≡ ok (p, db')
    → (try_reserve_produce i quantity db ≡ ((some p, true), db'))
unfolding reserve_produce
reserve_produce_inv i quantity db db' p run = at (try_reserve_produce i quantity db) refl run
  where
    at :
        (t : (Option Produce × Bool) × Db)
        → try_reserve_produce i quantity db ≡ t
        → elim t.0.0 as (λ _. Result (Produce × Db)) [
          | none ↦ err (order_refusal t.1 none)
          | some q ↦ if t.0.1 then ok (q, t.1) else err (order_refusal t.1 (some q))
        ]
          ≡ ok (p, db')
        → try_reserve_produce i quantity db ≡ ((some p, true), db')
    at ((none, taken), db1) e h = absurd (ground (arith, h))
    at ((some q, false), db1) e h = absurd (ground (arith, h))
    at ((some q, true), db1) e h = cc

reserve_produce-IsStocked :
    (i quantity : ℕ) (db db' : Db) (p : Produce)
    → IsStocked [] db
    → reserve_produce i quantity db ≡ ok (p, db')
    → IsStocked ((p.id, quantity) ∷ []) db'
reserve_produce-IsStocked i quantity db db' p h run =
    let e = reserve_produce_inv i quantity db db' p run in
    let same : p.id ≡ i = reserved_line i quantity db p (ap (λ t. t.0.0) e) in
    let after = try_reserve_produce-IsStocked [] db i quantity h in
    subst (λ j. IsStocked ((j, quantity) ∷ []) db') (sym same)
      (subst (λ t. IsStocked (if t.0.1 then (i, quantity) ∷ [] else []) t.1) e after)

-- What an order under a new key has reserved and stored.
pub bought :
    (now today : ℕ) (config : CheckoutConfig) (buyer_id : ℕ) (key : String) (dto : CreateOrderDto)
    (db db' : Db) (c : Checkout)
    → find_replay buyer_id key db ≡ none
    → buy_now_tx now today config buyer_id key dto db ≡ ok (c, db')
    → (delivery : DeliverySnapshot) × ((produce : Produce) × ((mid : Db) × (reserve_produce
              dto.produce_id dto.quantity db
            ≡ ok (produce, mid))
          × (create_checkout (draft_of buyer_id key dto delivery produce) config now mid
              ≡ ok (c, db'))))
unfolding buy_now_tx buy_reserved
bought now today config buyer_id key dto db db' c fresh run =
    let fresh_run : (resolve_delivery buyer_id dto.address_id dto.delivery_date config today
            >>= buy_reserved now config buyer_id key dto)
          db
        ≡ ok (c, db') =
      ground (arith, fresh) in
    let (delivery, (db1, resolved, rest)) =
      >>=-eq-ok (resolve_delivery buyer_id dto.address_id dto.delivery_date config today)
        (buy_reserved now config buyer_id key dto) db fresh_run in
    let read : db1 ≡ db =
      resolve_delivery_reads buyer_id dto.address_id dto.delivery_date config today db db1 delivery
        resolved in
    let (produce, (mid, reserved, created)) =
      >>=-eq-ok (reserve_produce dto.produce_id dto.quantity)
        (λ p. create_checkout (draft_of buyer_id key dto delivery p) config now) db1 rest in
    let reserved' =
      subst (λ d. reserve_produce dto.produce_id dto.quantity d ≡ ok (produce, mid)) read
        reserved in
    (delivery, (produce, (mid, reserved', created)))

pub buy_now_tx-IsStocked :
    (now today : ℕ) (config : CheckoutConfig) (buyer_id : ℕ) (key : String) (dto : CreateOrderDto)
    (db db' : Db) (c : Checkout)
    → IsStocked [] db
    → buy_now_tx now today config buyer_id key dto db ≡ ok (c, db')
    → IsStocked [] db'
unfolding buy_now_tx
buy_now_tx-IsStocked now today config buyer_id key dto db db' c h run =
    elim (Option-cases (find_replay buyer_id key db)) [
      | inr (old, replayed) ↦ IsStocked-same [] db db' (ground arith) (ground arith) h
      | inl fresh ↦
          let (delivery, (produce, (mid, reserved, created))) =
            bought now today config buyer_id key dto db db' c fresh run in
          create_checkout-IsStocked (draft_of buyer_id key dto delivery produce) config now mid db'
            c (reserve_produce-IsStocked dto.produce_id dto.quantity db mid produce h reserved)
            created
    ]
