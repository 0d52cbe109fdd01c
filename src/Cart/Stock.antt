-- ===== src/Cart/Stock.antt =====
-- The stock invariant across placing a checkout (src/cart/checkout.service.ts and
-- src/cart/utils/place-checkout.ts).
use Prim.Native.String.{String}
use mathlib.Core.Path.{subst}
use laicos_backend.Prelude.{
  ℕ, ◌+◌, ◌≡◌, refl, sym, inl, inr, Bool, true, false, Option, none, some, List, [], ◌∷◌, arith,
  ◌==◌, if◌then◌else◌, Option-cases,
}
use laicos_backend.Prelude.Table.{find, sum_by, find-key}
use laicos_backend.Schema.{
  Db, Result, ok, err, ◌>>=◌, Failure, Produce, Checkout, CartItem, DeliverySnapshot, produce_keyed,
}
use laicos_backend.Order.Reservation.{OrderLine, order_line, try_reserve_produce}
use laicos_backend.Order.Stock.{Loose, loose_of, held, IsStocked}
use laicos_backend.Order.Stock.Moves.{try_reserve_produce-IsStocked}
use laicos_backend.Order.Stock.Rows.{IsStocked-same}
use laicos_backend.Cart.Place.{
  CheckoutConfig, CheckoutDraft, create_checkout, create_orders, new_order, resolve_delivery,
  find_replay, new_checkout, put_checkout,
}
use laicos_backend.Cart.Checkout.{
  CreateCheckoutDto, reserve_lines, place_lines, reserve_and_place, draft_of, cart_of, place_new,
  place_orders,
}
use laicos_backend.Order.Service.Frames.{>>=-eq-ok}

-- The units of the lines, over those that were loose before.
abbrev pub units : List OrderLine → Loose → Loose
units [] loose = loose
units (line ∷ lines) loose = units lines ((line.produce_id, line.quantity) ∷ loose)

abbrev pub units_of : ℕ → List OrderLine → ℕ
units_of j lines = sum_by (λ line. if line.produce_id == j then line.quantity else 0) lines

loose_of-units :
    (j : ℕ) (lines : List OrderLine) (loose : Loose)
    → loose_of j (units lines loose) ≡ units_of j lines + loose_of j loose
loose_of-units j [] loose = omega arith
loose_of-units j (line ∷ lines) loose =
    omega (arith, loose_of-units j lines ((line.produce_id, line.quantity) ∷ loose))

pub held-create_orders :
    (j buyer_id checkout_id : ℕ) (lines : List OrderLine) (db : Db)
    → held j (create_orders buyer_id checkout_id lines db).orders
      ≡ units_of j lines + held j db.orders
unfolding create_orders
held-create_orders j buyer_id checkout_id [] db = omega arith
held-create_orders j buyer_id checkout_id (line ∷ lines) db = ground (
  arith,
  held-create_orders j buyer_id checkout_id lines (record db {
    orders = new_order db db.next_id buyer_id checkout_id line ∷ db.orders;
    next_id = db.next_id + 1;
  }),
)

produces-create_orders :
    (buyer_id checkout_id : ℕ) (lines : List OrderLine) (db : Db)
    → (create_orders buyer_id checkout_id lines db).produces ≡ db.produces
unfolding create_orders
produces-create_orders buyer_id checkout_id [] db = refl
produces-create_orders buyer_id checkout_id (line ∷ lines) db =
    produces-create_orders buyer_id checkout_id lines _

-- The orders of the lines hold the lines' units.
create_orders-IsStocked :
    (buyer_id checkout_id : ℕ) (lines : List OrderLine) (loose : Loose) (db : Db)
    → IsStocked (units lines loose) db
    → IsStocked loose (create_orders buyer_id checkout_id lines db)
create_orders-IsStocked buyer_id checkout_id lines loose db h = record {
  balanced = λ j p e. omega (
    arith,
    h.balanced j p (rw (produces-create_orders buyer_id checkout_id lines db) at e),
    loose_of-units j lines loose,
    held-create_orders j buyer_id checkout_id lines db,
  );
  synced = λ j p e. h.synced j p (rw (produces-create_orders buyer_id checkout_id lines db) at e);
}

pub reserved_line :
    (i quantity : ℕ) (db : Db) (p : Produce)
    → (try_reserve_produce i quantity db).0.0 ≡ some p
    → p.id ≡ i
unfolding try_reserve_produce
reserved_line i quantity db p h = elim (Option-cases (find i db.produces)) [
  | inl missing ↦ ground arith
  | inr (q, found) ↦ ground (arith, find-key i db.produces q found)
]

-- What the reservation loop has done, by how it ended.
abbrev pub Reserves : Loose → Result (List OrderLine × Db) → Type 0
Reserves loose (ok (lines, db)) = IsStocked (units lines loose) db
Reserves loose (err _) = Unit {0}

-- The step of the loop at one item, from the attempt and the rest of the loop.
abbrev pub next_line :
    CartItem → Option Produce → Bool → Result (List OrderLine × Db) → Result (List OrderLine × Db)
next_line item none reserved rest = err Failure.cart_needs_attention
next_line item (some produce) false rest = err Failure.cart_needs_attention
next_line item (some produce) true (ok (lines, db)) =
    ok (order_line produce item.quantity ∷ lines, db)
next_line item (some produce) true (err e) = err e

pub reserve_lines-cons :
    (item : CartItem) (items : List CartItem) (db : Db)
    → let ((found, reserved), db') = try_reserve_produce item.produce_id item.quantity db in
      reserve_lines (item ∷ items) db ≡ next_line item found reserved (reserve_lines items db')
unfolding reserve_lines
reserve_lines-cons item items db = ground arith

next_line-Reserves :
    (item : CartItem) (loose : Loose) (found : Option Produce) (reserved : Bool)
    (rest : Result (List OrderLine × Db))
    → ((p : Produce) → found ≡ some p → p.id ≡ item.produce_id)
    → Reserves (if reserved then (item.produce_id, item.quantity) ∷ loose else loose) rest
    → Reserves loose (next_line item found reserved rest)
next_line-Reserves item loose none reserved rest same h = tt
next_line-Reserves item loose (some p) false rest same h = tt
next_line-Reserves item loose (some p) true (ok (lines, db)) same h =
    subst (λ i. IsStocked (units lines ((i, item.quantity) ∷ loose)) db) (sym (same p refl)) h
next_line-Reserves item loose (some p) true (err e) same h = tt

-- The reservation loop leaves its lines' units loose.
pub reserve_lines-Reserves :
    (items : List CartItem) (loose : Loose) (db : Db)
    → IsStocked loose db
    → Reserves loose (reserve_lines items db)
unfolding reserve_lines
reserve_lines-Reserves [] loose db h = h
reserve_lines-Reserves (item ∷ items) loose db h =
    let ((found, reserved), db') = try_reserve_produce item.produce_id item.quantity db in
    subst (Reserves loose) (sym (reserve_lines-cons item items db)) (
      next_line-Reserves item loose found reserved (reserve_lines items db')
        (λ p e. reserved_line item.produce_id item.quantity db p e)
        (reserve_lines-Reserves items
          (if reserved then (item.produce_id, item.quantity) ∷ loose else loose) db'
          (try_reserve_produce-IsStocked loose db item.produce_id item.quantity h)))

pub create_checkout-IsStocked :
    (draft : CheckoutDraft) (config : CheckoutConfig) (now : ℕ) (db db' : Db) (c : Checkout)
    → IsStocked (units draft.lines []) db
    → create_checkout draft config now db ≡ ok (c, db')
    → IsStocked [] db'
unfolding create_checkout
create_checkout-IsStocked draft config now db db' c h run =
    IsStocked-same [] placed db' (ground arith) (ground arith) (
      create_orders-IsStocked draft.buyer_id db.next_id draft.lines []
        (put_checkout (new_checkout db.next_id draft config now) db)
        (IsStocked-same (units draft.lines []) db _ refl refl h))
  where
    placed : Db
    placed =
        create_orders draft.buyer_id db.next_id draft.lines
          (put_checkout (new_checkout db.next_id draft config now) db)

place_lines-IsStocked :
    (now : ℕ) (config : CheckoutConfig) (draft : CheckoutDraft) (db db' : Db) (c : Checkout)
    → IsStocked (units draft.lines []) db
    → place_lines now config draft db ≡ ok (c, db')
    → IsStocked [] db'
unfolding place_lines
place_lines-IsStocked now config draft db db' c h run =
    let (made, (db1, created, rest)) = >>=-eq-ok (create_checkout draft config now) _ db run in
    IsStocked-same [] db1 db' (ground arith) (ground arith)
      (create_checkout-IsStocked draft config now db db1 made h created)

reserve_and_place-IsStocked :
    (now : ℕ) (config : CheckoutConfig) (buyer_id : ℕ) (key : String) (dto : CreateCheckoutDto)
    (items : List CartItem) (delivery : DeliverySnapshot) (db db' : Db) (c : Checkout)
    → IsStocked [] db
    → reserve_and_place now config buyer_id key dto items delivery db ≡ ok (c, db')
    → IsStocked [] db'
unfolding reserve_and_place
reserve_and_place-IsStocked now config buyer_id key dto items delivery db db' c h run =
    let (lines, (db1, reserved, rest)) =
      >>=-eq-ok (reserve_lines items)
        (λ lines. place_lines now config (draft_of buyer_id key dto delivery lines)) db run in
    place_lines-IsStocked now config (draft_of buyer_id key dto delivery lines) db1 db' c
      (subst (Reserves []) reserved (reserve_lines-Reserves items [] db h)) rest

pub resolve_delivery_reads :
    (buyer_id address_id date : ℕ) (config : CheckoutConfig) (today : ℕ) (db db' : Db)
    (d : DeliverySnapshot)
    → resolve_delivery buyer_id address_id date config today db ≡ ok (d, db')
    → db' ≡ db
unfolding resolve_delivery
resolve_delivery_reads buyer_id address_id date config today db db' d run = ground arith

-- What came of a placement that went through: the reservation loop ran on the database as it was.
pub place_new_inv :
    (now today : ℕ) (config : CheckoutConfig) (buyer_id : ℕ) (key : String)
    (dto : CreateCheckoutDto) (db db' : Db) (c : Checkout)
    → place_new now today config buyer_id key dto db ≡ ok (c, db')
    → (delivery : DeliverySnapshot) × (reserve_and_place now config buyer_id key dto
          (cart_of buyer_id db)
          delivery
          db
        ≡ ok (c, db'))
unfolding place_new
place_new_inv now today config buyer_id key dto db db' c run =
    let checked : (resolve_delivery buyer_id dto.address_id dto.delivery_date config today
            >>= reserve_and_place now config buyer_id key dto (cart_of buyer_id db))
          db
        ≡ ok (c, db') =
      ground arith in
    let (delivery, (db1, resolved, placed)) =
      >>=-eq-ok (resolve_delivery buyer_id dto.address_id dto.delivery_date config today)
        (reserve_and_place now config buyer_id key dto (cart_of buyer_id db)) db checked in
    (
      delivery,
      subst
          (λ d.
            reserve_and_place now config buyer_id key dto (cart_of buyer_id db) delivery d
            ≡ ok (c, db'))
          (resolve_delivery_reads buyer_id dto.address_id dto.delivery_date config today db db1
            delivery resolved)
          placed,
    )

-- Placing a checkout keeps the stock invariant, replays included.
pub place_orders-IsStocked :
    (now today : ℕ) (config : CheckoutConfig) (buyer_id : ℕ) (key : String)
    (dto : CreateCheckoutDto) (db db' : Db) (c : Checkout)
    → IsStocked [] db
    → place_orders now today config buyer_id key dto db ≡ ok (c, db')
    → IsStocked [] db'
unfolding place_orders
place_orders-IsStocked now today config buyer_id key dto db db' c h run =
    elim (Option-cases (find_replay buyer_id key db)) [
      | inl fresh ↦
          let (delivery, placed) =
            place_new_inv now today config buyer_id key dto db db' c (ground arith) in
          reserve_and_place-IsStocked now config buyer_id key dto (cart_of buyer_id db) delivery db
            db' c h placed
      | inr (old, replayed) ↦ IsStocked-same [] db db' (ground arith) (ground arith) h
    ]
