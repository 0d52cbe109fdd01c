-- ===== src/Order/Reservation.antt =====
-- src/order/utils/reservation.ts.
use Prim.Native.String.{String}
use laicos_backend.Prelude.{
  ℕ, ◌-◌, ◌≡◌, ◌≤◌, arith, ◌*◌, Bool, true, false, ◌&&◌, ◌||◌, not, Option, none, some, leb,
  if◌then◌else◌,
}
use laicos_backend.Prelude.Table.{find}
use laicos_backend.Schema.{
  Db, Failure, Tx, ◌>>=◌, pure, throw, modify_db, put_produce, update_stock, StockChange, Produce,
  Order, OrderStatus, is_published, is_draft, is_farm_verified, farm_keyed, produce_keyed,
}
use laicos_backend.Produce.{derive_produce_status}

pub record OrderLine : Type 0 where
  pub produce_id : ℕ
  pub farm_id : ℕ
  pub quantity : ℕ
  pub produce_name : String
  pub total_price : ℕ

-- `produce.farm.verificationStatus === VERIFIED`, through the foreign key.
abbrev pub farm_verified : Db → Produce → Bool
farm_verified db p = elim (find p.farm_id db.farms) [
  | none ↦ false
  | some farm ↦ is_farm_verified farm.verification_status
]

-- `syncProduceStatus`, on the row that the caller has just written.
unfoldable pub sync_produce_status : Produce → Db → Db
sync_produce_status produce = put_produce produce.id λ p. record p {
  status = derive_produce_status produce.status produce.actual_quantity produce.floating_quantity;
}

-- The WHERE of the conditional UPDATE, and `isOrderable`.
unfoldable pub is_orderable : Db → Option Produce → ℕ → Bool
is_orderable db none quantity = false
is_orderable db (some p) quantity =
    is_published p.status && farm_verified db p && leb quantity p.floating_quantity

pub is_orderable_enough :
    (db : Db) (p : Produce) (quantity : ℕ)
    → is_orderable db (some p) quantity ≡ true
    → quantity ≤ p.floating_quantity
unfolding is_orderable
is_orderable_enough db p quantity h = ground arith

-- `tryReserveProduce`: the row after the attempt, and whether the units were taken.
unfoldable pub try_reserve_produce : ℕ → ℕ → Db → (Option Produce × Bool) × Db
unfolding is_orderable sync_produce_status
try_reserve_produce produce_id quantity db = elim (find produce_id db.produces) [
  | none ↦ ((none, false), db)
  | some p ↦
      let taken = record p { floating_quantity = p.floating_quantity - quantity } in
      if is_orderable db (some p) quantity
      then (
        (some taken, true),
        sync_produce_status taken (
            put_produce produce_id
              (λ r. record r { floating_quantity = r.floating_quantity - quantity }) db),
      )
      else ((some p, false), db)
]

-- `orderRefusal`.
unfoldable pub order_refusal : Db → Option Produce → Failure
order_refusal db none = Failure.produce_not_found
order_refusal db (some p) =
    if is_draft p.status || not (farm_verified db p)
    then Failure.produce_not_found
    else if not (is_published p.status)
    then Failure.produce_unavailable
    else Failure.insufficient_stock

-- `reserveProduce`.
unfoldable pub reserve_produce : ℕ → ℕ → Tx Produce
unfolding try_reserve_produce order_refusal
reserve_produce produce_id quantity db =
    let ((found, reserved), db') = try_reserve_produce produce_id quantity db in
    elim found [
      | none ↦ throw (order_refusal db' none) db'
      | some p ↦ if reserved then pure p db' else throw (order_refusal db' (some p)) db'
    ]

-- `linePrice`: a price in hundredths times a whole quantity has two decimals.
abbrev pub line_price : ℕ → ℕ → ℕ
line_price price_per_unit quantity = price_per_unit * quantity

-- `orderLine`.
abbrev pub order_line : Produce → ℕ → OrderLine
order_line p quantity = record {
  produce_id = p.id;
  farm_id = p.farm_id;
  quantity = quantity;
  produce_name = p.name;
  total_price = line_price p.price_per_unit quantity;
}

-- `UNCOMMITTED.includes(status)`.
abbrev pub is_uncommitted : OrderStatus → Bool
is_uncommitted OrderStatus.awaiting_payment = true
is_uncommitted OrderStatus.pending = true
is_uncommitted _ = false

-- `releaseStock`: gives back what `order` took, in the status it was read in.
unfoldable pub release_stock : Order → Tx (Unit {0})
unfolding update_stock sync_produce_status
release_stock order = do
  produce ← update_stock order.produce_id (
      if is_uncommitted order.status
      then StockChange.give_floating order.quantity
      else StockChange.give_both order.quantity)
  modify_db (sync_produce_status produce)
