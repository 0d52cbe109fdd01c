-- ===== src/Order/Stock/Cancel.antt =====
-- The stock invariant across `cancel` and `remove` of src/order/order.service.ts.
use Prim.Native.String.{String}
use laicos_backend.Prelude.{ℕ, ◌≡◌, refl, inl, inr, true, none, some, arith, Option-cases, []}
use laicos_backend.Prelude.Table.{find, modify}
use laicos_backend.Schema.{
  Db, ok, Produce, Order, User, is_allowed, update_stock, order_keyed, produce_keyed, is_pending,
}
use laicos_backend.Order.Stock.{Loose, held_by, IsStocked}
use laicos_backend.Order.Stock.Moves.{freed}
use laicos_backend.Order.Service.{record_farmer_order, order_title}
use laicos_backend.Order.Service.Frames.{Framed, record_farmer_order_frame}
use laicos_backend.Order.Reservation.{release_stock, sync_produce_status}
use laicos_backend.Order.Stock.Moves.{released, release_change, released-IsStocked}
use laicos_backend.Order.Service.Cancel.{cancel_tx, cancel_with, same_status, remove_tx}
use laicos_backend.Order.Stock.Rows.{IsStocked-same, IsStocked-modify}
use laicos_backend.Prelude.Table.{delete, sum_by-delete}

-- A release that went through found its listing.
pub release_stock_inv :
    (order : Order) (db db' : Db)
    → release_stock order db ≡ ok (tt, db')
    → (p : Produce) × (find order.produce_id db.produces ≡ some p)
      × (is_allowed (release_change order) p ≡ true)
unfolding release_stock update_stock
release_stock_inv order db db' h = elim (Option-cases (find order.produce_id db.produces)) [
  | inl missing ↦ ground arith
  | inr (p, found) ↦ (p, found, ground arith)
]

abbrev cancelled_db : String → Order → Db → Db
cancelled_db reason order db = record db { orders = modify order.id (cancel_with reason) db.orders }

cancel_tx_inv :
    (now : ℕ) (user : User) (reason : String) (order : Order) (db db' : Db) (a : Order)
    → cancel_tx now user reason order db ≡ ok (a, db')
    → (o : Order) × ((p : Produce) × (find order.id db.orders ≡ some o)
        × (same_status order.status o.status ≡ true)
        × (find order.produce_id db.produces ≡ some p)
        × (is_allowed (release_change order) p ≡ true)
        × (db'.produces ≡ (released order p (cancelled_db reason order db)).produces)
        × (db'.orders ≡ (cancelled_db reason order db).orders))
unfolding cancel_tx release_stock
cancel_tx_inv now user reason order db db' a h = elim (Option-cases (find order.id db.orders)) [
  | inl missing ↦ ground arith
  | inr (o, found) ↦ elim (Option-cases (find order.produce_id db.produces)) [
    | inl missing ↦ ground arith
    | inr (p, found_p) ↦ (
      o,
      (
        p,
        found,
        ground arith,
        found_p,
        ground arith,
        ground (arith, recorded p),
        ground (arith, recorded p),
      ),
    )
  ]
]
  where
    recorded :
        (p : Produce)
        → Framed (released order p (cancelled_db reason order db)) (
            record_farmer_order now user order
              (order_title order " cancelled")
              (some reason)
              none
              true
              (released order p (cancelled_db reason order db)))
    recorded p =
        record_farmer_order_frame now user order (order_title order " cancelled") (some reason) none
          true (released order p (cancelled_db reason order db))

freed_same :
    (o order : Order) (loose : Loose)
    → same_status order.status o.status ≡ true
    → (o.produce_id ≡ order.produce_id) × (o.quantity ≡ order.quantity)
    → freed o loose ≡ freed order loose
freed_same o order loose g same = ground arith

-- `cancel`'s transaction keeps the invariant.
pub cancel_tx-IsStocked :
    (now : ℕ) (user : User) (reason : String) (order : Order) (db db' : Db) (a : Order)
    → IsStocked [] db
    → ((o : Order)
        → find order.id db.orders ≡ some o
        → (o.produce_id ≡ order.produce_id) × (o.quantity ≡ order.quantity))
    → cancel_tx now user reason order db ≡ ok (a, db')
    → IsStocked [] db'
unfolding sync_produce_status
cancel_tx-IsStocked now user reason order db db' a h agrees run =
    let (o, (p, found, guard, found_p, allowed, produces, orders)) =
      cancel_tx_inv now user reason order db db' a run in
    let moved = IsStocked-modify [] db order.id (cancel_with reason) o h found refl refl in
    IsStocked-same [] (released order p (cancelled_db reason order db)) db' produces orders (
      released-IsStocked [] (cancelled_db reason order db) order p
        (rw (freed_same o order [] guard (agrees o found)) at moved) found_p)

abbrev deleted_db : Order → Db → Db
deleted_db order db = record db { orders = delete order.id db.orders }

IsStocked-delete :
    (loose : Loose) (db : Db) (id : ℕ) (o : Order)
    → IsStocked loose db
    → find id db.orders ≡ some o
    → IsStocked (freed o loose) (record db { orders = delete id db.orders })
IsStocked-delete loose db id o h found = record {
  balanced =
      λ i p e. ground (arith, sum_by-delete (held_by i) id db.orders o found, h.balanced i p e);
  synced = h.synced;
}

remove_tx_inv :
    (order : Order) (db db' : Db) (a : Order)
    → remove_tx order db ≡ ok (a, db')
    → (o : Order) × ((p : Produce) × (find order.id db.orders ≡ some o)
        × (is_pending o.status ≡ true)
        × (find order.produce_id db.produces ≡ some p)
        × (db' ≡ released order p (deleted_db order db)))
unfolding remove_tx release_stock
remove_tx_inv order db db' a h = elim (Option-cases (find order.id db.orders)) [
  | inl missing ↦ ground arith
  | inr (o, found) ↦ elim (Option-cases (find order.produce_id db.produces)) [
    | inl missing ↦ ground arith
    | inr (p, found_p) ↦ (o, (p, found, ground arith, found_p, ground arith))
  ]
]

freed_both_pending :
    (o order : Order) (loose : Loose)
    → is_pending o.status ≡ true
    → is_pending order.status ≡ true
    → (o.produce_id ≡ order.produce_id) × (o.quantity ≡ order.quantity)
    → freed o loose ≡ freed order loose
freed_both_pending o order loose g r same = ground arith

-- `remove`'s transaction keeps it: only a pending order is deleted, so the order that was read
-- pending gives back floating units.
pub remove_tx-IsStocked :
    (order : Order) (db db' : Db) (a : Order)
    → IsStocked [] db
    → is_pending order.status ≡ true
    → ((o : Order)
        → find order.id db.orders ≡ some o
        → (o.produce_id ≡ order.produce_id) × (o.quantity ≡ order.quantity))
    → remove_tx order db ≡ ok (a, db')
    → IsStocked [] db'
remove_tx-IsStocked order db db' a h read_pending agrees run =
    let (o, (p, found, guard, found_p, written)) = remove_tx_inv order db db' a run in
    let moved = IsStocked-delete [] db order.id o h found in
    rw written (
      released-IsStocked [] (deleted_db order db) order p
        (rw (freed_both_pending o order [] guard read_pending (agrees o found)) at moved) found_p)
