-- ===== src/Order/Stock/Confirm.antt =====
-- The stock invariant across `confirm` of src/order/order.service.ts.
use laicos_backend.Prelude.{
  ℕ, ◌+◌, ◌-◌, ◌≤◌, ◌≡◌, refl, inl, inr, true, none, some, arith, Option-cases, [], ◌∷◌,
}
use laicos_backend.Prelude.Table.{find, modify, find-key}
use laicos_backend.Schema.{
  Db, ok, Produce, Order, OrderStatus, User, order_keyed, produce_keyed, is_pending, put_produce,
}
use laicos_backend.Produce.{derive_produce_status, derive_produce_status-agrees}
use laicos_backend.Order.Stock.{
  Loose, loose_of-cons_ne, loose_of-cons_self, IsStocked, IsStocked-write,
}
use laicos_backend.Order.Stock.Moves.{freed}
use laicos_backend.Order.Service.{confirm_tx, set_status, record_farmer_order, order_title}
use laicos_backend.Order.Service.Frames.{Framed, record_farmer_order_frame}
use laicos_backend.Order.Stock.Rows.{IsStocked-same, IsStocked-modify}

-- The row that `confirm` writes.
abbrev confirmed_row : ℕ → Produce → Produce → Produce
confirmed_row quantity produce p = record p {
  actual_quantity = p.actual_quantity - quantity;
  status =
      derive_produce_status produce.status (produce.actual_quantity - quantity)
        produce.floating_quantity;
}

abbrev confirmed_db : Order → Produce → Db → Db
confirmed_db order p db =
    put_produce p.id (confirmed_row order.quantity p)
      (record db { orders = modify order.id (set_status OrderStatus.confirmed) db.orders })

confirm_tx_inv :
    (now : ℕ) (user : User) (order : Order) (db : Db) {a : Order} {db' : Db}
    → confirm_tx now user order db ≡ ok (a, db')
    → (o : Order) × ((p : Produce) × (find order.id db.orders ≡ some o)
        × (is_pending o.status ≡ true)
        × (find order.produce_id db.produces ≡ some p)
        × (p.floating_quantity + order.quantity ≤ p.actual_quantity)
        × (db'.produces ≡ (confirmed_db order p db).produces)
        × (db'.orders ≡ (confirmed_db order p db).orders))
unfolding confirm_tx
confirm_tx_inv now user order db h = elim (Option-cases (find order.id db.orders)) [
  | inl missing ↦ ground arith
  | inr (o, found) ↦ elim (Option-cases (find order.produce_id db.produces)) [
    | inl missing ↦ ground arith
    | inr (p, found_p) ↦ (
      o,
      (
        p,
        found,
        ground arith,
        found_p,
        ground arith,
        ground (arith, recorded p),
        ground (arith, recorded p),
      ),
    )
  ]
]
  where
    recorded :
        (p : Produce)
        → Framed (confirmed_db order p db) (
            record_farmer_order now user order
              (order_title order " confirmed")
              none
              none
              true
              (confirmed_db order p db))
    recorded p =
        record_farmer_order_frame now user order (order_title order " confirmed") none none true
          (confirmed_db order p db)

-- Confirming takes the loose units off the actual stock.
IsStocked-commit :
    (loose : Loose) (db : Db) (i quantity : ℕ) (p : Produce)
    → IsStocked ((i, quantity) ∷ loose) db
    → find i db.produces ≡ some p
    → IsStocked loose (put_produce p.id (confirmed_row quantity p) db)
IsStocked-commit loose db i quantity p h found =
    IsStocked-write ((i, quantity) ∷ loose) loose db _ i (confirmed_row quantity p) p h (λ r. refl)
      (rw (find-key i db.produces p found)) found
      (λ j ne. rw (loose_of-cons_ne i j quantity loose ne))
      (omega (arith, h.balanced i p found, loose_of-cons_self i quantity loose))
      (derive_produce_status-agrees p.status (p.actual_quantity - quantity) p.floating_quantity)

freed_pending :
    (o order : Order) (loose : Loose)
    → is_pending o.status ≡ true
    → (o.produce_id ≡ order.produce_id) × (o.quantity ≡ order.quantity)
    → freed o loose ≡ (order.produce_id, order.quantity) ∷ loose
freed_pending o order loose g same = ground arith

-- `confirm`'s transaction keeps the invariant.
pub confirm_tx-IsStocked :
    (now : ℕ) (user : User) (order : Order) (db db' : Db) (a : Order)
    → IsStocked [] db
    → ((o : Order)
        → find order.id db.orders ≡ some o
        → (o.produce_id ≡ order.produce_id) × (o.quantity ≡ order.quantity))
    → confirm_tx now user order db ≡ ok (a, db')
    → IsStocked [] db'
confirm_tx-IsStocked now user order db db' a h agrees run =
    let (o, (p, found, guard, found_p, room, produces, orders)) =
      confirm_tx_inv now user order db run in
    let moved =
      IsStocked-modify [] db order.id (set_status OrderStatus.confirmed) o h found refl refl in
    IsStocked-same [] (confirmed_db order p db) db' produces orders (
      IsStocked-commit []
        (record db { orders = modify order.id (set_status OrderStatus.confirmed) db.orders })
        order.produce_id order.quantity p
        (rw (freed_pending o order [] guard (agrees o found)) at moved) found_p)
