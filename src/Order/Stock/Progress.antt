-- ===== src/Order/Stock/Progress.antt =====
-- The stock invariant across `prepare`, `updateChecklist` and `markReady` of
-- src/order/order.service.ts.
use laicos_backend.Prelude.{
  ℕ, ◌≡◌, refl, inl, inr, true, false, none, some, arith, Option-cases, [], ◌∷◌,
}
use laicos_backend.Prelude.Table.{find, modify}
use laicos_backend.Schema.{Db, ok, Order, OrderStatus, User, order_keyed, produce_keyed}
use laicos_backend.Order.Reservation.{is_uncommitted}
use laicos_backend.Order.Stock.{Loose, IsStocked}
use laicos_backend.Order.Stock.Moves.{freed}
use laicos_backend.Order.Service.{set_status, record_farmer_order, order_title}
use laicos_backend.Order.Service.Frames.{Framed, record_farmer_order_frame}
use laicos_backend.Order.Stock.Rows.{IsStocked-same, IsStocked-modify}
use laicos_backend.Schema.{
  Farm, OrderChecklist, is_confirmed, is_preparing, farm_keyed, checklist_keyed,
}
use laicos_backend.Order.Service.{prepare_tx, new_checklist}
use laicos_backend.Order.Service.Ready.{
  UpdateOrderChecklistDto, update_checklist_tx, mark_ready_tx, tick, new_handover,
}

freed_committed :
    (o : Order) (loose : Loose) → is_uncommitted o.status ≡ false → freed o loose ≡ loose
freed_committed o loose c = ground arith

-- A confirmed order that moves on holds no floating stock before or after.
IsStocked-move :
    (db db' : Db) (order o : Order) (status : OrderStatus)
    → IsStocked [] db
    → find order.id db.orders ≡ some o
    → is_uncommitted o.status ≡ false
    → is_uncommitted status ≡ false
    → db'.produces ≡ db.produces
    → db'.orders ≡ modify order.id (set_status status) db.orders
    → IsStocked [] db'
IsStocked-move db db' order o status h found before after produces orders =
    IsStocked-same [] (record db { orders = modify order.id (set_status status) db.orders }) db'
      produces orders
      (rw (freed_committed o [] before) at
        (IsStocked-modify [] db order.id (set_status status) o h found refl after))

prepare_tx_inv :
    (now : ℕ) (user : User) (order : Order) (db db' : Db) (a : Order)
    → prepare_tx now user order db ≡ ok (a, db')
    → (o : Order) × (find order.id db.orders ≡ some o)
      × (is_confirmed o.status ≡ true)
      × (db'.produces ≡ db.produces)
      × (db'.orders ≡ modify order.id (set_status OrderStatus.preparing) db.orders)
unfolding prepare_tx
prepare_tx_inv now user order db db' a h = elim (Option-cases (find order.id db.orders)) [
  | inl missing ↦ ground arith
  | inr (o, found) ↦ (o, found, ground arith, ground (arith, recorded), ground (arith, recorded))
]
  where
    written : Db
    written = record db {
      orders = modify order.id (set_status OrderStatus.preparing) db.orders;
      checklists = new_checklist order.id ∷ db.checklists;
    }

    recorded :
        Framed written (
          record_farmer_order now user order (order_title order " prepared") none none true written)
    recorded =
        record_farmer_order_frame now user order (order_title order " prepared") none none true
          written

-- `prepare`'s transaction keeps the invariant.
pub prepare_tx-IsStocked :
    (now : ℕ) (user : User) (order : Order) (db db' : Db) (a : Order)
    → IsStocked [] db
    → prepare_tx now user order db ≡ ok (a, db')
    → IsStocked [] db'
prepare_tx-IsStocked now user order db db' a h run =
    let (o, found, guard, produces, orders) = prepare_tx_inv now user order db db' a run in
    IsStocked-move db db' order o OrderStatus.preparing h found (ground arith) refl produces orders

-- `updateChecklist` writes no stock and no order.
pub update_checklist_tx-IsStocked :
    (now : ℕ) (user : User) (dto : UpdateOrderChecklistDto) (order : Order) (db db' : Db)
    (a : OrderChecklist)
    → IsStocked [] db
    → update_checklist_tx now user dto order db ≡ ok (a, db')
    → IsStocked [] db'
unfolding update_checklist_tx
update_checklist_tx-IsStocked now user dto order db db' a h run =
    IsStocked-same [] db db' (ground (arith, recorded)) (ground (arith, recorded)) h
  where
    written : Db
    written = record db { checklists = modify order.id (tick dto) db.checklists }

    recorded : Framed written (
        record_farmer_order now user order
          (order_title order " checklist updated")
          none
          none
          false
          written)
    recorded =
        record_farmer_order_frame now user order (order_title order " checklist updated") none none
          false written

mark_ready_tx_inv :
    (now : ℕ) (user : User) (order : Order) (db db' : Db) (a : Order)
    → mark_ready_tx now user order db ≡ ok (a, db')
    → (o : Order) × (find order.id db.orders ≡ some o)
      × (is_preparing o.status ≡ true)
      × (db'.produces ≡ db.produces)
      × (db'.orders ≡ modify order.id (set_status OrderStatus.ready) db.orders)
unfolding mark_ready_tx
mark_ready_tx_inv now user order db db' a h = elim (Option-cases (find order.farm_id db.farms)) [
  | inl missing ↦ ground arith
  | inr (farm, found_farm) ↦ elim (Option-cases (find order.id db.orders)) [
    | inl missing ↦ ground arith
    | inr (o, found) ↦
        (o, found, ground arith, ground (arith, recorded farm), ground (arith, recorded farm))
  ]
]
  where
    written : Farm → Db
    written farm = record db {
      orders = modify order.id (set_status OrderStatus.ready) db.orders;
      handovers = new_handover order.id farm.cluster_agent_id ∷ db.handovers;
    }

    recorded :
        (farm : Farm)
        → Framed (written farm) (
            record_farmer_order now user order
              (order_title order " marked ready")
              none
              (some farm)
              true
              (written farm))
    recorded farm =
        record_farmer_order_frame now user order (order_title order " marked ready") none
          (some farm) true (written farm)

-- `markReady`'s transaction keeps the invariant.
pub mark_ready_tx-IsStocked :
    (now : ℕ) (user : User) (order : Order) (db db' : Db) (a : Order)
    → IsStocked [] db
    → mark_ready_tx now user order db ≡ ok (a, db')
    → IsStocked [] db'
mark_ready_tx-IsStocked now user order db db' a h run =
    let (o, found, guard, produces, orders) = mark_ready_tx_inv now user order db db' a run in
    IsStocked-move db db' order o OrderStatus.ready h found (ground arith) refl produces orders
