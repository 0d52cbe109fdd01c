-- ===== src/Order/Stock/Rows.antt =====
-- The stock invariant when an order's row changes.
use laicos_backend.Prelude.{ℕ, ◌≡◌, sym, inl, inr, false, some, arith, Option-cases}
use mathlib.Core.Path.{subst}
use laicos_backend.Prelude.Table.{find, modify, find-key, sum_by-modify}
use laicos_backend.Schema.{Db, ok, Order, User, order_keyed, produce_keyed}
use laicos_backend.Order.Reservation.{is_uncommitted}
use laicos_backend.Order.Stock.{Loose, held_by, IsStocked}
use laicos_backend.Order.Stock.Moves.{freed}
use laicos_backend.Order.Service.{find_one}

-- No operation writes an order's produce or quantity, so a row read earlier agrees on them.
abbrev pub KeepsOrders : Db → Db → Type 0
KeepsOrders seen db =
    (id : ℕ) (o o' : Order)
    → find id seen.orders ≡ some o
    → find id db.orders ≡ some o'
    → (o'.produce_id ≡ o.produce_id) × (o'.quantity ≡ o.quantity)

pub IsStocked-same :
    (loose : Loose) (db db' : Db)
    → db'.produces ≡ db.produces
    → db'.orders ≡ db.orders
    → IsStocked loose db
    → IsStocked loose db'
IsStocked-same loose db db' p o h = record {
  balanced = λ i q e. rw o (h.balanced i q (rw (← p) e));
  synced = λ i q e. h.synced i q (rw (← p) e);
}

-- An order that moves on to a status that holds no floating stock lets go of its units.
pub IsStocked-modify :
    (loose : Loose) (db : Db) (id : ℕ) (f : Order → Order) (o : Order)
    → IsStocked loose db
    → find id db.orders ≡ some o
    → (f o).produce_id ≡ o.produce_id
    → is_uncommitted (f o).status ≡ false
    → IsStocked (freed o loose) (record db { orders = modify id f db.orders })
IsStocked-modify loose db id f o h found same committed = record {
  balanced =
      λ i p e. ground (arith, sum_by-modify (held_by i) id f db.orders o found, h.balanced i p e);
  synced = h.synced;
}

-- The order that a method read is the row with its id.
pub find_one_inv :
    (user : User) (id : ℕ) (seen : Db) (order : Order)
    → find_one user id seen ≡ ok order
    → find order.id seen.orders ≡ some order
unfolding find_one
find_one_inv user id seen order h = elim (Option-cases (find id seen.orders)) [
  | inl missing ↦ ground arith
  | inr (o, found) ↦
      let read : find id seen.orders ≡ some order = ground arith in
      subst (λ i. find i seen.orders ≡ some order) (sym (find-key id seen.orders order read)) read
]
