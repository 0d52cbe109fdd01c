-- ===== src/Order/Stock/Moves.antt =====
-- How each step of a service moves the stock that orders hold.
use laicos_backend.Prelude.{
  ℕ, ◌+◌, ◌-◌, ◌≤◌, ◌≡◌, ◌≢◌, refl, sym, inl, inr, true, some, ◌∷◌, arith, if◌then◌else◌,
  Bool-cases, Option-cases,
}
use laicos_backend.Prelude.Table.{find, find-key, modify-modify}
use laicos_backend.Schema.{
  Db, ok, StockChange, is_allowed, change_stock, Produce, Order, put_produce, update_stock-succeeds,
  ◌>>=◌, order_keyed, produce_keyed,
}
use laicos_backend.Produce.{IsSynced, derive_produce_status, derive_produce_status-agrees}
use laicos_backend.Order.Reservation.{
  is_uncommitted, sync_produce_status, try_reserve_produce, release_stock, is_orderable,
  is_orderable_enough,
}
use laicos_backend.Order.Stock.{
  Loose, loose_of, loose_of-cons_ne, loose_of-cons_self, held, IsStocked, IsStocked-write,
}

-- The row that a stock write followed by `syncProduceStatus` leaves.
abbrev pub synced_row : (Produce → Produce) → Produce → Produce → Produce
synced_row f p r = record (f r) {
  status = derive_produce_status (f p).status (f p).actual_quantity (f p).floating_quantity;
}

IsSynced-derive :
    (p : Produce)
    → IsSynced
        (record p { status = derive_produce_status p.status p.actual_quantity p.floating_quantity })
IsSynced-derive p = derive_produce_status-agrees p.status p.actual_quantity p.floating_quantity

-- A stock write at one listing with its status sync.
IsStocked-write_sync :
    (loose loose' : Loose) (db : Db) (i : ℕ) (f : Produce → Produce) (p : Produce)
    → IsStocked loose db
    → ((r : Produce) → (f r).id ≡ r.id)
    → find i db.produces ≡ some p
    → ((j : ℕ) → i ≢ j → loose_of j loose' ≡ loose_of j loose)
    → (f p).actual_quantity ≡ (f p).floating_quantity + held i db.orders + loose_of i loose'
    → IsStocked loose' (sync_produce_status (f p) (put_produce i f db))
unfolding sync_produce_status
IsStocked-write_sync loose loose' db i f p h keeps found others here =
    IsStocked-write loose loose' db _ i (synced_row f p) p h keeps
      (rw (keeps p, find-key i db.produces p found) (modify-modify i f _ db.produces keeps)) found
      (λ j ne. omega (arith, others j ne)) here (IsSynced-derive (f p))

abbrev take_units : ℕ → Produce → Produce
take_units quantity r = record r { floating_quantity = r.floating_quantity - quantity }

-- Taking units off a listing's floating stock leaves them loose.
pub IsStocked-take :
    (loose : Loose) (db : Db) (i quantity : ℕ) (p : Produce)
    → IsStocked loose db
    → find i db.produces ≡ some p
    → quantity ≤ p.floating_quantity
    → IsStocked ((i, quantity) ∷ loose) (
        sync_produce_status
          (record p { floating_quantity = p.floating_quantity - quantity })
          (put_produce i (λ r. record r { floating_quantity = r.floating_quantity - quantity }) db))
IsStocked-take loose db i quantity p h found enough =
    IsStocked-write_sync loose ((i, quantity) ∷ loose) db i (take_units quantity) p h (λ r. refl)
      found (λ j ne. loose_of-cons_ne i j quantity loose ne)
      (omega (arith, h.balanced i p found, loose_of-cons_self i quantity loose))

-- A reservation keeps the invariant: its units are loose, or nothing changed.
pub try_reserve_produce-IsStocked :
    (loose : Loose) (db : Db) (i quantity : ℕ)
    → IsStocked loose db
    → let ((found, reserved), db') = try_reserve_produce i quantity db in
      IsStocked (if reserved then (i, quantity) ∷ loose else loose) db'
unfolding try_reserve_produce
try_reserve_produce-IsStocked loose db i quantity h = elim (Option-cases (find i db.produces)) [
  | inl missing ↦ rw (missing, try_reserve_produce) h
  | inr (p, found) ↦
      rw (found, try_reserve_produce)
        (elim (Bool-cases (is_orderable db (some p) quantity)) [
          | inl takes ↦ rw takes (
              IsStocked-take loose db i quantity p h found
                (is_orderable_enough db p quantity takes))
          | inr refused ↦ rw refused h
        ])
]

abbrev give_floating : ℕ → Produce → Produce
give_floating quantity = change_stock (StockChange.give_floating quantity)

-- Giving loose units back to the floating stock.
pub IsStocked-give :
    (loose : Loose) (db : Db) (i quantity : ℕ) (p : Produce)
    → IsStocked ((i, quantity) ∷ loose) db
    → find i db.produces ≡ some p
    → let p' = change_stock (StockChange.give_floating quantity) p in
      IsStocked loose (
        sync_produce_status p'
          (put_produce i (change_stock (StockChange.give_floating quantity)) db))
IsStocked-give loose db i quantity p h found =
    IsStocked-write_sync ((i, quantity) ∷ loose) loose db i (give_floating quantity) p h (λ r. refl)
      found (λ j ne. sym (loose_of-cons_ne i j quantity loose ne))
      (omega (arith, h.balanced i p found, loose_of-cons_self i quantity loose))

pub IsStocked-give_both :
    (loose : Loose) (db : Db) (i quantity : ℕ) (p : Produce)
    → IsStocked loose db
    → find i db.produces ≡ some p
    → let p' = change_stock (StockChange.give_both quantity) p in
      IsStocked loose
        (sync_produce_status p' (put_produce i (change_stock (StockChange.give_both quantity)) db))
IsStocked-give_both loose db i quantity p h found =
    IsStocked-write_sync loose loose db i (change_stock (StockChange.give_both quantity)) p h
      (λ r. refl) found (λ j ne. refl) (omega (arith, h.balanced i p found))

-- What an order gives up when it stops holding floating stock only.
abbrev pub freed : Order → Loose → Loose
freed o loose = if is_uncommitted o.status then (o.produce_id, o.quantity) ∷ loose else loose

-- What a release gives back.
abbrev pub release_change : Order → StockChange
release_change o =
    if is_uncommitted o.status
    then StockChange.give_floating o.quantity
    else StockChange.give_both o.quantity

-- What a release that succeeds leaves.
abbrev pub released : Order → Produce → Db → Db
released o p db =
    sync_produce_status (change_stock (release_change o) p)
      (put_produce o.produce_id (change_stock (release_change o)) db)

release_allowed :
    (loose : Loose) (db : Db) (o : Order) (p : Produce)
    → IsStocked (freed o loose) db
    → find o.produce_id db.produces ≡ some p
    → is_allowed (release_change o) p ≡ true
release_allowed loose db o p h found = elim (Bool-cases (is_uncommitted o.status)) [
  | inl uncommitted ↦
      ground
        (arith, h.balanced o.produce_id p found, loose_of-cons_self o.produce_id o.quantity loose)
  | inr committed ↦ ground (arith, h.balanced o.produce_id p found)
]

-- A release never trips a CHECK.
pub release_stock-succeeds :
    (loose : Loose) (db : Db) (o : Order) (p : Produce)
    → IsStocked (freed o loose) db
    → find o.produce_id db.produces ≡ some p
    → release_stock o db ≡ ok (tt, released o p db)
unfolding release_stock
release_stock-succeeds loose db o p h found = rw (
  update_stock-succeeds o.produce_id (release_change o) db p found
      (release_allowed loose db o p h found),
  ◌>>=◌,
)

-- It takes the order's units out of the loose ones.
pub released-IsStocked :
    (loose : Loose) (db : Db) (o : Order) (p : Produce)
    → IsStocked (freed o loose) db
    → find o.produce_id db.produces ≡ some p
    → IsStocked loose (released o p db)
released-IsStocked loose db o p h found = elim (Bool-cases (is_uncommitted o.status)) [
  | inl uncommitted ↦
      rw uncommitted (IsStocked-give loose db o.produce_id o.quantity p (rw uncommitted at h) found)
  | inr committed ↦
      rw committed
        (IsStocked-give_both loose db o.produce_id o.quantity p (rw committed at h) found)
]
