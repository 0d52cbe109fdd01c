-- ===== src/Order/Service/Frames.antt =====
-- What the steps of src/order/order.service.ts leave alone, and how their results are taken apart.
use Prim.Native.String.{String}
use laicos_backend.Prelude.{
  ℕ, ◌≡◌, refl, inl, inr, Bool, true, Option, none, some, arith, Option-cases,
}
use laicos_backend.Prelude.Table.{find, modify}
use laicos_backend.Schema.{
  Db, Result, Result-cases, ok, err, Failure, Tx, ◌>>=◌, transaction, map_error, User, Farm, Order,
  OrderStatus, order_keyed, farm_keyed,
}
use laicos_backend.Order.Service.{update_order, record_farmer_order, guarded, order_race_error}

pub >>=-eq-ok :
    {A B : Type 0} (m : Tx A) (f : A → Tx B) (db : Db) {b : B} {db'' : Db}
    → (m >>= f) db ≡ ok (b, db'')
    → (a : A) × ((db' : Db) × (m db ≡ ok (a, db')) × (f a db' ≡ ok (b, db'')))
>>=-eq-ok {A} {B} m f db {b} {db''} = split (m db) refl
  where
    split :
        (r : Result (A × Db))
        → m db ≡ r
        → (elim r as (λ _. Result (B × Db)) [ ok (a, db') ↦ f a db' | err e ↦ err e ])
          ≡ ok (b, db'')
        → (a : A) × ((db' : Db) × (m db ≡ ok (a, db')) × (f a db' ≡ ok (b, db'')))
    split (ok (a, db')) e h = (a, (db', e, h))
    split (err x) e h = cc

pub update_order_inv :
    (id : ℕ) (guard : OrderStatus → Bool) (f : Order → Order) (db : Db) {o' : Order} {db' : Db}
    → update_order id guard f db ≡ ok (o', db')
    → (o : Order) × (find id db.orders ≡ some o)
      × (guard o.status ≡ true)
      × (o' ≡ f o)
      × (db' ≡ record db { orders = modify id f db.orders })
unfolding update_order
update_order_inv id guard f db h = elim (Option-cases (find id db.orders)) [
  | inl missing ↦ ground arith
  | inr (o, found) ↦ (o, found, ground arith, ground arith, ground arith)
]

-- What a step that ended at `r` wrote, if it did not throw.
abbrev pub Framed : Db → Result (Unit {0} × Db) → Type 0
Framed db (ok (_, db')) =
    db' ≡ record db { audit_events = db'.audit_events; requests = db'.requests }
Framed db (err _) = Unit {0}

-- `recordFarmerOrder` writes audit events and sourcing requests only.
pub record_farmer_order_frame :
    (now : ℕ) (user : User) (order : Order) (title : String) (summary : Option String)
    (farm : Option Farm) (link : Bool) (db : Db)
    → Framed db (record_farmer_order now user order title summary farm link db)
unfolding record_farmer_order
record_farmer_order_frame now user order title summary farm link db = ground arith

-- An invariant that a transaction keeps holds whatever it answers.
pub transaction_keeps :
    {A : Type 0} (P : Db → Type 0) (body : Tx A) (db : Db)
    → P db
    → ((a : A) (db' : Db) → body db ≡ ok (a, db') → P db')
    → P (transaction body db).1
transaction_keeps P body db h keep = elim (Result-cases (body db)) [
  | inl (e, failed) ↦ rw (failed, transaction) h
  | inr ((a, after), done) ↦ rw (done, transaction) (keep a after done)
]

-- Naming the error anew writes nothing.
pub map_error_keeps :
    {A : Type 0} (P : Db → Type 0) (f : Failure → Failure) (r : Result A × Db)
    → P r.1
    → P (map_error f r).1
map_error_keeps P f (ok a, db) h = h
map_error_keeps P f (err e, db) h = h

-- An invariant that a method's transaction keeps holds after the method, whatever it answers.
pub guarded_keeps :
    {A : Type 0} (P : Db → Type 0) (found : Result Order) (refusal : Order → Option Failure)
    (body : Order → Tx A) (db : Db)
    → P db
    → ((order : Order) (a : A) (db' : Db)
        → found ≡ ok order
        → refusal order ≡ none
        → body order db ≡ ok (a, db')
        → P db')
    → P (guarded found refusal body db).1
guarded_keeps P (err e) refusal body db h keep = h
guarded_keeps {A} P (ok order) refusal body db h keep = check (refusal order) refl
  where
    ran :
        (r : Result (A × Db))
        → body order db ≡ r
        → refusal order ≡ none
        → P
            (map_error {A = A} order_race_error (elim r as (λ _. Result A × Db) [
              | ok (a, db') ↦ (ok a, db')
              | err e ↦ (err e, db)
            ])).1
    ran (ok (a, db')) e allowed = keep order a db' refl allowed e
    ran (err x) e allowed = h

    check :
        (r : Option Failure)
        → refusal order ≡ r
        → P
            (elim r as (λ _. Result A × Db) [
              | some e ↦ (err e, db)
              | none ↦ map_error {A = A} order_race_error (transaction (body order) db)
            ]).1
    check (some e) refused = h
    check none allowed = ran (body order db) refl allowed
