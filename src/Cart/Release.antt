-- ===== src/Cart/Release.antt =====
-- The stock invariant across the release of an unpaid checkout
-- (src/payment/utils/release-checkout.ts), its cancellation (src/cart/checkout.service.ts) and its
-- expiry (src/payment/checkout-expiry.service.ts).
use Prim.Native.String.{String}
use mathlib.Core.Path.{subst}
use laicos_backend.Prelude.{
  ℕ, ◌+◌, ◌≡◌, refl, sym, ap, ◌∙◌, inl, inr, Bool, true, false, not, ◌&&◌, ◌||◌, ◌==◌, leb, Option,
  none, some, List, [], ◌∷◌, arith, if◌then◌else◌, Bool-cases, Option-cases,
}
use laicos_backend.Prelude.Table.{find, find_many, find_first, sort_by, update_many, sum_by-sort_by}
use laicos_backend.Schema.{
  Db, Result, ok, err, ◌>>◌, pure, modify_db, Produce, Order, Checkout, CheckoutStatus,
  AuditActorType, is_unpaid, checkout_keyed, produce_keyed,
}
use laicos_backend.Order.Reservation.{release_stock, sync_produce_status}
use laicos_backend.Order.Service.Frames.{>>=-eq-ok}
use laicos_backend.Order.Stock.{Loose, loose_of, held, held_by, IsStocked}
use laicos_backend.Order.Stock.Moves.{freed, released, released-IsStocked}
use laicos_backend.Order.Stock.Rows.{IsStocked-same}
use laicos_backend.Order.Stock.Cancel.{release_stock_inv}
use laicos_backend.Cart.Checkout.{
  is_unpaid_order, cancel_unpaid, release_orders, release_checkout, cancel_tx, record_request,
}
use laicos_backend.Payment.Expiry.{expire, expire_found, expire_each}

-- What the orders to be released hold, by listing.
abbrev owed : List Order → Loose
owed [] = []
owed (o ∷ os) = freed o (owed os)

loose_of-owed : (j : ℕ) (os : List Order) → loose_of j (owed os) ≡ held j os
loose_of-owed j [] = refl
loose_of-owed j (o ∷ os) = ground (arith, loose_of-owed j os)

held-split :
    (j id : ℕ) (reason : String) (t : List Order)
    → held j (find_many (is_unpaid_order id) t)
        + held j (update_many (is_unpaid_order id) (cancel_unpaid reason) t)
      ≡ held j t
held-split j id reason [] = omega arith
held-split j id reason (o ∷ t) = ground (arith, held-split j id reason t)

-- A release rewrites the listing's row and nothing else.
pub release_stock_step :
    (o : Order) (db db' : Db)
    → release_stock o db ≡ ok (tt, db')
    → (p : Produce) × (find o.produce_id db.produces ≡ some p) × (db' ≡ released o p db)
unfolding release_stock
release_stock_step o db db' run =
    let (p, found, allowed) = release_stock_inv o db db' run in
    (p, found, ground (arith, found, allowed))

abbrev with_orders : List Order → Db → Db
with_orders os db = record db { orders = os }

-- The release loop gives back what its orders held; `os` is the order table as it will be.
release_orders-IsStocked :
    (orders os : List Order) (db db' : Db)
    → IsStocked (owed orders) (with_orders os db)
    → release_orders orders db ≡ ok (tt, db')
    → IsStocked [] (with_orders os db') × (db'.orders ≡ db.orders)
unfolding release_orders sync_produce_status
release_orders-IsStocked [] os db db' h run =
    (IsStocked-same [] (with_orders os db) (with_orders os db') (ground arith) refl h, ground arith)
release_orders-IsStocked (o ∷ orders) os db db' h run =
    let (u, (db1, released_one, rest)) =
      >>=-eq-ok (release_stock o) (λ _. release_orders orders) db run in
    let (p, found, written) = release_stock_step o db db1 released_one in
    let step : IsStocked (owed orders) (with_orders os (released o p db)) =
      IsStocked-same (owed orders) (released o p (with_orders os db)) _ refl refl
        (released-IsStocked (owed orders) (with_orders os db) o p h found) in
    let (kept, same) =
      release_orders-IsStocked orders os db1 db'
        (subst (λ d. IsStocked (owed orders) (with_orders os d)) (sym written) step) rest in
    (kept, same ∙ ap (λ d. d.orders) written)

abbrev pub unpaid_orders : ℕ → Db → List Order
unpaid_orders id db = sort_by (λ o. o.produce_id) (find_many (is_unpaid_order id) db.orders)

abbrev cancelled_orders : ℕ → String → Db → List Order
cancelled_orders id reason db = update_many (is_unpaid_order id) (cancel_unpaid reason) db.orders

release_owed :
    (id : ℕ) (reason : String) (db : Db)
    → IsStocked [] db
    → IsStocked (owed (unpaid_orders id db)) (with_orders (cancelled_orders id reason db) db)
release_owed id reason db h = record {
  balanced = λ j p e. omega (
    arith,
    h.balanced j p e,
    held-split j id reason db.orders,
    loose_of-owed j (unpaid_orders id db),
    sum_by-sort_by (held_by j) (λ o. o.produce_id) (find_many (is_unpaid_order id) db.orders),
  );
  synced = h.synced;
}

-- The writes of `releaseCheckout` after its loop.
release_checkout_inv :
    (id : ℕ) (status : CheckoutStatus) (reason : String) (db db' : Db) (c : Checkout)
    → release_checkout id status reason db ≡ ok (c, db')
    → (db1 : Db) × (release_orders (unpaid_orders id db) db ≡ ok (tt, db1))
      × (db'.produces ≡ db1.produces)
      × (db'.orders ≡ cancelled_orders id reason db1)
unfolding release_checkout
release_checkout_inv id status reason db db' c run =
    let (u, (db1, looped, rest)) = >>=-eq-ok (release_orders (unpaid_orders id db)) _ db run in
    elim (Option-cases (find id db1.checkouts)) [
      | inl missing ↦ ground arith
      | inr (found, at_id) ↦ (db1, looped, ground arith, ground arith)
    ]

-- Releasing a checkout keeps the stock invariant.
pub release_checkout-IsStocked :
    (id : ℕ) (status : CheckoutStatus) (reason : String) (db db' : Db) (c : Checkout)
    → IsStocked [] db
    → release_checkout id status reason db ≡ ok (c, db')
    → IsStocked [] db'
release_checkout-IsStocked id status reason db db' c h run =
    let (db1, looped, produces, orders) = release_checkout_inv id status reason db db' c run in
    let (kept, same) =
      release_orders-IsStocked (unpaid_orders id db) (cancelled_orders id reason db) db db1
        (release_owed id reason db h) looped in
    IsStocked-same [] (with_orders (cancelled_orders id reason db) db1) db' produces
      (orders ∙ ap (λ t. update_many (is_unpaid_order id) (cancel_unpaid reason) t) same) kept

record_request-IsStocked :
    (now : ℕ) (actor : AuditActorType) (title summary : String) (link : Option ℕ) (db : Db)
    → IsStocked [] db
    → IsStocked [] (record_request now actor title summary link db)
record_request-IsStocked now actor title summary none db h = h
record_request-IsStocked now actor title summary (some id) db h = IsStocked-same [] db _ refl refl h

abbrev pub is_dead : CheckoutStatus → Bool
is_dead CheckoutStatus.expired = true
is_dead CheckoutStatus.cancelled = true
is_dead _ = false

-- A predicate that a release keeps, and the record of one for the checkout's sourcing request.
pub record KeepsRelease (P : Db → Type 0) : Type 0 where
  pub release :
      (id : ℕ) (status : CheckoutStatus) (reason : String) (db db' : Db) (c : Checkout)
      → is_dead status ≡ true
      → P db
      → release_checkout id status reason db ≡ ok (c, db')
      → P db'
  pub request :
      (now : ℕ) (actor : AuditActorType) (title summary : String) (link : Option ℕ) (db : Db)
      → P db
      → P (record_request now actor title summary link db)

module _ (P : Db → Type 0) (keeps : KeepsRelease P) where
  -- A buyer's cancellation of a checkout keeps it.
  pub cancel_tx_keeps :
      (now buyer_id id : ℕ) (db db' : Db) (c : Checkout)
      → P db
      → cancel_tx now buyer_id id db ≡ ok (c, db')
      → P db'
  unfolding cancel_tx
  cancel_tx_keeps now buyer_id id db db' c h run =
      elim (Option-cases (find_first (λ r. r.id == id && r.buyer_id == buyer_id) db.checkouts)) [
        | inl missing ↦ ground arith
        | inr (found, at_id) ↦ elim (Bool-cases (is_unpaid found.status)) [
          | inr paid ↦ ground arith
          | inl unpaid ↦
              let (released, (db1, release, rest)) =
                >>=-eq-ok (release_checkout id CheckoutStatus.cancelled "Cancelled by buyer")
                  (λ released.
                    modify_db (
                      record_request now AuditActorType.buyer "Checkout cancelled"
                        "Cancelled by buyer" found.sourcing_request_id)
                    >> pure released)
                  db {b = c} {db'' = db'} (ground arith) in
              subst P (ground arith) (
                keeps.request now AuditActorType.buyer "Checkout cancelled" "Cancelled by buyer"
                  found.sourcing_request_id db1
                  (keeps.release id CheckoutStatus.cancelled "Cancelled by buyer" db db1 released
                    refl h release))
        ]
      ]

  expire_found_keeps :
      (now : ℕ) (found : Checkout) (db db' : Db) (b : Bool)
      → P db
      → expire_found now found db ≡ ok (b, db')
      → P db'
  unfolding expire_found
  expire_found_keeps now found db db' b h run =
      let (released, (db1, release, rest)) =
        >>=-eq-ok (release_checkout found.id CheckoutStatus.expired "Payment not received") _ db
          run in
      subst P (ground arith) (
        keeps.request now AuditActorType.system "Checkout expired" "Payment not received"
          found.sourcing_request_id db1
          (keeps.release found.id CheckoutStatus.expired "Payment not received" db db1 released refl
            h release))

  expire_keeps :
      (now id : ℕ) (db db' : Db) (b : Bool) → P db → expire now id db ≡ ok (b, db') → P db'
  unfolding expire
  expire_keeps now id db db' b h run = elim (Option-cases (find id db.checkouts)) [
    | inl missing ↦ subst P (ground arith) h
    | inr (found, at_id) ↦
        elim (Bool-cases (not (is_unpaid found.status) || leb now found.expires_at)) [
          | inl settled ↦ subst P (ground arith) h
          | inr due ↦ expire_found_keeps now found db db' b h (ground arith)
        ]
  ]

  -- The sweep keeps it, also where some of its checkouts throw.
  pub expire_each_keeps :
      (now : ℕ) (cs : List Checkout) (db : Db) → P db → P (expire_each now cs db).1
  unfolding expire_each
  expire_each_keeps now [] db h = h
  expire_each_keeps now (c ∷ cs) db h =
      step (λ d hd. expire_each_keeps now cs d hd) (expire now c.id db) refl
    where
      step :
          ((d : Db) → P d → P (expire_each now cs d).1)
          → (r : Result (Bool × Db)) → expire now c.id db ≡ r
          → P
              (elim r as (λ _. ℕ × Db) [
                | ok (expired, db') ↦
                    let (n, db'') = expire_each now cs db' in (if expired then n + 1 else n, db'')
                | err _ ↦ expire_each now cs db
              ]).1
      step rest (ok (expired, db')) e = rest db' (expire_keeps now c.id db db' expired h e)
      step rest (err x) e = rest db h

-- The stock invariant is kept.
pub KeepsRelease-IsStocked : KeepsRelease (IsStocked [])
KeepsRelease-IsStocked = record {
  release = λ id status reason db db' c dead h run.
      release_checkout-IsStocked id status reason db db' c h run;
  request = λ now actor title summary link db h.
      record_request-IsStocked now actor title summary link db h;
}
