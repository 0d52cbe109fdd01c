-- ===== src/System/Charged.antt =====
-- A verified charge (src/payment/payment.service.ts) across the invariants of the other services:
-- the stock that orders hold, and the live checkouts of sourcing requests.
use laicos_backend.Prelude.{
  ℕ, ◌≡◌, ◌⊎◌, refl, inl, inr, true, Option, none, some, [], arith, Option-cases, Bool-cases,
}
use laicos_backend.Prelude.Table.{find, find_first, update_many, sum_by-update_many, sum_by-modify}
use laicos_backend.Schema.{Db, Result, ok, err, Order, Payment, Refund, Checkout, checkout_keyed}
use laicos_backend.Order.Stock.{held_by, IsStocked}
use laicos_backend.Order.Stock.Rows.{IsStocked-same}
use laicos_backend.Cart.Checkout.{is_unpaid_order}
use laicos_backend.Payment.Service.{
  VerifiedTransaction, ChargeStatus, Applied, apply_verified_charge_tx, apply_to, apply_unpaid,
  apply_orphan, apply_paid, is_applicable, is_success, orphan_reason, has_reference, place_paid,
  pay_checkout,
}
use laicos_backend.Payment.Refund.{RefundReply, apply_verified_charge, submit_automatic, submit}
use laicos_backend.Payment.Charge.{Effect, apply_to_effect}
use laicos_backend.Payment.Charge.Effect.{unchanged, failed, orphaned, paid}
use laicos_backend.SourcingRequest.Live.{live_of, OneLive, OneLive-same}

-- What a charge on a checkout does to listings and orders: the orders may move from unpaid to
-- pending.
abbrev Paying : ℕ → Db → Db → Type 0
Paying checkout_id db db' =
    (db'.produces ≡ db.produces)
    × ((db'.orders ≡ db.orders)
        ⊎ (db'.orders ≡ update_many (is_unpaid_order checkout_id) place_paid db.orders))

apply_unpaid_same :
    (status : ChargeStatus) (p : Payment) (db db' : Db) (a : Applied)
    → apply_unpaid status p db ≡ ok (a, db')
    → (db'.produces ≡ db.produces) × (db'.orders ≡ db.orders)
unfolding apply_unpaid
apply_unpaid_same status p db db' a run = (ground arith, ground arith)

apply_to-Paying :
    (now : ℕ) (v : VerifiedTransaction) (by : Option ℕ) (p : Payment) (c : Checkout) (db db' : Db)
    (a : Applied)
    → apply_to now v by p c db ≡ ok (a, db')
    → Paying p.checkout_id db db'
unfolding apply_to apply_orphan apply_paid
apply_to-Paying now v by p c db db' a run = elim (Bool-cases (is_applicable p.status)) [
  | inr settled ↦ (ground (arith, settled, run), inl (ground (arith, settled, run)))
  | inl applicable ↦ elim (Bool-cases (is_success v.status)) [
    | inr unpaid ↦
        let (produces, orders) =
          apply_unpaid_same v.status p db db' a (ground (arith, applicable, unpaid, run)) in
        (produces, inl orders)
    | inl success ↦ elim (Option-cases (orphan_reason p c v)) [
      | inr (why, found) ↦ (
        ground (arith, applicable, success, found, run),
        inl (ground (arith, applicable, success, found, run)),
      )
      | inl pays ↦ (
        ground (arith, applicable, success, pays, run),
        inr (ground (arith, applicable, success, pays, run)),
      )
    ]
  ]
]

-- An unpaid order holds what it holds as a paid one that waits for the farmer.
Paying-IsStocked :
    (checkout_id : ℕ) (db db' : Db) → Paying checkout_id db db' → IsStocked [] db → IsStocked [] db'
Paying-IsStocked checkout_id db db' (produces, inl same) h =
    IsStocked-same [] db db' produces same h
Paying-IsStocked checkout_id db db' (produces, inr moved) h =
    IsStocked-same [] between db' produces moved (record {
      balanced = λ j p e. omega (
        arith,
        h.balanced j p e,
        sum_by-update_many (held_by j) (is_unpaid_order checkout_id) place_paid db.orders
            (λ o waits. still j o waits),
      );
      synced = h.synced;
    })
  where
    between : Db
    between = record db { orders = update_many (is_unpaid_order checkout_id) place_paid db.orders }

    still :
        (j : ℕ) (o : Order)
        → is_unpaid_order checkout_id o ≡ true
        → held_by j (place_paid o) ≡ held_by j o
    still j o waits = ground (arith, waits)

Effect-OneLive :
    (p : Payment) (c : Checkout) (v : VerifiedTransaction) {db db' : Db}
    → find p.checkout_id db.checkouts ≡ some c
    → OneLive db
    → Effect p c v db db'
    → OneLive db'
Effect-OneLive p c v found h unchanged = h
Effect-OneLive p c v found h (failed pending) = record { one = h.one }
Effect-OneLive p c v found h (orphaned reason channel now applicable) = record { one = h.one }
Effect-OneLive p c v {db} found h
      (paid by channel now db' applicable waiting exact payments checkouts refunds) =
    record {
      one = λ i. rw checkouts (
          ground (
            arith,
            waiting,
            h.one i,
            sum_by-modify (live_of i) p.checkout_id (pay_checkout now) db.checkouts c found,
          ));
    }

charge_tx-keeps :
    (now : ℕ) (v : VerifiedTransaction) (by : Option ℕ) (db db' : Db) (a : Applied)
    → IsStocked [] db
    → OneLive db
    → apply_verified_charge_tx now v by db ≡ ok (a, db')
    → IsStocked [] db' × OneLive db'
unfolding apply_verified_charge_tx
charge_tx-keeps now v by db db' a stocked one run =
    elim (Option-cases (find_first (has_reference v.reference) db.payments)) [
      | inl missing ↦ absurd (ground arith)
      | inr (p, found) ↦ elim (Option-cases (find p.checkout_id db.checkouts)) [
        | inl missing ↦ absurd (ground arith)
        | inr (c, of_checkout) ↦
            let applied : apply_to now v by p c db ≡ ok (a, db') = ground arith in
            (
              Paying-IsStocked p.checkout_id db db' (apply_to-Paying now v by p c db db' a applied)
                  stocked,
              Effect-OneLive p c v of_checkout one (apply_to_effect now v by p c db db' a applied),
            )
      ]
    ]

submit_keeps :
    (reply : RefundReply) (r : Refund) (db : Db)
    → IsStocked [] db × OneLive db
    → IsStocked [] (submit reply r db) × OneLive (submit reply r db)
unfolding submit
submit_keeps reply r db (stocked, one) = (
  IsStocked-same [] db _ (ground arith) (ground arith) stocked,
  OneLive-same db _ (ground arith) one,
)

submit_automatic_keeps :
    (reply : RefundReply) (a : Applied) (db : Db)
    → IsStocked [] db × OneLive db
    → IsStocked [] (submit_automatic reply a db) × OneLive (submit_automatic reply a db)
submit_automatic_keeps reply a db h = at a.refund
  where
    at :
        (o : Option Refund)
        → let after = elim o as (λ _. Db) [ none ↦ db | some r ↦ submit reply r db ] in
          IsStocked [] after × OneLive after
    at none = h
    at (some r) = submit_keeps reply r db h

-- A verified charge, with whatever Paystack answers to an automatic refund.
pub apply_verified_charge_keeps_shop :
    (now : ℕ) (v : VerifiedTransaction) (by : Option ℕ) (reply : RefundReply) (db : Db)
    → IsStocked [] db × OneLive db
    → let db' = (apply_verified_charge now v by reply db).1 in IsStocked [] db' × OneLive db'
unfolding apply_verified_charge
apply_verified_charge_keeps_shop now v by reply db (stocked, one) =
    elim (Option-cases (find_first (has_reference v.reference) db.payments)) [
      | inl missing ↦ rw (missing, apply_verified_charge) (stocked, one)
      | inr (p, found) ↦
          rw (found, apply_verified_charge) (ran (apply_verified_charge_tx now v by db) refl)
    ]
  where
    ran :
        (r : Result (Applied × Db))
        → apply_verified_charge_tx now v by db ≡ r
        → let after =
            (elim r as (λ _. Result (Option Payment) × Db) [
              | err e ↦ (err e, db)
              | ok (applied, db') ↦ (ok (some applied.payment), submit_automatic reply applied db')
            ]).1 in
          IsStocked [] after × OneLive after
    ran (ok (a, db')) e =
        submit_automatic_keeps reply a db' (charge_tx-keeps now v by db db' a stocked one e)
    ran (err x) e = (stocked, one)
