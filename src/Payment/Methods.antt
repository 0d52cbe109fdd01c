-- ===== src/Payment/Methods.antt =====
-- What the payment and refund services promise (src/payment/payment.service.ts and
-- src/payment/refund.service.ts).
use Prim.Native.String.{String}
use laicos_backend.Prelude.{ℕ, ◌≡◌, refl, Option, none, some, inl, inr, arith, Option-cases}
use laicos_backend.Prelude.Table.{find, find_first}
use laicos_backend.Schema.{Db, Result, ok, err, Payment, Refund, payment_keyed, checkout_keyed}
use laicos_backend.Payment.Service.{
  VerifiedTransaction, Applied, apply_verified_charge_tx, has_reference,
}
use laicos_backend.Payment.Refund
use laicos_backend.Payment.Refund.{
  CreateRefundDto, RefundReply, RefundResult, refund_tx, submit, apply_result,
  apply_verified_charge, submit_automatic, then_submit,
}
use laicos_backend.Payment.Refund.Bounded.{IsBounded, refund_tx-IsBounded, submit-IsBounded}
use laicos_backend.Payment.Charge.{apply_to_effect}
use laicos_backend.Payment.Charge.Invariants.{IsPaidOnce, Effect-IsBounded, Effect-IsPaidOnce}

-- A reference and an id find the same payment: both columns are unique.
abbrev pub IsKeyed : Db → Type 0
IsKeyed db =
    (reference : String) (p : Payment)
    → find_first (has_reference reference) db.payments ≡ some p
    → find p.id db.payments ≡ some p

-- An invariant that a charge's effects keep holds after the transaction.
charge_tx-keeps :
    (now : ℕ) (v : VerifiedTransaction) (by : Option ℕ) (db db' : Db) (a : Applied)
    → IsKeyed db
    → IsBounded db
    → IsPaidOnce db
    → apply_verified_charge_tx now v by db ≡ ok (a, db')
    → IsBounded db' × IsPaidOnce db'
unfolding apply_verified_charge_tx
charge_tx-keeps now v by db db' a keyed bounded once run =
    elim (Option-cases (find_first (has_reference v.reference) db.payments)) [
      | inl missing ↦ absurd (ground arith)
      | inr (p, found) ↦ elim (Option-cases (find p.checkout_id db.checkouts)) [
        | inl missing ↦ absurd (ground arith)
        | inr (c, of_checkout) ↦
            let effect = apply_to_effect now v by p c db db' a (ground arith) in
            (
              Effect-IsBounded p c v bounded (keyed v.reference p found) effect,
              Effect-IsPaidOnce p c v once (keyed v.reference p found) of_checkout effect,
            )
      ]
    ]

-- Submitting a refund touches neither payments nor checkouts.
submit-IsPaidOnce :
    (reply : RefundReply) (r : Refund) (db : Db) → IsPaidOnce db → IsPaidOnce (submit reply r db)
unfolding submit
submit-IsPaidOnce (RefundReply.created i) r db h = record { once = h.once }
submit-IsPaidOnce (RefundReply.unknown m) r db h = h
submit-IsPaidOnce (RefundReply.refused m) r db h = record { once = h.once }

submit_automatic-keeps :
    (reply : RefundReply) (a : Applied) (db : Db)
    → IsBounded db × IsPaidOnce db
    → IsBounded (submit_automatic reply a db) × IsPaidOnce (submit_automatic reply a db)
submit_automatic-keeps reply a db h = at a.refund
  where
    once : (r : Refund) (answer : RefundReply) → IsPaidOnce (submit answer r db)
    once r answer = submit-IsPaidOnce answer r db h.1

    at :
        (o : Option Refund)
        → let after = elim o as (λ _. Db) [ none ↦ db | some r ↦ submit reply r db ] in
          IsBounded after × IsPaidOnce after
    at none = h
    at (some r) = (submit-IsBounded reply r db h.0, once r reply)

-- Applying a verified charge, on every branch and whatever Paystack answers to an automatic
-- refund, keeps both payment invariants, if payments are found alike by reference and by id: the
-- live refunds of each payment add up to at most what was charged, and nothing before money came;
-- and a checkout has exactly one successful payment if it is paid and none otherwise.
pub apply_verified_charge_keeps :
    (now : ℕ) (v : VerifiedTransaction) (by : Option ℕ) (reply : RefundReply) (db : Db)
    → IsKeyed db
    → IsBounded db
    → IsPaidOnce db
    → let db' = (apply_verified_charge now v by reply db).1 in IsBounded db' × IsPaidOnce db'
unfolding apply_verified_charge
apply_verified_charge_keeps now v by reply db keyed bounded once =
    elim (Option-cases (find_first (has_reference v.reference) db.payments)) [
      | inl missing ↦ rw (missing, apply_verified_charge) (bounded, once)
      | inr (p, found) ↦
          rw (found, apply_verified_charge) (ran (apply_verified_charge_tx now v by db) refl)
    ]
  where
    ran :
        (r : Result (Applied × Db))
        → apply_verified_charge_tx now v by db ≡ r
        → let after =
            (elim r as (λ _. Result (Option Payment) × Db) [
              | err e ↦ (err e, db)
              | ok (applied, db') ↦ (ok (some applied.payment), submit_automatic reply applied db')
            ]).1 in
          IsBounded after × IsPaidOnce after
    ran (ok (a, db')) e =
        submit_automatic-keeps reply a db' (charge_tx-keeps now v by db db' a keyed bounded once e)
    ran (err x) e = (bounded, once)

-- A refund asked for by an admin, with whatever Paystack answers, keeps the bound on every branch:
-- the live refunds of each payment add up to at most what was charged, and to nothing before money
-- came.
pub refund_keeps :
    (admin_id : ℕ) (reference : String) (dto : CreateRefundDto) (reply : RefundReply) (db : Db)
    → IsBounded db
    → IsBounded (Refund.refund admin_id reference dto reply db).1
unfolding Refund.refund
refund_keeps admin_id reference dto reply db h =
    elim (Option-cases (find_first (has_reference reference) db.payments)) [
      | inl missing ↦ rw (missing, Refund.refund) h
      | inr (p, found) ↦ rw (found, Refund.refund) (ran p (refund_tx admin_id p.id dto db) refl)
    ]
  where
    ran :
        (p : Payment) (r : Result (Refund × Db))
        → refund_tx admin_id p.id dto db ≡ r
        → IsBounded
            (then_submit reply (elim r as (λ _. Result Refund × Db) [
              | ok (x, db') ↦ (ok x, db')
              | err e ↦ (err e, db)
            ])).1
    ran p (ok (x, db')) e =
        submit-IsBounded reply x db' (refund_tx-IsBounded admin_id p.id dto db db' x h e)
    ran p (err x) e = h
