-- ===== src/Payment/Charge.antt =====
-- What a verified charge does to the tables (src/payment/payment.service.ts): a checkout is paid
-- once, and money that cannot pay it goes back.
pub mod Invariants
use Prim.Native.String.{String}
use mathlib.Core.Path.{subst}
use laicos_backend.Prelude.{
  ℕ, ◌+◌, ◌≤◌, ◌≡◌, refl, sym, ap, ◌∙◌, ◌⊎◌, inl, inr, Bool, true, false, ◌&&◌, ◌||◌, not, Option,
  none, some, List, [], ◌∷◌, arith, ◌==◌, if◌then◌else◌, Bool-cases, Option-cases,
}
use laicos_backend.Prelude.Table.{
  find, find_first, update_many, modify, sum_by, find-modify_inv, find-key, sum_by-modify,
}
use laicos_backend.Schema.{
  Db, Result, ok, err, Payment, PaymentStatus, Checkout, CheckoutStatus, Refund, Reason,
  is_succeeded, is_orphaned, is_paid, is_unpaid, is_payment_pending, payment_keyed, checkout_keyed,
}
use laicos_backend.Payment.Service.{
  VerifiedTransaction, ChargeStatus, Applied, apply_to, apply_unpaid, apply_orphan, apply_paid,
  apply_verified_charge_tx, orphan_reason, has_reference, is_applicable, is_success, put_payment,
  put_refund, mark_failed, mark_orphaned, mark_succeeded, automatic_refund, pay_checkout,
  in_currency,
}
use laicos_backend.Common.Money.{to_minor_units}
use laicos_backend.Payment.Refund.Bounded.{IsBounded, IsBounded-put, taken, cap}

-- What may become of the tables, for a charge on payment `p` of checkout `c`.
pub data Effect (p : Payment) (c : Checkout) (v : VerifiedTransaction) (db : Db) : Db → Type 0 where
  unchanged : Effect p c v db db
  failed : is_payment_pending p.status ≡ true → Effect p c v db (put_payment p.id mark_failed db)
  orphaned :
      (reason : Reason) (channel : Option String) (now : ℕ)
      → is_applicable p.status ≡ true
      → Effect p c v db (
          put_refund
            (automatic_refund db.next_id (mark_orphaned reason channel now p) reason)
            (put_payment p.id (mark_orphaned reason channel now) db))
  paid :
      (by : Option ℕ) (channel : Option String) (now : ℕ) (db' : Db)
      → is_applicable p.status ≡ true
      → is_unpaid c.status ≡ true
      → v.amount ≡ to_minor_units p.charged_amount
      → db'.payments ≡ modify p.id (mark_succeeded by channel now) db.payments
      → db'.checkouts ≡ modify p.checkout_id (pay_checkout now) db.checkouts
      → db'.refunds ≡ db.refunds
      → Effect p c v db db'

ok_db :
    {A : Type 0} (a b : A) (db db' : Db)
    → ◌≡◌ {A = Result (A × Db)} (ok (a, db)) (ok (b, db'))
    → db ≡ db'
ok_db a b db db' e = cc

apply_unpaid_effect :
    (status : ChargeStatus) (p : Payment) (c : Checkout) (v : VerifiedTransaction) (db db' : Db)
    (a : Applied)
    → apply_unpaid status p db ≡ ok (a, db')
    → Effect p c v db db'
unfolding apply_unpaid
apply_unpaid_effect ChargeStatus.failed p c v db db' a run =
    elim (Bool-cases (is_payment_pending p.status)) [
      | inl pending ↦ subst (Effect p c v db) (ground (arith, pending)) (failed pending)
      | inr settled ↦ subst (Effect p c v db) (ground (arith, settled)) unchanged
    ]
apply_unpaid_effect ChargeStatus.success p c v db db' a run =
    subst (Effect p c v db) (ground arith) unchanged
apply_unpaid_effect ChargeStatus.other p c v db db' a run =
    subst (Effect p c v db) (ground arith) unchanged

orphan_reason_clear :
    (p : Payment) (c : Checkout) (v : VerifiedTransaction)
    → orphan_reason p c v ≡ none
    → (is_unpaid c.status ≡ true) × (v.amount ≡ to_minor_units p.charged_amount)
unfolding orphan_reason
orphan_reason_clear p c v e = (ground arith, ground arith)

-- Every run of the transaction has one of these effects.
pub apply_to_effect :
    (now : ℕ) (v : VerifiedTransaction) (by : Option ℕ) (p : Payment) (c : Checkout) (db db' : Db)
    (a : Applied)
    → apply_to now v by p c db ≡ ok (a, db')
    → Effect p c v db db'
unfolding apply_to apply_orphan apply_paid
apply_to_effect now v by p c db db' a run = elim (Bool-cases (is_applicable p.status)) [
  | inr settled ↦ subst (Effect p c v db) (ground (arith, settled)) unchanged
  | inl applicable ↦ elim (Bool-cases (is_success v.status)) [
    | inr unpaid ↦ apply_unpaid_effect v.status p c v db db' a (ground (arith, applicable, unpaid))
    | inl success ↦ elim (Option-cases (orphan_reason p c v)) [
      | inr ((reason, mismatch), why) ↦
          subst (Effect p c v db) (ground (arith, applicable, success, why))
            (orphaned reason v.channel now applicable)
      | inl pays ↦
          let (waiting, exact) = orphan_reason_clear p c v pays in
          paid by v.channel now db' applicable waiting exact
            (ground (arith, applicable, success, pays)) (ground (arith, applicable, success, pays))
            (ground (arith, applicable, success, pays))
    ]
  ]
]
