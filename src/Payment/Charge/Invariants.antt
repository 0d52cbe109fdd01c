-- ===== src/Payment/Charge/Invariants.antt =====
-- The invariants of payments across a verified charge (src/payment/payment.service.ts).
use mathlib.Core.Path.{subst}
use laicos_backend.Prelude.{
  ℕ, ◌+◌, ◌≤◌, ◌≡◌, ◌≢◌, refl, sym, ap, ◌∙◌, ◌⊎◌, inl, inr, ◌&&◌, some, List, arith, ◌==◌,
  if◌then◌else◌,
}
use laicos_backend.Prelude.Table.{
  find, modify, sum_by, find-modify_inv, find-modify_self, sum_by-modify,
}
use laicos_backend.Schema.{
  Db, Payment, Checkout, is_succeeded, is_paid, payment_keyed, checkout_keyed,
}
use laicos_backend.Payment.Service.{
  VerifiedTransaction, put_payment, mark_failed, mark_orphaned, mark_succeeded, automatic_refund,
  pay_checkout,
}
use laicos_backend.Payment.Charge.{Effect, unchanged, failed, orphaned, paid}
use laicos_backend.Payment.Refund.Bounded.{IsBounded, IsBounded-put, taken, cap}

-- 1 for a successful payment of the checkout.
abbrev pub pays : ℕ → Payment → ℕ
pays checkout_id p = if p.checkout_id == checkout_id && is_succeeded p.status then 1 else 0

abbrev pub paid_bit : Checkout → ℕ
paid_bit c = if is_paid c.status then 1 else 0

-- A checkout has exactly one successful payment if it is paid, and none otherwise.
pub record IsPaidOnce (db : Db) : Type 0 where
  pub once :
      (id : ℕ) (c : Checkout)
      → find id db.checkouts ≡ some c
      → sum_by (pays id) db.payments ≡ paid_bit c

some_eq : {A : Type 0} (a b : A) → some a ≡ some b → a ≡ b
some_eq a b e = cc

-- Rewriting a payment's row without lowering what may be refunded on it keeps the bound.
IsBounded-payment :
    (db db' : Db) (p : Payment) (f : Payment → Payment)
    → IsBounded db
    → ((x : Payment) → (f x).id ≡ x.id)
    → find p.id db.payments ≡ some p
    → db'.payments ≡ modify p.id f db.payments
    → db'.refunds ≡ db.refunds
    → cap p ≤ cap (f p)
    → IsBounded db'
IsBounded-payment db db' p f h keeps found payments refunds grows = record {
  bounded = λ id q e. at id q (find-modify_inv p.id id f db.payments keeps (rw (← payments) e));
}
  where
    at :
        (id : ℕ) (q : Payment)
        → ((p.id ≡ id) × ((r : Payment) × (find id db.payments ≡ some r) × (q ≡ f r)))
          ⊎ ((p.id ≢ id) × (find id db.payments ≡ some q))
        → taken id db'.refunds ≤ cap q
    at id q (inl (same, (r, at_id, written))) =
        let row : r ≡ p =
          some_eq r p (sym at_id ∙ ap (λ i. find i db.payments) (sym same) ∙ found) in
        let fits : taken id db.refunds ≤ cap p = h.bounded id p (at_id ∙ ap some row) in
        let written_p : q ≡ f p = written ∙ ap f row in
        subst (λ x. taken id db'.refunds ≤ cap x) (sym written_p)
          (subst (λ t. taken id t ≤ cap (f p)) (sym refunds) (omega arith))
    at id q (inr (other, at_id)) =
        subst (λ t. taken id t ≤ cap q) (sym refunds) (h.bounded id q at_id)

pub Effect-IsBounded :
    (p : Payment) (c : Checkout) (v : VerifiedTransaction) {db db' : Db}
    → IsBounded db
    → find p.id db.payments ≡ some p
    → Effect p c v db db'
    → IsBounded db'
Effect-IsBounded p c v h found unchanged = h
Effect-IsBounded p c v {db} h found (failed pending) =
    IsBounded-payment db _ p mark_failed h (λ x. refl) found refl refl (ground arith)
Effect-IsBounded p c v {db} h found (orphaned reason channel now applicable) =
    IsBounded-put orphan_db _
      (automatic_refund db.next_id (mark_orphaned reason channel now p) reason)
      (IsBounded-payment db orphan_db p (mark_orphaned reason channel now) h (λ x. refl) found refl
        refl (ground arith))
      refl refl
      (λ q e. ground (
        arith,
        h.bounded p.id p found,
        some_eq q (mark_orphaned reason channel now p) (
            sym e
            ∙ find-modify_self p.id (mark_orphaned reason channel now) db.payments p refl found),
      ))
  where
    orphan_db : Db
    orphan_db = put_payment p.id (mark_orphaned reason channel now) db
Effect-IsBounded p c v {db} {db'} h found
      (paid by channel now _ applicable waiting exact payments checkouts refunds) =
    IsBounded-payment db db' p (mark_succeeded by channel now) h (λ x. refl) found payments refunds
      (ground arith)

-- The successful payments of every checkout, after a rewrite of one payment's row.
pays-modify :
    (id : ℕ) (p : Payment) (f : Payment → Payment) (t : List Payment)
    → find p.id t ≡ some p
    → sum_by (pays id) (modify p.id f t) + pays id p ≡ sum_by (pays id) t + pays id (f p)
pays-modify id p f t found = sum_by-modify (pays id) p.id f t p found

pub Effect-IsPaidOnce :
    (p : Payment) (c : Checkout) (v : VerifiedTransaction) {db db' : Db}
    → IsPaidOnce db
    → find p.id db.payments ≡ some p
    → find p.checkout_id db.checkouts ≡ some c
    → Effect p c v db db'
    → IsPaidOnce db'
Effect-IsPaidOnce p c v h found of_checkout unchanged = h
Effect-IsPaidOnce p c v {db} h found of_checkout (failed pending) = record {
  once = λ id k e. ground (arith, pays-modify id p mark_failed db.payments found, h.once id k e);
}
Effect-IsPaidOnce p c v {db} h found of_checkout (orphaned reason channel now applicable) = record {
  once = λ id k e.
      ground (
        arith,
        pays-modify id p (mark_orphaned reason channel now) db.payments found,
        h.once id k e,
      );
}
Effect-IsPaidOnce p c v {db} {db'} h found of_checkout
      (paid by channel now _ applicable waiting exact payments checkouts refunds) =
    record {
      once = λ id k e. at id k (
          find-modify_inv p.checkout_id id (pay_checkout now) db.checkouts (λ x. refl)
            (rw (← checkouts) e));
    }
  where
    at :
        (id : ℕ) (k : Checkout)
        → ((p.checkout_id ≡ id)
            × ((r : Checkout) × (find id db.checkouts ≡ some r) × (k ≡ pay_checkout now r)))
          ⊎ ((p.checkout_id ≢ id) × (find id db.checkouts ≡ some k))
        → sum_by (pays id) db'.payments ≡ paid_bit k
    at id k (inl (same, (r, at_id, written))) =
        let row : r ≡ c =
          some_eq r c (sym at_id ∙ ap (λ i. find i db.checkouts) (sym same) ∙ of_checkout) in
        rw (payments, written)
          (ground (
            arith,
            pays-modify id p (mark_succeeded by channel now) db.payments found,
            h.once id r at_id,
            ap (λ x. x.status) row,
            same,
          ))
    at id k (inr (other, at_id)) = rw payments (
        ground (
          arith,
          pays-modify id p (mark_succeeded by channel now) db.payments found,
          h.once id k at_id,
          other,
        ))
