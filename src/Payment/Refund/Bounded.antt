-- ===== src/Payment/Refund/Bounded.antt =====
-- Refunds never add up to more than was charged (src/payment/refund.service.ts and
-- src/payment/payment.service.ts).
use mathlib.Core.Path.{subst}
use laicos_backend.Prelude.{
  ℕ, ◌+◌, ◌-◌, ◌≤◌, ◌≡◌, refl, sym, ap, inl, inr, Bool, true, ◌||◌, Option, none, some, List, [],
  ◌∷◌, arith, ◌==◌, if◌then◌else◌, Bool-cases, Option-cases,
}
use laicos_backend.Prelude.Table.{
  find, find_many, update_many, sum_by, find-key, sum_by-modify_same, sum_by-update_many_le,
}
use laicos_backend.Schema.{
  Db, ok, Payment, Checkout, Refund, Reason, is_succeeded, is_orphaned, is_refund_pending,
  payment_keyed, checkout_keyed, refund_keyed,
}
use laicos_backend.Payment.Service.{put_refund}
use laicos_backend.Payment.Refund.{
  CreateRefundDto, RefundReply, RefundResult, is_live_refund, live_refunds, refunded, refund_found,
  refund_tx, submit, apply_result, find_for_result, pending_with_id, fail_refund,
  order_refund_amount, settle_refund,
}

-- What a refund takes of a payment's money.
abbrev pub taken_by : ℕ → Refund → ℕ
taken_by payment_id r = if is_live_refund payment_id r then r.amount else 0

abbrev pub taken : ℕ → List Refund → ℕ
taken payment_id refunds = sum_by (taken_by payment_id) refunds

-- What may be refunded in all: nothing before the money has come.
abbrev pub cap : Payment → ℕ
cap p = if is_succeeded p.status || is_orphaned p.status then p.charged_amount else 0

-- The live refunds of each payment add up to at most what it took in.
pub record IsBounded (db : Db) : Type 0 where
  pub bounded : (id : ℕ) (p : Payment) → find id db.payments ≡ some p → taken id db.refunds ≤ cap p

taken-live : (id : ℕ) (t : List Refund) → refunded (find_many (is_live_refund id) t) ≡ taken id t
taken-live id [] = refl
taken-live id (r ∷ t) = ground (arith, taken-live id t)

-- A new refund within what is left of its payment keeps the bound.
pub IsBounded-put :
    (db db' : Db) (r : Refund)
    → IsBounded db
    → db'.payments ≡ db.payments
    → db'.refunds ≡ r ∷ db.refunds
    → ((p : Payment)
        → find r.payment_id db.payments ≡ some p
        → r.amount + taken r.payment_id db.refunds ≤ cap p)
    → IsBounded db'
IsBounded-put db db' r h payments refunds room = record {
  bounded = λ id p e. at id p (rw payments at e);
}
  where
    at : (id : ℕ) (p : Payment) → find id db.payments ≡ some p → taken id db'.refunds ≤ cap p
    at id p e = elim (Bool-cases (r.payment_id == id)) [
      | inl same ↦
          let same_id : r.payment_id ≡ id = ground arith in
          let room_here : r.amount + taken id db.refunds ≤ cap p =
            subst (λ i. find i db.payments ≡ some p → r.amount + taken i db.refunds ≤ cap p) same_id
              (room p) e in
          rw refunds (ground (arith, room_here, h.bounded id p e))
      | inr other ↦ rw refunds (ground (arith, h.bounded id p e))
    ]

-- A mass update of refunds that lets no refund take more keeps the bound.
pub IsBounded-update :
    (db : Db) (g : Refund → Bool) (f : Refund → Refund)
    → IsBounded db
    → ((id : ℕ) (r : Refund) → g r ≡ true → taken_by id (f r) ≤ taken_by id r)
    → IsBounded (record db { refunds = update_many g f db.refunds })
IsBounded-update db g f h fall = record {
  bounded = λ id p e.
      omega (arith, h.bounded id p e, sum_by-update_many_le (taken_by id) g f db.refunds (fall id));
}

-- What a refund that went through was allowed to take.
refund_found_inv :
    (admin_id : ℕ) (dto : CreateRefundDto) (p : Payment) (c : Checkout) (db db' : Db) (r : Refund)
    → refund_found admin_id dto p c db ≡ ok (r, db')
    → (db' ≡ put_refund r db)
      × (r.payment_id ≡ p.id)
      × (is_succeeded p.status || is_orphaned p.status ≡ true)
      × (r.amount ≤ p.charged_amount - refunded (live_refunds p.id db))
unfolding refund_found order_refund_amount
refund_found_inv admin_id dto p c db db' r run =
    (ground arith, ground arith, ground arith, ground arith)

refund_found-IsBounded :
    (admin_id : ℕ) (dto : CreateRefundDto) (p : Payment) (c : Checkout) (db db' : Db) (r : Refund)
    → IsBounded db
    → find p.id db.payments ≡ some p
    → refund_found admin_id dto p c db ≡ ok (r, db')
    → IsBounded db'
refund_found-IsBounded admin_id dto p c db db' r h found run =
    let (written, on, refundable, within) = refund_found_inv admin_id dto p c db db' r run in
    IsBounded-put db db' r h (rw written) (rw written) λ q e. ground (
      arith,
      taken-live p.id db.refunds,
      h.bounded p.id p found,
      subst (λ i. find i db.payments ≡ some q) on e,
      ap (λ i. taken i db.refunds) on,
    )

-- The transaction of `refund` keeps the bound.
pub refund_tx-IsBounded :
    (admin_id payment_id : ℕ) (dto : CreateRefundDto) (db db' : Db) (r : Refund)
    → IsBounded db
    → refund_tx admin_id payment_id dto db ≡ ok (r, db')
    → IsBounded db'
unfolding refund_tx
refund_tx-IsBounded admin_id payment_id dto db db' r h run =
    elim (Option-cases (find payment_id db.payments)) [
      | inl missing ↦ ground arith
      | inr (p, found) ↦ elim (Option-cases (find p.checkout_id db.checkouts)) [
        | inl missing ↦ ground arith
        | inr (c, at_c) ↦
            refund_found-IsBounded admin_id dto p c db db' r h
              (subst (λ i. find i db.payments ≡ some p)
                (sym (find-key payment_id db.payments p found)) found)
              (ground arith)
      ]
    ]

-- Paystack's answer to a refund keeps the bound: a refusal only frees money.
pub submit-IsBounded :
    (reply : RefundReply) (r : Refund) (db : Db) → IsBounded db → IsBounded (submit reply r db)
unfolding submit
submit-IsBounded (RefundReply.created provider_id) r db h = record {
  bounded = λ id p e. omega (
    arith,
    h.bounded id p e,
    sum_by-modify_same (taken_by id) r.id (λ x. record x { provider_refund_id = some provider_id })
        db.refunds (λ x. refl),
  );
}
submit-IsBounded (RefundReply.unknown message) r db h = h
submit-IsBounded (RefundReply.refused message) r db h =
    IsBounded-update db (pending_with_id r.id) (fail_refund (Reason.text message)) h
      (λ id x e. ground arith)

-- A refund result from the webhook, on every branch, keeps the bound: the live refunds of each
-- payment add up to at most what was charged, and to nothing before money came.
pub apply_result-IsBounded :
    (result : RefundResult) (db : Db) → IsBounded db → IsBounded (apply_result result db)
unfolding apply_result
apply_result-IsBounded result db h = settle (find_for_result result db)
  where
    settle :
        (o : Option Refund)
        → IsBounded (elim o as (λ _. Db) [
          | none ↦ db
          | some refund ↦
              if is_refund_pending refund.status
              then record db {
                refunds = update_many (pending_with_id refund.id) (settle_refund result) db.refunds;
              }
              else db
        ])
    settle none = h
    settle (some refund) = elim (Bool-cases (is_refund_pending refund.status)) [
      | inl open_one ↦ rw open_one (
          IsBounded-update db (pending_with_id refund.id) (settle_refund result) h
            (λ id x e. ground arith))
      | inr closed ↦ rw closed h
    ]
