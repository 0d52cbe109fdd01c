-- ===== src/Payout/Refunds.antt =====
-- Refunds and payouts of the same orders exclude each other (src/payment/refund.service.ts).
use Prim.Native.String.{String}
use mathlib.Core.Path.{subst}
use laicos_backend.Prelude.{
  ℕ, ◌≡◌, refl, sym, ap, ◌∙◌, ◌⊎◌, inl, inr, true, false, ◌&&◌, some, List, [], ◌∷◌, arith, ◌==◌,
  Bool-cases, Option-cases, is_some,
}
use laicos_backend.Prelude.Table.{find, find_first, any, find-key}
use laicos_backend.Prelude.Every.{
  Every, Every-map, Every-both, Every-find, Distinct, any-not, any-update_many, any-weaken,
  any-modify,
}
use laicos_backend.Schema.{
  Db, Result, ok, err, Order, Payment, Checkout, Refund, Reason, PayoutItem, is_succeeded,
  payment_keyed, checkout_keyed, order_keyed, refund_keyed,
}
use laicos_backend.Payment.Service.{has_reference, put_refund}
use laicos_backend.Payment.Refund
use laicos_backend.Payment.Refund.{
  CreateRefundDto, RefundReply, is_live_payout, order_in, is_paid_out, refund_found, refund_tx,
  order_refund_amount, submit, then_submit, fail_refund, pending_with_id,
}
use laicos_backend.Payout.Eligibility.{is_whole_refund, is_given_back, fully_refunded}
use laicos_backend.Payout.Exclusive.{Unspent, IsExclusive}

-- Payments by distinct ids, and no order both in a live payout and given back.
abbrev pub IsRefundable : Db → Type 0
IsRefundable db = Distinct db.payments × IsExclusive db

-- What a refund that was created is, and what it was checked against.
refund_found_whole :
    (admin_id : ℕ) (dto : CreateRefundDto) (p : Payment) (c : Checkout) (db db' : Db) (r : Refund)
    → refund_found admin_id dto p c db ≡ ok (r, db')
    → (db' ≡ put_refund r db)
      × (r.payment_id ≡ p.id)
      × ((is_some r.order_id ≡ true)
          ⊎ ((is_succeeded p.status ≡ false) ⊎ (is_paid_out p.checkout_id db ≡ false)))
unfolding refund_found order_refund_amount
refund_found_whole admin_id dto p c db db' r run = (ground arith, ground arith, ground arith)

-- The items of a checkout that is not paid out are not live.
unpaid_items :
    (checkout_id : ℕ) (db : Db)
    → is_paid_out checkout_id db ≡ false
    → Every
        (λ item. (is_live_payout item.status && order_in checkout_id item.order_id db) ≡ false)
        db.payout_items
unfolding is_paid_out
unpaid_items checkout_id db h = any-not _ db.payout_items h

-- A new refund gives a checkout back only if it refunds the whole of a successful payment on it.
given_back_by :
    (checkout_id : ℕ) (r : Refund) (p : Payment) (db : Db)
    → Distinct db.payments
    → find r.payment_id db.payments ≡ some p
    → fully_refunded checkout_id (put_refund r db) ≡ true
    → (fully_refunded checkout_id db ≡ true)
      ⊎ ((is_some r.order_id ≡ false)
          × (is_succeeded p.status ≡ true)
          × (p.checkout_id ≡ checkout_id))
unfolding fully_refunded
given_back_by checkout_id r p db distinct found h =
    at db.payments (Every-find db.payments distinct) h
  where
    at :
        (t : List Payment)
        → Every (λ q. find q.id db.payments ≡ some q) t
        → any (is_given_back checkout_id (put_refund r db)) t ≡ true
        → (any (is_given_back checkout_id db) t ≡ true)
          ⊎ ((is_some r.order_id ≡ false)
              × (is_succeeded p.status ≡ true)
              × (p.checkout_id ≡ checkout_id))
    at [] known e = inl e
    at (q ∷ t) known e = elim (Bool-cases (is_given_back checkout_id (put_refund r db) q)) [
      | inr off ↦ elim (at t known.1 (ground (arith, e, off))) [
        | inl before ↦ inl (ground (arith, before))
        | inr now ↦ inr now
      ]
      | inl here ↦ elim (Bool-cases (r.payment_id == q.id)) [
        | inr other ↦ inl (ground (arith, here, other))
        | inl same ↦
            let e' : r.payment_id ≡ q.id = ground arith in
            let row : some q ≡ some p =
              sym known.0 ∙ ap (λ i. find i db.payments) (sym e') ∙ found in
            let row' : q ≡ p = cc in
            elim (Bool-cases (any (is_whole_refund q.id) db.refunds)) [
              | inl before ↦ inl (ground (arith, here, before))
              | inr fresh ↦ inr (
                ground (arith, here, fresh, row'),
                ground (arith, here, row'),
                ground (arith, here, row'),
              )
            ]
      ]
    ]

not_given_back :
    (item : PayoutItem) (r : Refund) (p : Payment) (db : Db)
    → Distinct db.payments
    → find r.payment_id db.payments ≡ some p
    → ((checkout_id : ℕ) (o : Order)
        → find item.order_id db.orders ≡ some o
        → o.checkout_id ≡ some checkout_id
        → is_some r.order_id ≡ false
        → is_succeeded p.status ≡ true
        → p.checkout_id ≡ checkout_id
        → is_live_payout item.status ≡ false)
    → Unspent db item
    → Unspent (put_refund r db) item
not_given_back item r p db distinct found apart old live o at_o checkout_id e =
    elim (Bool-cases (fully_refunded checkout_id (put_refund r db))) [
      | inr free ↦ free
      | inl back ↦ elim (given_back_by checkout_id r p db distinct found back) [
        | inl before ↦ absurd (ground (arith, before, old live o at_o checkout_id e))
        | inr (whole, paid, same) ↦
            absurd (ground (arith, live, apart checkout_id o at_o e whole paid same))
      ]
    ]

put_refund-IsExclusive :
    (r : Refund) (p : Payment) (db : Db)
    → Distinct db.payments
    → find r.payment_id db.payments ≡ some p
    → (is_some r.order_id ≡ true)
      ⊎ ((is_succeeded p.status ≡ false) ⊎ (is_paid_out p.checkout_id db ≡ false))
    → IsExclusive db
    → IsExclusive (put_refund r db)
put_refund-IsExclusive r p db distinct found (inl part) h =
    Every-map (Unspent db) (Unspent (put_refund r db)) db.payout_items
      (λ item old.
        not_given_back item r p db distinct found
          (λ _ _ _ _ whole _ _. absurd (ground (arith, part, whole))) old)
      h
put_refund-IsExclusive r p db distinct found (inr (inl unpaid)) h =
    Every-map (Unspent db) (Unspent (put_refund r db)) db.payout_items
      (λ item old.
        not_given_back item r p db distinct found
          (λ _ _ _ _ _ paid _. absurd (ground (arith, unpaid, paid))) old)
      h
put_refund-IsExclusive r p db distinct found (inr (inr free)) h =
    Every-map
      (λ item.
        Unspent db item
        × ((is_live_payout item.status && order_in p.checkout_id item.order_id db) ≡ false))
      (Unspent (put_refund r db)) db.payout_items
      (λ item known.
        not_given_back item r p db distinct found
          (λ checkout_id o at_o e whole paid same. ground (arith, known.1, at_o, e, same)) known.0)
      (Every-both (Unspent db)
        (λ item. (is_live_payout item.status && order_in p.checkout_id item.order_id db) ≡ false)
        db.payout_items h (unpaid_items p.checkout_id db free))

-- A rewrite of refunds under which no whole refund comes alive gives no checkout back.
refunds-IsExclusive :
    (db db' : Db)
    → db'.payments ≡ db.payments
    → db'.orders ≡ db.orders
    → db'.payout_items ≡ db.payout_items
    → ((id : ℕ)
        → any (is_whole_refund id) db'.refunds ≡ true
        → any (is_whole_refund id) db.refunds ≡ true)
    → IsExclusive db
    → IsExclusive db'
unfolding fully_refunded
refunds-IsExclusive db db' payments orders items falls h = subst (Every (Unspent db')) (sym items) (
    Every-map (Unspent db) (Unspent db') db.payout_items
      (λ item old live o found checkout_id e. elim (Bool-cases (fully_refunded checkout_id db')) [
        | inr free ↦ free
        | inl back ↦
            let before : fully_refunded checkout_id db ≡ true =
              any-weaken (is_given_back checkout_id db') (is_given_back checkout_id db) db.payments
                (λ p given. ground (arith, given, falls p.id))
                (subst (λ t. any (is_given_back checkout_id db') t ≡ true) payments back) in
            let kept : fully_refunded checkout_id db ≡ false =
              old live o (subst (λ t. find item.order_id t ≡ some o) orders found) checkout_id e in
            absurd (ground (arith, before, kept))
      ])
      h)

submit-IsExclusive :
    (reply : RefundReply) (r : Refund) (db : Db) → IsExclusive db → IsExclusive (submit reply r db)
unfolding submit
submit-IsExclusive (RefundReply.unknown message) r db h = h
submit-IsExclusive (RefundReply.created provider_id) r db h =
    refunds-IsExclusive db (submit (RefundReply.created provider_id) r db) refl refl refl
      (λ id given.
        any-modify (is_whole_refund id) r.id
          (λ x. record x { provider_refund_id = some provider_id }) db.refunds (λ x. refl) given)
      h
submit-IsExclusive (RefundReply.refused message) r db h =
    refunds-IsExclusive db (submit (RefundReply.refused message) r db) refl refl refl
      (λ id given.
        any-update_many (is_whole_refund id) (pending_with_id r.id)
          (fail_refund (Reason.text message)) db.refunds (λ x here given. ground arith) given)
      h

refund_tx-IsExclusive :
    (admin_id payment_id : ℕ) (dto : CreateRefundDto) (db db' : Db) (r : Refund)
    → IsRefundable db
    → refund_tx admin_id payment_id dto db ≡ ok (r, db')
    → IsExclusive db'
unfolding refund_tx
refund_tx-IsExclusive admin_id payment_id dto db db' r h run =
    elim (Option-cases (find payment_id db.payments)) [
      | inl missing ↦ absurd (ground arith)
      | inr (p, found) ↦ elim (Option-cases (find p.checkout_id db.checkouts)) [
        | inl missing ↦ absurd (ground arith)
        | inr (c, at_c) ↦
            let (written, on, checked) =
              refund_found_whole admin_id dto p c db db' r (ground arith) in
            let at_p : find r.payment_id db.payments ≡ some p =
              ap (λ i. find i db.payments) (on ∙ find-key payment_id db.payments p found) ∙ found in
            subst IsExclusive (sym written) (put_refund-IsExclusive r p db h.0 at_p checked h.1)
      ]
    ]

-- Where payment ids are distinct and no order of a live payout was refunded in full, that is still
-- so after a refund by an admin, on every branch and whatever Paystack answers.
pub refund_excludes :
    (admin_id : ℕ) (reference : String) (dto : CreateRefundDto) (reply : RefundReply) (db : Db)
    → IsRefundable db
    → IsExclusive (Refund.refund admin_id reference dto reply db).1
unfolding Refund.refund
refund_excludes admin_id reference dto reply db h =
    elim (Option-cases (find_first (has_reference reference) db.payments)) [
      | inl missing ↦ rw (missing, Refund.refund) h.1
      | inr (p, found) ↦ rw (found, Refund.refund) (ran p (refund_tx admin_id p.id dto db) refl)
    ]
  where
    ran :
        (p : Payment) (r : Result (Refund × Db))
        → refund_tx admin_id p.id dto db ≡ r
        → IsExclusive
            (then_submit reply (elim r as (λ _. Result Refund × Db) [
              | ok (x, db') ↦ (ok x, db')
              | err e ↦ (err e, db)
            ])).1
    ran p (ok (x, db')) e =
        submit-IsExclusive reply x db' (refund_tx-IsExclusive admin_id p.id dto db db' x h e)
    ran p (err x) e = h.1
