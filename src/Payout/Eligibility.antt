-- ===== src/Payout/Eligibility.antt =====
-- src/payout/utils/eligibility.ts: the orders that an admin may pay out now. Times are milliseconds.
use laicos_backend.Prelude.{
  ℕ, ◌+◌, ◌*◌, Bool, true, false, ◌&&◌, not, none, some, leb, is_some, ◌==◌,
}
use laicos_backend.Prelude.Table.{find, any}
use laicos_backend.Schema.{
  Db, Order, Refund, Payment, PayoutItem, RefundStatus, is_fulfilled, is_paid, is_succeeded,
  farm_keyed, checkout_keyed, account_keyed,
}
use laicos_backend.Payment.Refund.{is_live_payout}

abbrev pub hour_ms : ℕ
hour_ms = 3600000

-- `in: [PENDING, PROCESSED]`.
abbrev pub is_settling : RefundStatus → Bool
is_settling RefundStatus.pending = true
is_settling RefundStatus.processed = true
is_settling RefundStatus.failed = false

-- A refund of a payment's whole balance.
abbrev pub is_whole_refund : ℕ → Refund → Bool
is_whole_refund payment_id r =
    r.payment_id == payment_id && (not (is_some r.order_id) && is_settling r.status)

abbrev pub is_given_back : ℕ → Db → Payment → Bool
is_given_back checkout_id db p =
    p.checkout_id == checkout_id && (is_succeeded p.status && any (is_whole_refund p.id) db.refunds)

-- The buyer got the produce money of the checkout back.
unfoldable pub fully_refunded : ℕ → Db → Bool
fully_refunded checkout_id db = any (is_given_back checkout_id db) db.payments

abbrev pub is_live_item : ℕ → PayoutItem → Bool
is_live_item order_id item = item.order_id == order_id && is_live_payout item.status

-- `checkout: { is: … }`.
unfoldable pub payable_checkout : Db → Order → Bool
payable_checkout db order = elim order.checkout_id [
  | none ↦ false
  | some checkout_id ↦ elim (find checkout_id db.checkouts) [
    | none ↦ false
    | some checkout ↦ is_paid checkout.status && not (fully_refunded checkout_id db)
  ]
]

-- `farm: { owner: { bankAccount: … } }`.
unfoldable pub account_ready : ℕ → Db → Order → Bool
account_ready now db order = elim (find order.farm_id db.farms) [
  | none ↦ false
  | some farm ↦ elim (find farm.owner_id db.bank_accounts) [
    | none ↦ false
    | some account ↦ leb account.payouts_held_until now
  ]
]

abbrev pub held_long : ℕ → ℕ → Order → Bool
held_long now hold_hours order = elim order.fulfilled_at [
  | none ↦ false
  | some fulfilled_at ↦ leb (fulfilled_at + hold_hours * hour_ms) now
]

-- `eligibleOrders`, as a test on a row.
unfoldable pub is_eligible : ℕ → ℕ → Db → Order → Bool
is_eligible now hold_hours db order =
    is_fulfilled order.status
    && (held_long now hold_hours order
        && (payable_checkout db order
            && (not (any (is_live_item order.id) db.payout_items) && account_ready now db order)))
