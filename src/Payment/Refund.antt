-- ===== src/Payment/Refund.antt =====
-- src/payment/refund.service.ts. What Paystack answers is an argument. The share of an order is
-- computed exactly and rounded down once.
pub mod Bounded
use Prim.Native.String.{String}
use text.Mathlib.Text.{◌==◌ as str_eq}
use laicos_backend.Prelude.{
  ℕ, ◌+◌, ◌-◌, ◌*◌, Bool, true, false, ◌&&◌, ◌||◌, not, Option, none, some, List, [], ◌∷◌, leb, ltb,
  is_some, same_id, ◌==◌, if◌then◌else◌,
}
use laicos_backend.Prelude.Table.{
  find, find_first, find_many, any, update_many, modify, sum_by, sort_by,
}
use laicos_backend.Schema.{
  Db, Result, ok, err, Failure, Tx, ◌>>=◌, ◌>>◌, pure, throw, gets, or_throw, modify_db, throw_if,
  transaction, Order, Checkout, Payment, PaymentStatus, Refund, RefundStatus, PayoutItem,
  PayoutStatus, Reason, is_succeeded, is_orphaned, is_refund_pending, is_refund_failed,
  is_cancelled, payment_keyed, checkout_keyed, order_keyed, refund_keyed,
}
use laicos_backend.Common.Money.{proportional_share, to_minor_units}
use laicos_backend.Payment.Service.{
  has_reference, Applied, VerifiedTransaction, apply_verified_charge_tx, put_refund,
}

pub record CreateRefundDto : Type 0 where
  pub order_id : Option ℕ
  pub reason : String

abbrev pub is_live_payout : PayoutStatus → Bool
is_live_payout PayoutStatus.pending = true
is_live_payout PayoutStatus.succeeded = true
is_live_payout _ = false

abbrev pub order_in : ℕ → ℕ → Db → Bool
order_in checkout_id order_id db = elim (find order_id db.orders) [
  | none ↦ false
  | some order ↦ same_id order.checkout_id checkout_id
]

-- `lockAndCheckPayouts`: some order of the checkout has a live payout item.
unfoldable pub is_paid_out : ℕ → Db → Bool
is_paid_out checkout_id db =
    any (λ item. is_live_payout item.status && order_in checkout_id item.order_id db)
      db.payout_items

abbrev pub is_live_refund : ℕ → Refund → Bool
is_live_refund payment_id r = r.payment_id == payment_id && not (is_refund_failed r.status)

abbrev pub live_refunds : ℕ → Db → List Refund
live_refunds payment_id db = find_many (is_live_refund payment_id) db.refunds

abbrev pub refunded : List Refund → ℕ
refunded live = sum_by (λ r. r.amount) live

-- What goes back for one order: its price and its share of the service fee, in the charge's currency.
unfoldable pub order_share : Payment → Checkout → Order → ℕ
order_share payment checkout order =
    proportional_share (order.total_price * (checkout.subtotal + checkout.service_fee))
      (checkout.subtotal * payment.amount) payment.charged_amount

-- `orderRefundAmount`.
unfoldable pub order_refund_amount : Payment → Checkout → List Refund → ℕ → Tx ℕ
order_refund_amount payment checkout live order_id db = elim (find order_id db.orders) [
  | none ↦ err Failure.order_not_refundable
  | some order ↦
      if not (same_id order.checkout_id payment.checkout_id) || not (is_cancelled order.status)
      then err Failure.order_not_refundable
      else if any (λ r. same_id r.order_id order_id) live
      then err Failure.order_already_refunded
      else ok (order_share payment checkout order, db)
]

abbrev pub is_refundable : CreateRefundDto → PaymentStatus → Bool
is_refundable dto status = is_succeeded status || (not (is_some dto.order_id) && is_orphaned status)

abbrev new_refund : ℕ → ℕ → CreateRefundDto → ℕ → ℕ → Refund
new_refund id payment_id dto amount admin_id = record {
  id = id;
  payment_id = payment_id;
  order_id = dto.order_id;
  amount = amount;
  status = RefundStatus.pending;
  reason = Reason.text dto.reason;
  initiated_by_id = some admin_id;
  provider_refund_id = none;
  failure_reason = none;
}

abbrev amount_for : Payment → Checkout → List Refund → ℕ → Option ℕ → Tx ℕ
amount_for payment checkout live remaining none = pure remaining
amount_for payment checkout live remaining (some order_id) =
    order_refund_amount payment checkout live order_id

-- The transaction of `refund`, from the payment read under its lock.
unfoldable pub refund_found : ℕ → CreateRefundDto → Payment → Checkout → Tx Refund
refund_found admin_id dto payment checkout = do
  throw_if (not (is_refundable dto payment.status)) Failure.payment_not_refundable
  paid_out ← gets (is_paid_out payment.checkout_id)
  throw_if (not (is_some dto.order_id) && (is_succeeded payment.status && paid_out))
      Failure.orders_paid_out
  live ← gets (live_refunds payment.id)
  amount ← amount_for payment checkout live (payment.charged_amount - refunded live) dto.order_id
  throw_if (leb (payment.charged_amount - refunded live) 0) Failure.nothing_to_refund
  throw_if (ltb (payment.charged_amount - refunded live) amount) Failure.refund_exceeds_balance
  refund ← gets λ db. new_refund db.next_id payment.id dto amount admin_id
  modify_db (put_refund refund)
  pure refund

unfoldable pub refund_tx : ℕ → ℕ → CreateRefundDto → Tx Refund
refund_tx admin_id payment_id dto = do
  payment ← or_throw Failure.record_not_found (← gets λ db. find payment_id db.payments)
  checkout ← or_throw Failure.record_not_found (← gets λ db. find payment.checkout_id db.checkouts)
  refund_found admin_id dto payment checkout

-- What `createRefund` answered: Paystack's id, or an error that proves a refusal or does not.
pub data RefundReply : Type 0 where
  created : String → RefundReply
  refused unknown : String → RefundReply

abbrev pub fail_refund : Reason → Refund → Refund
fail_refund reason r = record r { status = RefundStatus.failed; failure_reason = some reason }

abbrev pub pending_with_id : ℕ → Refund → Bool
pending_with_id id r = r.id == id && is_refund_pending r.status

-- `submit`: it writes the refund's row only.
unfoldable pub submit : RefundReply → Refund → Db → Db
submit (RefundReply.created provider_id) refund db = record db {
  refunds = modify refund.id (λ r. record r { provider_refund_id = some provider_id }) db.refunds;
}
submit (RefundReply.unknown message) refund db = db
submit (RefundReply.refused message) refund db = record db {
  refunds = update_many (pending_with_id refund.id) (fail_refund (Reason.text message)) db.refunds;
}

-- The row that `submit` answers with.
abbrev stored : Refund → Db → Refund
stored refund db = elim (find refund.id db.refunds) [ none ↦ refund | some row ↦ row ]

abbrev pub then_submit : RefundReply → Result Refund × Db → Result Refund × Db
then_submit reply (err e, db) = (err e, db)
then_submit reply (ok refund, db) =
    (ok (stored refund (submit reply refund db)), submit reply refund db)

-- `refund`.
unfoldable pub refund : ℕ → String → CreateRefundDto → RefundReply → Db → Result Refund × Db
refund admin_id reference dto reply db = elim (find_first (has_reference reference) db.payments) [
  | none ↦ (err Failure.payment_not_found, db)
  | some found ↦ then_submit reply (transaction (refund_tx admin_id found.id dto) db)
]

pub record RefundResult : Type 0 where
  pub provider_refund_id : Option String
  pub transaction_reference : String
  pub processed : Bool
  pub reason : Option String

abbrev has_provider_id : String → Refund → Bool
has_provider_id provider_id r = elim r.provider_refund_id [
  | none ↦ false
  | some i ↦ str_eq i provider_id
]

abbrev is_on : String → Db → Refund → Bool
is_on reference db r = elim (find r.payment_id db.payments) [
  | none ↦ false
  | some p ↦ has_reference reference p
]

-- The oldest pending refund on the reference.
abbrev oldest_pending : String → Db → Option Refund
oldest_pending reference db =
    find_first (λ r. is_refund_pending r.status && is_on reference db r)
      (sort_by (λ r. r.id) db.refunds)

-- `findForResult`.
unfoldable pub find_for_result : RefundResult → Db → Option Refund
find_for_result result db = elim result.provider_refund_id [
  | none ↦ oldest_pending result.transaction_reference db
  | some provider_id ↦ elim (find_first (has_provider_id provider_id) db.refunds) [
    | some by_id ↦ some by_id
    | none ↦ oldest_pending result.transaction_reference db
  ]
]

abbrev reason_or : Option String → String → Reason
reason_or none text = Reason.text text
reason_or (some given) text = Reason.text given

abbrev pub settle_refund : RefundResult → Refund → Refund
settle_refund result r =
    if result.processed
    then record r { status = RefundStatus.processed }
    else fail_refund (reason_or result.reason "Paystack could not process the refund") r

-- `applyResult`.
unfoldable pub apply_result : RefundResult → Db → Db
apply_result result db = elim (find_for_result result db) [
  | none ↦ db
  | some refund ↦
      if is_refund_pending refund.status
      then record db {
        refunds = update_many (pending_with_id refund.id) (settle_refund result) db.refunds;
      }
      else db
]

-- The end of `PaymentService.applyVerifiedCharge`: an automatic refund is submitted.
abbrev pub submit_automatic : RefundReply → Applied → Db → Db
submit_automatic reply applied db = elim applied.refund [ none ↦ db | some r ↦ submit reply r db ]

-- `PaymentService.applyVerifiedCharge`.
unfoldable pub apply_verified_charge :
    ℕ → VerifiedTransaction → Option ℕ → RefundReply → Db → Result (Option Payment) × Db
apply_verified_charge now verified applied_by reply db =
    elim (find_first (has_reference verified.reference) db.payments) [
      | none ↦ (ok none, db)
      | some found ↦ elim (apply_verified_charge_tx now verified applied_by db) [
        | err e ↦ (err e, db)
        | ok (applied, db') ↦ (ok (some applied.payment), submit_automatic reply applied db')
      ]
    ]
