-- ===== src/Payment/Service.antt =====
-- src/payment/payment.service.ts, and the rate of src/fx/fx.service.ts that it charges dollars at.
-- What Paystack answers is an argument.
use Prim.Native.String.{String}
use text.Mathlib.Text.{◌==◌ as str_eq}
use laicos_backend.Prelude.{
  ℕ, ◌+◌, ◌*◌, Bool, true, false, ◌&&◌, ◌||◌, not, Option, none, some, List, [], ◌∷◌, leb, ltb,
  ◌==◌, if◌then◌else◌,
}
use laicos_backend.Prelude.Table.{find, find_first, update_many, modify}
use laicos_backend.Schema.{
  Db, Result, ok, err, Failure, Tx, ◌>>=◌, ◌>>◌, pure, gets, or_throw, modify_db, throw_if,
  transaction, User, Order, OrderStatus, Checkout, CheckoutStatus, Payment, PaymentStatus, Refund,
  RefundStatus, Currency, Reason, FxRate, AuditActorType, is_unpaid, is_payment_pending,
  same_currency, payment_keyed, checkout_keyed,
}
use laicos_backend.Common.Money.{to_minor_units, ngn_to_usd, effective_rate}
use laicos_backend.Cart.Checkout.{
  is_open_attempt, abandon, is_unpaid_order, record_request, buyer_id_of,
}

pub record FxConfig : Type 0 where
  pub max_age_hours : ℕ
  pub margin_percent : ℕ

-- `fxRate.findFirst({ orderBy: { fetchedAt: 'desc' } })`.
unfoldable pub latest_rate : List FxRate → Option FxRate
latest_rate [] = none
latest_rate (r ∷ rs) = elim (latest_rate rs) [
  | none ↦ some r
  | some newest ↦ if ltb r.fetched_at newest.fetched_at then some newest else some r
]

-- `FxService.effectiveRate`.
unfoldable pub fx_effective_rate : FxConfig → ℕ → Tx ℕ
fx_effective_rate config now db = elim (latest_rate db.fx_rates) [
  | none ↦ err Failure.fx_rate_stale
  | some latest ↦
      if ltb (latest.fetched_at + config.max_age_hours * 3600000) now
      then err Failure.fx_rate_stale
      else ok (effective_rate latest.rate config.margin_percent, db)
]

pub record Charge : Type 0 where
  pub charged_amount : ℕ
  pub fx_rate : Option ℕ

-- `chargeFor`.
unfoldable pub charge_for : FxConfig → ℕ → ℕ → Currency → Tx Charge
unfolding fx_effective_rate
charge_for config now amount Currency.ngn =
    pure (record { charged_amount = amount; fx_rate = none })
charge_for config now amount Currency.usd = do
  rate ← fx_effective_rate config now
  pure (record { charged_amount = ngn_to_usd amount rate; fx_rate = some rate })

abbrev pub new_payment : Db → String → Currency → Checkout → Charge → Payment
new_payment db key currency checkout charge = record {
  id = db.next_id;
  reference = db.payment_references db.next_id;
  checkout_id = checkout.id;
  idempotency_key = key;
  status = PaymentStatus.pending;
  amount = checkout.total_price;
  currency = currency;
  charged_amount = charge.charged_amount;
  fx_rate = charge.fx_rate;
  channel = none;
  failure_reason = none;
  provider_data = none;
  confirmed_by_id = none;
  paid_at = none;
}

-- The attempt replaces the one that was open.
abbrev pub put_attempt : Payment → Db → Db
put_attempt p db = record db {
  payments = p ∷ update_many (is_open_attempt p.checkout_id) abandon db.payments;
  next_id = db.next_id + 1;
}

abbrev pub is_attempt : ℕ → String → Payment → Bool
is_attempt checkout_id key p = p.checkout_id == checkout_id && str_eq p.idempotency_key key

-- `initiate`, once it is known that the key is new.
unfoldable pub initiate_new : FxConfig → ℕ → String → Currency → Checkout → Tx (Payment × Bool)
unfolding charge_for
initiate_new config now key currency checkout = do
  throw_if (not (is_unpaid checkout.status) || leb checkout.expires_at now)
      Failure.checkout_not_payable
  charge ← charge_for config now checkout.total_price currency
  payment ← gets λ db. new_payment db key currency checkout charge
  modify_db (put_attempt payment)
  pure (payment, true)

-- The transaction of `initiate`: the attempt, and whether it is new.
unfoldable pub initiate_tx : FxConfig → ℕ → ℕ → ℕ → String → Currency → Tx (Payment × Bool)
initiate_tx config now buyer_id checkout_id key currency = do
  checkout ←
      or_throw Failure.checkout_not_found
        (← gets λ db. find_first (λ c. c.id == checkout_id && c.buyer_id == buyer_id) db.checkouts)
  replay ← gets λ db. find_first (is_attempt checkout_id key) db.payments
  elim replay [
    | some payment ↦ pure (payment, false)
    | none ↦ initiate_new config now key currency checkout
  ]

-- What `initializeTransaction` answered: the page to pay on, or a PaystackError's message.
pub data InitializeReply : Type 0 where
  opened refused : String → InitializeReply

abbrev fail_open : Reason → Payment → Payment
fail_open reason p =
    if is_payment_pending p.status
    then record p { status = PaymentStatus.failed; failure_reason = some reason }
    else p

-- `openCheckout`, which runs after the commit.
unfoldable pub open_checkout : InitializeReply → Payment → Db → Result Payment × Db
open_checkout (InitializeReply.opened page) payment db = (
  ok (record payment { provider_data = some page }),
  record db {
    payments = modify payment.id (λ p. record p { provider_data = some page }) db.payments;
  },
)
open_checkout (InitializeReply.refused message) payment db = (
  err Failure.provider_unavailable,
  record db { payments = modify payment.id (fail_open (Reason.text message)) db.payments },
)

abbrev after_commit : InitializeReply → Result (Payment × Bool) × Db → Result Payment × Db
after_commit reply (err e, db) = (err e, db)
after_commit reply (ok (payment, false), db) = (ok payment, db)
after_commit reply (ok (payment, true), db) = open_checkout reply payment db

abbrev initiate_as :
    FxConfig → ℕ → Result ℕ → ℕ → String → Currency → InitializeReply → Db → Result Payment × Db
initiate_as config now (err e) checkout_id key currency reply db = (err e, db)
initiate_as config now (ok buyer_id) checkout_id key currency reply db =
    after_commit reply (transaction (initiate_tx config now buyer_id checkout_id key currency) db)

-- `initiate`.
unfoldable pub initiate :
    FxConfig → ℕ → User → ℕ → String → Currency → InitializeReply → Db → Result Payment × Db
initiate config now user checkout_id key currency reply db =
    initiate_as config now (buyer_id_of user db) checkout_id key currency reply db

pub data ChargeStatus : Type 0 where
  success failed other : ChargeStatus

-- `VerifiedTransaction` of src/paystack/paystack.client.ts; `none` is a currency of no payment.
pub record VerifiedTransaction : Type 0 where
  pub reference : String
  pub status : ChargeStatus
  pub amount : ℕ
  pub currency : Option Currency
  pub channel : Option String

-- `APPLICABLE.includes(status)`.
abbrev pub is_applicable : PaymentStatus → Bool
is_applicable PaymentStatus.pending = true
is_applicable PaymentStatus.abandoned = true
is_applicable PaymentStatus.failed = true
is_applicable _ = false

abbrev pub in_currency : Option Currency → Currency → Bool
in_currency none c = false
in_currency (some v) c = same_currency v c

-- `orphanReason`: why a charge cannot pay the checkout, and whether the charge itself is wrong.
unfoldable pub orphan_reason : Payment → Checkout → VerifiedTransaction → Option (Reason × Bool)
orphan_reason payment checkout verified =
    let expected = to_minor_units payment.charged_amount in
    if not (in_currency verified.currency payment.currency) || not (verified.amount == expected)
    then some
        (Reason.wrong_charge verified.amount verified.currency expected payment.currency, true)
    else if not (is_unpaid checkout.status)
    then some (Reason.checkout_was checkout.status, false)
    else none

pub record Applied : Type 0 where
  pub payment : Payment
  pub refund : Option Refund
  pub mismatch : Bool

abbrev pub settled : Payment → Applied
settled p = record { payment = p; refund = none; mismatch = false }

abbrev pub put_payment : ℕ → (Payment → Payment) → Db → Db
put_payment id f db = record db { payments = modify id f db.payments }

abbrev pub mark_failed : Payment → Payment
mark_failed p = record p {
  status = PaymentStatus.failed;
  failure_reason = some (Reason.text "Paystack reported the charge failed");
}

abbrev pub mark_orphaned : Reason → Option String → ℕ → Payment → Payment
mark_orphaned reason channel now p = record p {
  status = PaymentStatus.orphaned;
  failure_reason = some reason;
  channel = channel;
  paid_at = some now;
}

abbrev pub mark_succeeded : Option ℕ → Option String → ℕ → Payment → Payment
mark_succeeded applied_by channel now p = record p {
  status = PaymentStatus.succeeded;
  paid_at = some now;
  channel = channel;
  confirmed_by_id = applied_by;
}

-- `RefundService.createAutomatic`.
abbrev pub automatic_refund : ℕ → Payment → Reason → Refund
automatic_refund id p reason = record {
  id = id;
  payment_id = p.id;
  order_id = none;
  amount = p.charged_amount;
  status = RefundStatus.pending;
  reason = reason;
  initiated_by_id = none;
  provider_refund_id = none;
  failure_reason = none;
}

abbrev pub put_refund : Refund → Db → Db
put_refund r db = record db { refunds = r ∷ db.refunds; next_id = db.next_id + 1 }

unfoldable pub apply_orphan : ℕ → VerifiedTransaction → Payment → Reason × Bool → Tx Applied
apply_orphan now verified payment (reason, mismatch) = do
  let orphaned = mark_orphaned reason verified.channel now payment
  modify_db (put_payment payment.id (mark_orphaned reason verified.channel now))
  refund ← gets λ db. automatic_refund db.next_id orphaned reason
  modify_db (put_refund refund)
  pure (record { payment = orphaned; refund = some refund; mismatch = mismatch })

abbrev pub pay_checkout : ℕ → Checkout → Checkout
pay_checkout now c = record c { status = CheckoutStatus.paid; paid_at = some now }

abbrev pub place_paid : Order → Order
place_paid o = record o { status = OrderStatus.pending }

unfoldable pub apply_paid : ℕ → VerifiedTransaction → Option ℕ → Payment → Checkout → Tx Applied
apply_paid now verified applied_by payment checkout = do
  modify_db (put_payment payment.id (mark_succeeded applied_by verified.channel now))
  modify_db (λ db. record db {
    checkouts = modify payment.checkout_id (pay_checkout now) db.checkouts;
    orders = update_many (is_unpaid_order payment.checkout_id) place_paid db.orders;
  })
  modify_db (
      record_request now AuditActorType.buyer "Payment received" payment.reference
        checkout.sourcing_request_id)
  pure (settled (mark_succeeded applied_by verified.channel now payment))

-- A charge that did not succeed: only an open attempt becomes FAILED.
unfoldable pub apply_unpaid : ChargeStatus → Payment → Tx Applied
apply_unpaid ChargeStatus.failed payment =
    if is_payment_pending payment.status
    then modify_db (put_payment payment.id mark_failed) >> pure (settled (mark_failed payment))
    else pure (settled payment)
apply_unpaid _ payment = pure (settled payment)

abbrev pub is_success : ChargeStatus → Bool
is_success ChargeStatus.success = true
is_success _ = false

abbrev pub has_reference : String → Payment → Bool
has_reference reference p = str_eq p.reference reference

-- The transaction of `applyVerifiedCharge`, from the payment and checkout read under the lock.
unfoldable pub apply_to : ℕ → VerifiedTransaction → Option ℕ → Payment → Checkout → Tx Applied
unfolding apply_unpaid
apply_to now verified applied_by payment checkout =
    if not (is_applicable payment.status)
    then pure (settled payment)
    else if not (is_success verified.status)
    then apply_unpaid verified.status payment
    else elim (orphan_reason payment checkout verified) [
      | some orphan ↦ apply_orphan now verified payment orphan
      | none ↦ apply_paid now verified applied_by payment checkout
    ]

unfoldable pub apply_verified_charge_tx : ℕ → VerifiedTransaction → Option ℕ → Tx Applied
apply_verified_charge_tx now verified applied_by = do
  payment ←
      or_throw Failure.record_not_found
        (← gets λ db. find_first (has_reference verified.reference) db.payments)
  checkout ← or_throw Failure.record_not_found (← gets λ db. find payment.checkout_id db.checkouts)
  apply_to now verified applied_by payment checkout
