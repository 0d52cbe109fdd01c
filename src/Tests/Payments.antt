-- ===== src/Tests/Payments.antt =====
-- The payment and refund services run on the small marketplace.
use text.Mathlib.Text.{◌==◌ as str_eq}
use laicos_backend.Prelude.{
  ℕ, ◌+◌, ◌*◌, ◌≤◌, ◌<◌, inl, inr, none, some, [], ◌∷◌, ◌==◌, arith, Bool-cases, false,
}
use laicos_backend.Prelude.Table.{sum_by}
use laicos_backend.Schema.{
  Db, CheckoutStatus, Payment, PaymentStatus, Refund, RefundStatus, Reason, Currency, payment_keyed,
  checkout_keyed,
}
use laicos_backend.Common.Money.{
  percent_of, percent_of_nearest, ngn_to_usd, ngn_to_usd_least, proportional_share,
  proportional_share_sum,
}
use laicos_backend.Payment.Service.{VerifiedTransaction, ChargeStatus}
use laicos_backend.Prelude.{Bool, true, ◌&&◌, ◌≡◌, refl}
use laicos_backend.Prelude.Table.{find_first, find_many}
use laicos_backend.Schema.{Result, ok, err, Checkout, is_unpaid}
use laicos_backend.Cart.Checkout.{is_open_attempt}
use laicos_backend.Payment.Service
use laicos_backend.Payment.Service.{FxConfig, initiate_tx}
use laicos_backend.Payment.Attempts.{initiate_tx_opens, initiate_tx_replay}
use laicos_backend.Payment.Refund
use laicos_backend.Payment.Refund.{
  CreateRefundDto, RefundReply, RefundResult, apply_result, apply_verified_charge,
}
use laicos_backend.Payment.Refund.Bounded.{IsBounded, apply_result-IsBounded}
use laicos_backend.Payment.Charge.Invariants.{IsPaidOnce}
use laicos_backend.Payment.Methods.{IsKeyed, apply_verified_charge_keeps, refund_keeps}
use laicos_backend.Tests.Shop.{shop, open_checkout}

abbrev attempt : Payment
attempt = record {
  id = 61;
  reference = "PAY-1";
  checkout_id = 21;
  idempotency_key = "pay";
  status = PaymentStatus.pending;
  amount = 57000;
  currency = Currency.ngn;
  charged_amount = 57000;
  fx_rate = none;
  channel = none;
  failure_reason = none;
  provider_data = none;
  confirmed_by_id = none;
  paid_at = none;
}

abbrev charging : Db
charging = record shop { payments = attempt ∷ [] }

abbrev charge : VerifiedTransaction
charge = record {
  reference = "PAY-1";
  status = ChargeStatus.success;
  amount = 57000;
  currency = some Currency.ngn;
  channel = some "card";
}

charging-IsKeyed : IsKeyed charging
charging-IsKeyed reference p found = elim (Bool-cases (str_eq "PAY-1" reference)) [
  | inl here ↦ ground arith
  | inr other ↦ ground arith
]

charging-IsBounded : IsBounded charging
charging-IsBounded = record { bounded = λ id p e. ground arith }

charging-IsPaidOnce : IsPaidOnce charging
charging-IsPaidOnce = record {
  once =
      λ id c e. elim (Bool-cases (21 == id)) [ inl here ↦ ground arith | inr other ↦ ground arith ];
}

abbrev pub paid : Payment
paid = record attempt { status = PaymentStatus.succeeded }

-- One order of the paid checkout was cancelled and refunded; Paystack has not answered yet.
abbrev earlier : Refund
earlier = record {
  id = 71;
  payment_id = 61;
  order_id = some 12;
  amount = 42000;
  status = RefundStatus.pending;
  reason = Reason.text "Cancelled";
  initiated_by_id = some 9;
  provider_refund_id = some "RF-1";
  failure_reason = none;
}

abbrev refunding : Db
refunding = record shop {
  payments = paid ∷ [];
  checkouts = record open_checkout { status = CheckoutStatus.paid } ∷ [];
  refunds = earlier ∷ [];
}

refunding-IsBounded : IsBounded refunding
refunding-IsBounded = record {
  bounded =
      λ id p e. elim (Bool-cases (61 == id)) [ inl here ↦ ground arith | inr other ↦ ground arith ];
}

abbrev pub everything : CreateRefundDto
everything = record { order_id = none; reason = "Goodwill" }

abbrev refund_failed : RefundResult
refund_failed = record {
  provider_refund_id = some "RF-1";
  transaction_reference = "PAY-1";
  processed = false;
  reason = none;
}

apply_verified_charge_keeps_example :
    let db' = (apply_verified_charge 400 charge none (RefundReply.unknown "down") charging).1 in
    IsBounded db' × IsPaidOnce db'
apply_verified_charge_keeps_example =
    apply_verified_charge_keeps 400 charge none (RefundReply.unknown "down") charging
      charging-IsKeyed charging-IsBounded charging-IsPaidOnce

refund_keeps_example :
    IsBounded (Refund.refund 9 "PAY-1" everything (RefundReply.created "RF-2") refunding).1
refund_keeps_example =
    refund_keeps 9 "PAY-1" everything (RefundReply.created "RF-2") refunding refunding-IsBounded

apply_result-IsBounded_example : IsBounded (apply_result refund_failed refunding)
apply_result-IsBounded_example = apply_result-IsBounded refund_failed refunding refunding-IsBounded

proportional_share_sum_example :
    sum_by (λ part. proportional_share part 57000 3801) (40000 ∷ 15000 ∷ []) ≤ 3801
proportional_share_sum_example =
    proportional_share_sum (40000 ∷ 15000 ∷ []) 57000 3801 (omega arith) (omega arith)

ngn_to_usd_least_example :
    (57000 * 1000000 ≤ ngn_to_usd 57000 1500000000 * 1500000000)
    × ((usd : ℕ) → 57000 * 1000000 ≤ usd * 1500000000 → ngn_to_usd 57000 1500000000 ≤ usd)
ngn_to_usd_least_example = ngn_to_usd_least 57000 1500000000 (omega arith)

percent_of_nearest_example :
    (20000 * percent_of 40000 525 ≤ 2 * (40000 * 525) + 10000)
    × (2 * (40000 * 525) < 20000 * percent_of 40000 525 + 10000)
percent_of_nearest_example = percent_of_nearest 40000 525

abbrev fx : FxConfig
fx = record { max_age_hours = 6; margin_percent = 200 }

abbrev attempted : Result ((Payment × Bool) × Db)
attempted = initiate_tx fx 400 2 21 "again" Currency.ngn charging

abbrev opened : Payment
opened = elim attempted [ ok ((p, fresh), db) ↦ p | err e ↦ attempt ]

abbrev opened_db : Db
opened_db = elim attempted [ ok (a, db) ↦ db | err e ↦ charging ]

opened_run : attempted ≡ ok ((opened, true), opened_db)
unfolding initiate_tx Service.initiate_new Service.charge_for
opened_run = refl

initiate_tx_opens_example :
    (c : Checkout) × (find_first (λ c. c.id == 21 && c.buyer_id == 2) charging.checkouts ≡ some c)
    × (is_unpaid c.status ≡ true)
    × (400 < c.expires_at)
    × (opened.amount ≡ c.total_price)
    × (find_many (is_open_attempt 21) opened_db.payments ≡ opened ∷ [])
initiate_tx_opens_example =
    initiate_tx_opens fx 400 2 21 "again" Currency.ngn charging opened_db opened opened_run

initiate_tx_replay_example :
    initiate_tx fx 450 2 21 "again" Currency.usd opened_db ≡ ok ((opened, false), opened_db)
initiate_tx_replay_example =
    initiate_tx_replay fx 400 2 21 "again" Currency.ngn charging opened_db opened true opened_run fx
      450 Currency.usd
