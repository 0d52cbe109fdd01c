-- ===== src/Tests/Payouts.antt =====
-- The payout service run on a fulfilled order, and on one that a payout is already on its way for.
use laicos_backend.Prelude.{
  ℕ, ◌≡◌, refl, inl, inr, none, some, List, [], ◌∷◌, arith, ◌==◌, Bool-cases,
}
use laicos_backend.Schema.{
  Db, ok, CheckoutStatus, OrderStatus, Order, FarmerBankAccount, Payout, PayoutItem, PayoutStatus,
  order_keyed, payout_keyed,
}
use laicos_backend.Payment.Refund
use laicos_backend.Payment.Refund.{CreateRefundDto, RefundReply}
use laicos_backend.Payout.Eligibility.{is_eligible, fully_refunded, payable_checkout, account_ready}
use laicos_backend.Payout.Service
use laicos_backend.Payout.Service.{
  Batch, TransferReply, TransferResult, Outcome, approve, apply_transfer_result,
}
use laicos_backend.Payout.Once.{IsPaidOutOnce}
use laicos_backend.Payout.Exclusive.{IsExclusive}
use laicos_backend.Payout.Approve.{IsPayable}
use laicos_backend.Payout.Methods.{approve_succeeds, apply_transfer_result-IsPayable}
use laicos_backend.Payout.Refunds.{refund_excludes}
use laicos_backend.Tests.Shop.{shop, order_of, open_checkout}
use laicos_backend.Tests.Payments.{paid, everything}

abbrev delivered : ℕ → Order
delivered id = record (order_of id 2 OrderStatus.fulfilled) {
  checkout_id = some 21;
  fulfilled_at = some 300;
}

abbrev account : FarmerBankAccount
account = record {
  farmer_id = 4;
  bank_code = "058";
  bank_name = "GTB";
  account_number = "0123456789";
  account_name = "Ada";
  recipient_code = "RCP";
  set_by_id = 9;
  payouts_held_until = 200;
}

abbrev under_way : Payout
under_way = record {
  id = 81;
  reference = "PO-1";
  farmer_id = 4;
  amount = 40000;
  bank_name = "GTB";
  account_number = "0123456789";
  account_name = "Ada";
  recipient_code = "RCP";
  status = PayoutStatus.pending;
  transfer_code = none;
  failure_reason = none;
  approved_by_id = 9;
  paid_at = none;
}

abbrev its_item : PayoutItem
its_item = record {
  id = 82;
  payout_id = 81;
  order_id = 13;
  amount = 40000;
  status = PayoutStatus.pending;
}

abbrev paying : Db
paying = record shop {
  orders = delivered 12 ∷ delivered 13 ∷ [];
  checkouts = record open_checkout { status = CheckoutStatus.paid } ∷ [];
  payments = paid ∷ [];
  bank_accounts = account ∷ [];
  payouts = under_way ∷ [];
  payout_items = its_item ∷ [];
  next_id = 90;
}

paying-IsPaidOutOnce : IsPaidOutOnce paying
paying-IsPaidOutOnce = record {
  once = λ id. elim (Bool-cases (13 == id)) [ inl here ↦ ground arith | inr other ↦ ground arith ];
  mirrored = (λ p e. ground arith, tt);
  numbered = (ground arith, tt);
}

paying-IsExclusive : IsExclusive paying
unfolding fully_refunded
paying-IsExclusive = (λ live o e checkout_id e'. ground arith, tt)

paying-IsPayable : IsPayable paying
paying-IsPayable = ((refl, (refl, tt)), paying-IsPaidOutOnce, paying-IsExclusive)

abbrev tomorrow : ℕ
tomorrow = 86400300

abbrev orders_in_payouts : Db → List ℕ
orders_in_payouts db = at db.payout_items
  where
    at : List PayoutItem → List ℕ
    at [] = []
    at (item ∷ items) = item.order_id ∷ at items

-- Approving pays for the free order alone; asking again skips the farmer.
approve_run :
    orders_in_payouts (approve tomorrow 24 9 (4 ∷ []) (TransferReply.unknown "timeout") paying).1
    ≡ 12 ∷ 13 ∷ []
unfolding approve Service.approve_each Service.approve_farmer Service.create_payout is_eligible
    payable_checkout account_ready fully_refunded Service.send
approve_run = refl

approve_succeeds_example :
    (batch : Batch) × ((approve tomorrow 24 9 (4 ∷ []) (TransferReply.unknown "timeout") paying).0
      ≡ ok batch)
    × IsPayable (approve tomorrow 24 9 (4 ∷ []) (TransferReply.unknown "timeout") paying).1
approve_succeeds_example =
    approve_succeeds tomorrow 24 9 (4 ∷ []) (TransferReply.unknown "timeout") paying
      paying-IsPayable

abbrev bounced : TransferResult
bounced = record { reference = 81; outcome = Outcome.failed; reason = some "Closed account" }

apply_transfer_result-IsPayable_example :
    IsPayable (apply_transfer_result (λ _. "400.00") tomorrow bounced paying)
apply_transfer_result-IsPayable_example =
    apply_transfer_result-IsPayable (λ _. "400.00") tomorrow bounced paying paying-IsPayable

refund_excludes_example :
    IsExclusive (Refund.refund 9 "PAY-1" everything (RefundReply.created "RF-3") paying).1
refund_excludes_example =
    refund_excludes 9 "PAY-1" everything (RefundReply.created "RF-3") paying
      ((refl, tt), paying-IsExclusive)
