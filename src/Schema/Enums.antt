-- ===== src/Schema/Enums.antt =====
-- The enums of prisma/schema.prisma, with the tests `status === X` that the services make.
use laicos_backend.Prelude.{Bool, true, false}

pub data OrderStatus : Type 0 where
  awaiting_payment pending confirmed preparing ready shipped fulfilled cancelled : OrderStatus

pub data CheckoutStatus : Type 0 where
  awaiting_payment paid expired cancelled : CheckoutStatus

pub data PaymentStatus : Type 0 where
  pending succeeded failed abandoned orphaned : PaymentStatus

pub data RefundStatus : Type 0 where
  pending processed failed : RefundStatus

pub data PayoutStatus : Type 0 where
  pending succeeded failed reversed : PayoutStatus

pub data ProduceStatus : Type 0 where
  draft published sold_out disabled : ProduceStatus

pub data FarmVerificationStatus : Type 0 where
  pending verified rejected suspended : FarmVerificationStatus

pub data HandoverStatus : Type 0 where
  pending verified handed_over : HandoverStatus

pub data SourcingRequestStatus : Type 0 where
  new in_review finding_supply awaiting_buyer confirmed fulfilment completed closed :
      SourcingRequestStatus

pub data SourcingUnit : Type 0 where
  kg tonnes bags crates baskets litres pieces : SourcingUnit

pub data Currency : Type 0 where
  ngn usd : Currency

pub data Role : Type 0 where
  farmer buyer admin extension_agent rider : Role

pub data AuditActorType : Type 0 where
  farmer extension_agent admin buyer system : AuditActorType

pub data AuditCategory : Type 0 where
  application profile documents farm listing order payout onboarding verification handover chat :
      AuditCategory
  sourcing assignment matching : AuditCategory

pub data AuditResource : Type 0 where
  farmer agent farm produce order payout conversation sourcing_request checkout : AuditResource

abbrev pub is_awaiting_payment : OrderStatus → Bool
is_awaiting_payment OrderStatus.awaiting_payment = true
is_awaiting_payment _ = false

abbrev pub is_pending : OrderStatus → Bool
is_pending OrderStatus.pending = true
is_pending _ = false

abbrev pub is_confirmed : OrderStatus → Bool
is_confirmed OrderStatus.confirmed = true
is_confirmed _ = false

abbrev pub is_preparing : OrderStatus → Bool
is_preparing OrderStatus.preparing = true
is_preparing _ = false

abbrev pub is_ready : OrderStatus → Bool
is_ready OrderStatus.ready = true
is_ready _ = false

abbrev pub is_shipped : OrderStatus → Bool
is_shipped OrderStatus.shipped = true
is_shipped _ = false

abbrev pub is_fulfilled : OrderStatus → Bool
is_fulfilled OrderStatus.fulfilled = true
is_fulfilled _ = false

abbrev pub is_cancelled : OrderStatus → Bool
is_cancelled OrderStatus.cancelled = true
is_cancelled _ = false

abbrev pub is_unpaid : CheckoutStatus → Bool
is_unpaid CheckoutStatus.awaiting_payment = true
is_unpaid _ = false

abbrev pub is_paid : CheckoutStatus → Bool
is_paid CheckoutStatus.paid = true
is_paid _ = false

abbrev pub is_payment_pending : PaymentStatus → Bool
is_payment_pending PaymentStatus.pending = true
is_payment_pending _ = false

abbrev pub is_succeeded : PaymentStatus → Bool
is_succeeded PaymentStatus.succeeded = true
is_succeeded _ = false

abbrev pub is_orphaned : PaymentStatus → Bool
is_orphaned PaymentStatus.orphaned = true
is_orphaned _ = false

abbrev pub is_refund_pending : RefundStatus → Bool
is_refund_pending RefundStatus.pending = true
is_refund_pending _ = false

abbrev pub is_refund_failed : RefundStatus → Bool
is_refund_failed RefundStatus.failed = true
is_refund_failed _ = false

abbrev pub is_draft : ProduceStatus → Bool
is_draft ProduceStatus.draft = true
is_draft _ = false

abbrev pub is_published : ProduceStatus → Bool
is_published ProduceStatus.published = true
is_published _ = false

abbrev pub is_sold_out : ProduceStatus → Bool
is_sold_out ProduceStatus.sold_out = true
is_sold_out _ = false

abbrev pub is_disabled : ProduceStatus → Bool
is_disabled ProduceStatus.disabled = true
is_disabled _ = false

abbrev pub is_farm_verified : FarmVerificationStatus → Bool
is_farm_verified FarmVerificationStatus.verified = true
is_farm_verified _ = false

abbrev pub same_currency : Currency → Currency → Bool
same_currency Currency.ngn Currency.ngn = true
same_currency Currency.usd Currency.usd = true
same_currency _ _ = false
