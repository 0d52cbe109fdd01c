-- ===== src/Schema/Rows.antt =====
-- The models of prisma/schema.prisma, with the columns that the modelled services use.
use Prim.Native.String.{String}
use laicos_backend.Prelude.{ℕ, Bool, Option}
use laicos_backend.Prelude.Table.{Keyed}
use laicos_backend.Schema.Enums.{
  OrderStatus, CheckoutStatus, PaymentStatus, RefundStatus, PayoutStatus, ProduceStatus,
  FarmVerificationStatus, HandoverStatus, SourcingRequestStatus, SourcingUnit, Currency, Role,
  AuditActorType, AuditCategory, AuditResource,
}

pub record User : Type 0 where
  pub id : ℕ
  pub role : Role

pub record Buyer : Type 0 where
  pub id : ℕ
  pub user_id : ℕ

pub record Lga : Type 0 where
  pub id : ℕ
  pub state_id : ℕ

pub record Farm : Type 0 where
  pub id : ℕ
  pub owner_id : ℕ
  pub owner_user_id : ℕ  -- farm.owner.userId
  pub farm_code : String
  pub name : String
  pub verification_status : FarmVerificationStatus
  pub cluster_agent_id : Option ℕ  -- farm.cluster?.agentId
  pub is_clustered : Bool
  pub state_id : ℕ
  pub lga_id : ℕ
  pub location : String
  pub size : String  -- the text of its decimal
  pub unit : String
  pub main_produce : String
  pub is_exporting : Bool
  pub referral_agent_id : Option ℕ
  pub ownership_document_key : Option String
  pub chief_confirmation_key : Option String

pub record Produce : Type 0 where
  pub id : ℕ
  pub farm_id : ℕ
  pub name : String
  pub actual_quantity : ℕ
  pub floating_quantity : ℕ
  pub unit : String
  pub price_per_unit : ℕ
  pub status : ProduceStatus

pub record Order : Type 0 where
  pub id : ℕ
  pub order_number : String
  pub produce_id : ℕ
  pub farm_id : ℕ
  pub buyer_id : ℕ
  pub quantity : ℕ
  pub total_price : ℕ
  pub status : OrderStatus
  pub produce_name : String
  pub checkout_id : Option ℕ
  pub cancellation_reason : Option String
  pub fulfilled_at : Option ℕ

pub record OrderChecklist : Type 0 where
  pub order_id : ℕ
  pub harvested : Bool
  pub sorted : Bool
  pub packaged : Bool
  pub ready_for_pickup : Bool

pub record OrderHandover : Type 0 where
  pub order_id : ℕ
  pub agent_id : Option ℕ
  pub status : HandoverStatus
  pub verification_note : Option String
  pub verified_at : Option ℕ
  pub recipient_name : Option String
  pub recipient_phone : Option String
  pub handover_note : Option String
  pub handed_over_at : Option ℕ

pub record HandoverProof : Type 0 where
  pub id : ℕ
  pub order_id : ℕ
  pub storage_key : String

pub record DeliverySnapshot : Type 0 where
  pub delivery_date : ℕ
  pub delivery_label : String
  pub delivery_street : String
  pub delivery_state : String
  pub delivery_lga : String
  pub delivery_contact_name : Option String
  pub delivery_contact_phone : Option String

pub record Address : Type 0 where
  pub id : ℕ
  pub buyer_id : ℕ
  pub label : String
  pub street : String
  pub state : String
  pub lga : String
  pub contact_name : Option String
  pub contact_phone : Option String

pub record Checkout : Type 0 where
  pub id : ℕ
  pub buyer_id : ℕ
  pub idempotency_key : String
  pub status : CheckoutStatus
  pub subtotal : ℕ
  pub delivery_fee : ℕ
  pub service_fee : ℕ
  pub total_price : ℕ
  pub expires_at : ℕ
  pub paid_at : Option ℕ
  pub sourcing_request_id : Option ℕ
  pub delivery : DeliverySnapshot

pub record CartItem : Type 0 where
  pub id : ℕ
  pub buyer_id : ℕ
  pub produce_id : ℕ
  pub quantity : ℕ

-- The text of a failure or refund reason: as given, or as `orphanReason` words it.
pub data Reason : Type 0 where
  text : String → Reason
  wrong_charge : ℕ → Option Currency → ℕ → Currency → Reason
  checkout_was : CheckoutStatus → Reason

pub record FxRate : Type 0 where
  pub rate : ℕ  -- in millionths
  pub fetched_at : ℕ

pub record Payment : Type 0 where
  pub id : ℕ
  pub reference : String
  pub checkout_id : ℕ
  pub idempotency_key : String
  pub status : PaymentStatus
  pub amount : ℕ
  pub currency : Currency
  pub charged_amount : ℕ
  pub fx_rate : Option ℕ  -- in millionths
  pub channel : Option String
  pub failure_reason : Option Reason
  pub provider_data : Option String
  pub confirmed_by_id : Option ℕ
  pub paid_at : Option ℕ

pub record Refund : Type 0 where
  pub id : ℕ
  pub payment_id : ℕ
  pub order_id : Option ℕ
  pub amount : ℕ
  pub status : RefundStatus
  pub reason : Reason
  pub initiated_by_id : Option ℕ
  pub provider_refund_id : Option String
  pub failure_reason : Option Reason

pub record FarmerBankAccount : Type 0 where
  pub farmer_id : ℕ
  pub bank_code : String
  pub bank_name : String
  pub account_number : String
  pub account_name : String
  pub recipient_code : String
  pub set_by_id : ℕ
  pub payouts_held_until : ℕ

pub record Payout : Type 0 where
  pub id : ℕ
  pub reference : String
  pub farmer_id : ℕ
  pub amount : ℕ
  pub bank_name : String
  pub account_number : String
  pub account_name : String
  pub recipient_code : String
  pub status : PayoutStatus
  pub transfer_code : Option String
  pub failure_reason : Option String
  pub approved_by_id : ℕ
  pub paid_at : Option ℕ

pub record PayoutItem : Type 0 where
  pub id : ℕ
  pub payout_id : ℕ
  pub order_id : ℕ
  pub amount : ℕ
  pub status : PayoutStatus

pub record SourcingRequest : Type 0 where
  pub id : ℕ
  pub status : SourcingRequestStatus
  pub assigned_agent_id : Option ℕ
  pub buyer_id : ℕ
  pub request_number : String
  pub produce_name : String
  pub quantity : ℕ  -- in thousandths
  pub unit : SourcingUnit
  pub escalated_at : Option ℕ
  pub closed_at : Option ℕ
  pub close_reason : Option String

pub record SourcingAllocation : Type 0 where
  pub request_id : ℕ
  pub produce_id : ℕ
  pub quantity : ℕ

-- `AuditWrite` of src/audit/audit.service.ts.
pub record AuditEvent : Type 0 where
  pub actor_type : AuditActorType
  pub farmer_id : Option ℕ
  pub agent_id : Option ℕ
  pub farm_id : Option ℕ
  pub category : AuditCategory
  pub title : String
  pub summary : String
  pub action_label : Option String
  pub resource : Option AuditResource
  pub resource_id : Option ℕ
  pub sourcing_request_id : Option ℕ

instance abbrev pub buyer_keyed : Keyed Buyer
buyer_keyed = record { key = λ r. r.id }

instance abbrev pub farm_keyed : Keyed Farm
farm_keyed = record { key = λ r. r.id }

instance abbrev pub produce_keyed : Keyed Produce
produce_keyed = record { key = λ r. r.id }

instance abbrev pub order_keyed : Keyed Order
order_keyed = record { key = λ r. r.id }

instance abbrev pub checklist_keyed : Keyed OrderChecklist
checklist_keyed = record { key = λ r. r.order_id }

instance abbrev pub handover_keyed : Keyed OrderHandover
handover_keyed = record { key = λ r. r.order_id }

instance abbrev pub checkout_keyed : Keyed Checkout
checkout_keyed = record { key = λ r. r.id }

instance abbrev pub item_keyed : Keyed CartItem
item_keyed = record { key = λ r. r.id }

instance abbrev pub payment_keyed : Keyed Payment
payment_keyed = record { key = λ r. r.id }

instance abbrev pub refund_keyed : Keyed Refund
refund_keyed = record { key = λ r. r.id }

instance abbrev pub request_keyed : Keyed SourcingRequest
request_keyed = record { key = λ r. r.id }

instance abbrev pub account_keyed : Keyed FarmerBankAccount
account_keyed = record { key = λ r. r.farmer_id }

instance abbrev pub payout_keyed : Keyed Payout
payout_keyed = record { key = λ r. r.id }

instance abbrev pub proof_keyed : Keyed HandoverProof
proof_keyed = record { key = λ r. r.id }
