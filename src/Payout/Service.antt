-- ===== src/Payout/Service.antt =====
-- src/payout/payout.service.ts. What Paystack answers to a bulk transfer is an argument.
use Prim.Native.String.{String, ◌++◌}
use laicos_backend.Prelude.{
  ℕ, ◌+◌, Bool, true, false, ◌&&◌, Option, none, some, List, [], ◌∷◌, ◌++◌ as append, map, leb,
  length, ◌==◌, if◌then◌else◌,
}
use laicos_backend.Prelude.Table.{find, find_many, any, all, update_many, modify, sum_by, sort_by}
use laicos_backend.Schema.{
  Db, Result, ok, err, Failure, Tx, ◌>>=◌, pure, record_audit, Order, Payout, PayoutItem,
  PayoutStatus, FarmerBankAccount, AuditEvent, AuditActorType, AuditCategory, AuditResource,
  farm_keyed, payout_keyed, account_keyed,
}
use laicos_backend.Payout.Eligibility.{is_eligible, is_live_item}

-- `farm: { ownerId: farmerId }`.
abbrev pub farm_of : ℕ → Db → Order → Bool
farm_of farmer_id db order = elim (find order.farm_id db.farms) [
  | none ↦ false
  | some farm ↦ farm.owner_id == farmer_id
]

abbrev pub live_items : ℕ → List PayoutItem → ℕ
live_items order_id items = sum_by (λ item. if is_live_item order_id item then 1 else 0) items

-- The unique index PayoutItem_orderId_active_key.
abbrev pub is_indexed : List PayoutItem → Bool
is_indexed items = all (λ item. leb (live_items item.order_id items) 1) items

abbrev pub items_of : ℕ → ℕ → List Order → List PayoutItem
items_of payout_id id [] = []
items_of payout_id id (order ∷ orders) =
    record {
      id = id;
      payout_id = payout_id;
      order_id = order.id;
      amount = order.total_price;
      status = PayoutStatus.pending;
    }
    ∷ items_of payout_id (id + 1) orders

abbrev pub new_payout : Db → ℕ → FarmerBankAccount → ℕ → Payout
new_payout db admin_id account amount = record {
  id = db.next_id;
  reference = db.payout_references db.next_id;
  farmer_id = account.farmer_id;
  amount = amount;
  bank_name = account.bank_name;
  account_number = account.account_number;
  account_name = account.account_name;
  recipient_code = account.recipient_code;
  status = PayoutStatus.pending;
  transfer_code = none;
  failure_reason = none;
  approved_by_id = admin_id;
  paid_at = none;
}

abbrev pub put_payout : Payout → List Order → Db → Db
put_payout payout orders db = record db {
  payouts = payout ∷ db.payouts;
  payout_items = append (items_of payout.id (payout.id + 1) orders) db.payout_items;
  next_id = db.next_id + 1 + length orders;
}

-- `payout.create` with its items.
unfoldable pub create_payout : ℕ → FarmerBankAccount → List Order → Tx Payout
create_payout admin_id account orders db =
    let payout = new_payout db admin_id account (sum_by (λ o. o.total_price) orders) in
    let db' = put_payout payout orders db in
    if is_indexed db'.payout_items then ok (payout, db') else err Failure.unique_violation

abbrev pub eligible_of : ℕ → ℕ → ℕ → Db → List Order
eligible_of now hold_hours farmer_id db =
    find_many (λ o. is_eligible now hold_hours db o && farm_of farmer_id db o) db.orders

abbrev pub pay_orders : ℕ → FarmerBankAccount → List Order → Tx (Option Payout)
pay_orders admin_id account [] db = ok (none, db)
pay_orders admin_id account (order ∷ orders) db =
    elim (create_payout admin_id account (order ∷ orders) db) [
      | ok (payout, db') ↦ ok (some payout, db')
      | err e ↦ err e
    ]

-- A round of the loop of `approve`; none is a farmer who is skipped.
unfoldable pub approve_farmer : ℕ → ℕ → ℕ → ℕ → Tx (Option Payout)
approve_farmer now hold_hours admin_id farmer_id db = elim (find farmer_id db.bank_accounts) [
  | none ↦ ok (none, db)
  | some account ↦ pay_orders admin_id account (eligible_of now hold_hours farmer_id db) db
]

pub record Batch : Type 0 where
  pub created : List Payout
  pub skipped_farmer_ids : List ℕ

abbrev pub add_round : ℕ → Option Payout → Batch → Batch
add_round farmer_id none batch = record batch {
  skipped_farmer_ids = farmer_id ∷ batch.skipped_farmer_ids;
}
add_round farmer_id (some payout) batch = record batch { created = payout ∷ batch.created }

unfoldable pub approve_each : ℕ → ℕ → ℕ → List ℕ → Tx Batch
approve_each now hold_hours admin_id [] = pure (record { created = []; skipped_farmer_ids = [] })
approve_each now hold_hours admin_id (farmer_id ∷ farmer_ids) =
    approve_farmer now hold_hours admin_id farmer_id >>= λ payout.
    approve_each now hold_hours admin_id farmer_ids >>= λ batch.
    pure (add_round farmer_id payout batch)

-- What `bulkTransfer` answered: transfer codes by payout id, or an error that proves a refusal or
-- does not.
pub data TransferReply : Type 0 where
  queued : List (ℕ × String) → TransferReply
  refused unknown : String → TransferReply

abbrev pub code_of : ℕ → List (ℕ × String) → Option String
code_of id [] = none
code_of id ((i, code) ∷ codes) = if i == id then some code else code_of id codes

abbrev pub is_among : List ℕ → ℕ → Bool
is_among ids id = any (λ i. i == id) ids

abbrev pub is_payout_pending : PayoutStatus → Bool
is_payout_pending PayoutStatus.pending = true
is_payout_pending _ = false

abbrev pub fail_payout : String → Payout → Payout
fail_payout message p = record p { status = PayoutStatus.failed; failure_reason = some message }

abbrev pub set_item_status : PayoutStatus → PayoutItem → PayoutItem
set_item_status status item = record item { status = status }

-- `send`: what the database holds after Paystack's answer.
unfoldable pub send : TransferReply → List ℕ → Db → Db
send (TransferReply.queued codes) ids db = record db {
  payouts =
      update_many (λ p. is_among ids p.id) (λ p. record p { transfer_code = code_of p.id codes })
        db.payouts;
}
send (TransferReply.unknown message) ids db = db
send (TransferReply.refused message) ids db = record db {
  payouts =
      update_many (λ p. is_among ids p.id && is_payout_pending p.status) (fail_payout message)
        db.payouts;
  payout_items =
      update_many (λ item. is_among ids item.payout_id && is_payout_pending item.status)
        (set_item_status PayoutStatus.failed) db.payout_items;
}

abbrev pub ids_of : List Payout → List ℕ
ids_of payouts = map (λ p. p.id) payouts

abbrev pub send_created : TransferReply → Batch → Db → Db
send_created reply batch db = elim batch.created [
  | [] ↦ db
  | p ∷ ps ↦ send reply (ids_of batch.created) db
]

-- `approve`.
unfoldable pub approve : ℕ → ℕ → ℕ → List ℕ → TransferReply → Db → Result Batch × Db
approve now hold_hours admin_id farmer_ids reply db =
    elim (approve_each now hold_hours admin_id (sort_by (λ i. i) farmer_ids) db) [
      | ok (batch, db') ↦ (ok batch, send_created reply batch db')
      | err e ↦ (err e, db)
    ]

pub data Outcome : Type 0 where
  success failed reversed : Outcome

pub record TransferResult : Type 0 where
  pub reference : ℕ
  pub outcome : Outcome
  pub reason : Option String

-- `OUTCOME_STATUS`.
abbrev pub outcome_status : Outcome → PayoutStatus
outcome_status Outcome.success = PayoutStatus.succeeded
outcome_status Outcome.failed = PayoutStatus.failed
outcome_status Outcome.reversed = PayoutStatus.reversed

-- Pending settles any way; a success can still be reversed by the bank.
unfoldable pub is_transition : PayoutStatus → Outcome → Bool
is_transition PayoutStatus.pending outcome = true
is_transition PayoutStatus.succeeded Outcome.reversed = true
is_transition _ _ = false

abbrev pub settle_payout : ℕ → TransferResult → Payout → Payout
settle_payout now result p = elim result.outcome [
  | Outcome.success ↦ record p {
    status = PayoutStatus.succeeded;
    paid_at = some now;
    failure_reason = none;
  }
  | Outcome.failed ↦ record p { status = PayoutStatus.failed; failure_reason = result.reason }
  | Outcome.reversed ↦ record p { status = PayoutStatus.reversed; failure_reason = result.reason }
]

abbrev payout_event : Payout → String → String → AuditEvent
payout_event p title summary = record {
  actor_type = AuditActorType.farmer;
  farmer_id = some p.farmer_id;
  agent_id = none;
  farm_id = none;
  category = AuditCategory.payout;
  title = title;
  summary = summary;
  action_label = some "View payout";
  resource = some AuditResource.payout;
  resource_id = some p.id;
  sourcing_request_id = none;
}

abbrev or_default : Option String → String → String
or_default none text = text
or_default (some given) text = given

-- `₦… to <bank>`, with the amount as the caller's runtime prints it.
abbrev paid_to : (ℕ → String) → Payout → String
paid_to to_fixed p = "₦" ++ (to_fixed p.amount ++ (" to " ++ p.bank_name))

abbrev pub audit_payout : (ℕ → String) → TransferResult → Payout → Db → Db
audit_payout to_fixed result p db = elim result.outcome [
  | Outcome.success ↦
      record_audit (payout_event p ("Payout " ++ (p.reference ++ " paid")) (paid_to to_fixed p)) db
  | Outcome.failed ↦ db
  | Outcome.reversed ↦
      record_audit
        (payout_event p ("Payout " ++ (p.reference ++ " reversed"))
          (or_default result.reason (paid_to to_fixed p)))
        db
]

abbrev pub put_settled : ℕ → TransferResult → Payout → Db → Db
put_settled now result p db = record db {
  payouts = modify p.id (settle_payout now result) db.payouts;
  payout_items =
      update_many (λ item. item.payout_id == p.id) (set_item_status (outcome_status result.outcome))
        db.payout_items;
}

-- `applyTransferResult`; an unknown payout, and a status that may not follow, are logged only.
unfoldable pub apply_transfer_result : (ℕ → String) → ℕ → TransferResult → Db → Db
apply_transfer_result to_fixed now result db = elim (find result.reference db.payouts) [
  | none ↦ db
  | some p ↦
      if is_transition p.status result.outcome
      then audit_payout to_fixed result p (put_settled now result p db)
      else db
]
