-- ===== src/Schema/Database.antt =====
-- The database, and a transaction over it: `$transaction` commits what its body wrote, or rolls
-- all of it back when the body throws.
use Prim.Native.String.{String}
use laicos_backend.Prelude.{
  ℕ, ◌+◌, ◌-◌, ◌≡◌, refl, ◌⊎◌, inl, inr, arith, Bool, true, false, Option, none, some, List, ◌∷◌,
  leb, if◌then◌else◌,
}
use laicos_backend.Prelude.Table.{find, modify}
use laicos_backend.Schema.Rounds.{
  Agent, Farmer, FarmVerification, VerificationCheck, VerificationEvidence, AssignmentDecline,
}
use laicos_backend.Schema.Rows.{
  Buyer, Lga, Farm, Produce, Order, OrderChecklist, OrderHandover, HandoverProof, Address, Checkout,
  CartItem, Payment, FxRate, Refund, FarmerBankAccount, Payout, PayoutItem, SourcingRequest,
  SourcingAllocation, AuditEvent, produce_keyed,
}

-- What a service throws. `record_not_found` is Prisma's P2025, `check_violation` an SQL CHECK,
-- `unique_violation` a unique index.
pub data Failure : Type 0 where
  record_not_found check_violation unique_violation : Failure
  buyer_not_found order_not_found produce_not_found checkout_not_found payment_not_found : Failure
  address_not_found checklist_not_found : Failure
  produce_unavailable insufficient_stock cart_empty cart_needs_attention : Failure
  invalid_delivery_date cart_price_changed checkout_not_cancellable : Failure
  order_in_checkout order_paid order_wrong_status order_changed checklist_incomplete : Failure
  checkout_not_payable fx_rate_stale provider_unavailable : Failure
  payment_not_refundable orders_paid_out nothing_to_refund refund_exceeds_balance : Failure
  order_not_refundable order_already_refunded : Failure
  cart_full cart_item_not_found : Failure
  foreign_key_violation farm_not_found produce_reserved produce_stock_changed : Failure
  produce_has_orders produce_in_selection produce_not_disabled produce_has_open_orders : Failure
  verification_not_found verification_closed check_result_refused evidence_not_found : Failure
  evidence_request_invalid : Failure
  request_not_found request_in_checkout agent_not_found agent_not_verified : Failure
  listings_outside_cluster agent_not_assigned listing_selected_twice listing_not_found : Failure
  listing_not_eligible idempotency_key_used request_has_checkout nothing_selected : Failure
  selection_too_small request_finished request_confirmed required_date_past : Failure
  request_not_escalatable : Failure
  farmer_not_found id_document_missing invalid_lga referral_agent_not_found : Failure
  farm_already_open farm_has_orders documents_missing farm_documents_locked : Failure
  farmer_has_open_orders : Failure
  handover_not_found handover_wrong_status order_not_ready : Failure

-- A line that a merge of carts could not add, with the refusal that gives its code and message.
pub record CartSkippedItem : Type 0 where
  pub produce_id : ℕ
  pub refusal : Failure

pub record CartMerge : Type 0 where
  pub buyer_id : ℕ
  pub idempotency_key : String
  pub skipped : List CartSkippedItem

pub record Db : Type 0 where
  pub buyers : List Buyer
  pub lgas : List Lga
  pub farms : List Farm
  pub produces : List Produce
  pub orders : List Order
  pub checklists : List OrderChecklist
  pub handovers : List OrderHandover
  pub proofs : List HandoverProof
  pub addresses : List Address
  pub checkouts : List Checkout
  pub cart_items : List CartItem
  pub cart_merges : List CartMerge
  pub payments : List Payment
  pub refunds : List Refund
  pub bank_accounts : List FarmerBankAccount
  pub payouts : List Payout
  pub payout_items : List PayoutItem
  pub requests : List SourcingRequest
  pub allocations : List SourcingAllocation
  pub agents : List Agent
  pub farmers : List Farmer
  pub rounds : List FarmVerification
  pub checks : List VerificationCheck
  pub evidence : List VerificationEvidence
  pub declines : List AssignmentDecline
  pub audit_events : List AuditEvent
  pub order_numbers : ℕ → String  -- the sequence behind Order.orderNumber, by the row's id
  pub payment_references : ℕ → String  -- the same for Payment.reference
  pub payout_references : ℕ → String  -- and for Payout.reference
  pub fx_rates : List FxRate
  pub request_numbers : ℕ → String  -- and for SourcingRequest.requestNumber
  pub checkout_numbers : ℕ → String  -- and for Checkout.checkoutNumber
  pub farm_codes : ℕ → String  -- and for Farm.farmCode
  pub next_id : ℕ  -- what the default of the next id column returns

pub data Result (A : Type 0) : Type 0 where
  ok : A → Result A
  err : Failure → Result A

abbrev pub Tx : Type 0 → Type 0
Tx A = Db → Result (A × Db)

pub Result-cases :
    {A : Type 0} (r : Result A) → ((e : Failure) × (r ≡ err e)) ⊎ ((a : A) × (r ≡ ok a))
Result-cases (ok a) = inr (a, refl)
Result-cases (err e) = inl (e, refl)

infixl 5 ◌>>=◌ ◌>>◌
abbrev pub ◌>>=◌ : {A B : Type 0} → Tx A → (A → Tx B) → Tx B
◌>>=◌ m f db = elim (m db) [ ok (a, db') ↦ f a db' | err e ↦ err e ]

abbrev pub ◌>>◌ : {A B : Type 0} → Tx A → Tx B → Tx B
m >> k = m >>= λ _. k

module _ {A : Type 0} where
  abbrev pub pure : A → Tx A
  pure a db = ok (a, db)

  abbrev pub throw : Failure → Tx A
  throw e db = err e

  abbrev pub gets : (Db → A) → Tx A
  gets f db = ok (f db, db)

  abbrev pub or_throw : Failure → Option A → Tx A
  or_throw e none = throw e
  or_throw e (some a) = pure a

  -- `$transaction`: the result and what the database holds afterwards.
  abbrev pub transaction : Tx A → Db → Result A × Db
  transaction body db = elim (body db) [ ok (a, db') ↦ (ok a, db') | err e ↦ (err e, db) ]

  -- `catch (error) { throw f(error) }` round a transaction.
  abbrev pub map_error : (Failure → Failure) → Result A × Db → Result A × Db
  map_error f (ok a, db) = (ok a, db)
  map_error f (err e, db) = (err (f e), db)

abbrev pub modify_db : (Db → Db) → Tx (Unit {0})
modify_db f db = ok (tt, f db)

abbrev pub throw_if : Bool → Failure → Tx (Unit {0})
throw_if true e = throw e
throw_if false e = pure tt

-- `AuditService.record` and `recordLinkedAudit`.
abbrev pub record_audit : AuditEvent → Db → Db
record_audit event db = record db { audit_events = event ∷ db.audit_events }

-- The CHECKs on `Produce` (prisma/migrations/20260930050430_init): floatingQuantity is not
-- negative and at most actualQuantity. On ℕ the first is that no decrement goes below 0.
pub data StockChange : Type 0 where
  take_floating take_actual give_floating give_both : ℕ → StockChange

abbrev pub is_allowed : StockChange → Produce → Bool
is_allowed (StockChange.take_floating q) p = leb q p.floating_quantity
is_allowed (StockChange.take_actual q) p = leb (p.floating_quantity + q) p.actual_quantity
is_allowed (StockChange.give_floating q) p = leb (p.floating_quantity + q) p.actual_quantity
is_allowed (StockChange.give_both q) p = leb p.floating_quantity p.actual_quantity

-- The `increment` and `decrement` of a produce update.
abbrev pub change_stock : StockChange → Produce → Produce
change_stock (StockChange.take_floating q) p = record p {
  floating_quantity = p.floating_quantity - q;
}
change_stock (StockChange.take_actual q) p = record p { actual_quantity = p.actual_quantity - q }
change_stock (StockChange.give_floating q) p = record p {
  floating_quantity = p.floating_quantity + q;
}
change_stock (StockChange.give_both q) p = record p {
  actual_quantity = p.actual_quantity + q;
  floating_quantity = p.floating_quantity + q;
}

abbrev pub put_produce : ℕ → (Produce → Produce) → Db → Db
put_produce i f db = record db { produces = modify i f db.produces }

-- `produce.update` by id with increments: the row as written, or the failure.
unfoldable pub update_stock : ℕ → StockChange → Tx Produce
update_stock i change = do
  p ← or_throw Failure.record_not_found (← gets λ db. find i db.produces)
  throw_if (if is_allowed change p then false else true) Failure.check_violation
  modify_db (put_produce i (change_stock change))
  pure (change_stock change p)

-- A stock update of a row that is there, within the CHECKs, writes it.
pub update_stock-succeeds :
    (i : ℕ) (change : StockChange) (db : Db) (p : Produce)
    → find i db.produces ≡ some p
    → is_allowed change p ≡ true
    → update_stock i change db ≡ ok (change_stock change p, put_produce i (change_stock change) db)
unfolding update_stock
update_stock-succeeds i change db p found allowed = ground (arith, found, allowed)
