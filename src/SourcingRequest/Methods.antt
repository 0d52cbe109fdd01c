-- ===== src/SourcingRequest/Methods.antt =====
-- What every call about sourcing requests keeps
-- (src/sourcing-request/admin-sourcing-request.service.ts).
use Prim.Native.String.{String}
use laicos_backend.Prelude.{ℕ, List, [], arith}
use laicos_backend.Schema.{Db, User, produce_keyed, request_keyed}
use laicos_backend.Order.Stock.{IsStocked}
use laicos_backend.Order.Stock.Rows.{IsStocked-same}
use laicos_backend.Order.Service.Frames.{transaction_keeps}
use laicos_backend.Cart.Place.{CheckoutConfig}
use laicos_backend.Cart.Checkout.{CreateCheckoutDto}
use laicos_backend.SourcingRequest.Service
use laicos_backend.SourcingRequest.Service.{
  CreateSourcingRequestDto, is_finished, is_underway, is_awaiting_of, close_summary, request_audit,
  assign_tx, escalate_tx, close_tx, release_awaiting, set_request, closed_for, is_live_of,
  allocations_of,
}
use laicos_backend.SourcingRequest.Selection
use laicos_backend.SourcingRequest.Selection.{AllocationItem, save_tx}
use laicos_backend.SourcingRequest.Confirm
use laicos_backend.SourcingRequest.Confirm.{
  selected_quantity, is_stale, first_cluster, reserve_selected, place_selected, reserve_and_confirm,
  confirm_new, confirm_tx, draft_for,
}
use laicos_backend.SourcingRequest.Stocked.{
  SameStock, assign_tx-SameStock, escalate_tx-SameStock, save_tx-SameStock, confirm_tx-IsStocked,
  close_tx-IsStocked,
}

-- What an admin does with a sourcing request, and a buyer's new request.
pub data SourcingCall : Type 0 where
  create : User → CreateSourcingRequestDto → SourcingCall
  assign : ℕ → ℕ → SourcingCall
  save : ℕ → List AllocationItem → SourcingCall
  confirm : ℕ → String → CreateCheckoutDto → SourcingCall
  escalate : ℕ → SourcingCall
  close : ℕ → String → SourcingCall

module _ (show : ℕ → String) (now today : ℕ) (config : CheckoutConfig) where
  unfoldable pub after_sourcing_call : SourcingCall → Db → Db
  after_sourcing_call (SourcingCall.create user dto) db = (Service.create today user dto db).1
  after_sourcing_call (SourcingCall.assign id agent_id) db = (Service.assign now id agent_id db).1
  after_sourcing_call (SourcingCall.save id items) db = (Selection.save show now id items db).1
  after_sourcing_call (SourcingCall.confirm id key dto) db =
      (Confirm.confirm now today config id key dto db).1
  after_sourcing_call (SourcingCall.escalate id) db = (Service.escalate now id db).1
  after_sourcing_call (SourcingCall.close id reason) db = (Service.close now id reason db).1

create-SameStock :
    (today : ℕ) (user : User) (dto : CreateSourcingRequestDto) (db : Db)
    → SameStock db (Service.create today user dto db).1
unfolding Service.create
create-SameStock today user dto db = (ground arith, ground arith)

-- Every call about sourcing requests - submitting, assigning an agent, saving a selection,
-- confirming it, escalating and closing - keeps the stock invariant on every branch: on each
-- listing the actual stock is the floating stock and what unpaid and unconfirmed orders hold, and
-- its status says whether there is stock.
pub after_sourcing_call-IsStocked :
    (show : ℕ → String) (now today : ℕ) (config : CheckoutConfig) (call : SourcingCall) (db : Db)
    → IsStocked [] db
    → IsStocked [] (after_sourcing_call show now today config call db)
unfolding after_sourcing_call Service.assign Selection.save Confirm.confirm Service.escalate
    Service.close
after_sourcing_call-IsStocked show now today config (SourcingCall.create user dto) db h =
    let (produces, orders) = create-SameStock today user dto db in
    IsStocked-same [] db _ produces orders h
after_sourcing_call-IsStocked show now today config (SourcingCall.assign id agent_id) db h =
    transaction_keeps (IsStocked []) (assign_tx now id agent_id) db h λ u db' run.
      let (produces, orders) = assign_tx-SameStock now id agent_id db db' u run in
      IsStocked-same [] db db' produces orders h
after_sourcing_call-IsStocked show now today config (SourcingCall.save id items) db h =
    transaction_keeps (IsStocked []) (save_tx show now id items) db h λ u db' run.
      let (produces, orders) = save_tx-SameStock show now id items db db' u run in
      IsStocked-same [] db db' produces orders h
after_sourcing_call-IsStocked show now today config (SourcingCall.confirm id key dto) db h =
    transaction_keeps (IsStocked []) (confirm_tx now today config id key dto) db h
      λ c db' run. confirm_tx-IsStocked now today config id key dto db db' c h run
after_sourcing_call-IsStocked show now today config (SourcingCall.escalate id) db h =
    transaction_keeps (IsStocked []) (escalate_tx now id) db h λ u db' run.
      let (produces, orders) = escalate_tx-SameStock now id db db' u run in
      IsStocked-same [] db db' produces orders h
after_sourcing_call-IsStocked show now today config (SourcingCall.close id reason) db h =
    transaction_keeps (IsStocked []) (close_tx now id reason) db h
      λ u db' run. close_tx-IsStocked now id reason db db' u h run
