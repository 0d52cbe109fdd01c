-- ===== src/SourcingRequest/Sync.antt =====
-- src/sourcing-request/utils/sync-sourcing-request.ts.
use Prim.Native.String.{String}
use laicos_backend.Prelude.{
  ℕ, Bool, true, false, ◌&&◌, Option, none, some, List, map, same_id, is_some, length, ◌==◌,
  if◌then◌else◌,
}
use laicos_backend.Prelude.Table.{find, find_many, find_first, any, modify}
use laicos_backend.Schema.{
  Db, Order, OrderStatus, Checkout, SourcingRequest, SourcingRequestStatus, is_paid, is_unpaid,
  order_keyed, checkout_keyed, request_keyed,
}
use laicos_backend.SourcingRequest.Rules.{derive_sourcing_status, all_cancelled, SourcingSnapshot}

abbrev pub is_closed : SourcingRequestStatus → Bool
is_closed SourcingRequestStatus.closed = true
is_closed _ = false

-- The request's checkouts with a status in `LIVE`.
abbrev pub is_linked : ℕ → Checkout → Bool
is_linked request_id c = same_id c.sourcing_request_id request_id

abbrev pub orders_of : ℕ → Db → List Order
orders_of checkout_id db = find_many (λ o. same_id o.checkout_id checkout_id) db.orders

-- The statuses of the orders of the request's first paid checkout.
abbrev pub paid_orders_of : ℕ → Db → Option (List OrderStatus)
paid_orders_of request_id db =
    elim (find_first (λ c. is_linked request_id c && is_paid c.status) db.checkouts) [
      | none ↦ none
      | some c ↦ some (map (λ o. o.status) (orders_of c.id db))
    ]

unfoldable pub snapshot_of : SourcingRequest → Db → SourcingSnapshot
snapshot_of request db = record {
  closed_at = request.closed_at;
  assigned_agent_id = request.assigned_agent_id;
  allocation_count = length (find_many (λ a. a.request_id == request.id) db.allocations);
  awaiting_payment = any (λ c. is_linked request.id c && is_unpaid c.status) db.checkouts;
  paid_orders = paid_orders_of request.id db;
}

abbrev pub auto_close : SourcingSnapshot → Bool
auto_close snapshot = elim snapshot.paid_orders [ none ↦ false | some paid ↦ all_cancelled paid ]

abbrev pub or_default : Option String → String → String
or_default none text = text
or_default (some reason) text = reason

-- The row as `syncSourcingRequest` rewrites it.
unfoldable pub synced_request : ℕ → SourcingSnapshot → SourcingRequest → SourcingRequest
synced_request now snapshot request =
    let status = derive_sourcing_status snapshot in
    if is_closed status && (if is_some request.closed_at then false else auto_close snapshot)
    then record request {
      status = status;
      closed_at = some now;
      close_reason = some (or_default request.close_reason "All orders were cancelled");
    }
    else record request { status = status }

unfoldable pub synced_requests : ℕ → ℕ → Db → List SourcingRequest
synced_requests now request_id db = elim (find request_id db.requests) [
  | none ↦ db.requests
  | some request ↦
      modify request_id (λ r. synced_request now (snapshot_of request db) r) db.requests
]

-- `syncSourcingRequest`: it writes nothing but the request's row.
abbrev pub sync_sourcing_request : ℕ → ℕ → Db → Db
sync_sourcing_request now request_id db = record db { requests = synced_requests now request_id db }

-- `sourcingRequestIdForOrder`.
unfoldable pub sourcing_request_id_for_order : ℕ → Db → Option ℕ
sourcing_request_id_for_order order_id db = elim (find order_id db.orders) [
  | none ↦ none
  | some order ↦ elim order.checkout_id [
    | none ↦ none
    | some checkout_id ↦ elim (find checkout_id db.checkouts) [
      | none ↦ none
      | some checkout ↦ checkout.sourcing_request_id
    ]
  ]
]
