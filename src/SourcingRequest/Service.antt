-- ===== src/SourcingRequest/Service.antt =====
-- src/sourcing-request/admin-sourcing-request.service.ts, and the buyer's `create`
-- (src/sourcing-request/sourcing-request.service.ts). The advisory lock on a request makes each
-- transaction one step. A cluster is known by its agent. `show` is how the runtime prints an id or
-- a whole number, and a request's quantity.
use Prim.Native.String.{String, ◌++◌}
use laicos_backend.Prelude.{
  ℕ, ◌+◌, Bool, true, false, ◌&&◌, ◌||◌, not, Option, none, some, List, ◌∷◌, ltb, is_some, same_id,
  ◌==◌, if◌then◌else◌,
}
use laicos_backend.Prelude.Table.{find, find_many, find_first, any, modify}
use laicos_backend.Schema.{
  Db, Result, ok, err, Failure, Tx, ◌>>=◌, ◌>>◌, pure, gets, or_throw, modify_db, throw_if,
  transaction, record_audit, User, AuditEvent, AuditActorType, AuditCategory, AuditResource,
  Produce, Checkout, CheckoutStatus, SourcingRequest, SourcingRequestStatus, SourcingUnit,
  SourcingAllocation, Agent, is_unpaid, is_paid, produce_keyed, farm_keyed, request_keyed,
  agent_keyed,
}
use laicos_backend.Order.Service.{require_buyer}
use laicos_backend.Cart.Checkout.{release_checkout}
use laicos_backend.SourcingRequest.Sync.{sync_sourcing_request, is_linked}

-- `OPEN_FOR_MATCH.includes(status)`.
abbrev pub is_open_for_match : SourcingRequestStatus → Bool
is_open_for_match SourcingRequestStatus.new = true
is_open_for_match SourcingRequestStatus.in_review = true
is_open_for_match SourcingRequestStatus.finding_supply = true
is_open_for_match _ = false

-- COMPLETED or CLOSED.
abbrev pub is_finished : SourcingRequestStatus → Bool
is_finished SourcingRequestStatus.completed = true
is_finished SourcingRequestStatus.closed = true
is_finished _ = false

-- CONFIRMED or FULFILMENT.
abbrev pub is_underway : SourcingRequestStatus → Bool
is_underway SourcingRequestStatus.confirmed = true
is_underway SourcingRequestStatus.fulfilment = true
is_underway _ = false

-- `status: { in: LIVE }`, for the checkouts of a request.
abbrev pub is_live_of : ℕ → Checkout → Bool
is_live_of id c = is_linked id c && (is_unpaid c.status || is_paid c.status)

-- `requireRequest`.
abbrev pub require_request : ℕ → Tx SourcingRequest
require_request id =
    gets (λ db. find id db.requests) >>= λ found. or_throw Failure.request_not_found found

-- A write that is made unless the test holds.
abbrev pub unless : Bool → (Db → Db) → Tx (Unit {0})
unless true f = pure tt
unless false f = modify_db f

abbrev pub admin_event :
    AuditCategory → String → String → String → AuditResource → ℕ → Option ℕ → ℕ → AuditEvent
admin_event category title summary action resource resource_id agent_id request_id = record {
  actor_type = AuditActorType.admin;
  farmer_id = none;
  agent_id = agent_id;
  farm_id = none;
  category = category;
  title = title;
  summary = summary;
  action_label = some action;
  resource = some resource;
  resource_id = some resource_id;
  sourcing_request_id = some request_id;
}

-- The event of a change that the page of the request shows.
abbrev pub request_audit : AuditCategory → String → String → SourcingRequest → Db → Db
request_audit category title summary request = record_audit (
    admin_event category title summary "View request" AuditResource.sourcing_request request.id
      request.assigned_agent_id request.id)

abbrev pub set_request : ℕ → (SourcingRequest → SourcingRequest) → Db → Db
set_request id f db = record db { requests = modify id f db.requests }

abbrev pub allocations_of : ℕ → Db → List SourcingAllocation
allocations_of id db = find_many (λ a. a.request_id == id) db.allocations

-- `produce.farm.clusterId`, as the cluster's agent.
abbrev pub cluster_of : Db → Produce → Option ℕ
cluster_of db p = elim (find p.farm_id db.farms) [ none ↦ none | some farm ↦ farm.cluster_agent_id ]

abbrev pub is_outside : Db → ℕ → SourcingAllocation → Bool
is_outside db agent_id a = elim (find a.produce_id db.produces) [
  | none ↦ true
  | some p ↦ not (same_id (cluster_of db p) agent_id)
]

abbrev assigned : ℕ → SourcingRequest → SourcingRequest
assigned agent_id request = record request { assigned_agent_id = some agent_id }

abbrev audit_assign : SourcingRequest → Agent → Db → Db
audit_assign request agent = record_audit (
    admin_event AuditCategory.assignment
      (if is_some request.assigned_agent_id then "Agent reassigned" else "Agent assigned")
      (agent.full_name ++ (" (" ++ (agent.agent_code ++ ")"))) "View agent" AuditResource.agent
      agent.id (some agent.id) request.id)

-- The transaction of `assign`.
unfoldable pub assign_tx : ℕ → ℕ → ℕ → Tx (Unit {0})
assign_tx now id agent_id = do
  request ← require_request id
  throw_if (not (is_open_for_match request.status)) Failure.request_in_checkout
  agent ← or_throw Failure.agent_not_found (← gets λ db. find agent_id db.agents)
  throw_if (not agent.is_verified || not agent.has_cluster) Failure.agent_not_verified
  outside ← gets λ db. any (is_outside db agent.id) (allocations_of id db)
  throw_if outside Failure.listings_outside_cluster
  modify_db (set_request id (assigned agent.id))
  modify_db (sync_sourcing_request now id)
  unless (same_id request.assigned_agent_id agent.id) (audit_assign request agent)

-- `assign`.
unfoldable pub assign : ℕ → ℕ → ℕ → Db → Result (Unit {0}) × Db
assign now id agent_id = transaction (assign_tx now id agent_id)

abbrev escalated : ℕ → SourcingRequest → Db → Db
escalated now request db =
    request_audit AuditCategory.sourcing "Request escalated" request.request_number request
      (set_request request.id (λ r. record r { escalated_at = some now }) db)

-- The transaction of `escalate`: a request that is escalated already is left as it is.
unfoldable pub escalate_tx : ℕ → ℕ → Tx (Unit {0})
escalate_tx now id = do
  request ← require_request id
  throw_if (is_finished request.status) Failure.request_not_escalatable
  unless (is_some request.escalated_at) (escalated now request)

-- `escalate`.
unfoldable pub escalate : ℕ → ℕ → Db → Result (Unit {0}) × Db
escalate now id = transaction (escalate_tx now id)

abbrev pub release_awaiting : String → Option Checkout → Tx (Unit {0})
release_awaiting reason none = pure tt
release_awaiting reason (some checkout) =
    release_checkout checkout.id CheckoutStatus.cancelled reason >> pure tt

abbrev pub close_summary : String → Option Checkout → String
close_summary reason none = reason
close_summary reason (some _) = reason ++ ". Unpaid checkout released"

abbrev pub closed_for : ℕ → String → SourcingRequest → SourcingRequest
closed_for now reason request = record request { closed_at = some now; close_reason = some reason }

-- `{ sourcingRequestId: id, status: AWAITING_PAYMENT }`.
abbrev pub is_awaiting_of : ℕ → Checkout → Bool
is_awaiting_of id c = is_linked id c && is_unpaid c.status

-- The transaction of `close`.
unfoldable pub close_tx : ℕ → ℕ → String → Tx (Unit {0})
close_tx now id reason = do
  request ← require_request id
  throw_if (is_finished request.status) Failure.request_finished
  throw_if (is_underway request.status) Failure.request_confirmed
  awaiting ← gets λ db. find_first (is_awaiting_of id) db.checkouts
  modify_db (set_request id (closed_for now reason))
  release_awaiting reason awaiting
  modify_db (sync_sourcing_request now id)
  modify_db (
      request_audit AuditCategory.sourcing "Request closed" (close_summary reason awaiting) request)

-- `close`.
unfoldable pub close : ℕ → ℕ → String → Db → Result (Unit {0}) × Db
close now id reason = transaction (close_tx now id reason)

pub record CreateSourcingRequestDto : Type 0 where
  pub produce_name : String
  pub quantity : ℕ
  pub quantity_text : String  -- how the runtime prints it
  pub unit : SourcingUnit
  pub unit_text : String
  pub required_date : ℕ

abbrev pub new_request : ℕ → String → ℕ → CreateSourcingRequestDto → SourcingRequest
new_request id request_number buyer_id dto = record {
  id = id;
  status = SourcingRequestStatus.new;
  assigned_agent_id = none;
  buyer_id = buyer_id;
  request_number = request_number;
  produce_name = dto.produce_name;
  quantity = dto.quantity;
  unit = dto.unit;
  escalated_at = none;
  closed_at = none;
  close_reason = none;
}

abbrev put_request : SourcingRequest → Db → Db
put_request request db = record db { requests = request ∷ db.requests; next_id = db.next_id + 1 }

abbrev buyer_event : SourcingRequest → CreateSourcingRequestDto → AuditEvent
buyer_event request dto =
    record (admin_event AuditCategory.sourcing "Request submitted"
      (request.request_number
        ++ (": " ++ (dto.quantity_text ++ (" " ++ (dto.unit_text ++ (" " ++ dto.produce_name))))))
      "View request" AuditResource.sourcing_request request.id none request.id) {
        actor_type = AuditActorType.buyer;
      }

-- `create`: the buyer is looked up before the transaction.
unfoldable pub create : ℕ → User → CreateSourcingRequestDto → Db → Result SourcingRequest × Db
create today user dto db =
    if ltb dto.required_date today
    then (err Failure.required_date_past, db)
    else elim (require_buyer user db) [
      | err e ↦ (err e, db)
      | ok buyer ↦
          let request = new_request db.next_id (db.request_numbers db.next_id) buyer.id dto in
          (ok request, record_audit (buyer_event request dto) (put_request request db))
    ]
