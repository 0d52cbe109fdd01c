-- ===== src/SourcingRequest/Confirm.antt =====
-- src/sourcing-request/admin-sourcing-request.service.ts: placing the checkout of a request from its
-- saved selection.
use Prim.Native.String.{String}
use laicos_backend.Prelude.{
  ℕ, ◌*◌, Bool, true, false, ◌||◌, not, Option, none, some, List, [], ◌∷◌, ltb, same_id, ◌==◌,
  if◌then◌else◌,
}
use laicos_backend.Prelude.Table.{find, any, sum_by, sort_by}
use laicos_backend.Schema.{
  Db, Result, ok, err, Failure, Tx, ◌>>=◌, ◌>>◌, pure, gets, modify_db, throw_if, transaction,
  AuditCategory, Checkout, SourcingRequest, SourcingUnit, SourcingAllocation, DeliverySnapshot,
  produce_keyed, farm_keyed, request_keyed, agent_keyed,
}
use laicos_backend.Order.Reservation.{OrderLine, order_line, try_reserve_produce}
use laicos_backend.Cart.Place.{
  CheckoutConfig, CheckoutDraft, find_replay, resolve_delivery, create_checkout,
}
use laicos_backend.Cart.Checkout.{CreateCheckoutDto}
use laicos_backend.SourcingRequest.Rules.{requested_amount, units_comparable}
use laicos_backend.SourcingRequest.Sync.{sync_sourcing_request}
use laicos_backend.SourcingRequest.Service.{is_live_of, request_audit, allocations_of, cluster_of}
use laicos_backend.SourcingRequest.Selection.{eligible_in, is_empty_list}

-- `row.produce.farm.clusterId === clusterId`, two nullable ids.
abbrev same_cluster : Option ℕ → Option ℕ → Bool
same_cluster none none = true
same_cluster (some a) (some b) = a == b
same_cluster _ _ = false

-- `comparableQuantity`.
abbrev comparable_quantity : SourcingUnit → String → ℕ → ℕ
comparable_quantity request_unit listing_unit quantity =
    if units_comparable request_unit listing_unit then quantity else 0

abbrev counted : Db → SourcingRequest → SourcingAllocation → ℕ
counted db request row = elim (find row.produce_id db.produces) [
  | none ↦ 0
  | some p ↦ comparable_quantity request.unit p.unit row.quantity
]

-- The units that the selection counts for the request.
unfoldable pub selected_quantity : Db → SourcingRequest → List SourcingAllocation → ℕ
selected_quantity db request rows = sum_by (counted db request) rows

-- `request.allocations[0]?.produce.farm.clusterId`.
abbrev pub first_cluster : Db → List SourcingAllocation → Option ℕ
first_cluster db [] = none
first_cluster db (row ∷ _) = elim (find row.produce_id db.produces) [
  | none ↦ none
  | some p ↦ cluster_of db p
]

-- A listing that cannot be sold any more as it was selected.
unfoldable pub is_stale : Db → SourcingRequest → Option ℕ → SourcingAllocation → Bool
is_stale db request cluster row = elim (find row.produce_id db.produces) [
  | none ↦ true
  | some p ↦
      not (eligible_in db request (same_cluster (cluster_of db p) cluster) p)
      || ltb p.floating_quantity row.quantity
]

-- The reservation loop.
unfoldable pub reserve_selected : List SourcingAllocation → Tx (List OrderLine)
reserve_selected [] db = ok ([], db)
reserve_selected (row ∷ rows) db =
    let ((found, reserved), db') = try_reserve_produce row.produce_id row.quantity db in
    let rest = reserve_selected rows db' in
    elim found [
      | none ↦ err Failure.listing_not_eligible
      | some produce ↦
          if reserved
          then elim rest [
            | ok (lines, db'') ↦ ok (order_line produce row.quantity ∷ lines, db'')
            | err e ↦ err e
          ]
          else err Failure.listing_not_eligible
    ]

abbrev pub draft_for :
    SourcingRequest → String → CreateCheckoutDto → DeliverySnapshot → List OrderLine → CheckoutDraft
draft_for request idempotency_key dto delivery lines = record {
  buyer_id = request.buyer_id;
  idempotency_key = idempotency_key;
  lines = lines;
  delivery = delivery;
  expected_total = dto.expected_total;
  sourcing_request_id = some request.id;
}

abbrev audit_confirm : SourcingRequest → Checkout → Db → Db
audit_confirm request checkout db =
    request_audit AuditCategory.matching "Supply confirmed" (db.checkout_numbers checkout.id)
      request db

-- The end of `confirm`, with the lines reserved.
unfoldable pub place_selected : ℕ → CheckoutConfig → SourcingRequest → CheckoutDraft → Tx Checkout
place_selected now config request draft = do
  checkout ← create_checkout draft config now
  modify_db (audit_confirm request checkout)
  modify_db (sync_sourcing_request now request.id)
  pure checkout

unfoldable pub reserve_and_confirm :
    ℕ
    → CheckoutConfig
    → SourcingRequest
    → String
    → CreateCheckoutDto
    → List SourcingAllocation
    → DeliverySnapshot
    → Tx Checkout
reserve_and_confirm now config request idempotency_key dto rows delivery =
    reserve_selected (sort_by (λ row. row.produce_id) rows) >>= λ lines.
    place_selected now config request (draft_for request idempotency_key dto delivery lines)

-- `confirm` after the replay check.
unfoldable pub confirm_new :
    ℕ → ℕ → CheckoutConfig → SourcingRequest → String → CreateCheckoutDto → Tx Checkout
confirm_new now today config request idempotency_key dto = do
  live ← gets λ db. any (is_live_of request.id) db.checkouts
  throw_if live Failure.request_has_checkout
  rows ← gets (allocations_of request.id)
  throw_if (is_empty_list rows) Failure.nothing_selected
  short ← gets λ db.
      ltb (selected_quantity db request rows * 1000)
        (requested_amount request.quantity request.unit)
  throw_if short Failure.selection_too_small
  stale ← gets λ db. any (is_stale db request (first_cluster db rows)) rows
  throw_if stale Failure.listing_not_eligible
  delivery ← resolve_delivery request.buyer_id dto.address_id dto.delivery_date config today
  reserve_and_confirm now config request idempotency_key dto rows delivery

abbrev replayed : ℕ → Checkout → Tx Checkout
replayed id replay db =
    if same_id replay.sourcing_request_id id
    then ok (replay, db)
    else err Failure.idempotency_key_used

-- The transaction of `confirm`.
unfoldable pub confirm_tx : ℕ → ℕ → CheckoutConfig → ℕ → String → CreateCheckoutDto → Tx Checkout
confirm_tx now today config id idempotency_key dto db = elim (find id db.requests) [
  | none ↦ err Failure.request_not_found
  | some request ↦ elim (find_replay request.buyer_id idempotency_key db) [
    | some replay ↦ replayed id replay db
    | none ↦ confirm_new now today config request idempotency_key dto db
  ]
]

-- `confirm`.
unfoldable pub confirm :
    ℕ → ℕ → CheckoutConfig → ℕ → String → CreateCheckoutDto → Db → Result Checkout × Db
confirm now today config id idempotency_key dto =
    transaction (confirm_tx now today config id idempotency_key dto)
