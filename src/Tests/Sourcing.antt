-- ===== src/Tests/Sourcing.antt =====
-- A sourcing request whose paid orders were all cancelled.
use laicos_backend.Prelude.{◌≡◌, refl, none, some, [], ◌∷◌}
use laicos_backend.Schema.{
  Db, CheckoutStatus, OrderStatus, SourcingRequest, SourcingUnit, SourcingRequestStatus,
}
use laicos_backend.SourcingRequest.Rules.{derive_sourcing_status}
use laicos_backend.SourcingRequest.Sync.{
  sync_sourcing_request, synced_requests, synced_request, snapshot_of,
}
use laicos_backend.SourcingRequest.Synced.{sync_sourcing_request_idem}
use laicos_backend.Tests.Shop.{shop, open_checkout, open_order}

abbrev pub request : SourcingRequest
request = record {
  id = 81;
  status = SourcingRequestStatus.confirmed;
  assigned_agent_id = some 6;
  buyer_id = 2;
  request_number = "REQ-1";
  produce_name = " maize";
  quantity = 4000;
  unit = SourcingUnit.kg;
  escalated_at = none;
  closed_at = none;
  close_reason = none;
}

abbrev sourced : Db
sourced = record shop {
  requests = request ∷ [];
  checkouts =
      record open_checkout { status = CheckoutStatus.paid; sourcing_request_id = some 81 } ∷ [];
  orders = record open_order { status = OrderStatus.cancelled } ∷ [];
}

abbrev closed : SourcingRequest
closed = record request {
  status = SourcingRequestStatus.closed;
  closed_at = some 700;
  close_reason = some "All orders were cancelled";
}

closed_run : (sync_sourcing_request 700 81 sourced).requests ≡ closed ∷ []
unfolding synced_requests synced_request snapshot_of derive_sourcing_status
closed_run = refl

sync_sourcing_request_idem_example :
    sync_sourcing_request 900 81 (sync_sourcing_request 700 81 sourced)
    ≡ sync_sourcing_request 700 81 sourced
sync_sourcing_request_idem_example = sync_sourcing_request_idem 700 900 81 sourced
