-- ===== src/Tests/Handovers.antt =====
-- The handover service run on a ready order.
use laicos_backend.Prelude.{◌≡◌, refl, none, some, List, [], ◌∷◌}
use laicos_backend.Prelude.Table.{find}
use laicos_backend.Schema.{
  Db, Order, OrderStatus, OrderHandover, HandoverStatus, Farm, order_keyed, farm_keyed,
  handover_keyed,
}
use laicos_backend.Order.Service.Ready.{new_handover}
use laicos_backend.SourcingRequest.Sync.{sourcing_request_id_for_order}
use laicos_backend.Order.Service.{update_order}
use laicos_backend.Handover.{
  CompleteHandoverDto, complete, complete_tx, update_handover, record_handover_audit,
}
use laicos_backend.Handover.Complete.{
  Completed, complete-Completed, can_complete, complete_iff, is_ok,
}
use laicos_backend.Tests.Shop.{shop, farm, order_of}

abbrev checked : OrderHandover
checked = record (new_handover 12 (some 6)) { status = HandoverStatus.verified }

abbrev waiting : Db
waiting = record shop {
  orders = order_of 11 3 OrderStatus.pending ∷ order_of 12 2 OrderStatus.ready ∷ [];
  handovers = checked ∷ [];
}

abbrev dto : CompleteHandoverDto
dto = record { recipient_name = "Bola"; recipient_phone = none; note = none }

abbrev statuses : Db → List OrderStatus
statuses db = at db.orders
  where
    at : List Order → List OrderStatus
    at [] = []
    at (o ∷ os) = o.status ∷ at os

complete_run :
    statuses (complete 600 6 12 dto waiting).1 ≡ OrderStatus.pending ∷ OrderStatus.shipped ∷ []
unfolding complete_tx update_handover update_order record_handover_audit
    sourcing_request_id_for_order
complete_run = refl

complete-Completed_example : Completed 600 6 12 dto waiting (complete 600 6 12 dto waiting)
complete-Completed_example = complete-Completed 600 6 12 dto waiting

waiting_farms :
    (o : Order)
    → find 12 waiting.orders ≡ some o
    → (farm : Farm) × (find o.farm_id waiting.farms ≡ some farm)
waiting_farms o e = (farm, rw (← same) refl)
  where
    same : order_of 12 2 OrderStatus.ready ≡ o
    same = cc

complete_iff_example : is_ok (complete 600 6 12 dto waiting).0 ≡ can_complete 6 12 waiting
complete_iff_example = complete_iff 600 6 12 dto waiting waiting_farms
