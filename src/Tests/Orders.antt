-- ===== src/Tests/Orders.antt =====
-- The order service run on the small marketplace.
use laicos_backend.Prelude.{ℕ, ◌≡◌, refl, sym, ap, List, [], ◌∷◌}
use laicos_backend.Schema.{Db, Produce, ProduceStatus, order_keyed, produce_keyed}
use laicos_backend.Produce.{derive_produce_status}
use laicos_backend.Order.Reservation.{release_stock}
use laicos_backend.Order.Service
use laicos_backend.SourcingRequest.Sync.{sourcing_request_id_for_order}
use laicos_backend.Order.Stock.{IsStocked}
use laicos_backend.Order.Stock.Rows.{KeepsOrders}
use laicos_backend.Order.Stock.Methods.{OrderCall, after_call, after_call-IsStocked}
use laicos_backend.Tests.Shop.{farmer, shop, shop-IsStocked}

abbrev stock : Db → List (ℕ × ℕ × ProduceStatus)
stock db = at db.produces
  where
    at : List Produce → List (ℕ × ℕ × ProduceStatus)
    at [] = []
    at (p ∷ ps) = (p.actual_quantity, p.floating_quantity, p.status) ∷ at ps

-- Confirming takes the three units out of the actual stock.
confirm_run :
    stock (after_call 100 (OrderCall.confirm farmer 11) shop shop)
    ≡ (7, 5, ProduceStatus.published) ∷ []
unfolding after_call Service.confirm Service.find_one Service.confirm_tx Service.record_farmer_order
    sourcing_request_id_for_order derive_produce_status
confirm_run = refl

-- The farmer cancels the unconfirmed order: its three units are on sale again.
cancel_run :
    stock (after_call 100 (OrderCall.cancel farmer 11 "Rain") shop shop)
    ≡ (10, 8, ProduceStatus.published) ∷ []
unfolding after_call Service.Cancel.cancel Service.find_one Service.Cancel.cancel_refusal
    Service.Cancel.cancel_tx release_stock Service.record_farmer_order sourcing_request_id_for_order
    derive_produce_status
cancel_run = refl

shop-KeepsOrders : KeepsOrders shop shop
shop-KeepsOrders id o o' e e' =
    let same : o ≡ o' = cc in (ap (λ x. x.produce_id) (sym same), ap (λ x. x.quantity) (sym same))

after_call-IsStocked_example : IsStocked [] (after_call 100 (OrderCall.confirm farmer 11) shop shop)
after_call-IsStocked_example =
    after_call-IsStocked 100 (OrderCall.confirm farmer 11) shop shop shop-KeepsOrders shop-IsStocked
