-- ===== src/Tests/Sourcings.antt =====
-- A sourcing request from its selection to its checkout and its closing.
use Prim.Native.String.{String}
use laicos_backend.Prelude.{
  ℕ, ◌+◌, ◌*◌, ◌≤◌, ◌≡◌, ◌≢◌, refl, none, some, [], ◌∷◌, List, arith, false, map,
}
use laicos_backend.Prelude.Table.{find, any, sum_by}
use laicos_backend.Prelude.Every.{Every, Distinct}
use laicos_backend.Schema.{
  Db, Result, ok, err, Failure, Checkout, CheckoutStatus, SourcingRequest, SourcingRequestStatus,
  request_keyed, checkout_keyed,
}
use laicos_backend.Order.Stock.{IsStocked, held}
use laicos_backend.Cart.Place.{find_replay}
use laicos_backend.Cart.Place
use laicos_backend.Cart.Checkout
use laicos_backend.Order.Reservation.{try_reserve_produce, release_stock, sync_produce_status}
use laicos_backend.Common.Money.{percent_of}
use laicos_backend.Common.Text.{normalized}
use laicos_backend.SourcingRequest.Rules.{
  requested_amount, units_comparable, names_match, is_listing_eligible, derive_sourcing_status,
}
use laicos_backend.SourcingRequest.Sync.{synced_requests, synced_request, snapshot_of}
use laicos_backend.SourcingRequest.Service.{allocations_of, is_awaiting_of, close_tx}
use laicos_backend.SourcingRequest.Selection.{
  AllocationItem, allocation, save_tx, item_refusal, items_refusal, same_group,
}
use laicos_backend.SourcingRequest.Confirm
use laicos_backend.SourcingRequest.Confirm.{confirm_tx, selected_quantity}
use laicos_backend.SourcingRequest.Live.{OneLive, live_of}
use laicos_backend.SourcingRequest.Methods.{
  SourcingCall, after_sourcing_call, after_sourcing_call-IsStocked,
}
use laicos_backend.SourcingRequest.OneLive.{after_sourcing_call-OneLive}
use laicos_backend.SourcingRequest.Saved.{IsSelectable, item_keyed, save_tx_saves}
use laicos_backend.SourcingRequest.Confirmed.{selected_units, confirm_tx_places, confirm_tx_again}
use laicos_backend.SourcingRequest.Closed.{close_tx_closes}
use laicos_backend.Tests.Shop.{shop, open_checkout, shop-IsStocked}
use laicos_backend.Tests.Sourcing.{request}
use laicos_backend.Tests.Carts.{config, dto, other_dto}
use laicos_backend.Tests.Verifications.{agent}

abbrev pub asked : SourcingRequest
asked = record request { status = SourcingRequestStatus.in_review }

abbrev pub supply : Db
supply = record shop { requests = asked ∷ []; agents = agent 6 ∷ [] }

abbrev pub print : ℕ → String
print _ = "N"

abbrev items : List AllocationItem
items = record { produce_id = 1; quantity = 4 } ∷ []

abbrev save_outcome : Result (Unit {0} × Db)
save_outcome = save_tx print 700 81 items supply

abbrev saved : Db
saved = elim save_outcome [ ok (u, db) ↦ db | err e ↦ shop ]

save_run : save_tx print 700 81 items supply ≡ ok (tt, saved)
unfolding save_tx items_refusal item_refusal is_listing_eligible names_match units_comparable
    normalized same_group synced_requests synced_request snapshot_of derive_sourcing_status
save_run = refl

save_tx_saves_example :
    (agent_id : ℕ) × (asked.assigned_agent_id ≡ some agent_id)
    × Every (IsSelectable supply asked agent_id) items
    × Distinct items
    × (allocations_of 81 saved ≡ map (allocation 81) items)
    × ((j : ℕ) → j ≢ 81 → allocations_of j saved ≡ allocations_of j supply)
save_tx_saves_example = save_tx_saves print 700 81 items asked supply saved tt refl save_run

-- The request with its selection, which covers it.
abbrev matched : SourcingRequest
matched = record asked { status = SourcingRequestStatus.finding_supply }

abbrev selected : Db
selected = record supply { requests = matched ∷ []; allocations = map (allocation 81) items }

abbrev confirm_outcome : Result (Checkout × Db)
confirm_outcome = confirm_tx 1000 100 config 81 "third" dto selected

abbrev proposed : Checkout
proposed = elim confirm_outcome [ ok (c, db) ↦ c | err e ↦ open_checkout ]

abbrev confirmed : Db
confirmed = elim confirm_outcome [ ok (c, db) ↦ db | err e ↦ shop ]

confirm_run : confirm_tx 1000 100 config 81 "third" dto selected ≡ ok (proposed, confirmed)
unfolding confirm_tx find_replay Confirm.confirm_new Confirm.selected_quantity Confirm.is_stale
    requested_amount is_listing_eligible names_match units_comparable normalized
    Place.resolve_delivery Confirm.reserve_and_confirm Confirm.reserve_selected try_reserve_produce
    Confirm.place_selected Place.create_checkout percent_of synced_requests synced_request
    snapshot_of derive_sourcing_status
confirm_run = refl

nothing_to_replay : find_replay 2 "third" selected ≡ none
unfolding find_replay
nothing_to_replay = refl

confirm_tx_places_example :
    (proposed.sourcing_request_id ≡ some 81)
    × (proposed.buyer_id ≡ 2)
    × (proposed.status ≡ CheckoutStatus.awaiting_payment)
    × (proposed.total_price ≡ 99000)
    × (sum_by (live_of 81) confirmed.checkouts ≡ 1)
    × (requested_amount matched.quantity matched.unit
        ≤ selected_quantity selected matched (allocations_of 81 selected) * 1000)
    × ((j : ℕ)
        → held j confirmed.orders
          ≡ selected_units j (allocations_of 81 selected) + held j selected.orders)
confirm_tx_places_example =
    confirm_tx_places 1000 100 config 81 "third" dto matched selected confirmed proposed refl
      nothing_to_replay confirm_run

confirm_tx_again_example :
    (confirm_tx 2000 107 config 81 "third" other_dto confirmed ≡ ok (proposed, confirmed))
    × ((other : String)
        → find_replay 2 other confirmed ≡ none
        → confirm_tx 2000 107 config 81 other other_dto confirmed
          ≡ err Failure.request_has_checkout)
confirm_tx_again_example =
    confirm_tx_again 1000 100 config 81 "third" dto matched selected confirmed proposed refl
      nothing_to_replay confirm_run 2000 107 config other_dto

-- The request while the buyer has not paid, in the shop's own terms.
abbrev waiting : Db
waiting = record supply {
  requests = record asked { status = SourcingRequestStatus.awaiting_buyer } ∷ [];
  checkouts = record open_checkout { sourcing_request_id = some 81 } ∷ [];
}

pub supply-OneLive : OneLive supply
supply-OneLive = record { one = λ i. ground arith }

waiting-OneLive : OneLive waiting
waiting-OneLive = record { one = λ i. ground arith }

abbrev close_outcome : Result (Unit {0} × Db)
close_outcome = close_tx 900 81 "No supply" waiting

abbrev closed : Db
closed = elim close_outcome [ ok (u, db) ↦ db | err e ↦ shop ]

close_run : close_tx 900 81 "No supply" waiting ≡ ok (tt, closed)
unfolding close_tx Checkout.release_checkout Checkout.release_orders release_stock
    sync_produce_status synced_requests synced_request snapshot_of derive_sourcing_status
close_run = refl

close_tx_closes_example :
    (any (is_awaiting_of 81) closed.checkouts ≡ false)
    × ((r : SourcingRequest) × (find 81 closed.requests ≡ some r)
        × (r.status ≡ SourcingRequestStatus.closed)
        × (r.closed_at ≡ some 900)
        × (r.close_reason ≡ some "No supply"))
close_tx_closes_example =
    close_tx_closes 900 81 "No supply" waiting closed tt waiting-OneLive (refl, tt) close_run

pub supply-IsStocked : IsStocked [] supply
supply-IsStocked = record {
  balanced = λ i p e. shop-IsStocked.balanced i p e;
  synced = λ i p e. shop-IsStocked.synced i p e;
}

after_sourcing_call-IsStocked_example :
    IsStocked [] (after_sourcing_call print 700 100 config (SourcingCall.save 81 items) supply)
after_sourcing_call-IsStocked_example =
    after_sourcing_call-IsStocked print 700 100 config (SourcingCall.save 81 items) supply
      supply-IsStocked

after_sourcing_call-OneLive_example :
    OneLive (after_sourcing_call print 900 100 config (SourcingCall.close 81 "No supply") waiting)
after_sourcing_call-OneLive_example =
    after_sourcing_call-OneLive print 900 100 config (SourcingCall.close 81 "No supply") waiting
      waiting-OneLive
