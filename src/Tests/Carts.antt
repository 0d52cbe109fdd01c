-- ===== src/Tests/Carts.antt =====
-- The checkout service run on the small marketplace.
use laicos_backend.Prelude.{◌+◌, ◌*◌, ◌≡◌, refl, none, [], ◌==◌}
use laicos_backend.Prelude.Table.{find_many}
use laicos_backend.Schema.{Db, Result, ok, err, Checkout, CheckoutStatus}
use laicos_backend.Common.Money.{percent_of}
use laicos_backend.Order.Stock.{IsStocked}
use laicos_backend.Cart.Place.{CheckoutConfig, find_replay}
use laicos_backend.Order.Reservation.{try_reserve_produce}
use laicos_backend.Cart.Place
use laicos_backend.Cart.Checkout
use laicos_backend.Cart.Checkout.{CreateCheckoutDto, place_orders}
use laicos_backend.Cart.Methods.{
  CheckoutCall, after_checkout_call, after_checkout_call-IsStocked, place_orders_replay,
  place_orders_price,
}
use laicos_backend.Tests.Shop.{shopper, open_checkout, shop, shop-IsStocked}

abbrev pub config : CheckoutConfig
config = record {
  delivery_fee = 15000;
  service_fee_percent = 500;
  hold_minutes = 30;
  delivery_min_days = 2;
  delivery_max_days = 14;
}

abbrev pub dto : CreateCheckoutDto
dto = record { address_id = 31; delivery_date = 105; expected_total = 99000 }

abbrev outcome : Result (Checkout × Db)
outcome = place_orders 1000 100 config 2 "second" dto shop

abbrev placed : Checkout
placed = elim outcome [ ok (c, db) ↦ c | err e ↦ open_checkout ]

abbrev after : Db
after = elim outcome [ ok (c, db) ↦ db | err e ↦ shop ]

-- Four bags at 200.00 with 150.00 of delivery and a fee of 5% cost 990.00.
placed_run : outcome ≡ ok (placed, after)
unfolding place_orders find_replay Checkout.place_new Place.cart_item_issue Place.resolve_delivery
    Checkout.reserve_and_place Checkout.reserve_lines try_reserve_produce Checkout.place_lines
    Place.create_checkout percent_of
placed_run = refl

placed_total : placed.total_price ≡ 99000
unfolding place_orders find_replay Checkout.place_new Place.cart_item_issue Place.resolve_delivery
    Checkout.reserve_and_place Checkout.reserve_lines try_reserve_produce Checkout.place_lines
    Place.create_checkout percent_of
placed_total = refl

nothing_to_replay : find_replay 2 "second" shop ≡ none
unfolding find_replay
nothing_to_replay = refl

abbrev pub other_dto : CreateCheckoutDto
other_dto = record { address_id = 32; delivery_date = 1; expected_total = 1 }

after_checkout_call-IsStocked_example :
    IsStocked []
      (after_checkout_call 1000 100 config (CheckoutCall.checkout shopper "second" dto) shop)
after_checkout_call-IsStocked_example =
    after_checkout_call-IsStocked 1000 100 config (CheckoutCall.checkout shopper "second" dto) shop
      shop-IsStocked

place_orders_replay_example :
    place_orders 2000 107 config 2 "second" other_dto after ≡ ok (placed, after)
place_orders_replay_example =
    place_orders_replay 1000 100 config 2 "second" dto shop after placed placed_run 2000 107 config
      other_dto

place_orders_price_example :
    (placed.total_price ≡ 99000)
    × (placed.total_price ≡ placed.subtotal + placed.delivery_fee + placed.service_fee)
    × (placed.service_fee ≡ percent_of placed.subtotal 500)
    × (placed.status ≡ CheckoutStatus.awaiting_payment)
    × (placed.expires_at ≡ 1000 + 30 * 60000)
    × (find_many (λ item. item.buyer_id == 2) after.cart_items ≡ [])
place_orders_price_example =
    place_orders_price 1000 100 config 2 "second" dto shop after placed nothing_to_replay placed_run
