-- ===== src/Tests/Listings.antt =====
-- The produce service run on the small marketplace.
use laicos_backend.Prelude.{ℕ, ◌≡◌, refl, none, some, List, [], ◌∷◌, arith}
use laicos_backend.Schema.{
  Db, Produce, ProduceStatus, order_keyed, produce_keyed, farm_keyed, put_produce,
}
use laicos_backend.Produce.{derive_produce_status}
use laicos_backend.Produce.Service
use laicos_backend.Produce.Service.{UpdateProduceDto, disable_listing}
use laicos_backend.Produce.Methods.{ListingCall, after_listing_call, after_listing_call-IsStocked}
use laicos_backend.Order.Stock.{IsStocked}
use laicos_backend.Tests.Shop.{farmer, shop, shop-IsStocked}

-- The farmer found two units fewer, and leaves the status as it is.
abbrev recount : UpdateProduceDto
recount = record {
  name = none;
  actual_quantity = some 8;
  unit = none;
  price_per_unit = none;
  status = none;
}

abbrev shelf : Db → List (ℕ × ℕ × ProduceStatus)
shelf db = at db.produces
  where
    at : List Produce → List (ℕ × ℕ × ProduceStatus)
    at [] = []
    at (p ∷ ps) = (p.actual_quantity, p.floating_quantity, p.status) ∷ at ps

update_run :
    shelf (after_listing_call (ListingCall.update farmer 1 recount) shop shop)
    ≡ (8, 3, ProduceStatus.published) ∷ []
unfolding after_listing_call Service.update Service.update_tx Service.updated_produce
    derive_produce_status
update_run = refl

-- An admin's disable that lands between the read of `update` and its write is undone by it.
update_over_disable :
    shelf (
      after_listing_call
        (ListingCall.update farmer 1 recount)
        shop
        (put_produce 1 disable_listing shop))
    ≡ (8, 3, ProduceStatus.published) ∷ []
unfolding after_listing_call Service.update Service.update_tx Service.updated_produce
    derive_produce_status
update_over_disable = refl

after_listing_call-IsStocked_example :
    IsStocked [] (after_listing_call (ListingCall.update farmer 1 recount) shop shop)
after_listing_call-IsStocked_example =
    after_listing_call-IsStocked (ListingCall.update farmer 1 recount) shop shop
      (ground arith, (ground arith, tt)) (refl, tt) shop-IsStocked
