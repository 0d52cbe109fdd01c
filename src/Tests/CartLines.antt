-- ===== src/Tests/CartLines.antt =====
-- The cart service run on the small marketplace.
use laicos_backend.Prelude.{ℕ, ◌≡◌, refl, inl, inr, List, [], ◌∷◌, arith, ◌==◌, Bool-cases}
use laicos_backend.Prelude.Table.{find_many}
use laicos_backend.Schema.{
  Db, ok, CartItem, CartSkippedItem, Failure, item_keyed, produce_keyed, farm_keyed,
}
use laicos_backend.Order.Service.{require_buyer}
use laicos_backend.Order.Reservation.{is_orderable, order_refusal}
use laicos_backend.Cart.Checkout.{buyer_id_of}
use laicos_backend.Cart.Lines
use laicos_backend.Cart.Lines.{AddCartItemDto, is_own, merge_items}
use laicos_backend.Cart.Lines.Capacity.{CartCall, after_cart_call, IsCart, after_cart_call-IsCart}
use laicos_backend.Cart.Lines.Merge.{after_cart_calls, merge_items_once}
use laicos_backend.Tests.Shop.{shopper, shop}

abbrev line : ℕ → ℕ → AddCartItemDto
line produce_id quantity = record { produce_id = produce_id; quantity = quantity }

abbrev lines : Db → List (ℕ × ℕ)
lines db = at db.cart_items
  where
    at : List CartItem → List (ℕ × ℕ)
    at [] = []
    at (item ∷ items) = (item.produce_id, item.quantity) ∷ at items

-- The cart holds four of five: one more fits.
add_run : lines (after_cart_call (CartCall.add_item shopper (line 1 1)) shop) ≡ (1, 5) ∷ []
unfolding after_cart_call Lines.add_item Lines.try_add_line Lines.upsert_line require_buyer
    is_orderable order_refusal
add_run = refl

-- A device's cart with two units too many, and a listing that is gone.
abbrev device : List AddCartItemDto
device = line 1 3 ∷ line 9 1 ∷ []

abbrev after_merge : Db
after_merge = (merge_items shopper "device" device shop).1

abbrev skipped : List CartSkippedItem
skipped =
    record { produce_id = 1; refusal = Failure.insufficient_stock }
    ∷ record { produce_id = 9; refusal = Failure.produce_not_found }
    ∷ []

merge_run : merge_items shopper "device" device shop ≡ (ok (shop.cart_items, skipped), after_merge)
unfolding merge_items Lines.merge_tx Lines.add_lines Lines.try_add_line Lines.upsert_line
    require_buyer is_orderable order_refusal
merge_run = refl

shop-IsCart : IsCart shop.cart_items
shop-IsCart = record {
  once = λ b p. elim (Bool-cases (2 == b)) [ inl here ↦ ground arith | inr other ↦ ground arith ];
  capped = λ b. ground arith;
}

after_cart_call-IsCart_example :
    IsCart (after_cart_call (CartCall.merge_items shopper "device" device) shop).cart_items
after_cart_call-IsCart_example =
    after_cart_call-IsCart (CartCall.merge_items shopper "device" device) shop shop-IsCart

merge_items_once_example :
    let later = after_cart_calls (CartCall.remove_item shopper 41 ∷ []) after_merge in
    (b : ℕ) × (buyer_id_of shopper shop ≡ ok b)
    × (merge_items shopper "device" (line 1 1 ∷ []) later
        ≡ (ok (find_many (is_own b) later.cart_items, skipped), later))
merge_items_once_example =
    merge_items_once shopper "device" device (line 1 1 ∷ []) (CartCall.remove_item shopper 41 ∷ [])
      shop after_merge shop.cart_items skipped merge_run
