-- ===== src/Cart/Lines.antt =====
-- src/cart/cart.service.ts: the lines of a cart, and the merge of a device's cart after sign-in.
-- Every writer holds the buyer's cart lock, so a method reads and writes one database. Prices and
-- the formatting of the answers are left out.
pub mod Capacity
pub mod Merge
use Prim.Native.String.{String}
use text.Mathlib.Text.{◌==◌ as str_eq}
use laicos_backend.Prelude.{
  ℕ, ◌+◌, Bool, true, false, ◌&&◌, not, Option, none, some, List, [], ◌∷◌, leb, is_some, ◌==◌,
  if◌then◌else◌,
}
use laicos_backend.Prelude.Table.{find, find_first, find_many, update_many, modify, delete, sum_by}
use laicos_backend.Schema.{
  Db, Result, ok, err, Failure, Tx, ◌>>=◌, ◌>>◌, pure, gets, or_throw, throw_if, modify_db, User,
  CartItem, CartMerge, CartSkippedItem, produce_keyed, item_keyed,
}
use laicos_backend.Order.Reservation.{is_orderable, order_refusal}
use laicos_backend.Cart.Checkout.{as_buyer, buyer_id_of}

pub record AddCartItemDto : Type 0 where
  pub produce_id : ℕ
  pub quantity : ℕ

-- `MAX_CART_ITEMS`.
abbrev pub max_cart_items : ℕ
max_cart_items = 50

-- `{ buyerId, produceId }`.
abbrev pub is_line : ℕ → ℕ → CartItem → Bool
is_line buyer_id produce_id item = item.buyer_id == buyer_id && item.produce_id == produce_id

abbrev pub is_own : ℕ → CartItem → Bool
is_own buyer_id item = item.buyer_id == buyer_id

-- `cartItem.count`.
abbrev pub count_own : ℕ → List CartItem → ℕ
count_own buyer_id items = sum_by (λ item. if is_own buyer_id item then 1 else 0) items

-- `existing?.quantity ?? 0`.
abbrev pub line_quantity : Option CartItem → ℕ
line_quantity none = 0
line_quantity (some item) = item.quantity

abbrev pub set_quantity : ℕ → CartItem → CartItem
set_quantity quantity item = record item { quantity = quantity }

abbrev pub new_line : ℕ → ℕ → ℕ → ℕ → CartItem
new_line id buyer_id produce_id quantity = record {
  id = id;
  buyer_id = buyer_id;
  produce_id = produce_id;
  quantity = quantity;
}

-- `orderableRefusal`.
abbrev pub orderable_refusal : ℕ → ℕ → Db → Option Failure
orderable_refusal produce_id quantity db =
    let produce = find produce_id db.produces in
    if is_orderable db produce quantity then none else some (order_refusal db produce)

-- `cartItem.upsert` by `{ buyerId, produceId }`, `existing` being the row with that key.
unfoldable pub upsert_line : ℕ → ℕ → ℕ → Option CartItem → Db → CartItem × Db
upsert_line buyer_id produce_id quantity (some item) db = (
  set_quantity quantity item,
  record db {
    cart_items = update_many (is_line buyer_id produce_id) (set_quantity quantity) db.cart_items;
  },
)
upsert_line buyer_id produce_id quantity none db =
    let line = new_line db.next_id buyer_id produce_id quantity in
    (line, record db { cart_items = line ∷ db.cart_items; next_id = db.next_id + 1 })

abbrev pub is_full : ℕ → Option CartItem → Db → Bool
is_full buyer_id existing db =
    not (is_some existing) && leb max_cart_items (count_own buyer_id db.cart_items)

-- `tryAddLine`: the line, or why it can't be added.
unfoldable pub try_add_line : ℕ → AddCartItemDto → Db → Result CartItem × Db
unfolding upsert_line
try_add_line buyer_id line db =
    let existing = find_first (is_line buyer_id line.produce_id) db.cart_items in
    let quantity = line_quantity existing + line.quantity in
    if is_full buyer_id existing db
    then (err Failure.cart_full, db)
    else elim (orderable_refusal line.produce_id quantity db) [
      | some refusal ↦ (err refusal, db)
      | none ↦
          let (item, db') = upsert_line buyer_id line.produce_id quantity existing db in
          (ok item, db')
    ]

abbrev pub note_skipped : ℕ → Result CartItem → List CartSkippedItem → List CartSkippedItem
note_skipped produce_id (ok item) skipped = skipped
note_skipped produce_id (err e) skipped = record { produce_id = produce_id; refusal = e } ∷ skipped

-- `addLines`.
unfoldable pub add_lines : ℕ → List AddCartItemDto → Db → List CartSkippedItem × Db
add_lines buyer_id [] db = ([], db)
add_lines buyer_id (line ∷ lines) db =
    let (result, db1) = try_add_line buyer_id line db in
    let (skipped, db2) = add_lines buyer_id lines db1 in
    (note_skipped line.produce_id result skipped, db2)

abbrev pub thrown : {A : Type 0} → Result A × Db → Result (A × Db)
thrown (ok a, db) = ok (a, db)
thrown (err e, db) = err e

-- `addItem`.
unfoldable pub add_item : User → AddCartItemDto → Db → Result CartItem × Db
add_item user dto db =
    as_buyer (buyer_id_of user db) (λ buyer_id tx. thrown (try_add_line buyer_id dto tx)) db

abbrev pub is_merge : ℕ → String → CartMerge → Bool
is_merge buyer_id idempotency_key m =
    m.buyer_id == buyer_id && str_eq m.idempotency_key idempotency_key

abbrev pub put_merge : ℕ → String → List CartSkippedItem → Db → Db
put_merge buyer_id idempotency_key skipped db = record db {
  cart_merges =
      record { buyer_id = buyer_id; idempotency_key = idempotency_key; skipped = skipped }
      ∷ db.cart_merges;
}

-- `mergeItems`: the buyer's lines, and what was skipped. `storedSkipped` reads back what
-- `cartMerge.create` wrote.
unfoldable pub merge_tx :
    ℕ → String → List AddCartItemDto → Tx (List CartItem × List CartSkippedItem)
unfolding add_lines
merge_tx buyer_id idempotency_key items db =
    let own = find_many (is_own buyer_id) in
    elim (find_first (is_merge buyer_id idempotency_key) db.cart_merges) [
      | some replay ↦ ok ((own db.cart_items, replay.skipped), db)
      | none ↦
          let (skipped, db') = add_lines buyer_id items db in
          ok ((own db'.cart_items, skipped), put_merge buyer_id idempotency_key skipped db')
    ]

unfoldable pub merge_items :
    User → String → List AddCartItemDto → Db → Result (List CartItem × List CartSkippedItem) × Db
merge_items user idempotency_key items db =
    as_buyer (buyer_id_of user db) (λ buyer_id. merge_tx buyer_id idempotency_key items) db

-- `findOwnItem`.
unfoldable pub find_own_item : ℕ → ℕ → Tx CartItem
find_own_item buyer_id id db =
    elim (find_first (λ item. item.id == id && is_own buyer_id item) db.cart_items) [
      | none ↦ err Failure.cart_item_not_found
      | some item ↦ ok (item, db)
    ]

-- `assertOrderable`.
unfoldable pub assert_orderable : ℕ → ℕ → Tx (Unit {0})
assert_orderable produce_id quantity db = elim (orderable_refusal produce_id quantity db) [
  | some refusal ↦ err refusal
  | none ↦ ok (tt, db)
]

-- `updateItem`.
unfoldable pub update_item_tx : ℕ → ℕ → ℕ → Tx CartItem
update_item_tx buyer_id id quantity = do
  item ← find_own_item buyer_id id
  assert_orderable item.produce_id quantity
  modify_db (λ db. record db { cart_items = modify id (set_quantity quantity) db.cart_items })
  pure (set_quantity quantity item)

unfoldable pub update_item : User → ℕ → ℕ → Db → Result CartItem × Db
update_item user id quantity db =
    as_buyer (buyer_id_of user db) (λ buyer_id. update_item_tx buyer_id id quantity) db

-- `removeItem`.
unfoldable pub remove_item_tx : ℕ → ℕ → Tx CartItem
remove_item_tx buyer_id id = do
  item ← find_own_item buyer_id id
  modify_db (λ db. record db { cart_items = delete id db.cart_items })
  pure item

unfoldable pub remove_item : User → ℕ → Db → Result CartItem × Db
remove_item user id db = as_buyer (buyer_id_of user db) (λ buyer_id. remove_item_tx buyer_id id) db
