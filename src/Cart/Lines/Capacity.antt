-- ===== src/Cart/Lines/Capacity.antt =====
-- What the unique index of a cart and its size limit promise, across the cart's methods.
use Prim.Native.String.{String}
use mathlib.Core.Path.{subst}
use laicos_backend.Prelude.{
  ℕ, ◌+◌, ◌≤◌, ◌<◌, ◌≡◌, refl, inl, inr, Bool, false, Option, none, some, List, [], ◌∷◌, arith,
  if◌then◌else◌, Bool-cases, Option-cases,
}
use laicos_backend.Prelude.Table.{
  Keyed, find_first, modify, delete, update_many, sum_by, sum_by-update_many,
}
use laicos_backend.Schema.{
  Db, Result, ok, err, User, CartItem, CartSkippedItem, item_keyed, produce_keyed,
}
use laicos_backend.Cart.Methods.{as_buyer_keeps}
use laicos_backend.Cart.Checkout.{buyer_id_of}
use laicos_backend.Cart.Lines
use laicos_backend.Cart.Lines.{
  AddCartItemDto, max_cart_items, line_quantity, is_line, is_own, count_own, set_quantity, new_line,
  orderable_refusal, upsert_line, is_full, try_add_line, add_lines, thrown, merge_tx, is_merge,
  update_item_tx, remove_item_tx, find_own_item, assert_orderable,
}

module _ {R : Type 0} ⦃k : Keyed R⦄ where
  sum_by-modify_same :
      (g : R → ℕ) (i : ℕ) (f : R → R) (t : List R)
      → ((r : R) → g (f r) ≡ g r)
      → sum_by g (modify i f t) ≡ sum_by g t
  sum_by-modify_same g i f [] same = refl
  sum_by-modify_same g i f (r ∷ t) same = ground (arith, same r, sum_by-modify_same g i f t same)

  sum_by-delete_le : (g : R → ℕ) (i : ℕ) (t : List R) → sum_by g (delete i t) ≤ sum_by g t
  sum_by-delete_le g i [] = omega arith
  sum_by-delete_le g i (r ∷ t) = ground (arith, sum_by-delete_le g i t)

abbrev pub count_line : ℕ → ℕ → List CartItem → ℕ
count_line buyer_id produce_id items =
    sum_by (λ item. if is_line buyer_id produce_id item then 1 else 0) items

-- A buyer has at most one line of a listing, and at most the limit of lines.
pub record IsCart (items : List CartItem) : Type 0 where
  pub once : (buyer_id produce_id : ℕ) → count_line buyer_id produce_id items ≤ 1
  pub capped : (buyer_id : ℕ) → count_own buyer_id items ≤ max_cart_items

count_line-none :
    (b p : ℕ) (items : List CartItem)
    → find_first (is_line b p) items ≡ none
    → count_line b p items ≡ 0
count_line-none b p [] h = refl
count_line-none b p (item ∷ items) h = ground (arith, count_line-none b p items)

IsCart-new :
    (id b p quantity : ℕ) (items : List CartItem)
    → find_first (is_line b p) items ≡ none
    → count_own b items < max_cart_items
    → IsCart items
    → IsCart (new_line id b p quantity ∷ items)
IsCart-new id b p quantity items fresh room h = record {
  once = λ b' p'. once_at b' p';
  capped = λ b'. ground (arith, h.capped b', room);
}
  where
    once_at : (b' p' : ℕ) → count_line b' p' (new_line id b p quantity ∷ items) ≤ 1
    once_at b' p' = elim (Bool-cases (is_line b' p' (new_line id b p quantity))) [
      | inl same ↦
          let eb : b ≡ b' = ground arith in
          let ep : p ≡ p' = ground arith in
          let none_yet : count_line b' p' items ≡ 0 =
            subst (λ x. count_line x p' items ≡ 0) eb
              (subst (λ y. count_line b y items ≡ 0) ep (count_line-none b p items fresh)) in
          ground (arith, none_yet)
      | inr other ↦ ground (arith, h.once b' p', other)
    ]

IsCart-update_many :
    (q : CartItem → Bool) (quantity : ℕ) (items : List CartItem)
    → IsCart items
    → IsCart (update_many q (set_quantity quantity) items)
IsCart-update_many q quantity items h = record {
  once = λ b p.
      rw
        (sum_by-update_many (λ item. if is_line b p item then 1 else 0) q (set_quantity quantity)
          items (λ r e. refl))
        (h.once b p);
  capped = λ b.
      rw
        (sum_by-update_many (λ item. if is_own b item then 1 else 0) q (set_quantity quantity) items
          (λ r e. refl))
        (h.capped b);
}

IsCart-modify :
    (id quantity : ℕ) (items : List CartItem)
    → IsCart items
    → IsCart (modify id (set_quantity quantity) items)
IsCart-modify id quantity items h = record {
  once = λ b p.
      rw
        (sum_by-modify_same (λ item. if is_line b p item then 1 else 0) id (set_quantity quantity)
          items (λ r. refl))
        (h.once b p);
  capped = λ b.
      rw
        (sum_by-modify_same (λ item. if is_own b item then 1 else 0) id (set_quantity quantity)
          items (λ r. refl))
        (h.capped b);
}

IsCart-delete : (id : ℕ) (items : List CartItem) → IsCart items → IsCart (delete id items)
IsCart-delete id items h = record {
  once = λ b p.
      omega
        (arith, sum_by-delete_le (λ item. if is_line b p item then 1 else 0) id items, h.once b p);
  capped = λ b.
      omega (arith, sum_by-delete_le (λ item. if is_own b item then 1 else 0) id items, h.capped b);
}

upsert_line-IsCart :
    (b p quantity : ℕ) (existing : Option CartItem) (db : Db)
    → find_first (is_line b p) db.cart_items ≡ existing
    → is_full b existing db ≡ false
    → IsCart db.cart_items
    → IsCart (upsert_line b p quantity existing db).1.cart_items
unfolding upsert_line
upsert_line-IsCart b p quantity none db found room h =
    IsCart-new db.next_id b p quantity db.cart_items found (ground arith) h
upsert_line-IsCart b p quantity (some item) db found room h =
    IsCart-update_many (is_line b p) quantity db.cart_items h

try_add_line-IsCart :
    (b : ℕ) (line : AddCartItemDto) (db : Db)
    → IsCart db.cart_items
    → IsCart (try_add_line b line db).1.cart_items
unfolding try_add_line
try_add_line-IsCart b line db h =
    let existing = find_first (is_line b line.produce_id) db.cart_items in
    let quantity = line_quantity existing + line.quantity in
    elim (Bool-cases (is_full b existing db)) [
      | inl full ↦ rw full h
      | inr room ↦ rw room (elim (Option-cases (orderable_refusal line.produce_id quantity db)) [
        | inl fine ↦ rw fine (upsert_line-IsCart b line.produce_id quantity existing db refl room h)
        | inr (e, refused) ↦ rw refused h
      ])
    ]

add_lines-IsCart :
    (b : ℕ) (lines : List AddCartItemDto) (db : Db)
    → IsCart db.cart_items
    → IsCart (add_lines b lines db).1.cart_items
unfolding add_lines
add_lines-IsCart b [] db h = h
add_lines-IsCart b (line ∷ lines) db h =
    add_lines-IsCart b lines (try_add_line b line db).1 (try_add_line-IsCart b line db h)

merge_tx-IsCart :
    (b : ℕ) (key : String) (lines : List AddCartItemDto) (db db' : Db)
    (a : List CartItem × List CartSkippedItem)
    → IsCart db.cart_items
    → merge_tx b key lines db ≡ ok (a, db')
    → IsCart db'.cart_items
unfolding merge_tx
merge_tx-IsCart b key lines db db' a h run =
    elim (Option-cases (find_first (is_merge b key) db.cart_merges)) [
      | inl first ↦
          let same : db'.cart_items ≡ (add_lines b lines db).1.cart_items = ground (arith, first) in
          rw same (add_lines-IsCart b lines db h)
      | inr (m, replayed) ↦
          let same : db'.cart_items ≡ db.cart_items = ground (arith, replayed) in rw same h
    ]

update_item_tx-IsCart :
    (b id quantity : ℕ) (db db' : Db) (a : CartItem)
    → IsCart db.cart_items
    → update_item_tx b id quantity db ≡ ok (a, db')
    → IsCart db'.cart_items
unfolding update_item_tx find_own_item assert_orderable
update_item_tx-IsCart b id quantity db db' a h run =
    let same : db'.cart_items ≡ modify id (set_quantity quantity) db.cart_items = ground arith in
    rw same (IsCart-modify id quantity db.cart_items h)

remove_item_tx-IsCart :
    (b id : ℕ) (db db' : Db) (a : CartItem)
    → IsCart db.cart_items
    → remove_item_tx b id db ≡ ok (a, db')
    → IsCart db'.cart_items
unfolding remove_item_tx find_own_item
remove_item_tx-IsCart b id db db' a h run =
    let same : db'.cart_items ≡ delete id db.cart_items = ground arith in
    rw same (IsCart-delete id db.cart_items h)

pub thrown_inv :
    {A : Type 0} (r : Result A × Db) (a : A) (db' : Db) → thrown r ≡ ok (a, db') → r.1 ≡ db'
thrown_inv (ok x, db) a db' e = cc
thrown_inv (err x, db) a db' e = absurd cc

-- The methods that write a cart's lines.
pub data CartCall : Type 0 where
  add_item : User → AddCartItemDto → CartCall
  merge_items : User → String → List AddCartItemDto → CartCall
  update_item : User → ℕ → ℕ → CartCall
  remove_item : User → ℕ → CartCall

unfoldable pub after_cart_call : CartCall → Db → Db
after_cart_call (CartCall.add_item user line) db = (Lines.add_item user line db).1
after_cart_call (CartCall.merge_items user key lines) db = (Lines.merge_items user key lines db).1
after_cart_call (CartCall.update_item user id quantity) db =
    (Lines.update_item user id quantity db).1
after_cart_call (CartCall.remove_item user id) db = (Lines.remove_item user id db).1

abbrev HasCarts : Db → Type 0
HasCarts db = IsCart db.cart_items

-- Where each buyer has at most one cart line of a listing and at most fifty lines, that is still
-- so after adding a line, merging a device's cart, updating a line or removing one, on every
-- branch.
pub after_cart_call-IsCart :
    (call : CartCall) (db : Db) → IsCart db.cart_items → IsCart (after_cart_call call db).cart_items
unfolding after_cart_call Lines.add_item Lines.merge_items Lines.update_item Lines.remove_item
after_cart_call-IsCart (CartCall.add_item user line) db h =
    as_buyer_keeps HasCarts (buyer_id_of user db) _ db h λ b a db' run.
      subst HasCarts (thrown_inv (try_add_line b line db) a db' run)
        (try_add_line-IsCart b line db h)
after_cart_call-IsCart (CartCall.merge_items user key lines) db h =
    as_buyer_keeps HasCarts (buyer_id_of user db) _ db h
      λ b a db' run. merge_tx-IsCart b key lines db db' a h run
after_cart_call-IsCart (CartCall.update_item user id quantity) db h =
    as_buyer_keeps HasCarts (buyer_id_of user db) _ db h
      λ b a db' run. update_item_tx-IsCart b id quantity db db' a h run
after_cart_call-IsCart (CartCall.remove_item user id) db h =
    as_buyer_keeps HasCarts (buyer_id_of user db) _ db h
      λ b a db' run. remove_item_tx-IsCart b id db db' a h run
