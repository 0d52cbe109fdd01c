-- ===== src/Cart/Lines/Merge.antt =====
-- A merge is applied once: what a repeat of it does, however late it comes.
use Prim.Native.String.{String}
use mathlib.Core.Path.{subst}
use text.Mathlib.Text.{◌==◌ as str_eq}
use text.Mathlib.TextEquality.{eq_iff}
use laicos_backend.Prelude.{
  ℕ, ◌≡◌, refl, sym, ap, ◌∙◌, inl, inr, none, some, List, [], ◌∷◌, ◌&&◌, arith, ◌==◌, Bool-cases,
  Option-cases, ==_refl,
}
use laicos_backend.Prelude.Table.{find_first, find_many}
use laicos_backend.Schema.{
  Db, Result-cases, ok, Tx, Buyer, User, CartItem, CartMerge, CartSkippedItem, item_keyed,
  produce_keyed, transaction,
}
use laicos_backend.Order.Service.{require_buyer}
use laicos_backend.Cart.Methods.{as_buyer_keeps}
use laicos_backend.Cart.Checkout.{buyer_id_of}
use laicos_backend.Cart.Lines
use laicos_backend.Cart.Lines.{
  AddCartItemDto, is_own, add_lines, merge_tx, merge_items, is_merge, put_merge, upsert_line,
  try_add_line, find_own_item, assert_orderable, update_item_tx, remove_item_tx, thrown,
}
use laicos_backend.Cart.Lines.Capacity.{CartCall, after_cart_call, thrown_inv}

-- What the cart's methods leave as it was, or add to, for a merge that is stored.
pub record Keeps (b : ℕ) (key : String) (m : CartMerge) (buyers : List Buyer) (db : Db)
    : Type 0 where
  pub same_buyers : db.buyers ≡ buyers
  pub stored : find_first (is_merge b key) db.cart_merges ≡ some m

IsBeside : Db → Db → Type 0
IsBeside db db' = (db'.buyers ≡ db.buyers) × (db'.cart_merges ≡ db.cart_merges)

try_add_line-IsBeside :
    (b : ℕ) (line : AddCartItemDto) (db : Db) → IsBeside db (try_add_line b line db).1
unfolding IsBeside try_add_line upsert_line
try_add_line-IsBeside b line db = (ground arith, ground arith)

add_lines-IsBeside :
    (b : ℕ) (lines : List AddCartItemDto) (db : Db) → IsBeside db (add_lines b lines db).1
unfolding IsBeside add_lines
add_lines-IsBeside b [] db = (refl, refl)
add_lines-IsBeside b (line ∷ lines) db =
    let step = try_add_line-IsBeside b line db in
    let rest = add_lines-IsBeside b lines (try_add_line b line db).1 in
    (rest.0 ∙ step.0, rest.1 ∙ step.1)

module _ (b : ℕ) (key : String) (m : CartMerge) (buyers : List Buyer) where
  Keeps-beside :
      (db db' : Db) → IsBeside db db' → Keeps b key m buyers db → Keeps b key m buyers db'
  unfolding IsBeside
  Keeps-beside db db' (same, merges) h = record {
    same_buyers = same ∙ h.same_buyers;
    stored = ap (λ t. find_first (is_merge b key) t) merges ∙ h.stored;
  }

  -- A new merge has another buyer or another key.
  stored-put :
      (b' : ℕ) (key' : String) (skipped : List CartSkippedItem) (t : List CartMerge)
      → find_first (is_merge b' key') t ≡ none
      → find_first (is_merge b key) t ≡ some m
      → find_first
          (is_merge b key)
          (record { buyer_id = b'; idempotency_key = key'; skipped = skipped } ∷ t)
        ≡ some m
  stored-put b' key' skipped t fresh found = elim (Bool-cases (b' == b && str_eq key' key)) [
    | inl same ↦
        let eb : b' ≡ b = ground arith in
        let ek : key' ≡ key = (eq_iff key' key).0 (ground arith) in
        absurd (
          let gone : find_first (is_merge b key) t ≡ none =
            subst (λ k. find_first (is_merge b k) t ≡ none) ek
              (subst (λ x. find_first (is_merge x key') t ≡ none) eb fresh) in
          cc)
    | inr other ↦ rw other found
  ]

  merge_tx-Keeps :
      (b' : ℕ) (key' : String) (lines : List AddCartItemDto) (db db' : Db)
      (a : List CartItem × List CartSkippedItem)
      → Keeps b key m buyers db
      → merge_tx b' key' lines db ≡ ok (a, db')
      → Keeps b key m buyers db'
  unfolding merge_tx IsBeside
  merge_tx-Keeps b' key' lines db db' a h run =
      elim (Option-cases (find_first (is_merge b' key') db.cart_merges)) [
        | inl fresh ↦
            let (skipped, after) = add_lines b' lines db in
            let (same, merges) = add_lines-IsBeside b' lines db in
            let wrote : db' ≡ put_merge b' key' skipped after = ground (arith, fresh) in
            subst (Keeps b key m buyers) (sym wrote) (record {
              same_buyers = same ∙ h.same_buyers;
              stored = rw merges (stored-put b' key' skipped db.cart_merges fresh h.stored);
            })
        | inr (m', there) ↦
            let kept : db' ≡ db = ground (arith, there) in subst (Keeps b key m buyers) (sym kept) h
      ]

  after_cart_call-Keeps :
      (call : CartCall) (db : Db)
      → Keeps b key m buyers db
      → Keeps b key m buyers (after_cart_call call db)
  unfolding after_cart_call Lines.add_item Lines.merge_items Lines.update_item Lines.remove_item
      update_item_tx remove_item_tx find_own_item assert_orderable IsBeside
  after_cart_call-Keeps (CartCall.add_item user line) db h =
      as_buyer_keeps (Keeps b key m buyers) (buyer_id_of user db) _ db h λ b' a db' run.
        Keeps-beside db db'
          (subst (IsBeside db) (thrown_inv (try_add_line b' line db) a db' run)
            (try_add_line-IsBeside b' line db))
          h
  after_cart_call-Keeps (CartCall.merge_items user key' lines) db h =
      as_buyer_keeps (Keeps b key m buyers) (buyer_id_of user db) _ db h
        λ b' a db' run. merge_tx-Keeps b' key' lines db db' a h run
  after_cart_call-Keeps (CartCall.update_item user id quantity) db h =
      as_buyer_keeps (Keeps b key m buyers) (buyer_id_of user db) _ db h
        λ b' a db' run. Keeps-beside db db' (ground arith, ground arith) h
  after_cart_call-Keeps (CartCall.remove_item user id) db h =
      as_buyer_keeps (Keeps b key m buyers) (buyer_id_of user db) _ db h
        λ b' a db' run. Keeps-beside db db' (ground arith, ground arith) h

transaction_inv :
    {A : Type 0} (body : Tx A) (db db' : Db) (a : A)
    → transaction body db ≡ (ok a, db')
    → body db ≡ ok (a, db')
transaction_inv body db db' a run = elim (Result-cases (body db)) [
  | inl (e, failed) ↦ absurd (ground (arith, failed))
  | inr (x, done) ↦ ground (arith, done)
]

-- Any sequence of the cart's methods.
unfoldable pub after_cart_calls : List CartCall → Db → Db
after_cart_calls [] db = db
after_cart_calls (call ∷ calls) db = after_cart_calls calls (after_cart_call call db)

after_cart_calls-Keeps :
    (b : ℕ) (key : String) (m : CartMerge) (buyers : List Buyer) (calls : List CartCall) (db : Db)
    → Keeps b key m buyers db
    → Keeps b key m buyers (after_cart_calls calls db)
unfolding after_cart_calls
after_cart_calls-Keeps b key m buyers [] db h = h
after_cart_calls-Keeps b key m buyers (call ∷ calls) db h =
    after_cart_calls-Keeps b key m buyers calls (after_cart_call call db)
      (after_cart_call-Keeps b key m buyers call db h)

-- What a merge that went through has stored.
merge_tx-stores :
    (b : ℕ) (key : String) (lines : List AddCartItemDto) (db db' : Db) (items : List CartItem)
    (skipped : List CartSkippedItem)
    → merge_tx b key lines db ≡ ok ((items, skipped), db')
    → (m : CartMerge) × Keeps b key m db.buyers db' × (m.skipped ≡ skipped)
unfolding merge_tx IsBeside
merge_tx-stores b key lines db db' items skipped run =
    elim (Option-cases (find_first (is_merge b key) db.cart_merges)) [
      | inl fresh ↦
          let (given, after) = add_lines b lines db in
          let wrote : db' ≡ put_merge b key given after = ground (arith, fresh) in
          let same : given ≡ skipped = ground (arith, fresh) in
          (
            record { buyer_id = b; idempotency_key = key; skipped = given },
            subst (Keeps b key _ db.buyers) (sym wrote) (record {
              same_buyers = (add_lines-IsBeside b lines db).0;
              stored = rw (==_refl b, (eq_iff key key).1 refl) refl;
            }),
            same,
          )
      | inr (m, there) ↦
          let kept : db' ≡ db = ground (arith, there) in
          (
            m,
            subst (Keeps b key m db.buyers) (sym kept)
                (record { same_buyers = refl; stored = there }),
            ground (arith, there),
          )
    ]

buyer_id_of-same :
    (user : User) (db later : Db)
    → later.buyers ≡ db.buyers
    → buyer_id_of user later ≡ buyer_id_of user db
unfolding require_buyer
buyer_id_of-same user db later same = ground (arith, same)

merge_items-replays :
    (user : User) (b : ℕ) (key : String) (lines : List AddCartItemDto) (later : Db) (m : CartMerge)
    → buyer_id_of user later ≡ ok b
    → find_first (is_merge b key) later.cart_merges ≡ some m
    → merge_items user key lines later
      ≡ (ok (find_many (is_own b) later.cart_items, m.skipped), later)
unfolding merge_items merge_tx
merge_items-replays user b key lines later m who there = rw (who, transaction, there) refl

-- After a merge of a device's cart has gone through under a key, and after any further cart calls,
-- merging again under that key with any lines writes nothing: it answers the lines the cart now
-- has and what the first merge skipped.
pub merge_items_once :
    (user : User) (key : String) (lines lines' : List AddCartItemDto) (calls : List CartCall)
    (db db' : Db) (items : List CartItem) (skipped : List CartSkippedItem)
    → merge_items user key lines db ≡ (ok (items, skipped), db')
    → let later = after_cart_calls calls db' in
      (b : ℕ) × (buyer_id_of user db ≡ ok b)
      × (merge_items user key lines' later
          ≡ (ok (find_many (is_own b) later.cart_items, skipped), later))
unfolding merge_items
merge_items_once user key lines lines' calls db db' items skipped run =
    elim (Result-cases (buyer_id_of user db)) [
      | inl (e, refused) ↦ absurd (ground (arith, refused))
      | inr (b, who) ↦
          let ran : merge_tx b key lines db ≡ ok ((items, skipped), db') =
            transaction_inv (merge_tx b key lines) db db' (items, skipped) (rw who at run) in
          let (m, kept, same) = merge_tx-stores b key lines db db' items skipped ran in
          let late = after_cart_calls-Keeps b key m db.buyers calls db' kept in
          (
            b,
            who,
            rw (← same) (
                merge_items-replays user b key lines' (after_cart_calls calls db') m
                  (buyer_id_of-same user db (after_cart_calls calls db') late.same_buyers ∙ who)
                  late.stored),
          )
    ]
