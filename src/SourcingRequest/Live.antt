-- ===== src/SourcingRequest/Live.antt =====
-- Which checkouts of a sourcing request are live, and how the steps that place and release
-- checkouts move them (src/cart/utils/place-checkout.ts, src/payment/utils/release-checkout.ts).
use Prim.Native.String.{String}
use mathlib.Core.Path.{subst}
use laicos_backend.Prelude.{
  ℕ, ◌+◌, ◌≤◌, ◌≡◌, refl, sym, ap, ◌∙◌, inl, inr, Bool, true, false, Option, none, some, List, [],
  ◌∷◌, arith, ◌==◌, if◌then◌else◌, Option-cases, Bool-cases,
}
use laicos_backend.Prelude.Table.{find, any, modify, sum_by, sum_by-modify_le}
use laicos_backend.Schema.{
  Db, Result, ok, err, Produce, Order, Checkout, CheckoutStatus, CartItem, checkout_keyed,
  produce_keyed,
}
use laicos_backend.Order.Reservation.{
  OrderLine, try_reserve_produce, release_stock, sync_produce_status,
}
use laicos_backend.Order.Service.Frames.{>>=-eq-ok}
use laicos_backend.Cart.Place.{
  CheckoutConfig, CheckoutDraft, create_checkout, create_orders, new_checkout, put_checkout,
  total_of,
}
use laicos_backend.Cart.Checkout.{
  release_orders, release_checkout, set_checkout_status, reserve_lines,
}
use laicos_backend.Cart.Release.{is_dead, release_stock_step, unpaid_orders}
use laicos_backend.Cart.Stock.{units_of, reserved_line, next_line, reserve_lines-cons}
use laicos_backend.Cart.Methods.{checkouts-create_orders}
use laicos_backend.SourcingRequest.Sync.{is_linked}
use laicos_backend.SourcingRequest.Service.{is_live_of}

abbrev pub live_of : ℕ → Checkout → ℕ
live_of i c = if is_live_of i c then 1 else 0

-- A request has at most one checkout that awaits payment or is paid.
pub record OneLive (db : Db) : Type 0 where
  pub one : (i : ℕ) → sum_by (live_of i) db.checkouts ≤ 1

pub OneLive-same : (db db' : Db) → db'.checkouts ≡ db.checkouts → OneLive db → OneLive db'
OneLive-same db db' same h = record { one = λ i. rw same (h.one i) }

pub none_live :
    (i : ℕ) (cs : List Checkout) → any (is_live_of i) cs ≡ false → sum_by (live_of i) cs ≡ 0
none_live i [] h = refl
none_live i (c ∷ cs) h = ground (arith, none_live i cs)

-- A new checkout for a request that has no live one, or for none.
pub OneLive-cons :
    (db db' : Db) (c : Checkout)
    → db'.checkouts ≡ c ∷ db.checkouts
    → ((i : ℕ) → is_linked i c ≡ true → any (is_live_of i) db.checkouts ≡ false)
    → OneLive db
    → OneLive db'
OneLive-cons db db' c stored free h = record { one = λ i. rw stored (at i) }
  where
    at : (i : ℕ) → live_of i c + sum_by (live_of i) db.checkouts ≤ 1
    at i = elim (Bool-cases (is_linked i c)) [
      | inl linked ↦ ground (arith, none_live i db.checkouts (free i linked))
      | inr other ↦ ground (arith, other, h.one i)
    ]

-- A checkout that is released stops being live.
pub OneLive-modify :
    (db db' : Db) (id : ℕ) (status : CheckoutStatus)
    → is_dead status ≡ true
    → db'.checkouts ≡ modify id (set_checkout_status status) db.checkouts
    → OneLive db
    → OneLive db'
OneLive-modify db db' id status dead written h = record {
  one = λ i. rw written (
      omega (
        arith,
        sum_by-modify_le (live_of i) id (set_checkout_status status) db.checkouts
            (λ c. at status c i dead),
        h.one i,
      ));
}
  where
    at :
        (s : CheckoutStatus) (c : Checkout) (i : ℕ)
        → is_dead s ≡ true
        → live_of i (set_checkout_status s c) ≤ live_of i c
    at CheckoutStatus.awaiting_payment c i d = absurd cc
    at CheckoutStatus.paid c i d = absurd cc
    at CheckoutStatus.expired c i d = ground arith
    at CheckoutStatus.cancelled c i d = ground arith

release_orders_frame :
    (orders : List Order) (db db' : Db) (u : Unit {0})
    → release_orders orders db ≡ ok (u, db')
    → (db'.checkouts ≡ db.checkouts) × (db'.requests ≡ db.requests)
unfolding release_orders sync_produce_status
release_orders_frame [] db db' u run = (ground arith, ground arith)
release_orders_frame (o ∷ orders) db db' u run =
    let (v, (mid, released, rest)) =
      >>=-eq-ok (release_stock o) (λ _. release_orders orders) db run in
    let (p, found, written) = release_stock_step o db mid released in
    let (checkouts, requests) = release_orders_frame orders mid db' u rest in
    (checkouts ∙ ap (λ d. d.checkouts) written, requests ∙ ap (λ d. d.requests) written)

-- A release writes the status of its checkout, and no sourcing request.
pub release_checkout_frame :
    (id : ℕ) (status : CheckoutStatus) (reason : String) (db db' : Db) (c : Checkout)
    → release_checkout id status reason db ≡ ok (c, db')
    → (db'.checkouts ≡ modify id (set_checkout_status status) db.checkouts)
      × (db'.requests ≡ db.requests)
unfolding release_checkout
release_checkout_frame id status reason db db' c run =
    let (u, (mid, looped, rest)) = >>=-eq-ok (release_orders (unpaid_orders id db)) _ db run in
    let (checkouts, requests) = release_orders_frame (unpaid_orders id db) db mid u looped in
    elim (Option-cases (find id mid.checkouts)) [
      | inl missing ↦ ground arith
      | inr (found, at_id) ↦
          let after : db'.checkouts ≡ modify id (set_checkout_status status) mid.checkouts =
            ground (arith, rest, at_id) in
          let same : db'.requests ≡ mid.requests = ground (arith, rest, at_id) in
          (after ∙ ap (λ t. modify id (set_checkout_status status) t) checkouts, same ∙ requests)
    ]

-- What the reservation loop leaves alone.
abbrev pub SameTables : Db → Db → Type 0
SameTables db db' =
    (db'.checkouts ≡ db.checkouts) × (db'.orders ≡ db.orders) × (db'.requests ≡ db.requests)

pub try_reserve_produce-SameTables :
    (i quantity : ℕ) (db : Db) → SameTables db (try_reserve_produce i quantity db).1
unfolding try_reserve_produce
try_reserve_produce-SameTables i quantity db = (ground arith, ground arith, ground arith)

-- The units of listing `j` among the lines of a cart.
abbrev pub asked : ℕ → List CartItem → ℕ
asked j items = sum_by (λ item. if item.produce_id == j then item.quantity else 0) items

-- How the reservation loop over the items has ended.
abbrev Reserved : Db → List CartItem → Result (List OrderLine × Db) → Type 0
Reserved db items (ok (lines, db')) =
    SameTables db db' × ((j : ℕ) → units_of j lines ≡ asked j items)
Reserved db items (err _) = Unit {0}

next_line-Reserved :
    (db mid : Db) (item : CartItem) (items : List CartItem) (found : Option Produce)
    (reserved : Bool) (rest : Result (List OrderLine × Db))
    → ((p : Produce) → found ≡ some p → p.id ≡ item.produce_id)
    → SameTables db mid
    → Reserved mid items rest
    → Reserved db (item ∷ items) (next_line item found reserved rest)
next_line-Reserved db mid item items none reserved rest key same h = tt
next_line-Reserved db mid item items (some p) false rest key same h = tt
next_line-Reserved db mid item items (some p) true (err e) key same h = tt
next_line-Reserved db mid item items (some p) true (ok (lines, db')) key (cs, os, rs)
      ((cs', os', rs'), sums) =
    ((cs' ∙ cs, os' ∙ os, rs' ∙ rs), λ j. ground (arith, sums j, key p refl))

reserve_lines-Reserved :
    (items : List CartItem) (db : Db) → Reserved db items (reserve_lines items db)
unfolding reserve_lines
reserve_lines-Reserved [] db = ((refl, refl, refl), λ j. refl)
reserve_lines-Reserved (item ∷ items) db =
    let ((found, reserved), mid) = try_reserve_produce item.produce_id item.quantity db in
    subst (Reserved db (item ∷ items)) (sym (reserve_lines-cons item items db)) (
      next_line-Reserved db mid item items found reserved (reserve_lines items mid)
        (λ p e. reserved_line item.produce_id item.quantity db p e)
        (try_reserve_produce-SameTables item.produce_id item.quantity db)
        (reserve_lines-Reserved items mid))

-- The reservation loop touches listings only, and its lines are the items.
pub reserve_lines_inv :
    (items : List CartItem) (db db' : Db) (lines : List OrderLine)
    → reserve_lines items db ≡ ok (lines, db')
    → SameTables db db' × ((j : ℕ) → units_of j lines ≡ asked j items)
reserve_lines_inv items db db' lines run =
    subst (Reserved db items) run (reserve_lines-Reserved items db)

requests-create_orders :
    (buyer_id checkout_id : ℕ) (lines : List OrderLine) (db : Db)
    → (create_orders buyer_id checkout_id lines db).requests ≡ db.requests
unfolding create_orders
requests-create_orders buyer_id checkout_id [] db = refl
requests-create_orders buyer_id checkout_id (line ∷ lines) db =
    requests-create_orders buyer_id checkout_id lines _

-- What `createCheckout` stores.
pub create_checkout_inv :
    (draft : CheckoutDraft) (config : CheckoutConfig) (now : ℕ) (db db' : Db) (c : Checkout)
    → create_checkout draft config now db ≡ ok (c, db')
    → (c ≡ new_checkout db.next_id draft config now)
      × (db'.checkouts ≡ c ∷ db.checkouts)
      × (db'.orders
          ≡ (create_orders draft.buyer_id db.next_id draft.lines (put_checkout c db)).orders)
      × (db'.requests ≡ db.requests)
      × (total_of config draft.lines ≡ draft.expected_total)
unfolding create_checkout
create_checkout_inv draft config now db db' c run =
    let (kept, cart) =
      checkouts-create_orders draft.buyer_id db.next_id draft.lines
        (put_checkout (new_checkout db.next_id draft config now) db) in
    let requests =
      requests-create_orders draft.buyer_id db.next_id draft.lines
        (put_checkout (new_checkout db.next_id draft config now) db) in
    (ground arith, ground (arith, kept), ground arith, ground (arith, requests), ground arith)
