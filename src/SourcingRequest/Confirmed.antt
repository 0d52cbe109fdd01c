-- ===== src/SourcingRequest/Confirmed.antt =====
-- What confirming the supply of a request leaves behind
-- (`confirm` of src/sourcing-request/admin-sourcing-request.service.ts).
use Prim.Native.String.{String}
use mathlib.Core.Path.{subst}
use laicos_backend.Prelude.{
  ℕ, ◌≡◌, refl, sym, ap, ◌∙◌, true, none, some, List, [], ◌∷◌, map, arith, same_id, ◌||◌, ◌&&◌,
  ==_refl, ◌+◌, ◌*◌, ◌≤◌, ◌==◌, if◌then◌else◌,
}
use laicos_backend.Prelude.Table.{
  find, any, sort_by, sum_by, sum_by-sort_by, find-key, find-modify_self,
}
use laicos_backend.Schema.{
  Db, Failure, AuditCategory, ok, err, DeliverySnapshot, Checkout, CheckoutStatus, SourcingRequest,
  SourcingAllocation, request_keyed,
}
use laicos_backend.Order.Service.Frames.{>>=-eq-ok}
use laicos_backend.Order.Reservation.{OrderLine}
use laicos_backend.Cart.Place.{
  create_orders, put_checkout, total_of, CheckoutConfig, new_checkout, find_replay, create_checkout,
}
use laicos_backend.Cart.Checkout.{reserve_lines, CreateCheckoutDto}
use laicos_backend.Order.Stock.{held}
use laicos_backend.Cart.Stock.{held-create_orders, units_of}
use laicos_backend.Cart.Methods.{find_replay-cons}
use laicos_backend.SourcingRequest.Sync.{synced_requests, synced_request, snapshot_of}
use laicos_backend.SourcingRequest.Service.{request_audit, is_live_of, allocations_of}
use laicos_backend.SourcingRequest.Rules.{requested_amount, SourcingSnapshot}
use laicos_backend.SourcingRequest.Confirm.{
  selected_quantity, confirm_new, reserve_selected, reserve_and_confirm, place_selected, confirm_tx,
  draft_for,
}
use laicos_backend.SourcingRequest.Stocked.{
  as_line, reserve_selected-lines, Confirms, confirm_new_inv,
}
use laicos_backend.SourcingRequest.Live.{
  live_of, none_live, asked, reserve_lines_inv, create_checkout_inv,
}

-- The units of listing `j` in a selection.
abbrev pub selected_units : ℕ → List SourcingAllocation → ℕ
selected_units j rows = sum_by (λ row. if row.produce_id == j then row.quantity else 0) rows

asked_lines :
    (j : ℕ) (rows : List SourcingAllocation) → asked j (map as_line rows) ≡ selected_units j rows
asked_lines j [] = refl
asked_lines j (row ∷ rows) = omega (arith, asked_lines j rows)

-- What a confirmation under a new key leaves: one new checkout and its orders.
pub record Confirmed (now : ℕ) (config : CheckoutConfig) (request : SourcingRequest) (key : String)
    (dto : CreateCheckoutDto) (db db' : Db) (c : Checkout) : Type 0 where
  pub delivery : DeliverySnapshot
  pub lines : List OrderLine
  pub mid : Db
  pub reserved :
      reserve_selected (sort_by (λ row. row.produce_id) (allocations_of request.id db)) db
      ≡ ok (lines, mid)
  pub made : c ≡ new_checkout mid.next_id (draft_for request key dto delivery lines) config now
  pub stored : db'.checkouts ≡ c ∷ db.checkouts
  pub orders :
      db'.orders ≡ (create_orders request.buyer_id mid.next_id lines (put_checkout c mid)).orders
  pub before : Db
  pub kept : before.requests ≡ db.requests
  pub synced : db'.requests ≡ synced_requests now request.id before
  pub old : mid.orders ≡ db.orders
  pub taken : (j : ℕ) → units_of j lines ≡ selected_units j (allocations_of request.id db)
  pub total : total_of config lines ≡ dto.expected_total

pub Confirms-Confirmed :
    (now : ℕ) (config : CheckoutConfig) (request : SourcingRequest) (key : String)
    (dto : CreateCheckoutDto) (db db' : Db) (c : Checkout)
    → Confirms now config request key dto db db' c
    → Confirmed now config request key dto db db' c
unfolding reserve_and_confirm place_selected
Confirms-Confirmed now config request key dto db db' c h =
    let ordered = sort_by (λ row. row.produce_id) (allocations_of request.id db) in
    let (lines, (mid, reserved, rest)) = >>=-eq-ok (reserve_selected ordered) _ db h.ran in
    let draft = draft_for request key dto h.delivery lines in
    let (made, (after, created, rest')) = >>=-eq-ok (create_checkout draft config now) _ mid rest in
    let (built, stored, orders, requests, total) =
      create_checkout_inv draft config now mid after made created in
    let same : c ≡ made = ground (arith, rest') in
    let taken : reserve_lines (map as_line ordered) db ≡ ok (lines, mid) =
      rw (reserve_selected-lines ordered db, reserved) refl in
    let ((cs, os, rs), units) = reserve_lines_inv (map as_line ordered) db mid lines taken in
    record {
      delivery = h.delivery;
      lines = lines;
      mid = mid;
      reserved = reserved;
      made = same ∙ built;
      stored =
          subst (λ k. db'.checkouts ≡ k ∷ db.checkouts) (sym same)
            (ground (arith, rest') ∙ stored ∙ ap (λ t. made ∷ t) cs);
      orders =
          subst
            (λ k.
              db'.orders
              ≡ (create_orders request.buyer_id mid.next_id lines (put_checkout k mid)).orders)
            (sym same) (ground (arith, rest') ∙ orders);
      before =
          request_audit AuditCategory.matching "Supply confirmed" (after.checkout_numbers made.id)
            request after;
      kept = requests ∙ rs;
      synced = ground (arith, rest');
      old = os;
      taken = λ j.
          units j
          ∙ asked_lines j ordered
          ∙ sum_by-sort_by (λ row. if row.produce_id == j then row.quantity else 0)
              (λ row. row.produce_id) (allocations_of request.id db);
      total = total;
    }

pub confirm_tx_fresh :
    (now today : ℕ) (config : CheckoutConfig) (id : ℕ) (key : String) (dto : CreateCheckoutDto)
    (request : SourcingRequest) (db db' : Db) (c : Checkout)
    → find id db.requests ≡ some request
    → find_replay request.buyer_id key db ≡ none
    → confirm_tx now today config id key dto db ≡ ok (c, db')
    → Confirms now config request key dto db db' c
unfolding confirm_tx
confirm_tx_fresh now today config id key dto request db db' c found fresh run =
    confirm_new_inv now today config request key dto db db' c (ground (arith, found, fresh, run))

-- The new checkout is the request's only live one.
pub confirmed_live :
    (now : ℕ) (config : CheckoutConfig) (request : SourcingRequest) (key : String)
    (dto : CreateCheckoutDto) (db db' : Db) (c : Checkout)
    → Confirms now config request key dto db db' c
    → sum_by (live_of request.id) db'.checkouts ≡ 1
confirmed_live now config request key dto db db' c h =
    let d = Confirms-Confirmed now config request key dto db db' c h in
    let live : live_of request.id c ≡ 1 = rw d.made (rw (==_refl request.id) refl) in
    ap (sum_by (live_of request.id)) d.stored
    ∙ omega (arith, live, none_live request.id db.checkouts h.no_live)

-- Confirming a request with a key that its buyer has not used, where it succeeds, places a
-- checkout for that request and its buyer that awaits payment and costs the expected total; it is
-- then the one live checkout of the request, the saved selection covers the amount asked for, and
-- what orders hold of each listing has grown by exactly the units selected.
pub confirm_tx_places :
    (now today : ℕ) (config : CheckoutConfig) (id : ℕ) (key : String) (dto : CreateCheckoutDto)
    (request : SourcingRequest) (db db' : Db) (c : Checkout)
    → find id db.requests ≡ some request
    → find_replay request.buyer_id key db ≡ none
    → confirm_tx now today config id key dto db ≡ ok (c, db')
    → (c.sourcing_request_id ≡ some id)
      × (c.buyer_id ≡ request.buyer_id)
      × (c.status ≡ CheckoutStatus.awaiting_payment)
      × (c.total_price ≡ dto.expected_total)
      × (sum_by (live_of id) db'.checkouts ≡ 1)
      × (requested_amount request.quantity request.unit
          ≤ selected_quantity db request (allocations_of id db) * 1000)
      × ((j : ℕ) → held j db'.orders ≡ selected_units j (allocations_of id db) + held j db.orders)
confirm_tx_places now today config id key dto request db db' c found fresh run =
    let h = confirm_tx_fresh now today config id key dto request db db' c found fresh run in
    let d = Confirms-Confirmed now config request key dto db db' c h in
    let at : request.id ≡ id = find-key id db.requests request found in
    (
      ap (λ k. k.sourcing_request_id) d.made ∙ ap (λ i. some i) at,
      ap (λ k. k.buyer_id) d.made,
      ap (λ k. k.status) d.made,
      ap (λ k. k.total_price) d.made ∙ d.total,
      subst (λ i. sum_by (live_of i) db'.checkouts ≡ 1) at
          (confirmed_live now config request key dto db db' c h),
      subst
          (λ i.
            requested_amount request.quantity request.unit
            ≤ selected_quantity db request (allocations_of i db) * 1000)
          at (ground (arith, h.covers)),
      λ j.
          subst (λ i. held j db'.orders ≡ selected_units j (allocations_of i db) + held j db.orders)
            at
            (ap (held j) d.orders
              ∙ omega (
                arith,
                held-create_orders j request.buyer_id d.mid.next_id d.lines (put_checkout c d.mid),
                d.taken j,
                ap (held j) d.old,
              )),
    )

synced_request_buyer :
    (now : ℕ) (s : SourcingSnapshot) (r : SourcingRequest)
    → ((synced_request now s r).id ≡ r.id) × ((synced_request now s r).buyer_id ≡ r.buyer_id)
unfolding synced_request
synced_request_buyer now s r = (ground arith, ground arith)

-- The request is there after its status was rewritten, and is the same buyer's.
pub find-synced_requests :
    (now id : ℕ) (db : Db) (r : SourcingRequest)
    → find id db.requests ≡ some r
    → find id (synced_requests now id db) ≡ some (synced_request now (snapshot_of r db) r)
unfolding synced_requests
find-synced_requests now id db r found =
    rw (found, synced_requests)
      (find-modify_self id (λ x. synced_request now (snapshot_of r db) x) db.requests r
        ((synced_request_buyer now (snapshot_of r db) r).0 ∙ find-key id db.requests r found) found)

-- The request's row once its supply is confirmed.
request_there :
    (now : ℕ) (config : CheckoutConfig) (id : ℕ) (request : SourcingRequest) (key : String)
    (dto : CreateCheckoutDto) (db db' : Db) (c : Checkout)
    → find id db.requests ≡ some request
    → Confirmed now config request key dto db db' c
    → (r : SourcingRequest) × (find id db'.requests ≡ some r)
      × (r.buyer_id ≡ request.buyer_id)
      × (r.id ≡ id)
request_there now config id request key dto db db' c found d =
    let at : request.id ≡ id = find-key id db.requests request found in
    let s = snapshot_of request d.before in
    let there : find id (synced_requests now id d.before) ≡ some (synced_request now s request) =
      find-synced_requests now id d.before request (ap (find id) d.kept ∙ found) in
    let (same_id, same_buyer) = synced_request_buyer now s request in
    (
      synced_request now s request,
      ap (find id) (d.synced ∙ ap (λ i. synced_requests now i d.before) at) ∙ there,
      same_buyer,
      same_id ∙ at,
    )

confirm_new_refused :
    (now today : ℕ) (config : CheckoutConfig) (request : SourcingRequest) (key : String)
    (dto : CreateCheckoutDto) (db : Db)
    → any (is_live_of request.id) db.checkouts ≡ true
    → confirm_new now today config request key dto db ≡ err Failure.request_has_checkout
unfolding confirm_new
confirm_new_refused now today config request key dto db live = ground (arith, live)

-- After a request was confirmed with a key that its buyer had not used, confirming again with that
-- key, at any time and with any body, answers the same checkout and writes nothing; with any other
-- key that the buyer has not used it fails because the request has a checkout.
pub confirm_tx_again :
    (now today : ℕ) (config : CheckoutConfig) (id : ℕ) (key : String) (dto : CreateCheckoutDto)
    (request : SourcingRequest) (db db' : Db) (c : Checkout)
    → find id db.requests ≡ some request
    → find_replay request.buyer_id key db ≡ none
    → confirm_tx now today config id key dto db ≡ ok (c, db')
    → (later later_day : ℕ) (config' : CheckoutConfig) (dto' : CreateCheckoutDto)
    → (confirm_tx later later_day config' id key dto' db' ≡ ok (c, db'))
      × ((other : String)
          → find_replay request.buyer_id other db' ≡ none
          → confirm_tx later later_day config' id other dto' db' ≡ err Failure.request_has_checkout)
unfolding confirm_tx
confirm_tx_again now today config id key dto request db db' c found fresh run later later_day
      config' dto' =
    let h = confirm_tx_fresh now today config id key dto request db db' c found fresh run in
    let d = Confirms-Confirmed now config request key dto db db' c h in
    let (r, there, buyer, at) = request_there now config id request key dto db db' c found d in
    let replay : find_replay r.buyer_id key db' ≡ some c =
      find_replay-cons r.buyer_id key c db' db.checkouts d.stored
        (ap (λ k. k.buyer_id) d.made ∙ sym buyer) (ap (λ k. k.idempotency_key) d.made) in
    let own : same_id c.sourcing_request_id id ≡ true =
      ap (λ k. same_id k.sourcing_request_id id) d.made
      ∙ ap (λ i. i == id) (find-key id db.requests request found)
      ∙ ==_refl id in
    let same : r.id ≡ request.id = at ∙ sym (find-key id db.requests request found) in
    let linked : is_live_of r.id c ≡ true =
      ap (is_live_of r.id) d.made
      ∙ ap (λ b. b && true) (ap (λ i. request.id == i) same ∙ ==_refl request.id) in
    let live : any (is_live_of r.id) db'.checkouts ≡ true =
      ap (any (is_live_of r.id)) d.stored
      ∙ ap (λ b. b || any (is_live_of r.id) db.checkouts) linked in
    (
      ground (arith, there, replay, own),
      λ other unused. ground (
        arith,
        there,
        ap (λ b. find_replay b other db') buyer ∙ unused,
        confirm_new_refused later later_day config' r other dto' db' live,
      ),
    )
