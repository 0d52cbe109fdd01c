-- ===== src/SourcingRequest/OneLive.antt =====
-- At most one live checkout for each sourcing request: across placing and releasing checkouts
-- (src/cart/checkout.service.ts) and the calls about requests
-- (src/sourcing-request/admin-sourcing-request.service.ts).
use Prim.Native.String.{String}
use mathlib.Core.Path.{subst}
use laicos_backend.Prelude.{
  ℕ, ◌≡◌, refl, sym, ap, ◌∙◌, inl, inr, true, false, Option, none, some, List, arith, Option-cases,
}
use laicos_backend.Prelude.Table.{find, find_first, any}
use laicos_backend.Schema.{Db, ok, User, AuditActorType, Checkout, CheckoutStatus, request_keyed}
use laicos_backend.Order.Service.Frames.{>>=-eq-ok, transaction_keeps}
use laicos_backend.Cart.Place.{CheckoutConfig, find_replay}
use laicos_backend.Cart.Checkout
use laicos_backend.Cart.Checkout.{
  CreateCheckoutDto, place_orders, place_lines, release_checkout, record_request, buyer_id_of,
  cart_of, draft_of,
}
use laicos_backend.Cart.Release.{is_dead, KeepsRelease, cancel_tx_keeps, expire_each_keeps}
use laicos_backend.Cart.BuyNow
use laicos_backend.Cart.BuyNow.{bought, reserve_produce_inv, CreateOrderDto, buy_now_tx}
use laicos_backend.Cart.Methods.{
  CheckoutCall, after_checkout_call, as_buyer_keeps, placed_lines, place_lines_inv,
}
use laicos_backend.Payment.Expiry
use laicos_backend.Payment.Expiry.{overdue}
use laicos_backend.SourcingRequest.Sync.{is_linked}
use laicos_backend.SourcingRequest.Service
use laicos_backend.SourcingRequest.Confirmed.{confirm_tx_fresh, Confirms-Confirmed}
use laicos_backend.SourcingRequest.Service.{
  CreateSourcingRequestDto, is_live_of, allocations_of, assign_tx, escalate_tx, close_tx,
  release_awaiting, set_request, closed_for, is_awaiting_of,
}
use laicos_backend.SourcingRequest.Selection
use laicos_backend.SourcingRequest.Selection.{AllocationItem, save_tx}
use laicos_backend.SourcingRequest.Confirm
use laicos_backend.SourcingRequest.Confirm.{
  reserve_selected, reserve_and_confirm, place_selected, confirm_tx, draft_for,
}
use laicos_backend.SourcingRequest.Stocked.{close_tx_inv}
use laicos_backend.SourcingRequest.Methods.{SourcingCall, after_sourcing_call}
use laicos_backend.SourcingRequest.Live.{
  OneLive, OneLive-same, OneLive-cons, OneLive-modify, release_checkout_frame,
  try_reserve_produce-SameTables, reserve_lines_inv, create_checkout_inv,
}

record_request-OneLive :
    (now : ℕ) (actor : AuditActorType) (title summary : String) (link : Option ℕ) (db : Db)
    → OneLive db
    → OneLive (record_request now actor title summary link db)
record_request-OneLive now actor title summary none db h = h
record_request-OneLive now actor title summary (some id) db h = OneLive-same db _ refl h

release_checkout-OneLive :
    (id : ℕ) (status : CheckoutStatus) (reason : String) (db db' : Db) (c : Checkout)
    → is_dead status ≡ true
    → OneLive db
    → release_checkout id status reason db ≡ ok (c, db')
    → OneLive db'
release_checkout-OneLive id status reason db db' c dead h run =
    OneLive-modify db db' id status dead (release_checkout_frame id status reason db db' c run).0 h

KeepsRelease-OneLive : KeepsRelease OneLive
KeepsRelease-OneLive = record {
  release = λ id status reason db db' c dead h run.
      release_checkout-OneLive id status reason db db' c dead h run;
  request =
      λ now actor title summary link db h. record_request-OneLive now actor title summary link db h;
}

place_orders-OneLive :
    (now today : ℕ) (config : CheckoutConfig) (buyer_id : ℕ) (key : String)
    (dto : CreateCheckoutDto) (db db' : Db) (c : Checkout)
    → OneLive db
    → place_orders now today config buyer_id key dto db ≡ ok (c, db')
    → OneLive db'
unfolding place_orders
place_orders-OneLive now today config buyer_id key dto db db' c h run =
    elim (Option-cases (find_replay buyer_id key db)) [
      | inr (old, replayed) ↦ OneLive-same db db' (ground (arith, replayed)) h
      | inl fresh ↦
          let (delivery, (lines, (mid, reserved, placed))) =
            placed_lines now today config buyer_id key dto db db' c fresh run in
          let (made, stored, total, cart) =
            place_lines_inv now config (draft_of buyer_id key dto delivery lines) mid db' c
              placed in
          OneLive-cons mid db' c stored (λ i linked. absurd (let e = ap (is_linked i) made in cc))
            (OneLive-same db mid (reserve_lines_inv (cart_of buyer_id db) db mid lines reserved).0.0
              h)
    ]

buy_now_tx-OneLive :
    (now today : ℕ) (config : CheckoutConfig) (buyer_id : ℕ) (key : String) (dto : CreateOrderDto)
    (db db' : Db) (c : Checkout)
    → OneLive db
    → buy_now_tx now today config buyer_id key dto db ≡ ok (c, db')
    → OneLive db'
unfolding buy_now_tx
buy_now_tx-OneLive now today config buyer_id key dto db db' c h run =
    elim (Option-cases (find_replay buyer_id key db)) [
      | inr (old, replayed) ↦ OneLive-same db db' (ground (arith, replayed)) h
      | inl fresh ↦
          let (delivery, (produce, (mid, reserved, created))) =
            bought now today config buyer_id key dto db db' c fresh run in
          let (made, stored, orders, requests, total) =
            create_checkout_inv (BuyNow.draft_of buyer_id key dto delivery produce) config now mid
              db' c created in
          let taken = reserve_produce_inv dto.produce_id dto.quantity db mid produce reserved in
          OneLive-cons mid db' c stored (λ i linked. absurd (let e = ap (is_linked i) made in cc))
            (OneLive-same db mid
              (sym (ap (λ t. t.1.checkouts) taken)
                ∙ (try_reserve_produce-SameTables dto.produce_id dto.quantity db).0)
              h)
    ]

-- A request keeps at most one live checkout across the checkout service.
pub after_checkout_call-OneLive :
    (now today : ℕ) (config : CheckoutConfig) (call : CheckoutCall) (db : Db)
    → OneLive db
    → OneLive (after_checkout_call now today config call db)
unfolding after_checkout_call BuyNow.create Checkout.checkout Checkout.cancel Expiry.expire_overdue
after_checkout_call-OneLive now today config (CheckoutCall.checkout user key dto) db h =
    as_buyer_keeps OneLive (buyer_id_of user db) _ db h
      λ buyer_id c db' run. place_orders-OneLive now today config buyer_id key dto db db' c h run
after_checkout_call-OneLive now today config (CheckoutCall.create user key dto) db h =
    as_buyer_keeps OneLive (buyer_id_of user db) _ db h
      λ buyer_id c db' run. buy_now_tx-OneLive now today config buyer_id key dto db db' c h run
after_checkout_call-OneLive now today config (CheckoutCall.cancel user id) db h =
    as_buyer_keeps OneLive (buyer_id_of user db) _ db h λ buyer_id c db' run.
      cancel_tx_keeps OneLive KeepsRelease-OneLive now buyer_id id db db' c h run
after_checkout_call-OneLive now today config CheckoutCall.expire_overdue db h =
    expire_each_keeps OneLive KeepsRelease-OneLive now (overdue now db) db h

confirm_tx-OneLive :
    (now today : ℕ) (config : CheckoutConfig) (id : ℕ) (key : String) (dto : CreateCheckoutDto)
    (db db' : Db) (c : Checkout)
    → OneLive db
    → confirm_tx now today config id key dto db ≡ ok (c, db')
    → OneLive db'
unfolding confirm_tx
confirm_tx-OneLive now today config id key dto db db' c h run =
    elim (Option-cases (find id db.requests)) [
      | inl missing ↦ ground arith
      | inr (request, found) ↦ elim (Option-cases (find_replay request.buyer_id key db)) [
        | inr (old, replays) ↦ OneLive-same db db' (ground (arith, found, replays, run)) h
        | inl fresh ↦
            let checked =
              confirm_tx_fresh now today config id key dto request db db' c found fresh run in
            let d = Confirms-Confirmed now config request key dto db db' c checked in
            OneLive-cons db db' c d.stored
              (λ i linked.
                subst (λ j. any (is_live_of j) db.checkouts ≡ false)
                  (let own = ap (is_linked i) d.made in ground arith) checked.no_live)
              h
      ]
    ]

release_awaiting-OneLive :
    (reason : String) (awaiting : Option Checkout) (db db' : Db) (u : Unit {0})
    → OneLive db
    → release_awaiting reason awaiting db ≡ ok (u, db')
    → OneLive db'
release_awaiting-OneLive reason none db db' u h run = OneLive-same db db' (ground (arith, run)) h
release_awaiting-OneLive reason (some c) db db' u h run =
    let (released, (mid, release, rest)) =
      >>=-eq-ok (release_checkout c.id CheckoutStatus.cancelled reason) _ db run in
    OneLive-same mid db' (ground (arith, rest))
      (release_checkout-OneLive c.id CheckoutStatus.cancelled reason db mid released refl h release)

close_tx-OneLive :
    (now id : ℕ) (reason : String) (db db' : Db) (u : Unit {0})
    → OneLive db
    → close_tx now id reason db ≡ ok (u, db')
    → OneLive db'
close_tx-OneLive now id reason db db' u h run =
    let (request, found, a, b, (mid, released, written)) =
      close_tx_inv now id reason db db' u run in
    OneLive-same mid db' (ap (λ d. d.checkouts) written) (
      release_awaiting-OneLive reason (find_first (is_awaiting_of id) db.checkouts)
        (set_request id (closed_for now reason) db) mid tt (OneLive-same db _ refl h) released)

assign_tx_checkouts :
    (now id agent_id : ℕ) (db db' : Db) (u : Unit {0})
    → assign_tx now id agent_id db ≡ ok (u, db')
    → db'.checkouts ≡ db.checkouts
unfolding assign_tx
assign_tx_checkouts now id agent_id db db' u run = ground arith

escalate_tx_checkouts :
    (now id : ℕ) (db db' : Db) (u : Unit {0})
    → escalate_tx now id db ≡ ok (u, db')
    → db'.checkouts ≡ db.checkouts
unfolding escalate_tx
escalate_tx_checkouts now id db db' u run = ground arith

save_tx_checkouts :
    (show : ℕ → String) (now id : ℕ) (items : List AllocationItem) (db db' : Db) (u : Unit {0})
    → save_tx show now id items db ≡ ok (u, db')
    → db'.checkouts ≡ db.checkouts
unfolding save_tx
save_tx_checkouts show now id items db db' u run = ground arith

create_checkouts :
    (today : ℕ) (user : User) (dto : CreateSourcingRequestDto) (db : Db)
    → (Service.create today user dto db).1.checkouts ≡ db.checkouts
unfolding Service.create
create_checkouts today user dto db = ground arith

-- Where each sourcing request has at most one checkout that awaits payment or is paid, that is
-- still so after every call about sourcing requests, on every branch.
pub after_sourcing_call-OneLive :
    (show : ℕ → String) (now today : ℕ) (config : CheckoutConfig) (call : SourcingCall) (db : Db)
    → OneLive db
    → OneLive (after_sourcing_call show now today config call db)
unfolding after_sourcing_call Service.assign Selection.save Confirm.confirm Service.escalate
    Service.close
after_sourcing_call-OneLive show now today config (SourcingCall.create user dto) db h =
    OneLive-same db _ (create_checkouts today user dto db) h
after_sourcing_call-OneLive show now today config (SourcingCall.assign id agent_id) db h =
    transaction_keeps OneLive (assign_tx now id agent_id) db h
      λ u db' run. OneLive-same db db' (assign_tx_checkouts now id agent_id db db' u run) h
after_sourcing_call-OneLive show now today config (SourcingCall.save id items) db h =
    transaction_keeps OneLive (save_tx show now id items) db h
      λ u db' run. OneLive-same db db' (save_tx_checkouts show now id items db db' u run) h
after_sourcing_call-OneLive show now today config (SourcingCall.confirm id key dto) db h =
    transaction_keeps OneLive (confirm_tx now today config id key dto) db h
      λ c db' run. confirm_tx-OneLive now today config id key dto db db' c h run
after_sourcing_call-OneLive show now today config (SourcingCall.escalate id) db h =
    transaction_keeps OneLive (escalate_tx now id) db h
      λ u db' run. OneLive-same db db' (escalate_tx_checkouts now id db db' u run) h
after_sourcing_call-OneLive show now today config (SourcingCall.close id reason) db h =
    transaction_keeps OneLive (close_tx now id reason) db h
      λ u db' run. close_tx-OneLive now id reason db db' u h run
