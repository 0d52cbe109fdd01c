-- ===== src/SourcingRequest/Stocked.antt =====
-- The stock invariant across the calls about sourcing requests
-- (src/sourcing-request/admin-sourcing-request.service.ts).
use Prim.Native.String.{String}
use mathlib.Core.Path.{subst}
use laicos_backend.Prelude.{
  ℕ, ◌*◌, ◌≡◌, refl, ap, inl, inr, ltb, false, Option, none, some, List, [], ◌∷◌, map, arith,
  Option-cases,
}
use laicos_backend.Prelude.Table.{find, find_first, any, sort_by}
use laicos_backend.Schema.{
  Db, Result, ok, err, ◌>>=◌, ◌>>◌, modify_db, AuditCategory, Failure, Checkout, CheckoutStatus,
  CartItem, SourcingRequest, SourcingAllocation, DeliverySnapshot, produce_keyed, request_keyed,
}
use laicos_backend.Order.Reservation.{OrderLine, try_reserve_produce}
use laicos_backend.Order.Stock.{IsStocked}
use laicos_backend.Order.Stock.Rows.{IsStocked-same}
use laicos_backend.Order.Service.Frames.{>>=-eq-ok}
use laicos_backend.Cart.Place.{CheckoutConfig, find_replay, resolve_delivery, create_checkout}
use laicos_backend.Cart.Checkout.{CreateCheckoutDto, reserve_lines, release_checkout}
use laicos_backend.Cart.Stock.{
  Reserves, reserve_lines-Reserves, create_checkout-IsStocked, resolve_delivery_reads,
}
use laicos_backend.Cart.Release.{release_checkout-IsStocked}
use laicos_backend.SourcingRequest.Rules.{requested_amount}
use laicos_backend.SourcingRequest.Sync.{sync_sourcing_request}
use laicos_backend.SourcingRequest.Service.{
  is_finished, is_underway, is_awaiting_of, close_summary, request_audit, assign_tx, escalate_tx,
  close_tx, release_awaiting, set_request, closed_for, is_live_of, allocations_of,
}
use laicos_backend.SourcingRequest.Selection.{AllocationItem, save_tx}
use laicos_backend.SourcingRequest.Confirm.{
  selected_quantity, is_stale, first_cluster, reserve_selected, place_selected, reserve_and_confirm,
  confirm_new, confirm_tx, draft_for,
}

-- What a step keeps that touches no listing and no order.
abbrev pub SameStock : Db → Db → Type 0
SameStock db db' = (db'.produces ≡ db.produces) × (db'.orders ≡ db.orders)

pub assign_tx-SameStock :
    (now id agent_id : ℕ) (db db' : Db) (u : Unit {0})
    → assign_tx now id agent_id db ≡ ok (u, db')
    → SameStock db db'
unfolding assign_tx
assign_tx-SameStock now id agent_id db db' u run = (ground arith, ground arith)

pub escalate_tx-SameStock :
    (now id : ℕ) (db db' : Db) (u : Unit {0})
    → escalate_tx now id db ≡ ok (u, db')
    → SameStock db db'
unfolding escalate_tx
escalate_tx-SameStock now id db db' u run = (ground arith, ground arith)

pub save_tx-SameStock :
    (show : ℕ → String) (now id : ℕ) (items : List AllocationItem) (db db' : Db) (u : Unit {0})
    → save_tx show now id items db ≡ ok (u, db')
    → SameStock db db'
unfolding save_tx
save_tx-SameStock show now id items db db' u run = (ground arith, ground arith)

-- A row of the selection as a line of a cart.
abbrev pub as_line : SourcingAllocation → CartItem
as_line row = record { id = 0; buyer_id = 0; produce_id = row.produce_id; quantity = row.quantity }

-- The answer of the loop over a cart, which refuses in its own words.
abbrev worded : Result (List OrderLine × Db) → Result (List OrderLine × Db)
worded (ok r) = ok r
worded (err e) = err Failure.cart_needs_attention

pub reserve_selected-lines :
    (rows : List SourcingAllocation) (db : Db)
    → reserve_lines (map as_line rows) db ≡ worded (reserve_selected rows db)
unfolding reserve_selected reserve_lines
reserve_selected-lines [] db = refl
reserve_selected-lines (row ∷ rows) db =
    let ((found, reserved), mid) = try_reserve_produce row.produce_id row.quantity db in
    ground (arith, reserve_selected-lines rows mid)

reserve_and_confirm-IsStocked :
    (now : ℕ) (config : CheckoutConfig) (request : SourcingRequest) (key : String)
    (dto : CreateCheckoutDto) (rows : List SourcingAllocation) (delivery : DeliverySnapshot)
    (db db' : Db) (c : Checkout)
    → IsStocked [] db
    → reserve_and_confirm now config request key dto rows delivery db ≡ ok (c, db')
    → IsStocked [] db'
unfolding reserve_and_confirm place_selected
reserve_and_confirm-IsStocked now config request key dto rows delivery db db' c h run =
    let ordered = sort_by (λ row. row.produce_id) rows in
    let (lines, (mid, reserved, rest)) = >>=-eq-ok (reserve_selected ordered) _ db run in
    let (made, (after, created, rest')) =
      >>=-eq-ok (create_checkout (draft_for request key dto delivery lines) config now) _ mid
        rest in
    let taken : reserve_lines (map as_line ordered) db ≡ ok (lines, mid) =
      rw (reserve_selected-lines ordered db, reserved) refl in
    IsStocked-same [] after db' (ground arith) (ground arith) (
      create_checkout-IsStocked (draft_for request key dto delivery lines) config now mid after made
        (subst (Reserves []) taken (reserve_lines-Reserves (map as_line ordered) [] db h)) created)

-- What a confirmation under a new key has checked, and what it then ran.
pub record Confirms (now : ℕ) (config : CheckoutConfig) (request : SourcingRequest) (key : String)
    (dto : CreateCheckoutDto) (db db' : Db) (c : Checkout) : Type 0 where
  pub no_live : any (is_live_of request.id) db.checkouts ≡ false
  pub covers :
      ltb
        (selected_quantity db request (allocations_of request.id db) * 1000)
        (requested_amount request.quantity request.unit)
      ≡ false
  pub fresh :
      any
        (is_stale db request (first_cluster db (allocations_of request.id db)))
        (allocations_of request.id db)
      ≡ false
  pub delivery : DeliverySnapshot
  pub ran :
      reserve_and_confirm now config request key dto (allocations_of request.id db) delivery db
      ≡ ok (c, db')

pub confirm_new_inv :
    (now today : ℕ) (config : CheckoutConfig) (request : SourcingRequest) (key : String)
    (dto : CreateCheckoutDto) (db db' : Db) (c : Checkout)
    → confirm_new now today config request key dto db ≡ ok (c, db')
    → Confirms now config request key dto db db' c
unfolding confirm_new
confirm_new_inv now today config request key dto db db' c run =
    let rows = allocations_of request.id db in
    let checked : (resolve_delivery request.buyer_id dto.address_id dto.delivery_date config today
            >>= reserve_and_confirm now config request key dto rows)
          db
        ≡ ok (c, db') =
      ground arith in
    let (delivery, (mid, resolved, placed)) =
      >>=-eq-ok (resolve_delivery request.buyer_id dto.address_id dto.delivery_date config today)
        (reserve_and_confirm now config request key dto rows) db checked in
    record {
      no_live = ground arith;
      covers = ground arith;
      fresh = ground arith;
      delivery = delivery;
      ran =
          subst (λ d. reserve_and_confirm now config request key dto rows delivery d ≡ ok (c, db'))
            (resolve_delivery_reads request.buyer_id dto.address_id dto.delivery_date config today
              db mid delivery resolved)
            placed;
    }

pub confirm_tx-IsStocked :
    (now today : ℕ) (config : CheckoutConfig) (id : ℕ) (key : String) (dto : CreateCheckoutDto)
    (db db' : Db) (c : Checkout)
    → IsStocked [] db
    → confirm_tx now today config id key dto db ≡ ok (c, db')
    → IsStocked [] db'
unfolding confirm_tx
confirm_tx-IsStocked now today config id key dto db db' c h run =
    elim (Option-cases (find id db.requests)) [
      | inl missing ↦ ground arith
      | inr (request, found) ↦ elim (Option-cases (find_replay request.buyer_id key db)) [
        | inr (old, replays) ↦ IsStocked-same [] db db' (ground arith) (ground arith) h
        | inl fresh ↦
            let c' =
              confirm_new_inv now today config request key dto db db' c
                (ground (arith, found, fresh)) in
            reserve_and_confirm-IsStocked now config request key dto (allocations_of request.id db)
              c'.delivery db db' c h c'.ran
      ]
    ]

release_awaiting-IsStocked :
    (reason : String) (awaiting : Option Checkout) (db db' : Db) (u : Unit {0})
    → IsStocked [] db
    → release_awaiting reason awaiting db ≡ ok (u, db')
    → IsStocked [] db'
release_awaiting-IsStocked reason none db db' u h run = subst (IsStocked []) (ground (arith, run)) h
release_awaiting-IsStocked reason (some c) db db' u h run =
    let (released, (mid, release, rest)) =
      >>=-eq-ok (release_checkout c.id CheckoutStatus.cancelled reason) _ db run in
    subst (IsStocked []) (ground (arith, rest))
      (release_checkout-IsStocked c.id CheckoutStatus.cancelled reason db mid released h release)

-- What a call that closed a request had found, and the release that it made.
pub close_tx_inv :
    (now id : ℕ) (reason : String) (db db' : Db) (u : Unit {0})
    → close_tx now id reason db ≡ ok (u, db')
    → (request : SourcingRequest) × (find id db.requests ≡ some request)
      × (is_finished request.status ≡ false)
      × (is_underway request.status ≡ false)
      × ((mid : Db) × (release_awaiting reason
              (find_first (is_awaiting_of id) db.checkouts)
              (set_request id (closed_for now reason) db)
            ≡ ok (tt, mid))
          × (db'
              ≡ request_audit AuditCategory.sourcing "Request closed"
                  (close_summary reason (find_first (is_awaiting_of id) db.checkouts))
                  request
                  (sync_sourcing_request now id mid)))
unfolding close_tx
close_tx_inv now id reason db db' u run = elim (Option-cases (find id db.requests)) [
  | inl missing ↦ ground arith
  | inr (request, found) ↦
      let awaiting = find_first (is_awaiting_of id) db.checkouts in
      let going : (release_awaiting reason awaiting >>= λ _.
      modify_db (sync_sourcing_request now id)
      >> modify_db (
          request_audit AuditCategory.sourcing "Request closed" (close_summary reason awaiting)
            request))
            (set_request id (closed_for now reason) db)
          ≡ ok (u, db') =
        ground (arith, found, run) in
      let (v, (mid, released, rest)) =
        >>=-eq-ok (release_awaiting reason awaiting) _ (set_request id (closed_for now reason) db)
          going in
      (
        request,
        found,
        ground (arith, found, run),
        ground (arith, found, run),
        (mid, released, ground (arith, rest)),
      )
]

pub close_tx-IsStocked :
    (now id : ℕ) (reason : String) (db db' : Db) (u : Unit {0})
    → IsStocked [] db
    → close_tx now id reason db ≡ ok (u, db')
    → IsStocked [] db'
close_tx-IsStocked now id reason db db' u h run =
    let (request, found, a, b, (mid, released, written)) =
      close_tx_inv now id reason db db' u run in
    IsStocked-same [] mid db' (ap (λ d. d.produces) written) (ap (λ d. d.orders) written) (
      release_awaiting-IsStocked reason (find_first (is_awaiting_of id) db.checkouts)
        (set_request id (closed_for now reason) db) mid tt
        (IsStocked-same [] db (set_request id (closed_for now reason) db) refl refl h) released)
