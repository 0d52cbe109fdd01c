-- ===== src/SourcingRequest/Closed.antt =====
-- What closing a request leaves (`close` of
-- src/sourcing-request/admin-sourcing-request.service.ts).
use Prim.Native.String.{String}
use mathlib.Core.Path.{subst}
use laicos_backend.Prelude.{
  ℕ, ◌≤◌, ◌≡◌, refl, ap, ◌∙◌, inl, inr, Bool, false, none, some, List, [], ◌∷◌, arith,
  if◌then◌else◌, Option-cases,
}
use laicos_backend.Prelude.Table.{
  find, find_first, any, modify, sum_by, find-key, find-modify_self, sum_by-modify,
}
use laicos_backend.Prelude.Every.{find_first-Every, Every-find, Distinct}
use laicos_backend.Schema.{
  Db, ok, Checkout, CheckoutStatus, SourcingRequest, SourcingRequestStatus, checkout_keyed,
  request_keyed,
}
use laicos_backend.Cart.Checkout.{release_checkout, set_checkout_status}
use laicos_backend.Order.Service.Frames.{>>=-eq-ok}
use laicos_backend.SourcingRequest.Rules.{derive_sourcing_status, SourcingSnapshot}
use laicos_backend.SourcingRequest.Sync.{snapshot_of, synced_request}
use laicos_backend.SourcingRequest.Service.{
  close_tx, release_awaiting, set_request, closed_for, is_awaiting_of,
}
use laicos_backend.SourcingRequest.Live.{live_of, OneLive, release_checkout_frame}
use laicos_backend.SourcingRequest.Confirmed.{find-synced_requests}
use laicos_backend.SourcingRequest.Stocked.{close_tx_inv}

abbrev awaiting_of : ℕ → Checkout → ℕ
awaiting_of id c = if is_awaiting_of id c then 1 else 0

awaiting-le-live :
    (id : ℕ) (cs : List Checkout) → sum_by (awaiting_of id) cs ≤ sum_by (live_of id) cs
awaiting-le-live id [] = omega arith
awaiting-le-live id (c ∷ cs) = ground (arith, awaiting-le-live id cs)

any_none :
    (id : ℕ) (cs : List Checkout)
    → sum_by (awaiting_of id) cs ≡ 0
    → any (is_awaiting_of id) cs ≡ false
any_none id [] h = refl
any_none id (c ∷ cs) h = ground (arith, any_none id cs)

first_none : (p : Checkout → Bool) (cs : List Checkout) → find_first p cs ≡ none → any p cs ≡ false
first_none p [] h = refl
first_none p (c ∷ cs) h = ground (arith, first_none p cs)

-- Of the checkouts that awaited payment, the one that is released was the only one.
released_last :
    (id : ℕ) (c : Checkout) (cs : List Checkout)
    → sum_by (live_of id) cs ≤ 1
    → Distinct cs
    → find_first (is_awaiting_of id) cs ≡ some c
    → any (is_awaiting_of id) (modify c.id (set_checkout_status CheckoutStatus.cancelled) cs)
      ≡ false
released_last id c cs one distinct first =
    let (awaits, found) =
      find_first-Every (is_awaiting_of id) (λ r. find r.id cs ≡ some r) cs c
        (Every-find cs distinct) first in
    any_none id (modify c.id (set_checkout_status CheckoutStatus.cancelled) cs) (
      ground (
        arith,
        awaits,
        awaiting-le-live id cs,
        one,
        sum_by-modify (awaiting_of id) c.id (set_checkout_status CheckoutStatus.cancelled) cs c
            found,
      ))

release_awaiting_closes :
    (id : ℕ) (reason : String) (db mid : Db)
    → OneLive db
    → Distinct db.checkouts
    → release_awaiting reason (find_first (is_awaiting_of id) db.checkouts) db ≡ ok (tt, mid)
    → (any (is_awaiting_of id) mid.checkouts ≡ false) × (mid.requests ≡ db.requests)
release_awaiting_closes id reason db mid one distinct run =
    elim (Option-cases (find_first (is_awaiting_of id) db.checkouts)) [
      | inl nobody ↦
          let same : mid ≡ db = ground (arith, nobody, run) in
          (
            ap (λ d. any (is_awaiting_of id) d.checkouts) same
                ∙ first_none (is_awaiting_of id) db.checkouts nobody,
            ap (λ d. d.requests) same,
          )
      | inr (c, first) ↦
          let going : release_awaiting reason (some c) db ≡ ok (tt, mid) =
            subst (λ o. release_awaiting reason o db ≡ ok (tt, mid)) first run in
          let (released, (after, release, rest)) =
            >>=-eq-ok (release_checkout c.id CheckoutStatus.cancelled reason) _ db going in
          let (checkouts, requests) =
            release_checkout_frame c.id CheckoutStatus.cancelled reason db after released release in
          let same : mid ≡ after = ground (arith, rest) in
          (
            ap (λ d. any (is_awaiting_of id) d.checkouts) same
                ∙ ap (any (is_awaiting_of id)) checkouts
                ∙ released_last id c db.checkouts (one.one id) distinct first,
            ap (λ d. d.requests) same ∙ requests,
          )
    ]

-- A request that an admin has closed derives to be closed, and keeps the admin's reason.
synced_closed :
    (now : ℕ) (reason : String) (s : SourcingSnapshot) (r : SourcingRequest)
    → s.closed_at ≡ some now
    → let r' = synced_request now s (closed_for now reason r) in
      (r'.status ≡ SourcingRequestStatus.closed)
      × (r'.closed_at ≡ some now)
      × (r'.close_reason ≡ some reason)
unfolding synced_request derive_sourcing_status
synced_closed now reason s r closed = (ground (arith, closed), ground arith, ground arith)

closed_snapshot :
    (now : ℕ) (reason : String) (r : SourcingRequest) (db : Db)
    → (snapshot_of (closed_for now reason r) db).closed_at ≡ some now
unfolding snapshot_of
closed_snapshot now reason r db = refl

-- Where each request has at most one live checkout and checkout ids are distinct, closing a
-- request, where it succeeds, leaves none of its checkouts awaiting payment and the request
-- closed, with the time and the reason given.
pub close_tx_closes :
    (now id : ℕ) (reason : String) (db db' : Db) (u : Unit {0})
    → OneLive db
    → Distinct db.checkouts
    → close_tx now id reason db ≡ ok (u, db')
    → (any (is_awaiting_of id) db'.checkouts ≡ false)
      × ((r : SourcingRequest) × (find id db'.requests ≡ some r)
          × (r.status ≡ SourcingRequestStatus.closed)
          × (r.closed_at ≡ some now)
          × (r.close_reason ≡ some reason))
close_tx_closes now id reason db db' u one distinct run =
    let (request, found, open_one, early, (mid, released, written)) =
      close_tx_inv now id reason db db' u run in
    let start = set_request id (closed_for now reason) db in
    let (none_left, requests) =
      release_awaiting_closes id reason start mid (record { one = one.one }) distinct released in
    let row = closed_for now reason request in
    let there : find id mid.requests ≡ some row =
      ap (find id) requests
      ∙ find-modify_self id (closed_for now reason) db.requests request
          (find-key id db.requests request found) found in
    let s = snapshot_of row mid in
    let (closed, time, why) =
      synced_closed now reason s request (closed_snapshot now reason request mid) in
    (
      ap (λ d. any (is_awaiting_of id) d.checkouts) written ∙ none_left,
      (
        synced_request now s row,
        ap (λ d. find id d.requests) written ∙ find-synced_requests now id mid row there,
        closed,
        time,
        why,
      ),
    )
