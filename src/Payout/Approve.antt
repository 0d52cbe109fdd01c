-- ===== src/Payout/Approve.antt =====
-- Approving payouts (`approve` of src/payout/payout.service.ts) never meets its unique index, and
-- settling them keeps an order in at most one live payout.
use laicos_backend.Prelude.{
  ℕ, ◌<◌, ◌≡◌, ◌≢◌, refl, ap, ◌∙◌, ◌⊎◌, inl, inr, true, ◌&&◌, Option, none, some, List, [], ◌∷◌,
  arith, ◌==◌, if◌then◌else◌,
}
use laicos_backend.Prelude.Table.{
  find, modify, sum_by, find-key, find-modify_inv, sum_by-update_many_le,
}
use laicos_backend.Prelude.Every.{
  Every-map, Every-update_many, sum_by-update_many-Every, Distinct, find-update_many,
}
use laicos_backend.Schema.{
  Db, Result, ok, Tx, ◌>>=◌, Order, Payout, PayoutItem, PayoutStatus, FarmerBankAccount,
  order_keyed, payout_keyed, account_keyed,
}
use laicos_backend.Payment.Refund.{is_live_payout}
use laicos_backend.Payout.Eligibility.{is_live_item, fully_refunded}
use laicos_backend.Payout.Service.{
  is_indexed, new_payout, put_payout, create_payout, eligible_of, pay_orders, approve_farmer,
  approve_each, send, TransferReply, is_among, is_payout_pending, fail_payout, code_of,
  settle_payout, set_item_status, outcome_status, is_transition, put_settled, TransferResult,
}
use laicos_backend.Payout.Exclusive.{IsExclusive, put_payout-IsExclusive, IsExclusive-update_many}
use laicos_backend.Payout.Once.{IsPaidOutOnce, Mirrors, indexed_of, put_payout-IsPaidOutOnce}

-- A transaction went through, and a property holds of the database it leaves.
abbrev pub Commits : {A : Type 0} → (Db → Type 0) → Result (A × Db) → Type 0
Commits {A} P r = (a : A) × ((db' : Db) × (r ≡ ok (a, db')) × P db')

-- Order ids are distinct, no order is in two live payouts, and none is in one and given back.
abbrev pub IsPayable : Db → Type 0
IsPayable db = Distinct db.orders × IsPaidOutOnce db × IsExclusive db

-- The payout of a farmer's eligible orders is created: the unique index admits its items.
create_payout-Commits :
    (now hold_hours admin_id farmer_id : ℕ) (account : FarmerBankAccount) (db : Db)
    → IsPayable db
    → Commits IsPayable
        (create_payout admin_id account (eligible_of now hold_hours farmer_id db) db)
unfolding create_payout
create_payout-Commits now hold_hours admin_id farmer_id account db h =
    (payout, (put_payout payout orders db, rw admitted refl, (h.0, kept, apart)))
  where
    orders : List Order
    orders = eligible_of now hold_hours farmer_id db

    payout : Payout
    payout = new_payout db admin_id account (sum_by (λ o. o.total_price) orders)

    kept : IsPaidOutOnce (put_payout payout orders db)
    kept = put_payout-IsPaidOutOnce now hold_hours farmer_id payout db h.0 h.1 refl refl

    apart : IsExclusive (put_payout payout orders db)
    apart = put_payout-IsExclusive now hold_hours farmer_id payout db h.0 h.2

    admitted : is_indexed (put_payout payout orders db).payout_items ≡ true
    admitted = indexed_of (put_payout payout orders db).payout_items kept.once

pay_orders-Commits :
    (admin_id : ℕ) (account : FarmerBankAccount) (orders : List Order) (db : Db)
    → IsPayable db
    → Commits IsPayable (create_payout admin_id account orders db)
    → Commits IsPayable (pay_orders admin_id account orders db)
pay_orders-Commits admin_id account [] db h created = (none, (db, refl, h))
pay_orders-Commits admin_id account (o ∷ os) db h (payout, (db', run, kept)) =
    (some payout, (db', rw (run, pay_orders) refl, kept))

approve_farmer-Commits :
    (now hold_hours admin_id farmer_id : ℕ) (db : Db)
    → IsPayable db
    → Commits IsPayable (approve_farmer now hold_hours admin_id farmer_id db)
unfolding approve_farmer
approve_farmer-Commits now hold_hours admin_id farmer_id db h =
    elim (find farmer_id db.bank_accounts)
      as (λ o. Commits IsPayable (elim o as (λ _. Result (Option Payout × Db)) [
        | none ↦ ok (none, db)
        | some account ↦ pay_orders admin_id account (eligible_of now hold_hours farmer_id db) db
      ])) [
        | none ↦ (none, (db, refl, h))
        | some account ↦
            pay_orders-Commits admin_id account (eligible_of now hold_hours farmer_id db) db h
              (create_payout-Commits now hold_hours admin_id farmer_id account db h)
      ]

>>=-Commits :
    {A B : Type 0} (P : Db → Type 0) (m : Tx A) (f : A → Tx B) (db : Db)
    → Commits P (m db)
    → ((a : A) (db' : Db) → P db' → Commits P (f a db'))
    → Commits P ((m >>= f) db)
>>=-Commits P m f db (a, (db', run, kept)) next =
    let (b, (db'', ran, after)) = next a db' kept in (b, (db'', rw (run, ◌>>=◌) ran, after))

pub approve_each-Commits :
    (now hold_hours admin_id : ℕ) (farmer_ids : List ℕ) (db : Db)
    → IsPayable db
    → Commits IsPayable (approve_each now hold_hours admin_id farmer_ids db)
unfolding approve_each
approve_each-Commits now hold_hours admin_id [] db h = (_, (db, refl, h))
approve_each-Commits now hold_hours admin_id (farmer_id ∷ farmer_ids) db h =
    >>=-Commits IsPayable (approve_farmer now hold_hours admin_id farmer_id) _ db
      (approve_farmer-Commits now hold_hours admin_id farmer_id db h)
      λ payout db1 h1.
        >>=-Commits IsPayable (approve_each now hold_hours admin_id farmer_ids) _ db1
          (approve_each-Commits now hold_hours admin_id farmer_ids db1 h1)
          λ batch db2 h2. (_, (db2, refl, h2))

-- An update of payouts and items under which items go on mirroring payouts and none comes alive.
pub send-IsPaidOutOnce :
    (reply : TransferReply) (ids : List ℕ) (db : Db)
    → IsPaidOutOnce db
    → IsPaidOutOnce (send reply ids db)
unfolding send
send-IsPaidOutOnce (TransferReply.unknown message) ids db h = h
send-IsPaidOutOnce (TransferReply.queued codes) ids db h = record {
  once = h.once;
  mirrored =
      Every-map (Mirrors db) (Mirrors (send (TransferReply.queued codes) ids db)) db.payout_items
        (λ item old q e.
          let (p, found, same) =
            find-update_many item.payout_id (λ p. is_among ids p.id)
              (λ p. record p { transfer_code = code_of p.id codes }) db.payouts q (λ r. refl) e in
          ground (arith, old p found, same))
        h.mirrored;
  numbered = h.numbered;
}
send-IsPaidOutOnce (TransferReply.refused message) ids db h = record {
  once = λ i. omega (
    arith,
    h.once i,
    sum_by-update_many_le (λ item. if is_live_item i item then 1 else 0)
        (λ item. is_among ids item.payout_id && is_payout_pending item.status)
        (set_item_status PayoutStatus.failed) db.payout_items (λ item e. ground arith),
  );
  mirrored =
      Every-update_many (Mirrors db) (Mirrors (send (TransferReply.refused message) ids db))
        (λ item. is_among ids item.payout_id && is_payout_pending item.status)
        (set_item_status PayoutStatus.failed) db.payout_items
        (λ item old q e.
          let (p, found, same) =
            find-update_many item.payout_id (λ p. is_among ids p.id && is_payout_pending p.status)
              (fail_payout message) db.payouts q (λ r. refl) (ground (arith, e)) in
          ground (arith, old p found, same, find-key item.payout_id db.payouts p found))
        h.mirrored;
  numbered =
      Every-update_many (λ item. item.payout_id < db.next_id) (λ item. item.payout_id < db.next_id)
        (λ item. is_among ids item.payout_id && is_payout_pending item.status)
        (set_item_status PayoutStatus.failed) db.payout_items (λ item old. ground (arith, old))
        h.numbered;
}

-- What a settled payout's items were: live, as the payout was.
was_live :
    (result : TransferResult) (p : Payout)
    → is_transition p.status result.outcome ≡ true
    → is_live_payout p.status ≡ true
unfolding is_transition
was_live result p h = ground arith

pub put_settled-IsExclusive :
    (now : ℕ) (result : TransferResult) (p : Payout) (db : Db)
    → find p.id db.payouts ≡ some p
    → is_transition p.status result.outcome ≡ true
    → IsPaidOutOnce db
    → IsExclusive db
    → IsExclusive (put_settled now result p db)
unfolding fully_refunded
put_settled-IsExclusive now result p db found allowed once h =
    IsExclusive-update_many db (λ item. item.payout_id == p.id)
      (set_item_status (outcome_status result.outcome)) (Mirrors db) once.mirrored
      (λ item old here live.
        let at_p : item.payout_id ≡ p.id = ground (arith, here) in
        let same : item.status ≡ p.status = old p (ap (λ j. find j db.payouts) at_p ∙ found) in
        ap is_live_payout same ∙ was_live result p allowed)
      (λ item. refl) h

settled_status :
    (now : ℕ) (result : TransferResult) (p : Payout)
    → ((settle_payout now result p).status ≡ outcome_status result.outcome)
      × ((settle_payout now result p).id ≡ p.id)
settled_status now result p = (ground arith, ground arith)

settled_item :
    (now : ℕ) (result : TransferResult) (p : Payout) (db : Db) (item : PayoutItem)
    → Mirrors db item
    → (q : Payout)
    → find item.payout_id (modify p.id (settle_payout now result) db.payouts) ≡ some q
    → (if item.payout_id == p.id
        then set_item_status (outcome_status result.outcome) item
        else item).status
      ≡ q.status
settled_item now result p db item old q e = at (
    find-modify_inv p.id item.payout_id (settle_payout now result) db.payouts
      (λ r. (settled_status now result r).1) e)
  where
    at :
        ((p.id ≡ item.payout_id)
            × ((r : Payout) × (find item.payout_id db.payouts ≡ some r)
                × (q ≡ settle_payout now result r)))
          ⊎ ((p.id ≢ item.payout_id) × (find item.payout_id db.payouts ≡ some q))
        → (if item.payout_id == p.id
            then set_item_status (outcome_status result.outcome) item
            else item).status
          ≡ q.status
    at (inl (same, (r, found, written))) =
        let status : q.status ≡ outcome_status result.outcome =
          ap (λ x. x.status) written ∙ (settled_status now result r).0 in
        ground (arith, same, status)
    at (inr (other, found)) = ground (arith, other, old q found)

pub put_settled-IsPaidOutOnce :
    (now : ℕ) (result : TransferResult) (p : Payout) (db : Db)
    → find p.id db.payouts ≡ some p
    → is_transition p.status result.outcome ≡ true
    → IsPaidOutOnce db
    → IsPaidOutOnce (put_settled now result p db)
put_settled-IsPaidOutOnce now result p db found allowed h = record {
  once = λ i. omega (
    arith,
    h.once i,
    sum_by-update_many-Every (Mirrors db) (λ item. if is_live_item i item then 1 else 0)
        (λ item. item.payout_id == p.id) (set_item_status (outcome_status result.outcome))
        db.payout_items
        (λ item old here.
          let at_p : item.payout_id ≡ p.id = ground (arith, here) in
          let live : item.status ≡ p.status = old p (ap (λ j. find j db.payouts) at_p ∙ found) in
          ground (arith, live, was_live result p allowed))
        h.mirrored,
  );
  mirrored =
      Every-update_many (Mirrors db) (Mirrors (put_settled now result p db))
        (λ item. item.payout_id == p.id) (set_item_status (outcome_status result.outcome))
        db.payout_items
        (λ item old q e. settled_item now result p db item old q (ground (arith, e))) h.mirrored;
  numbered =
      Every-update_many (λ item. item.payout_id < db.next_id) (λ item. item.payout_id < db.next_id)
        (λ item. item.payout_id == p.id) (set_item_status (outcome_status result.outcome))
        db.payout_items (λ item old. ground (arith, old)) h.numbered;
}
