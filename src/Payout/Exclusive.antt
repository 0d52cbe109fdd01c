-- ===== src/Payout/Exclusive.antt =====
-- An order is never both in a live payout and given back to the buyer by a refund of the whole
-- payment (src/payout/utils/eligibility.ts, `lockAndCheckPayouts` of src/payment/refund.service.ts).
use laicos_backend.Prelude.{
  ℕ, ◌+◌, ◌≡◌, refl, sym, ap, ◌∙◌, inl, inr, Bool, true, false, ◌&&◌, some, List, [], ◌∷◌, arith,
  if◌then◌else◌, Bool-cases,
}
use laicos_backend.Prelude.Table.{find, update_many}
use laicos_backend.Prelude.Every.{
  Every, Every-map, Every-both, Every-append, Every-update_many, Every-find_many, Every-find,
  Distinct,
}
use laicos_backend.Schema.{
  Db, Order, Payout, PayoutItem, PayoutStatus, order_keyed, payment_keyed, checkout_keyed,
}
use laicos_backend.Payment.Refund.{is_live_payout}
use laicos_backend.Payout.Eligibility.{is_eligible, payable_checkout, fully_refunded}
use laicos_backend.Payout.Service.{
  items_of, put_payout, eligible_of, farm_of, is_among, is_payout_pending, set_item_status, send,
  TransferReply,
}

-- A live item's order was not given back.
abbrev pub Unspent : Db → PayoutItem → Type 0
Unspent db item =
    is_live_payout item.status ≡ true
    → (o : Order) → find item.order_id db.orders ≡ some o
    → (checkout_id : ℕ) → o.checkout_id ≡ some checkout_id
    → fully_refunded checkout_id db ≡ false

abbrev pub IsExclusive : Db → Type 0
IsExclusive db = Every (Unspent db) db.payout_items

is_eligible-unrefunded :
    (now hold_hours : ℕ) (db : Db) (o : Order) (checkout_id : ℕ)
    → is_eligible now hold_hours db o ≡ true
    → o.checkout_id ≡ some checkout_id
    → fully_refunded checkout_id db ≡ false
unfolding is_eligible payable_checkout
is_eligible-unrefunded now hold_hours db o checkout_id h e = ground (arith, e)

items_of-Unspent :
    (db : Db) (payout_id id : ℕ) (orders : List Order)
    → Every
        (λ o.
          (find o.id db.orders ≡ some o)
          × ((checkout_id : ℕ)
              → o.checkout_id ≡ some checkout_id
              → fully_refunded checkout_id db ≡ false))
        orders
    → Every (Unspent db) (items_of payout_id id orders)
items_of-Unspent db payout_id id [] h = tt
items_of-Unspent db payout_id id (o ∷ orders) h = (
  λ live q found checkout_id e.
      h.0.1 checkout_id (ap (λ x. x.checkout_id) (same o q (sym h.0.0 ∙ found)) ∙ e),
  items_of-Unspent db payout_id (id + 1) orders h.1,
)
  where
    same : (a b : Order) → some a ≡ some b → a ≡ b
    same a b e = cc

-- Paying eligible orders keeps them apart from those that were given back.
pub put_payout-IsExclusive :
    (now hold_hours farmer_id : ℕ) (p : Payout) (db : Db)
    → Distinct db.orders
    → IsExclusive db
    → IsExclusive (put_payout p (eligible_of now hold_hours farmer_id db) db)
unfolding fully_refunded
put_payout-IsExclusive now hold_hours farmer_id p db distinct h =
    Every-append (Unspent db) (items_of p.id (p.id + 1) (eligible_of now hold_hours farmer_id db))
      db.payout_items
      (items_of-Unspent db p.id (p.id + 1) (eligible_of now hold_hours farmer_id db) (
        Every-map
          (λ o.
            (find o.id db.orders ≡ some o)
            × ((is_eligible now hold_hours db o && farm_of farmer_id db o) ≡ true))
          (λ o.
            (find o.id db.orders ≡ some o)
            × ((checkout_id : ℕ)
                → o.checkout_id ≡ some checkout_id
                → fully_refunded checkout_id db ≡ false))
          (eligible_of now hold_hours farmer_id db)
          (λ o known. (
            known.0,
            λ checkout_id e.
                is_eligible-unrefunded now hold_hours db o checkout_id (ground (arith, known.1)) e,
          ))
          (Every-find_many (λ o. find o.id db.orders ≡ some o)
            (λ o. is_eligible now hold_hours db o && farm_of farmer_id db o) db.orders
            (Every-find db.orders distinct))))
      h

-- A mass update of items under which none comes alive.
pub IsExclusive-update_many :
    (db : Db) (p : PayoutItem → Bool) (f : PayoutItem → PayoutItem) (P : PayoutItem → Type 0)
    → Every P db.payout_items
    → ((item : PayoutItem)
        → P item
        → p item ≡ true
        → is_live_payout (f item).status ≡ true
        → is_live_payout item.status ≡ true)
    → ((item : PayoutItem) → (f item).order_id ≡ item.order_id)
    → IsExclusive db
    → Every (Unspent db) (update_many p f db.payout_items)
IsExclusive-update_many db p f P known falls keeps h =
    Every-update_many (λ item. P item × Unspent db item) (Unspent db) p f db.payout_items kept
      (Every-both P (Unspent db) db.payout_items known h)
  where
    kept :
        (item : PayoutItem)
        → P item × Unspent db item
        → Unspent db (if p item then f item else item)
    kept item (known, old) = elim (Bool-cases (p item)) [
      | inr off ↦ rw off old
      | inl here ↦ rw here λ live o found.
          old (falls item known here live) o (ap (λ i. find i db.orders) (sym (keeps item)) ∙ found)
    ]

pub send-IsExclusive :
    (reply : TransferReply) (ids : List ℕ) (db : Db)
    → IsExclusive db
    → IsExclusive (send reply ids db)
unfolding send fully_refunded
send-IsExclusive (TransferReply.queued codes) ids db h = h
send-IsExclusive (TransferReply.unknown message) ids db h = h
send-IsExclusive (TransferReply.refused message) ids db h =
    IsExclusive-update_many db
      (λ item. is_among ids item.payout_id && is_payout_pending item.status)
      (set_item_status PayoutStatus.failed) (λ item. Unit) (trivial db.payout_items)
      (λ item _ here live. ground arith) (λ item. refl) h
  where
    trivial : (t : List PayoutItem) → Every (λ item. Unit {0}) t
    trivial [] = tt
    trivial (item ∷ t) = (tt, trivial t)
