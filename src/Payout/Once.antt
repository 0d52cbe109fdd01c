-- ===== src/Payout/Once.antt =====
-- An order is in at most one live payout (src/payout/payout.service.ts).
use laicos_backend.Prelude.{
  ℕ, ◌+◌, ◌≤◌, ◌<◌, ◌≡◌, refl, sym, ap, ◌∙◌, inl, inr, Bool, true, false, ◌&&◌, some, List, [], ◌∷◌,
  arith, leb, ◌==◌, if◌then◌else◌, Bool-cases,
}
use laicos_backend.Prelude.Table.{find, find_many, any, all, sum_by, sum_by-append}
use laicos_backend.Prelude.Every.{
  Every, Every-map, Every-both, Every-append, Distinct, has_key, sum_by-has_key,
}
use laicos_backend.Schema.{Db, Order, Payout, PayoutItem, PayoutStatus, order_keyed, payout_keyed}
use laicos_backend.Payout.Eligibility.{is_eligible, is_live_item}
use laicos_backend.Payout.Service.{
  live_items, is_indexed, items_of, put_payout, farm_of, eligible_of,
}

-- An item has the status of its payout.
abbrev pub Mirrors : Db → PayoutItem → Type 0
Mirrors db item = (p : Payout) → find item.payout_id db.payouts ≡ some p → item.status ≡ p.status

-- No order is in two live payouts, items mirror their payouts, and no id is used ahead of time.
pub record IsPaidOutOnce (db : Db) : Type 0 where
  pub once : (order_id : ℕ) → live_items order_id db.payout_items ≤ 1
  pub mirrored : Every (Mirrors db) db.payout_items
  pub numbered : Every (λ item. item.payout_id < db.next_id) db.payout_items

live_items-items_of :
    (i payout_id id : ℕ) (orders : List Order)
    → live_items i (items_of payout_id id orders) ≡ sum_by (has_key i) orders
live_items-items_of i payout_id id [] = refl
live_items-items_of i payout_id id (o ∷ orders) =
    ground (arith, live_items-items_of i payout_id (id + 1) orders)

none_live :
    (i : ℕ) (items : List PayoutItem) → any (is_live_item i) items ≡ false → live_items i items ≡ 0
none_live i [] h = refl
none_live i (item ∷ items) h = ground (arith, none_live i items)

-- Rows picked from a table with distinct keys, none of which is in a live payout.
picked_once :
    (i : ℕ) (p : Order → Bool) (items : List PayoutItem) (t : List Order)
    → ((o : Order) → p o ≡ true → any (is_live_item o.id) items ≡ false)
    → sum_by (has_key i) t ≤ 1
    → live_items i items ≤ 1
    → sum_by (has_key i) (find_many p t) + live_items i items ≤ 1
picked_once i p items [] free few once = omega (arith, once)
picked_once i p items (o ∷ t) free few once = elim (Bool-cases (p o)) [
  | inr out ↦ ground (arith, picked_once i p items t free)
  | inl picked ↦ elim (Bool-cases (o.id == i)) [
    | inr other ↦ ground (arith, picked_once i p items t free)
    | inl at_i ↦
        let e : o.id ≡ i = ground arith in
        let gone : live_items i items ≡ 0 = none_live i items (rw (← e) (free o picked)) in
        let rest : sum_by (has_key i) (find_many p t) ≤ sum_by (has_key i) t = fewer t in
        ground (arith, gone, rest)
  ]
]
  where
    fewer : (u : List Order) → sum_by (has_key i) (find_many p u) ≤ sum_by (has_key i) u
    fewer [] = omega arith
    fewer (x ∷ u) = ground (arith, fewer u)

is_eligible-free :
    (now hold_hours : ℕ) (db : Db) (o : Order)
    → is_eligible now hold_hours db o ≡ true
    → any (is_live_item o.id) db.payout_items ≡ false
unfolding is_eligible
is_eligible-free now hold_hours db o h = ground arith

pub indexed_of :
    (items : List PayoutItem) → ((i : ℕ) → live_items i items ≤ 1) → is_indexed items ≡ true
indexed_of items h = at items
  where
    at : (u : List PayoutItem) → all (λ item. leb (live_items item.order_id items) 1) u ≡ true
    at [] = refl
    at (item ∷ u) = ground (arith, h item.order_id, at u)

-- Paying the eligible orders of a farmer puts no order in two live payouts.
pub put_payout-once :
    (now hold_hours farmer_id i : ℕ) (p : Payout) (db : Db)
    → Distinct db.orders
    → IsPaidOutOnce db
    → live_items i (put_payout p (eligible_of now hold_hours farmer_id db) db).payout_items ≤ 1
put_payout-once now hold_hours farmer_id i p db distinct h =
    let orders = eligible_of now hold_hours farmer_id db in
    omega (
      arith,
      sum_by-append (λ item. if is_live_item i item then 1 else 0) (items_of p.id (p.id + 1) orders)
          db.payout_items,
      live_items-items_of i p.id (p.id + 1) orders,
      picked_once i (λ o. is_eligible now hold_hours db o && farm_of farmer_id db o) db.payout_items
          db.orders (λ o picked. is_eligible-free now hold_hours db o (ground (arith, picked)))
          (sum_by-has_key i db.orders distinct) (h.once i),
    )

items_of-numbered :
    (payout_id id n : ℕ) (orders : List Order)
    → payout_id < n
    → Every (λ item. item.payout_id < n) (items_of payout_id id orders)
items_of-numbered payout_id id n [] h = tt
items_of-numbered payout_id id n (o ∷ orders) h =
    (h, items_of-numbered payout_id (id + 1) n orders h)

items_of-Mirrors :
    (id : ℕ) (orders : List Order) (p : Payout) (db : Db)
    → find p.id db.payouts ≡ some p
    → p.status ≡ PayoutStatus.pending
    → Every (Mirrors db) (items_of p.id id orders)
items_of-Mirrors id [] p db found pending = tt
items_of-Mirrors id (o ∷ orders) p db found pending = (
  λ q e. sym pending ∙ ap (λ x. x.status) (same_payout p q (sym found ∙ e)),
  items_of-Mirrors (id + 1) orders p db found pending,
)
  where
    same_payout : (a b : Payout) → some a ≡ some b → a ≡ b
    same_payout a b e = cc

pub put_payout-IsPaidOutOnce :
    (now hold_hours farmer_id : ℕ) (p : Payout) (db : Db)
    → Distinct db.orders
    → IsPaidOutOnce db
    → p.id ≡ db.next_id
    → p.status ≡ PayoutStatus.pending
    → IsPaidOutOnce (put_payout p (eligible_of now hold_hours farmer_id db) db)
put_payout-IsPaidOutOnce now hold_hours farmer_id p db distinct h fresh pending = record {
  once = λ i. put_payout-once now hold_hours farmer_id i p db distinct h;
  mirrored =
      Every-append (Mirrors db') (items_of p.id (p.id + 1) orders) db.payout_items
        (items_of-Mirrors (p.id + 1) orders p db' (ground arith) pending)
        (Every-map (λ item. Mirrors db item × (item.payout_id < db.next_id)) (Mirrors db')
          db.payout_items (λ item old q e. old.0 q (ground (arith, old.1, fresh)))
          (Every-both (Mirrors db) (λ item. item.payout_id < db.next_id) db.payout_items h.mirrored
            h.numbered));
  numbered =
      Every-append (λ item. item.payout_id < db'.next_id) (items_of p.id (p.id + 1) orders)
        db.payout_items
        (items_of-numbered p.id (p.id + 1) db'.next_id orders (omega (arith, fresh)))
        (Every-map (λ item. item.payout_id < db.next_id) (λ item. item.payout_id < db'.next_id)
          db.payout_items (λ item old. omega (arith, old)) h.numbered);
}
  where
    orders : List Order
    orders = eligible_of now hold_hours farmer_id db

    db' : Db
    db' = put_payout p orders db
