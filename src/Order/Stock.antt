-- ===== src/Order/Stock.antt =====
-- The stock that orders hold: what the comment on `OrderService` promises, as an invariant of the
-- produce and order tables.
pub mod Moves
pub mod Rows
pub mod Confirm
pub mod Cancel
pub mod Progress
pub mod Methods
use laicos_backend.Prelude.{
  ℕ, ◌+◌, ◌-◌, ◌≡◌, ◌≢◌, refl, sym, ap, ◌∙◌, ◌⊎◌, inl, inr, Bool, true, false, ◌&&◌, Option, none,
  some, List, [], ◌∷◌, ◌++◌, arith, leb, ◌==◌, if◌then◌else◌, Bool-cases,
}
use laicos_backend.Prelude.Table.{
  find, modify, sum_by, find-key, find-modify_inv, modify-modify, sum_by-modify,
}
use laicos_backend.Schema.{Db, Produce, Order, put_produce, order_keyed, produce_keyed}
use laicos_backend.Produce.{IsSynced, derive_produce_status, derive_produce_status-agrees}
use laicos_backend.Order.Reservation.{is_uncommitted}

-- What an order holds of a listing's floating stock only.
abbrev pub held_by : ℕ → Order → ℕ
held_by produce_id o =
    if o.produce_id == produce_id && is_uncommitted o.status then o.quantity else 0

abbrev pub held : ℕ → List Order → ℕ
held produce_id orders = sum_by (held_by produce_id) orders

-- Units that a running transaction has taken and not yet tied to an order, by listing.
abbrev pub Loose : Type 0
Loose = List (ℕ × ℕ)

abbrev pub loose_of : ℕ → Loose → ℕ
loose_of produce_id [] = 0
loose_of produce_id ((i, quantity) ∷ rest) =
    (if i == produce_id then quantity else 0) + loose_of produce_id rest

pub loose_of-cons_ne :
    (i j quantity : ℕ) (loose : Loose)
    → i ≢ j
    → loose_of j ((i, quantity) ∷ loose) ≡ loose_of j loose
loose_of-cons_ne i j quantity loose ne = ground arith

pub loose_of-cons_self :
    (i quantity : ℕ) (loose : Loose)
    → loose_of i ((i, quantity) ∷ loose) ≡ quantity + loose_of i loose
loose_of-cons_self i quantity loose = ground arith

-- A listing's actual stock is what buyers can still order and what unconfirmed orders hold, and
-- its status says whether there is any.
pub record IsStocked (loose : Loose) (db : Db) : Type 0 where
  pub balanced :
      (i : ℕ) (p : Produce)
      → find i db.produces ≡ some p
      → p.actual_quantity ≡ p.floating_quantity + held i db.orders + loose_of i loose
  pub synced : (i : ℕ) (p : Produce) → find i db.produces ≡ some p → IsSynced p

some_eq : (a b : Produce) → some a ≡ some b → a ≡ b
some_eq a b e = cc

-- A write of one listing's row keeps the invariant if that row is right afterwards.
pub IsStocked-write :
    (loose loose' : Loose) (db db' : Db) (i : ℕ) (f : Produce → Produce) (p : Produce)
    → IsStocked loose db
    → ((r : Produce) → (f r).id ≡ r.id)
    → db'.produces ≡ modify i f db.produces
    → find i db.produces ≡ some p
    → ((j : ℕ)
        → i ≢ j
        → held j db'.orders + loose_of j loose' ≡ held j db.orders + loose_of j loose)
    → (f p).actual_quantity ≡ (f p).floating_quantity + held i db'.orders + loose_of i loose'
    → IsSynced (f p)
    → IsStocked loose' db'
IsStocked-write loose loose' db db' i f p h keeps written found others here synced = record {
  balanced = λ j q e. balanced_at j q (find-modify_inv i j f db.produces keeps (rw (← written) e));
  synced = λ j q e. synced_at j q (find-modify_inv i j f db.produces keeps (rw (← written) e));
}
  where
    balanced_at :
        (j : ℕ) (q : Produce)
        → ((i ≡ j) × ((r : Produce) × (find j db.produces ≡ some r) × (q ≡ f r)))
          ⊎ ((i ≢ j) × (find j db.produces ≡ some q))
        → q.actual_quantity ≡ q.floating_quantity + held j db'.orders + loose_of j loose'
    balanced_at j q (inl (e, (r, at_j, same))) =
        rw (← e, same, some_eq r p (sym at_j ∙ rw (← e) found)) here
    balanced_at j q (inr (ne, at_j)) = omega (arith, others j ne, h.balanced j q at_j)

    synced_at :
        (j : ℕ) (q : Produce)
        → ((i ≡ j) × ((r : Produce) × (find j db.produces ≡ some r) × (q ≡ f r)))
          ⊎ ((i ≢ j) × (find j db.produces ≡ some q))
        → IsSynced q
    synced_at j q (inl (e, (r, at_j, same))) =
        rw (same, some_eq r p (sym at_j ∙ rw (← e) found)) synced
    synced_at j q (inr (ne, at_j)) = h.synced j q at_j
