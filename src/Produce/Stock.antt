-- ===== src/Produce/Stock.antt =====
-- The stock invariant across every method of the two produce services.
use mathlib.Core.Path.{subst}
use laicos_backend.Prelude.{
  ℕ, ◌+◌, ◌<◌, ◌≡◌, refl, inl, inr, false, some, List, [], ◌∷◌, arith, ◌==◌, Bool-cases,
  Option-cases,
}
use laicos_backend.Prelude.Table.{find, delete}
use laicos_backend.Prelude.Every.{Every, Distinct, find-delete}
use laicos_backend.Schema.{
  Db, ok, User, Farm, Produce, ProduceStatus, Order, order_keyed, farm_keyed, produce_keyed,
  Result-cases,
}
use laicos_backend.Produce.{IsSynced, derive_produce_status, derive_produce_status-agrees}
use laicos_backend.Order.Stock.{held, IsStocked, IsStocked-write}
use laicos_backend.Order.Stock.Rows.{IsStocked-same}
use laicos_backend.Produce.Service.{
  CreateProduceDto, UpdateProduceDto, new_produce, create_tx, updated_produce, is_overdrawn,
  update_tx, delete_produce, remove_tx, disable_listing, disable_tx, given_or, requested_status,
}

-- No order is of a listing that does not exist yet.
abbrev pub IsNumbered : Db → Type 0
IsNumbered db = Every (λ o. o.produce_id < db.next_id) db.orders

held_new : (i : ℕ) (orders : List Order) → Every (λ o. o.produce_id < i) orders → held i orders ≡ 0
held_new i [] h = refl
held_new i (o ∷ orders) h = ground (arith, h.0, held_new i orders h.1)

pub create_tx-IsStocked :
    (farm : Farm) (dto : CreateProduceDto) (db db' : Db) (p : Produce)
    → IsNumbered db
    → IsStocked [] db
    → create_tx farm dto db ≡ ok (p, db')
    → IsStocked [] db'
unfolding create_tx
create_tx-IsStocked farm dto db db' p numbered h run =
    let produces : db'.produces ≡ new_produce db.next_id dto ∷ db.produces = ground arith in
    let orders : db'.orders ≡ db.orders = ground arith in
    record {
      balanced = λ i q e. rw orders (balanced_at i q (subst (λ t. find i t ≡ some q) produces e));
      synced = λ i q e. synced_at i q (subst (λ t. find i t ≡ some q) produces e);
    }
  where
    balanced_at :
        (i : ℕ) (q : Produce)
        → find i (new_produce db.next_id dto ∷ db.produces) ≡ some q
        → q.actual_quantity ≡ q.floating_quantity + held i db.orders + 0
    balanced_at i q e = elim (Bool-cases (db.next_id == i)) [
      | inl here ↦
          let same : q ≡ new_produce db.next_id dto = ground arith in
          let at_i : db.next_id ≡ i = ground arith in
          rw same (rw (← at_i) (ground (arith, held_new db.next_id db.orders numbered)))
      | inr off ↦ h.balanced i q (ground arith)
    ]

    synced_at :
        (i : ℕ) (q : Produce)
        → find i (new_produce db.next_id dto ∷ db.produces) ≡ some q
        → IsSynced q
    synced_at i q e = elim (Bool-cases (db.next_id == i)) [
      | inl here ↦
          let same : q ≡ new_produce db.next_id dto = ground arith in
          rw same (
            derive_produce_status-agrees (given_or dto.status ProduceStatus.draft)
              dto.actual_quantity dto.actual_quantity)
      | inr off ↦ h.synced i q (ground arith)
    ]

pub update_tx-IsStocked :
    (id : ℕ) (current : Produce) (farm : Farm) (dto : UpdateProduceDto) (db db' : Db) (p : Produce)
    → is_overdrawn current dto ≡ false
    → IsStocked [] db
    → update_tx id current farm dto db ≡ ok (p, db')
    → IsStocked [] db'
unfolding update_tx updated_produce
update_tx-IsStocked id current farm dto db db' p enough h run =
    elim (Option-cases (find id db.produces)) [
      | inl missing ↦ absurd (ground arith)
      | inr (r, found) ↦
          IsStocked-write [] [] db db' id (updated_produce current dto) r h (λ x. refl)
            (ground arith) found (λ j ne. ground arith) (ground (arith, h.balanced id r found))
            (derive_produce_status-agrees (requested_status current dto) _ _)
    ]

pub disable_tx-IsStocked :
    (id : ℕ) (db db' : Db) (u : Unit {0})
    → IsStocked [] db
    → disable_tx id db ≡ ok (u, db')
    → IsStocked [] db'
unfolding disable_tx derive_produce_status
disable_tx-IsStocked id db db' u h run = elim (Option-cases (find id db.produces)) [
  | inl missing ↦ absurd (ground arith)
  | inr (r, found) ↦
      IsStocked-write [] [] db db' id disable_listing r h (λ x. refl) (ground arith) found
        (λ j ne. ground arith) (ground (arith, h.balanced id r found)) (ground arith)
]

pub delete_produce-IsStocked :
    (id : ℕ) (db db' : Db) (p : Produce)
    → Distinct db.produces
    → IsStocked [] db
    → delete_produce id db ≡ ok (p, db')
    → IsStocked [] db'
unfolding delete_produce
delete_produce-IsStocked id db db' p distinct h run =
    let produces : db'.produces ≡ delete id db.produces = ground arith in
    let orders : db'.orders ≡ db.orders = ground arith in
    record {
      balanced = λ j q e.
          let (ne, found) = find-delete id j db.produces q distinct (rw (← produces) e) in
          rw orders (h.balanced j q found);
      synced = λ j q e.
          let (ne, found) = find-delete id j db.produces q distinct (rw (← produces) e) in
          h.synced j q found;
    }

pub remove_tx-IsStocked :
    (user : User) (id : ℕ) (current : Produce) (farm : Farm) (db db' : Db) (p : Produce)
    → Distinct db.produces
    → IsStocked [] db
    → remove_tx user id current farm db ≡ ok (p, db')
    → IsStocked [] db'
unfolding remove_tx
remove_tx-IsStocked user id current farm db db' p distinct h run =
    elim (Result-cases (delete_produce id db)) [
      | inl (e, failed) ↦ absurd (ground (arith, failed))
      | inr ((q, after), done) ↦
          IsStocked-same [] after db' (ground (arith, done)) (ground (arith, done))
            (delete_produce-IsStocked id db after q distinct h done)
    ]
