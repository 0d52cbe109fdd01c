-- ===== src/Handover/Complete.antt =====
-- What completing a handover does, and when it goes through.
use Prim.Native.String.{String}
use laicos_backend.Prelude.{
  ℕ, ◌≡◌, ◌≢◌, refl, sym, ap, ◌∙◌, inl, inr, Bool, true, false, none, some, arith, Option-cases,
  ◌&&◌,
}
use laicos_backend.Prelude.Table.{find, modify, find-modify_self, find-modify_ne, find-key}
use laicos_backend.Schema.{
  Db, Result, Result-cases, ok, err, Order, OrderStatus, OrderHandover, HandoverStatus, Farm,
  is_ready, order_keyed, farm_keyed, handover_keyed,
}
use laicos_backend.Order.Service.{update_order, set_status}
use laicos_backend.Order.Service.Frames.{Framed}
use laicos_backend.Handover.{
  handover_of, update_handover, is_handover_verified, record_handover_audit, CompleteHandoverDto,
  hand_over, complete_tx, complete,
}

record_handover_audit_frame :
    (now agent_id order_id : ℕ) (title : String) (db : Db)
    → Framed db (record_handover_audit now agent_id order_id title db)
unfolding record_handover_audit
record_handover_audit_frame now agent_id order_id title db = ground arith

abbrev pub is_ok : {A : Type 0} → Result A → Bool
is_ok (ok a) = true
is_ok (err e) = false

record_handover_audit-is_ok :
    (now agent_id order_id : ℕ) (title : String) (db : Db) (o : Order) (farm : Farm)
    → find order_id db.orders ≡ some o
    → find o.farm_id db.farms ≡ some farm
    → is_ok (record_handover_audit now agent_id order_id title db) ≡ true
unfolding record_handover_audit
record_handover_audit-is_ok now agent_id order_id title db o farm found at_farm =
    ground (arith, found, at_farm)

-- What `complete` leaves: of the handover and the order every column is given, and no other row of
-- the two tables, and no table but the audit log and the sourcing requests, differs. Whoever tries
-- again, later, fails.
pub record IsCompletion (now agent_id order_id : ℕ) (dto : CompleteHandoverDto) (db db' : Db)
    (h : OrderHandover) : Type 0 where
  pub before : OrderHandover
  pub found : find order_id db.handovers ≡ some before
  pub own : before.agent_id ≡ some agent_id
  pub verified : before.status ≡ HandoverStatus.verified
  pub answered : h ≡ record before {
    status = HandoverStatus.handed_over;
    recipient_name = some dto.recipient_name;
    recipient_phone = dto.recipient_phone;
    handover_note = dto.note;
    handed_over_at = some now;
  }
  pub stored : find order_id db'.handovers ≡ some h
  pub order : Order
  pub ordered : find order_id db.orders ≡ some order
  pub ready : order.status ≡ OrderStatus.ready
  pub shipped : find order_id db'.orders ≡ some (record order { status = OrderStatus.shipped })
  pub others :
      (j : ℕ)
      → j ≢ order_id
      → (find j db'.handovers ≡ find j db.handovers) × (find j db'.orders ≡ find j db.orders)
  pub rest : db' ≡ record db {
    orders = db'.orders;
    handovers = db'.handovers;
    audit_events = db'.audit_events;
    requests = db'.requests;
  }
  pub once :
      (later other : ℕ) (again : CompleteHandoverDto)
      → is_ok (complete later other order_id again db').0 ≡ false

handover_of_inv :
    (agent_id order_id : ℕ) (db : Db) (h : OrderHandover)
    → handover_of agent_id order_id db ≡ some h
    → (find order_id db.handovers ≡ some h) × (h.agent_id ≡ some agent_id)
handover_of_inv agent_id order_id db h own = elim (Option-cases (find order_id db.handovers)) [
  | inl missing ↦ absurd (ground (arith, missing))
  | inr (x, found) ↦ (ground (arith, found), ground (arith, found))
]

-- The rows that `complete` writes, and the tables that it leaves.
complete_tx_writes :
    (now agent_id order_id : ℕ) (dto : CompleteHandoverDto) (db db' : Db) (h before : OrderHandover)
    (o : Order)
    → handover_of agent_id order_id db ≡ some before
    → find order_id db.orders ≡ some o
    → complete_tx now agent_id order_id dto db ≡ ok (h, db')
    → (before.status ≡ HandoverStatus.verified)
      × (o.status ≡ OrderStatus.ready)
      × (h ≡ hand_over now dto before)
      × (db' ≡ record db {
        orders = modify order_id (set_status OrderStatus.shipped) db.orders;
        handovers = modify order_id (hand_over now dto) db.handovers;
        audit_events = db'.audit_events;
        requests = db'.requests;
      })
unfolding complete_tx update_handover update_order
complete_tx_writes now agent_id order_id dto db db' h before o own found run =
    let written = record db {
      orders = modify order_id (set_status OrderStatus.shipped) db.orders;
      handovers = modify order_id (hand_over now dto) db.handovers;
    } in
    (
      ground arith,
      ground arith,
      ground arith,
      ground
          (arith, record_handover_audit_frame now agent_id order_id "Handover completed" written),
    )

refused_again :
    (now agent_id order_id : ℕ) (dto : CompleteHandoverDto) (db : Db) (h : OrderHandover)
    → find order_id db.handovers ≡ some h
    → h.status ≡ HandoverStatus.handed_over
    → is_ok (complete now agent_id order_id dto db).0 ≡ false
unfolding complete_tx update_handover
refused_again now agent_id order_id dto db h found gone = ground (arith, found, gone)

pub complete_tx_inv :
    (now agent_id order_id : ℕ) (dto : CompleteHandoverDto) (db db' : Db) (h : OrderHandover)
    → complete_tx now agent_id order_id dto db ≡ ok (h, db')
    → IsCompletion now agent_id order_id dto db db' h
unfolding complete_tx update_handover update_order
complete_tx_inv now agent_id order_id dto db db' h run =
    elim (Option-cases (handover_of agent_id order_id db)) [
      | inl missing ↦ absurd (no_handover missing)
      | inr (before, own) ↦ elim (Option-cases (find order_id db.orders)) [
        | inl missing ↦ absurd (no_order before own missing)
        | inr (o, found) ↦
            done before o own found
              (complete_tx_writes now agent_id order_id dto db db' h before o own found run)
      ]
    ]
  where
    no_handover : handover_of agent_id order_id db ≡ none → ⊥
    no_handover missing = ground arith

    no_order :
        (before : OrderHandover)
        → handover_of agent_id order_id db ≡ some before
        → find order_id db.orders ≡ none
        → ⊥
    no_order before own missing = ground arith

    done :
        (before : OrderHandover) (o : Order)
        → handover_of agent_id order_id db ≡ some before
        → find order_id db.orders ≡ some o
        → (before.status ≡ HandoverStatus.verified)
          × (o.status ≡ OrderStatus.ready)
          × (h ≡ hand_over now dto before)
          × (db' ≡ record db {
            orders = modify order_id (set_status OrderStatus.shipped) db.orders;
            handovers = modify order_id (hand_over now dto) db.handovers;
            audit_events = db'.audit_events;
            requests = db'.requests;
          })
        → IsCompletion now agent_id order_id dto db db' h
    done before o own found (verified, ready, answered, written) =
        let (there, agent) = handover_of_inv agent_id order_id db before own in
        let orders = ap (λ d. d.orders) written in
        let handovers = ap (λ d. d.handovers) written in
        let stored : find order_id db'.handovers ≡ some h =
          ap (find order_id) handovers
          ∙ find-modify_self order_id (hand_over now dto) db.handovers before
              (find-key order_id db.handovers before there) there
          ∙ ap (λ k. some k) (sym answered) in
        record {
          before = before;
          found = there;
          own = agent;
          verified = verified;
          answered = answered;
          stored = stored;
          order = o;
          ordered = found;
          ready = ready;
          shipped =
              ap (find order_id) orders
              ∙ find-modify_self order_id (set_status OrderStatus.shipped) db.orders o
                  (find-key order_id db.orders o found) found;
          others = λ j ne. (
            ap (find j) handovers
                ∙ find-modify_ne order_id j (hand_over now dto) db.handovers (λ r. refl)
                    (ground (arith, ne)),
            ap (find j) orders
                ∙ find-modify_ne order_id j (set_status OrderStatus.shipped) db.orders (λ r. refl)
                    (ground (arith, ne)),
          );
          rest = ground (arith, written);
          once = λ later other again.
              refused_again later other order_id again db' h stored (ap (λ k. k.status) answered);
        }

-- What `complete` answers and leaves: the completed handover, or the database as it was.
abbrev pub Completed : ℕ → ℕ → ℕ → CompleteHandoverDto → Db → Result OrderHandover × Db → Type 0
Completed now agent_id order_id dto db (ok h, db') = IsCompletion now agent_id order_id dto db db' h
Completed now agent_id order_id dto db (err e, db') = db' ≡ db

-- Completing a handover either fails and leaves the database as it was, or succeeds: then the
-- agent had it verified and the order was ready; the handover is handed over with the recipient,
-- the note and the time given, and the order is shipped, with every other column of the two as it
-- was; every other handover and order is unchanged, and so is every table but the audit log and
-- the sourcing requests; and completing it again, by whoever and whenever, fails.
pub complete-Completed :
    (now agent_id order_id : ℕ) (dto : CompleteHandoverDto) (db : Db)
    → Completed now agent_id order_id dto db (complete now agent_id order_id dto db)
unfolding complete_tx
complete-Completed now agent_id order_id dto db =
    elim (Result-cases (complete_tx now agent_id order_id dto db)) [
      | inl (e, failed) ↦ rw failed refl
      | inr ((h, db'), done) ↦ rw done (complete_tx_inv now agent_id order_id dto db db' h done)
    ]

-- Whether the agent has verified the order's handover and the order still waits for it.
abbrev pub can_complete : ℕ → ℕ → Db → Bool
can_complete agent_id order_id db = elim (handover_of agent_id order_id db) [
  | none ↦ false
  | some h ↦ elim (find order_id db.orders) [
    | none ↦ false
    | some o ↦ is_handover_verified h.status && is_ready o.status
  ]
]

-- Where the order's farm exists if the order does, completing a handover succeeds exactly when it
-- is the agent's, it is verified and the order is ready.
pub complete_iff :
    (now agent_id order_id : ℕ) (dto : CompleteHandoverDto) (db : Db)
    → ((o : Order)
        → find order_id db.orders ≡ some o
        → (farm : Farm) × (find o.farm_id db.farms ≡ some farm))
    → is_ok (complete now agent_id order_id dto db).0 ≡ can_complete agent_id order_id db
unfolding complete_tx update_handover update_order
complete_iff now agent_id order_id dto db farms =
    elim (Option-cases (handover_of agent_id order_id db)) [
      | inl missing ↦ ground (arith, missing)
      | inr (before, own) ↦ elim (Option-cases (find order_id db.orders)) [
        | inl missing ↦ ground (arith, missing, own)
        | inr (o, found) ↦
            let (farm, at_farm) = farms o found in
            let written = record db {
              orders = modify order_id (set_status OrderStatus.shipped) db.orders;
              handovers = modify order_id (hand_over now dto) db.handovers;
            } in
            let audited : is_ok
                  (record_handover_audit now agent_id order_id "Handover completed" written)
                ≡ true =
              record_handover_audit-is_ok now agent_id order_id "Handover completed" written
                (set_status OrderStatus.shipped o) farm
                (find-modify_self order_id (set_status OrderStatus.shipped) db.orders o
                  (find-key order_id db.orders o found) found)
                at_farm in
            ground (arith, own, found, audited)
      ]
    ]
