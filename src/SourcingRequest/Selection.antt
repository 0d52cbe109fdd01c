-- ===== src/SourcingRequest/Selection.antt =====
-- src/sourcing-request/admin-sourcing-request.service.ts: which listings may be selected for a
-- request, and saving the selection. `show` is how the runtime prints an id or a whole number.
use Prim.Native.String.{String, ◌++◌}
use laicos_backend.Prelude.{
  ℕ, Bool, true, false, ◌&&◌, ◌||◌, not, Option, none, some, List, [], ◌∷◌, ◌++◌ as append, map,
  ltb, is_some, same_id, ◌==◌, if◌then◌else◌,
}
use laicos_backend.Prelude.Table.{find, find_many, any, sort_by}
use laicos_backend.Schema.{
  Db, Result, Failure, Tx, ◌>>=◌, ◌>>◌, pure, throw, gets, or_throw, modify_db, throw_if,
  transaction, AuditCategory, Produce, SourcingRequest, SourcingAllocation, Agent, is_published,
  produce_keyed, farm_keyed, request_keyed, agent_keyed,
}
use laicos_backend.Order.Reservation.{farm_verified}
use laicos_backend.SourcingRequest.Rules.{is_listing_eligible, units_comparable}
use laicos_backend.SourcingRequest.Sync.{sync_sourcing_request}
use laicos_backend.SourcingRequest.Service.{
  is_open_for_match, require_request, unless, request_audit, allocations_of, cluster_of,
}

pub record AllocationItem : Type 0 where
  pub produce_id : ℕ
  pub quantity : ℕ

-- The two eligibility tests share a candidate.
abbrev pub eligible_in : Db → SourcingRequest → Bool → Produce → Bool
eligible_in db request in_cluster p = is_listing_eligible (record {
  status_published = is_published p.status;
  floating_quantity = p.floating_quantity;
  listing_name = p.name;
  request_name = request.produce_name;
  farm_verified = farm_verified db p;
  in_agent_cluster = in_cluster;
  request_unit = request.unit;
  listing_unit = p.unit;
})

abbrev pub in_cluster_of : Db → Option ℕ → Produce → Bool
in_cluster_of db none p = false
in_cluster_of db (some agent_id) p = same_id (cluster_of db p) agent_id

-- Why `checkedItems` refuses an item, after those of `seen`.
unfoldable pub item_refusal :
    Db → SourcingRequest → Option ℕ → List ℕ → AllocationItem → Option Failure
item_refusal db request cluster seen item =
    if any (λ i. i == item.produce_id) seen
    then some Failure.listing_selected_twice
    else elim (find item.produce_id db.produces) [
      | none ↦ some Failure.listing_not_found
      | some p ↦
          if not (is_some cluster)
            || not (eligible_in db request (in_cluster_of db cluster p) p)
            || ltb p.floating_quantity item.quantity
          then some Failure.listing_not_eligible
          else if not (units_comparable request.unit p.unit)
          then some Failure.listing_not_eligible
          else none
    ]

-- `checkedItems`: what is left of it are its refusals, since it answers the items it is given.
unfoldable pub items_refusal :
    Db → SourcingRequest → Option ℕ → List ℕ → List AllocationItem → Option Failure
items_refusal db request cluster seen [] = none
items_refusal db request cluster seen (item ∷ items) =
    let rest = items_refusal db request cluster (item.produce_id ∷ seen) items in
    elim (item_refusal db request cluster seen item) [ some e ↦ some e | none ↦ rest ]

abbrev pub allocation : ℕ → AllocationItem → SourcingAllocation
allocation id item = record {
  request_id = id;
  produce_id = item.produce_id;
  quantity = item.quantity;
}

-- `deleteMany` and `createMany`.
abbrev pub put_allocations : ℕ → List AllocationItem → Db → Db
put_allocations id items db = record db {
  allocations =
      append (find_many (λ a. not (a.request_id == id)) db.allocations) (map (allocation id) items);
}

abbrev item_of : SourcingAllocation → AllocationItem
item_of a = record { produce_id = a.produce_id; quantity = a.quantity }

abbrev sorted : List AllocationItem → List AllocationItem
sorted items = sort_by (λ item. item.produce_id) (sort_by (λ item. item.quantity) items)

abbrev same_items : List AllocationItem → List AllocationItem → Bool
same_items [] [] = true
same_items (a ∷ s) (b ∷ t) =
    a.produce_id == b.produce_id && (a.quantity == b.quantity && same_items s t)
same_items _ _ = false

-- `sameGroup`.
unfoldable pub same_group : List SourcingAllocation → List AllocationItem → Bool
same_group current next = same_items (sorted (map item_of current)) (sorted next)

abbrev selection_text : (ℕ → String) → List AllocationItem → String
selection_text show [] = ""
selection_text show (item ∷ []) = show item.produce_id ++ (" " ++ show item.quantity)
selection_text show (item ∷ other ∷ items) =
    (show item.produce_id ++ (" " ++ show item.quantity))
    ++ (", " ++ selection_text show (other ∷ items))

abbrev pub is_empty_list : {A : Type 0} → List A → Bool
is_empty_list [] = true
is_empty_list (_ ∷ _) = false

abbrev audit_save : (ℕ → String) → SourcingRequest → List AllocationItem → Db → Db
audit_save show request items =
    request_audit AuditCategory.matching
      (if is_empty_list items then "Selection cleared" else "Supply selection updated")
      (if is_empty_list items then "No listings selected" else selection_text show items) request

abbrev pub cluster_id : Agent → Option ℕ
cluster_id agent = if agent.has_cluster then some agent.id else none

abbrev throw_some : Option Failure → Tx (Unit {0})
throw_some none = pure tt
throw_some (some e) = throw e

-- The transaction of `save`.
unfoldable pub save_tx : (ℕ → String) → ℕ → ℕ → List AllocationItem → Tx (Unit {0})
save_tx show now id items = do
  request ← require_request id
  agent_id ← or_throw Failure.agent_not_assigned request.assigned_agent_id
  throw_if (not (is_open_for_match request.status)) Failure.request_in_checkout
  agent ← or_throw Failure.record_not_found (← gets λ db. find agent_id db.agents)
  current ← gets (allocations_of id)
  refusal ← gets λ db. items_refusal db request (cluster_id agent) [] items
  throw_some refusal
  modify_db (put_allocations id items)
  modify_db (sync_sourcing_request now id)
  unless (same_group current items) (audit_save show request items)

-- `save`.
unfoldable pub save : (ℕ → String) → ℕ → ℕ → List AllocationItem → Db → Result (Unit {0}) × Db
save show now id items = transaction (save_tx show now id items)
