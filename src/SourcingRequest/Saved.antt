-- ===== src/SourcingRequest/Saved.antt =====
-- What saving a selection leaves
-- (`save` and `checkedItems` of src/sourcing-request/admin-sourcing-request.service.ts).
use Prim.Native.String.{String}
use laicos_backend.Prelude.{
  sym, ℕ, ◌≤◌, ◌≡◌, ◌≢◌, refl, ap, ◌∙◌, inl, inr, true, false, not, none, some, List, [], ◌∷◌, ◌++◌,
  map, arith, ◌==◌, Option-cases, Bool-cases,
}
use laicos_backend.Prelude.Table.{Keyed, find, find_many, any, find-key}
use laicos_backend.Prelude.Every.{Every, Distinct}
use laicos_backend.Schema.{
  Db, ok, Produce, Agent, SourcingRequest, SourcingAllocation, is_published, produce_keyed,
  request_keyed, agent_keyed,
}
use laicos_backend.Order.Reservation.{farm_verified}
use laicos_backend.SourcingRequest.Rules.{names_match, units_comparable, is_listing_eligible}
use laicos_backend.SourcingRequest.Service.{cluster_of, allocations_of}
use laicos_backend.SourcingRequest.Selection.{
  AllocationItem, allocation, in_cluster_of, item_refusal, items_refusal, cluster_id, save_tx,
  put_allocations,
}

instance abbrev pub item_keyed : Keyed AllocationItem
item_keyed = record { key = λ item. item.produce_id }

-- A listing that can supply a request from an agent's cluster, in the quantity of an item.
pub record IsSelectable (db : Db) (request : SourcingRequest) (agent_id : ℕ) (item : AllocationItem)
    : Type 0 where
  pub listing : Produce
  pub found : find item.produce_id db.produces ≡ some listing
  pub published : is_published listing.status ≡ true
  pub named : names_match request.produce_name listing.name ≡ true
  pub measured : units_comparable request.unit listing.unit ≡ true
  pub verified : farm_verified db listing ≡ true
  pub clustered : cluster_of db listing ≡ some agent_id
  pub enough : item.quantity ≤ listing.floating_quantity

in_cluster_inv :
    (db : Db) (agent : Agent) (p : Produce)
    → in_cluster_of db (cluster_id agent) p ≡ true
    → cluster_of db p ≡ some agent.id
in_cluster_inv db agent p h = elim (Option-cases (cluster_of db p)) [
  | inl outside ↦ ground (arith, outside, h)
  | inr (a, inside) ↦ ground (arith, inside, h)
]

item_refusal-IsSelectable :
    (db : Db) (request : SourcingRequest) (agent : Agent) (seen : List ℕ) (item : AllocationItem)
    → item_refusal db request (cluster_id agent) seen item ≡ none
    → (any (λ i. i == item.produce_id) seen ≡ false) × IsSelectable db request agent.id item
unfolding item_refusal is_listing_eligible
item_refusal-IsSelectable db request agent seen item h =
    elim (Option-cases (find item.produce_id db.produces)) [
      | inl missing ↦ ground (arith, missing, h)
      | inr (p, found) ↦
          let inside : in_cluster_of db (cluster_id agent) p ≡ true = ground (arith, found, h) in
          (
            ground (arith, found, h),
            record {
              listing = p;
              found = found;
              published = ground (arith, found, h);
              named = ground (arith, found, h);
              measured = ground (arith, found, h);
              verified = ground (arith, found, h);
              clustered = in_cluster_inv db agent p inside;
              enough = ground (arith, found, h);
            },
          )
    ]

-- No item is for a listing of `seen` or of an earlier item.
abbrev Fresh : List ℕ → List AllocationItem → Type 0
Fresh seen [] = Unit {0}
Fresh seen (item ∷ items) =
    (any (λ i. i == item.produce_id) seen ≡ false) × Fresh (item.produce_id ∷ seen) items

items_refusal-none :
    (db : Db) (request : SourcingRequest) (agent : Agent) (seen : List ℕ)
    (items : List AllocationItem)
    → items_refusal db request (cluster_id agent) seen items ≡ none
    → Fresh seen items × Every (IsSelectable db request agent.id) items
unfolding items_refusal
items_refusal-none db request agent seen [] h = (tt, tt)
items_refusal-none db request agent seen (item ∷ items) h =
    let (new, selectable) =
      item_refusal-IsSelectable db request agent seen item (ground (arith, h)) in
    let (fresh, rest) =
      items_refusal-none db request agent (item.produce_id ∷ seen) items (ground (arith, h)) in
    ((new, fresh), (selectable, rest))

Fresh-find :
    (i : ℕ) (seen : List ℕ) (items : List AllocationItem)
    → any (λ j. j == i) seen ≡ true
    → Fresh seen items
    → find i items ≡ none
Fresh-find i seen [] known h = refl
Fresh-find i seen (item ∷ items) known (new, fresh) = elim (Bool-cases (item.produce_id == i)) [
  | inl same ↦
      let e : item.produce_id ≡ i = ground arith in
      absurd (let bad : any (λ j. j == i) seen ≡ false = rw e at new in cc)
  | inr other ↦ rw other (Fresh-find i (item.produce_id ∷ seen) items (ground (arith, known)) fresh)
]

Fresh-Distinct : (seen : List ℕ) (items : List AllocationItem) → Fresh seen items → Distinct items
Fresh-Distinct seen [] h = tt
Fresh-Distinct seen (item ∷ items) (new, fresh) = (
  Fresh-find item.produce_id (item.produce_id ∷ seen) items (ground arith) fresh,
  Fresh-Distinct (item.produce_id ∷ seen) items fresh,
)

others_kept :
    (j id : ℕ) (items : List AllocationItem) (rows : List SourcingAllocation)
    → j ≢ id
    → find_many
        (λ a. a.request_id == j)
        (find_many (λ a. not (a.request_id == id)) rows ++ map (allocation id) items)
      ≡ find_many (λ a. a.request_id == j) rows
others_kept j id [] [] ne = refl
others_kept j id (item ∷ items) [] ne = ground (arith, ne, others_kept j id items [] ne)
others_kept j id items (row ∷ rows) ne = ground (arith, ne, others_kept j id items rows ne)

own_replaced :
    (id : ℕ) (items : List AllocationItem) (rows : List SourcingAllocation)
    → find_many
        (λ a. a.request_id == id)
        (find_many (λ a. not (a.request_id == id)) rows ++ map (allocation id) items)
      ≡ map (allocation id) items
own_replaced id [] [] = refl
own_replaced id (item ∷ items) [] = ground (arith, own_replaced id items [])
own_replaced id items (row ∷ rows) = ground (arith, own_replaced id items rows)

save_tx_inv :
    (show : ℕ → String) (now id : ℕ) (items : List AllocationItem) (request : SourcingRequest)
    (db db' : Db) (u : Unit {0})
    → find id db.requests ≡ some request
    → save_tx show now id items db ≡ ok (u, db')
    → (agent : Agent) × (request.assigned_agent_id ≡ some agent.id)
      × (items_refusal db request (cluster_id agent) [] items ≡ none)
      × (db'.allocations ≡ (put_allocations id items db).allocations)
unfolding save_tx
save_tx_inv show now id items request db db' u found run =
    elim (Option-cases request.assigned_agent_id) [
      | inl nobody ↦ ground (arith, found, nobody, run)
      | inr (agent_id, assigned) ↦ elim (Option-cases (find agent_id db.agents)) [
        | inl missing ↦ ground (arith, found, assigned, missing, run)
        | inr (agent, there) ↦
            let at = find-key agent_id db.agents agent there in
            elim (Option-cases (items_refusal db request (cluster_id agent) [] items)) [
              | inr (e, refused) ↦ ground (arith, found, assigned, there, refused, run)
              | inl fine ↦ (
                agent,
                assigned ∙ ap (λ i. some i) (sym at),
                fine,
                ground (arith, found, assigned, there, fine, run),
              )
            ]
      ]
    ]

-- Where saving a selection succeeds, the request has an agent, no listing is selected twice, and
-- each item names a published listing of a verified farm in the agent's cluster whose name and
-- unit match the request and that has the quantity; the selection of the request is then exactly
-- the items, in their order, and that of every other request is unchanged.
pub save_tx_saves :
    (show : ℕ → String) (now id : ℕ) (items : List AllocationItem) (request : SourcingRequest)
    (db db' : Db) (u : Unit {0})
    → find id db.requests ≡ some request
    → save_tx show now id items db ≡ ok (u, db')
    → (agent_id : ℕ) × (request.assigned_agent_id ≡ some agent_id)
      × Every (IsSelectable db request agent_id) items
      × Distinct items
      × (allocations_of id db' ≡ map (allocation id) items)
      × ((j : ℕ) → j ≢ id → allocations_of j db' ≡ allocations_of j db)
save_tx_saves show now id items request db db' u found run =
    let (agent, assigned, fine, written) =
      save_tx_inv show now id items request db db' u found run in
    let (fresh, selectable) = items_refusal-none db request agent [] items fine in
    (
      agent.id,
      assigned,
      selectable,
      Fresh-Distinct [] items fresh,
      ap (λ t. find_many (λ a. a.request_id == id) t) written
          ∙ own_replaced id items db.allocations,
      λ j ne.
          ap (λ t. find_many (λ a. a.request_id == j) t) written
          ∙ others_kept j id items db.allocations ne,
    )
