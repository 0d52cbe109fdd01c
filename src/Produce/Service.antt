-- ===== src/Produce/Service.antt =====
-- src/produce/produce.service.ts and the writes of src/produce/admin-produce.service.ts. What a
-- method reads before it writes it reads from `seen`. Photos, descriptions and categories, which
-- nothing else reads, are left out.
use Prim.Native.String.{String, ◌++◌}
use laicos_backend.Prelude.{
  ℕ, ◌+◌, ◌-◌, Bool, true, false, ◌&&◌, ◌||◌, not, Option, none, some, ◌∷◌, ltb, ◌==◌,
  if◌then◌else◌,
}
use laicos_backend.Prelude.Table.{find, find_first, find_many, any, delete}
use laicos_backend.Schema.{
  Db, Result, ok, err, Failure, Tx, ◌>>=◌, ◌>>◌, pure, gets, or_throw, modify_db, throw_if,
  transaction, map_error, record_audit, put_produce, User, Farm, Produce, ProduceStatus,
  OrderStatus, AuditEvent, AuditActorType, AuditCategory, AuditResource, is_disabled, farm_keyed,
  produce_keyed,
}
use laicos_backend.Produce.{derive_produce_status}

pub record CreateProduceDto : Type 0 where
  pub farm_id : ℕ
  pub name : String
  pub actual_quantity : ℕ
  pub unit : String
  pub price_per_unit : ℕ
  pub status : Option ProduceStatus

-- `UpdateProduceDto`: an absent field is left alone.
pub record UpdateProduceDto : Type 0 where
  pub name : Option String
  pub actual_quantity : Option ℕ
  pub unit : Option String
  pub price_per_unit : Option ℕ
  pub status : Option ProduceStatus

abbrev pub given_or : {A : Type 0} → Option A → A → A
given_or none old = old
given_or (some given) old = given

abbrev pub listing_event : Farm → String → String → Option String → Option ℕ → AuditEvent
listing_event farm title summary label resource_id = record {
  actor_type = AuditActorType.farmer;
  farmer_id = some farm.owner_id;
  agent_id = none;
  farm_id = some farm.id;
  category = AuditCategory.listing;
  title = title;
  summary = summary;
  action_label = label;
  resource = elim resource_id [ none ↦ none | some _ ↦ some AuditResource.produce ];
  resource_id = resource_id;
  sourcing_request_id = none;
}

abbrev pub on_farm : String → Farm → String
on_farm name farm = name ++ (" on " ++ farm.farm_code)

-- The row of a new listing: both stocks start at the listed quantity.
abbrev pub new_produce : ℕ → CreateProduceDto → Produce
new_produce id dto = record {
  id = id;
  farm_id = dto.farm_id;
  name = dto.name;
  actual_quantity = dto.actual_quantity;
  floating_quantity = dto.actual_quantity;
  unit = dto.unit;
  price_per_unit = dto.price_per_unit;
  status =
      derive_produce_status (given_or dto.status ProduceStatus.draft) dto.actual_quantity
        dto.actual_quantity;
}

abbrev pub put_listing : Produce → Db → Db
put_listing p db = record db { produces = p ∷ db.produces; next_id = db.next_id + 1 }

unfoldable pub create_tx : Farm → CreateProduceDto → Tx Produce
create_tx farm dto = do
  still_there ← gets λ db. find dto.farm_id db.farms
  or_throw Failure.foreign_key_violation still_there
  listing ← gets λ db. new_produce db.next_id dto
  modify_db (put_listing listing)
  modify_db (
      record_audit (
        listing_event farm "Listing created" (on_farm dto.name farm) (some "View product")
          (some listing.id)))
  pure listing

-- `create`.
unfoldable pub create : User → CreateProduceDto → Db → Db → Result Produce × Db
create user dto seen db =
    elim (find_first (λ f. f.id == dto.farm_id && f.owner_user_id == user.id) seen.farms) [
      | none ↦ (err Failure.farm_not_found, db)
      | some farm ↦ transaction (create_tx farm dto) db
    ]

-- The listing with its farm, if the farm is the user's.
abbrev pub own_listing : User → ℕ → Db → Option (Produce × Farm)
own_listing user id db = elim (find id db.produces) [
  | none ↦ none
  | some p ↦ elim (find p.farm_id db.farms) [
    | none ↦ none
    | some farm ↦ if farm.owner_user_id == user.id then some (p, farm) else none
  ]
]

-- An admin disable stays; otherwise the farmer's choice, or the status as it was.
abbrev pub requested_status : Produce → UpdateProduceDto → ProduceStatus
requested_status current dto =
    if is_disabled current.status
    then ProduceStatus.disabled
    else given_or dto.status current.status

-- The row as `update` writes it, from the listing that it read.
unfoldable pub updated_produce : Produce → UpdateProduceDto → Produce → Produce
updated_produce current dto p =
    let actual_quantity = given_or dto.actual_quantity current.actual_quantity in
    let floating_quantity = current.floating_quantity + actual_quantity - current.actual_quantity in
    record p {
      name = given_or dto.name p.name;
      unit = given_or dto.unit p.unit;
      price_per_unit = given_or dto.price_per_unit p.price_per_unit;
      actual_quantity = actual_quantity;
      floating_quantity = floating_quantity;
      status =
          derive_produce_status (requested_status current dto) actual_quantity floating_quantity;
    }

-- The new floating quantity would be negative.
abbrev pub is_overdrawn : Produce → UpdateProduceDto → Bool
is_overdrawn current dto =
    ltb (current.floating_quantity + given_or dto.actual_quantity current.actual_quantity)
      current.actual_quantity

-- `actualQuantity` and `floatingQuantity` in the WHERE.
abbrev pub same_stock : Produce → Produce → Bool
same_stock current p =
    p.actual_quantity == current.actual_quantity && p.floating_quantity == current.floating_quantity

unfoldable pub update_tx : ℕ → Produce → Farm → UpdateProduceDto → Tx Produce
update_tx id current farm dto = do
  p ← or_throw Failure.record_not_found (← gets λ db. find id db.produces)
  throw_if (not (same_stock current p)) Failure.record_not_found
  modify_db (put_produce id (updated_produce current dto))
  modify_db (
      record_audit (
        listing_event farm "Listing updated" (on_farm (given_or dto.name current.name) farm)
          (some "View product") (some id)))
  pure (updated_produce current dto p)

abbrev pub stock_changed_error : Failure → Failure
stock_changed_error Failure.record_not_found = Failure.produce_stock_changed
stock_changed_error e = e

-- `update`.
unfoldable pub update : User → ℕ → UpdateProduceDto → Db → Db → Result Produce × Db
update user id dto seen db = elim (own_listing user id seen) [
  | none ↦ (err Failure.produce_not_found, db)
  | some (current, farm) ↦
      if is_overdrawn current dto
      then (err Failure.produce_reserved, db)
      else map_error stock_changed_error (transaction (update_tx id current farm dto) db)
]

-- The DELETE of a listing: orders and allocations restrict it, cart lines go with it.
unfoldable pub delete_produce : ℕ → Tx Produce
delete_produce id db = elim (find id db.produces) [
  | none ↦ err Failure.record_not_found
  | some p ↦
      if any (λ o. o.produce_id == id) db.orders || any (λ a. a.produce_id == id) db.allocations
      then err Failure.foreign_key_violation
      else ok (
        p,
        record db {
          produces = delete id db.produces;
          cart_items = find_many (λ item. not (item.produce_id == id)) db.cart_items;
        },
      )
]

-- `mapProduceWriteError`.
abbrev pub write_error : Failure → Failure
write_error Failure.record_not_found = Failure.produce_not_found
write_error Failure.foreign_key_violation = Failure.produce_has_orders
write_error e = e

unfoldable pub remove_tx : User → ℕ → Produce → Farm → Tx Produce
remove_tx user id current farm = do
  selected ← gets λ db. any (λ a. a.produce_id == id) db.allocations
  throw_if selected Failure.produce_in_selection
  own ← gets (own_listing user id)
  or_throw Failure.record_not_found own
  deleted ← delete_produce id
  modify_db
      (record_audit (listing_event farm "Listing removed" (on_farm current.name farm) none none))
  pure deleted

-- `remove`.
unfoldable pub remove : User → ℕ → Db → Db → Result Produce × Db
remove user id seen db = elim (own_listing user id seen) [
  | none ↦ (err Failure.produce_not_found, db)
  | some (current, farm) ↦ map_error write_error (transaction (remove_tx user id current farm) db)
]

-- `OPEN_PAID_ORDER_STATUSES.includes(status)`.
abbrev pub is_open_paid : OrderStatus → Bool
is_open_paid OrderStatus.pending = true
is_open_paid OrderStatus.confirmed = true
is_open_paid OrderStatus.preparing = true
is_open_paid OrderStatus.ready = true
is_open_paid OrderStatus.shipped = true
is_open_paid _ = false

abbrev pub disable_listing : Produce → Produce
disable_listing p = record p { status = ProduceStatus.disabled }

-- `AdminProduceService.disable`.
unfoldable pub disable_tx : ℕ → Tx (Unit {0})
disable_tx id = do
  or_throw Failure.produce_not_found (← gets λ db. find id db.produces)
  busy ← gets λ db. any (λ o. o.produce_id == id && is_open_paid o.status) db.orders
  throw_if busy Failure.produce_has_open_orders
  modify_db (put_produce id disable_listing)

-- `AdminProduceService.remove`.
unfoldable pub admin_remove : ℕ → Db → Db → Result Produce × Db
admin_remove id seen db = elim (find id seen.produces) [
  | none ↦ (err Failure.produce_not_found, db)
  | some p ↦
      if is_disabled p.status
      then map_error write_error (transaction (delete_produce id) db)
      else (err Failure.produce_not_disabled, db)
]
