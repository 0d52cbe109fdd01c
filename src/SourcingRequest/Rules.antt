-- ===== src/SourcingRequest/Rules.antt =====
-- src/sourcing-request/utils/sourcing-rules.ts. The quantity of a request is a number of
-- thousandths.
use Prim.Native.String.{String}
use laicos_backend.Prelude.{
  ℕ, ◌-◌, ◌*◌, leb, Bool, true, false, ◌&&◌, ◌||◌, not, Option, none, some, List, [], ◌∷◌, ltb,
  is_some, if◌then◌else◌,
}
use laicos_backend.Prelude.Table.{any, all}
use laicos_backend.Schema.{
  OrderStatus, SourcingRequestStatus, SourcingUnit, is_cancelled, is_fulfilled, is_ready,
  is_shipped,
}
use laicos_backend.Common.Money.{round_half_up}
use laicos_backend.Common.Text.{codes, normalized, same_codes}

-- `UNIT_WORD`: a weight is compared in kilograms.
abbrev unit_word : SourcingUnit → String
unit_word SourcingUnit.kg = "kg"
unit_word SourcingUnit.tonnes = "kg"
unit_word SourcingUnit.bags = "bags"
unit_word SourcingUnit.crates = "crates"
unit_word SourcingUnit.baskets = "baskets"
unit_word SourcingUnit.litres = "litres"
unit_word SourcingUnit.pieces = "pieces"

-- `unitsComparable`.
unfoldable pub units_comparable : SourcingUnit → String → Bool
unfolding normalized
units_comparable request_unit listing_unit =
    same_codes (normalized listing_unit) (codes (unit_word request_unit))

-- `requestedAmount`, in thousandths: whole kilograms for a weight.
unfoldable pub requested_amount : ℕ → SourcingUnit → ℕ
requested_amount quantity SourcingUnit.tonnes = round_half_up (quantity * 1000) 1000 * 1000
requested_amount quantity SourcingUnit.kg = round_half_up quantity 1000 * 1000
requested_amount quantity _ = quantity

-- `namesMatch`.
unfoldable pub names_match : String → String → Bool
unfolding normalized
names_match request_name listing_name =
    same_codes (normalized request_name) (normalized listing_name)

pub record ListingCandidate : Type 0 where
  pub status_published : Bool
  pub floating_quantity : ℕ
  pub listing_name : String
  pub request_name : String
  pub farm_verified : Bool
  pub in_agent_cluster : Bool
  pub request_unit : SourcingUnit
  pub listing_unit : String

-- `isListingEligible`.
unfoldable pub is_listing_eligible : ListingCandidate → Bool
is_listing_eligible candidate =
    candidate.status_published
    && (leb 1 candidate.floating_quantity
        && (names_match candidate.request_name candidate.listing_name
            && (candidate.farm_verified
                && (candidate.in_agent_cluster
                    && units_comparable candidate.request_unit candidate.listing_unit))))

-- `coverage`: requested, selected and remaining.
pub record Coverage : Type 0 where
  pub requested : ℕ
  pub selected : ℕ
  pub remaining : ℕ

-- `Math.max(0, requested - selected)` is the truncated difference.
abbrev pub coverage : ℕ → ℕ → Coverage
coverage requested selected = record {
  requested = requested;
  selected = selected;
  remaining = requested - selected;
}

pub record SourcingSnapshot : Type 0 where
  pub closed_at : Option ℕ
  pub assigned_agent_id : Option ℕ
  pub allocation_count : ℕ
  pub awaiting_payment : Bool
  pub paid_orders : Option (List OrderStatus)  -- none when no checkout is paid

abbrev pub is_empty : List OrderStatus → Bool
is_empty [] = true
is_empty (_ ∷ _) = false

abbrev pub is_done : OrderStatus → Bool
is_done status = is_fulfilled status || is_cancelled status

abbrev pub is_moving : OrderStatus → Bool
is_moving status = is_ready status || (is_shipped status || is_fulfilled status)

-- The part of `deriveSourcingStatus` after the first test, with a paid checkout.
abbrev pub paid_status : List OrderStatus → SourcingRequestStatus
paid_status paid =
    if any is_fulfilled paid && all is_done paid
    then SourcingRequestStatus.completed
    else if any is_moving paid
    then SourcingRequestStatus.fulfilment
    else SourcingRequestStatus.confirmed

-- ... and without one.
abbrev pub unpaid_status : SourcingSnapshot → SourcingRequestStatus
unpaid_status snapshot =
    if snapshot.awaiting_payment
    then SourcingRequestStatus.awaiting_buyer
    else if ltb 0 snapshot.allocation_count
    then SourcingRequestStatus.finding_supply
    else if is_some snapshot.assigned_agent_id
    then SourcingRequestStatus.in_review
    else SourcingRequestStatus.new

-- `paid.length > 0 && paid.every(CANCELLED)`.
abbrev pub all_cancelled : List OrderStatus → Bool
all_cancelled paid = not (is_empty paid) && all is_cancelled paid

-- `deriveSourcingStatus`.
unfoldable pub derive_sourcing_status : SourcingSnapshot → SourcingRequestStatus
derive_sourcing_status snapshot = elim snapshot.paid_orders [
  | none ↦
      if is_some snapshot.closed_at then SourcingRequestStatus.closed else unpaid_status snapshot
  | some paid ↦
      if is_some snapshot.closed_at || all_cancelled paid
      then SourcingRequestStatus.closed
      else paid_status paid
]

pub data FulfilmentMark : Type 0 where
  in_transit pending_pickup : FulfilmentMark

-- `fulfilmentMark`.
unfoldable pub fulfilment_mark : List OrderStatus → Option FulfilmentMark
fulfilment_mark orders =
    if any is_shipped orders
    then some FulfilmentMark.in_transit
    else if any is_ready orders
    then some FulfilmentMark.pending_pickup
    else none
