-- ===== src/Farm/Update.antt =====
-- `update` of src/farm/services/farm.service.ts, with what becomes of the farm's round.
use Prim.Native.String.{String, ◌++◌}
use laicos_backend.Prelude.{
  ℕ, Bool, true, false, ◌&&◌, ◌||◌, not, Option, none, some, List, [], ◌∷◌, ltb, is_some, ◌==◌,
  if◌then◌else◌,
}
use text.Mathlib.Text.{◌==◌ as str_eq}
use laicos_backend.Prelude.Table.{find_first, find_many, any, modify}
use laicos_backend.Schema.{
  Db, Result, ok, err, Failure, Tx, ◌>>=◌, ◌>>◌, pure, gets, modify_db, throw_if, transaction,
  map_error, record_audit, User, Farm, FarmVerificationStatus, FarmVerification, AuditCategory,
  farm_keyed, agent_keyed,
}
use laicos_backend.Produce.Service.{given_or}
use laicos_backend.Verification.Assignment.{reset_round, assign}
use laicos_backend.Farm.Service.{
  lga_exists, farm_save_error, agent_missing, open_farm_round, is_open_round, farm_event,
}

pub record UpdateFarmDto : Type 0 where
  pub name : Option String
  pub state_id : Option ℕ
  pub lga_id : Option ℕ
  pub location : Option String
  pub size : Option String
  pub unit : Option String
  pub main_produce : Option String
  pub is_exporting : Option Bool
  pub referral_agent_id : Option ℕ

-- `{ id, ...farmOwnedBy(user) }`.
abbrev pub is_own : ℕ → ℕ → Farm → Bool
is_own user_id id farm = farm.id == id && farm.owner_user_id == user_id

abbrev same_place : Option String → String → Bool
same_place none old = true
same_place (some text) old = str_eq text old

abbrev pub lga_changed : Farm → UpdateFarmDto → Bool
lga_changed current dto = not (given_or dto.lga_id current.lga_id == current.lga_id)

-- `moved`.
abbrev pub is_moved : Farm → UpdateFarmDto → Bool
is_moved current dto =
    lga_changed current dto
    || not (given_or dto.state_id current.state_id == current.state_id)
    || not (same_place dto.location current.location)

-- `reopen`.
abbrev pub is_reopened : FarmVerificationStatus → Bool → Bool
is_reopened FarmVerificationStatus.rejected moved = true
is_reopened FarmVerificationStatus.verified moved = moved
is_reopened _ moved = false

abbrev or_old : Option ℕ → Option ℕ → Option ℕ
or_old none old = old
or_old (some given) old = some given

abbrev pub edited : Farm → UpdateFarmDto → Farm → Farm
edited current dto farm = record farm {
  name = given_or dto.name farm.name;
  state_id = given_or dto.state_id current.state_id;
  lga_id = given_or dto.lga_id current.lga_id;
  location = given_or dto.location farm.location;
  size = given_or dto.size farm.size;
  unit = given_or dto.unit farm.unit;
  main_produce = given_or dto.main_produce farm.main_produce;
  is_exporting = given_or dto.is_exporting farm.is_exporting;
  referral_agent_id = or_old dto.referral_agent_id farm.referral_agent_id;
}

abbrev pub reopened : Farm → Farm
reopened farm = record farm {
  verification_status = FarmVerificationStatus.pending;
  cluster_agent_id = none;
  is_clustered = false;
}

-- The data of the farm's `update`.
abbrev pub updated_farm : Farm → UpdateFarmDto → Bool → Farm → Farm
updated_farm current dto true farm = reopened (edited current dto farm)
updated_farm current dto false farm = edited current dto farm

-- `farm.update` with the owner in its WHERE.
unfoldable pub update_own_farm : ℕ → ℕ → Option ℕ → (Farm → Farm) → Tx (Unit {0})
update_own_farm user_id id referral f = do
  found ← gets λ db. any (is_own user_id id) db.farms
  throw_if (not found) Failure.record_not_found
  missing ← gets λ db. agent_missing referral db
  throw_if missing Failure.foreign_key_violation
  modify_db λ db. record db { farms = modify id f db.farms }

abbrev later_round : FarmVerification → Option FarmVerification → Option FarmVerification
later_round r none = some r
later_round r (some best) = if ltb r.created_at best.created_at then some best else some r

-- The farm's newest round: `orderBy: { createdAt: 'desc' }`.
unfoldable pub latest_round : ℕ → List FarmVerification → Option FarmVerification
latest_round farm_id [] = none
latest_round farm_id (r ∷ rounds) =
    let rest = latest_round farm_id rounds in
    if r.farm_id == farm_id then later_round r rest else rest

abbrev pub agent_of : Option FarmVerification → Option ℕ
agent_of none = none
agent_of (some round) = round.agent_id

abbrev pub drop_declines : ℕ → Db → Db
drop_declines id db = record db {
  declines = find_many (λ d. not (d.verification_id == id)) db.declines;
}

-- `reassignOpenRound` from the open round on.
unfoldable pub start_over : ℕ → Tx (List String)
start_over id = do
  modify_db (drop_declines id)
  keys ← reset_round id
  modify_db (λ db. (assign id none db).1)
  pure keys

-- `reassignOpenRound`.
abbrev pub reassign_open_round : ℕ → Tx (List String)
reassign_open_round farm_id db = elim (find_first (is_open_round farm_id) db.rounds) [
  | none ↦ ok ([], db)
  | some open_one ↦ start_over open_one.id db
]

-- What becomes of the farm's round, by whether the edit reopens it and moves it to another LGA.
unfoldable pub route_round : ℕ → ℕ → Bool → Bool → Tx (List String)
route_round now id true lga_moved = do
  previous ← gets λ db. latest_round id db.rounds
  open_farm_round now id (if lga_moved then none else agent_of previous)
  pure []
route_round now id false true = reassign_open_round id
route_round now id false false = pure []

-- The transaction of `update`: the storage keys to delete after the commit.
unfoldable pub update_tx : ℕ → User → ℕ → Farm → UpdateFarmDto → Tx (List String)
update_tx now user id current dto =
    let reopen = is_reopened current.verification_status (is_moved current dto) in
    update_own_farm user.id id dto.referral_agent_id (updated_farm current dto reopen)
    >> modify_db (
        record_audit (
          farm_event current.owner_id id AuditCategory.farm
            ("Farm " ++ (current.farm_code ++ " updated")) (given_or dto.name current.name)))
    >> route_round now id reopen (lga_changed current dto)

-- `update`.
unfoldable pub update : ℕ → User → ℕ → UpdateFarmDto → Db → Db → Result (List String) × Db
update now user id dto seen db = elim (find_first (is_own user.id id) seen.farms) [
  | none ↦ (err Failure.farm_not_found, db)
  | some current ↦
      if (is_some dto.state_id || is_some dto.lga_id)
        && not (
            lga_exists (given_or dto.state_id current.state_id) (given_or dto.lga_id current.lga_id)
              seen)
      then (err Failure.invalid_lga, db)
      else map_error farm_save_error (transaction (update_tx now user id current dto) db)
]
