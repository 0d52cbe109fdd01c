-- ===== src/Farm/Reopen.antt =====
-- Resubmitting a farm (`update` of src/farm/services/farm.service.ts).
use Prim.Native.String.{◌++◌}
use laicos_backend.Prelude.{
  ℕ, ◌≡◌, refl, ap, ◌∙◌, Bool, true, false, Option, none, some, List, [], ◌∷◌, arith, if◌then◌else◌,
}
use laicos_backend.Prelude.Table.{find, find_first, any, modify, sum_by, find-key, find-modify_self}
use laicos_backend.Schema.{
  Db, ok, record_audit, AuditCategory, User, Farm, FarmVerification, FarmVerificationStatus,
  farm_keyed, agent_keyed, round_keyed,
}
use laicos_backend.Produce.Service.{given_or}
use laicos_backend.Verification.Assignment.{open_round}
use laicos_backend.Farm.Service.{
  lga_exists, agent_missing, is_open_round, open_farm_round, farm_event,
}
use laicos_backend.Farm.Update.{
  UpdateFarmDto, is_own, is_moved, is_reopened, lga_changed, update_tx, update_own_farm,
  updated_farm, route_round, latest_round, agent_of,
}
use laicos_backend.Farm.Update
use laicos_backend.Farm.InStep.{open_of, open_rounds, Matches, IsInStep, open_farm_round_inv}

zero_none :
    (i : ℕ) (rounds : List FarmVerification)
    → sum_by (open_of i) rounds ≡ 0
    → any (is_open_round i) rounds ≡ false
zero_none i [] h = refl
zero_none i (r ∷ rounds) h = ground (arith, zero_none i rounds)

reopened_none :
    (s : FarmVerificationStatus) (moved : Bool) (n : ℕ)
    → is_reopened s moved ≡ true
    → Matches s n
    → n ≡ 0
reopened_none FarmVerificationStatus.pending moved n r h = absurd cc
reopened_none FarmVerificationStatus.verified moved n r h = h
reopened_none FarmVerificationStatus.rejected moved n r h = h
reopened_none FarmVerificationStatus.suspended moved n r h = absurd cc

first_any :
    (p : Farm → Bool) (farms : List Farm) (f : Farm)
    → find_first p farms ≡ some f
    → any p farms ≡ true
first_any p [] f h = absurd cc
first_any p (x ∷ farms) f h = ground (arith, first_any p farms f)

-- The database once the farm is rewritten and the edit is on record.
abbrev resubmitted : ℕ → Farm → UpdateFarmDto → Db → Db
resubmitted id current dto db =
    record_audit
      (farm_event current.owner_id id AuditCategory.farm
        ("Farm " ++ (current.farm_code ++ " updated")) (given_or dto.name current.name))
      (record db { farms = modify id (updated_farm current dto true) db.farms })

abbrev next_agent : ℕ → Farm → UpdateFarmDto → Db → Option ℕ
next_agent id current dto db =
    if lga_changed current dto then none else agent_of (latest_round id db.rounds)

opens :
    (now id : ℕ) (preferred : Option ℕ) (db : Db)
    → any (is_open_round id) db.rounds ≡ false
    → open_farm_round now id preferred db ≡ ok (open_round now id preferred db)
unfolding open_farm_round
opens now id preferred db free = ground (arith, free)

update_tx_runs :
    (now : ℕ) (user : User) (id : ℕ) (current : Farm) (dto : UpdateFarmDto) (db : Db)
    → any (is_own user.id id) db.farms ≡ true
    → agent_missing dto.referral_agent_id db ≡ false
    → is_reopened current.verification_status (is_moved current dto) ≡ true
    → any (is_open_round id) db.rounds ≡ false
    → update_tx now user id current dto db
      ≡ ok
          ([], (open_round now id (next_agent id current dto db) (resubmitted id current dto db)).1)
unfolding update_tx update_own_farm route_round
update_tx_runs now user id current dto db own agents reopens free =
    let start = resubmitted id current dto db in
    ground (arith, own, agents, reopens, opens now id (next_agent id current dto db) start free)

-- Where farms are in step with their rounds, the owner's edit of a rejected farm, or one that
-- moves a verified farm, with an LGA that lies in the state and a referral agent who exists,
-- succeeds: the farm is then pending, out of its cluster, and has exactly one open round.
pub update_reopens :
    (now : ℕ) (user : User) (id : ℕ) (dto : UpdateFarmDto) (current : Farm) (db : Db)
    → find_first (is_own user.id id) db.farms ≡ some current
    → find id db.farms ≡ some current
    → is_reopened current.verification_status (is_moved current dto) ≡ true
    → lga_exists (given_or dto.state_id current.state_id) (given_or dto.lga_id current.lga_id) db
      ≡ true
    → agent_missing dto.referral_agent_id db ≡ false
    → IsInStep db
    → (db' : Db) × (Update.update now user id dto db db ≡ (ok [], db'))
      × (open_rounds id db' ≡ 1)
      × ((farm : Farm) × (find id db'.farms ≡ some farm)
          × (farm.verification_status ≡ FarmVerificationStatus.pending)
          × (farm.cluster_agent_id ≡ none))
unfolding Update.update
update_reopens now user id dto current db mine found reopens place agents h =
    let free = zero_none id db.rounds (
      reopened_none current.verification_status (is_moved current dto) (open_rounds id db) reopens
        (h.step id current found)) in
    let start = resubmitted id current dto db in
    let preferred = next_agent id current dto db in
    let (farms, none_before, one_now, others, written) =
      open_farm_round_inv now id preferred start (open_round now id preferred start).1
        (open_round now id preferred start).0 (opens now id preferred start free) in
    let runs =
      update_tx_runs now user id current dto db
        (first_any (is_own user.id id) db.farms current mine) agents reopens free in
    (
      (open_round now id preferred start).1,
      ground (arith, mine, place, runs),
      one_now,
      (
        updated_farm current dto true current,
        ap (find id) farms
            ∙ find-modify_self id (updated_farm current dto true) db.farms current
                (find-key id db.farms current found) found,
        refl,
        refl,
      ),
    )
