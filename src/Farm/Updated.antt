-- ===== src/Farm/Updated.antt =====
-- The invariants of a farm's rounds when its owner edits it
-- (`update` of src/farm/services/farm.service.ts).
use Prim.Native.String.{String, ◌++◌}
use mathlib.Core.Path.{subst}
use laicos_backend.Prelude.{
  ℕ, ◌≡◌, ◌≢◌, refl, sym, ap, ◌∙◌, ◌⊎◌, inl, inr, Bool, true, false, not, Option, none, some, List,
  [], ◌∷◌, arith, ◌==◌, if◌then◌else◌, Option-cases,
}
use laicos_backend.Prelude.Table.{find, find_first, find_many, any, modify, sum_by, find-modify_inv}
use laicos_backend.Prelude.Every.{Distinct, Every-find, find_first-Every}
use laicos_backend.Schema.{
  Db, Tx, ok, ◌>>=◌, ◌>>◌, pure, modify_db, User, Farm, FarmVerificationStatus, FarmVerification,
  AssignmentDecline, round_keyed, farm_keyed, record_audit, AuditCategory,
}
use laicos_backend.Order.Service.Frames.{>>=-eq-ok}
use laicos_backend.Verification.Documents.{is_tracked}
use laicos_backend.Verification.Assignment.{reset_round, assign, has_declined}
use laicos_backend.Verification.Placed.{
  IsPlaced, IsPlaced-same, open_round-IsPlaced, reset_round-IsPlaced, assign-IsPlaced,
}
use laicos_backend.Produce.Service.{given_or}
use laicos_backend.Farm.Service.{farm_event, is_open_round, open_farm_round}
use laicos_backend.Farm.Update.{
  is_own, edited, UpdateFarmDto, update_tx, update_own_farm, updated_farm, is_reopened, is_moved,
  lga_changed, route_round, reassign_open_round, start_over, drop_declines, latest_round, agent_of,
}
use laicos_backend.Farm.InStep.{
  open_of, open_rounds, Matches, IsInStep, IsInStep-same, assign-SameRounds, open_farm_round_inv,
  reset_round-SameRounds,
}
use laicos_backend.Farm.Opened.{InOrder, InOrder-same, opened-IsInStep}

any_dropped :
    (id round_id agent_id : ℕ) (declines : List AssignmentDecline)
    → any (has_declined round_id agent_id) declines ≡ false
    → any (has_declined round_id agent_id) (find_many (λ d. not (d.verification_id == id)) declines)
      ≡ false
any_dropped id round_id agent_id [] h = refl
any_dropped id round_id agent_id (d ∷ declines) h =
    ground (arith, any_dropped id round_id agent_id declines)

-- Fewer declines leave every round placed.
drop_declines-IsPlaced : (id : ℕ) (db : Db) → IsPlaced db → IsPlaced (drop_declines id db)
drop_declines-IsPlaced id db h = record {
  placed = λ i r e.
      let (held, free) = h.placed i r e in
      (held, λ a same. any_dropped id r.id a db.declines (free a same));
}

start_over-InOrder :
    (id : ℕ) (round : FarmVerification) (db db' : Db) (keys : List String)
    → find id db.rounds ≡ some round
    → is_tracked round.status ≡ true
    → InOrder db
    → start_over id db ≡ ok (keys, db')
    → InOrder db'
unfolding start_over
start_over-InOrder id round db db' keys found tracked (placed, step) run =
    let cleared = drop_declines id db in
    let going : (reset_round id >>= λ ks. (modify_db (λ d. (assign id none d).1) >> pure ks))
          cleared
        ≡ ok (keys, db') =
      ground (arith, run) in
    let (ks, (mid, reset, rest)) = >>=-eq-ok (reset_round id) _ cleared going in
    let after : db' ≡ (assign id none mid).1 = ground (arith, rest) in
    let (farms, same) = reset_round-SameRounds id round cleared mid ks found tracked reset in
    let (farms', same') = assign-SameRounds id none mid in
    (
      subst IsPlaced (sym after) (
          assign-IsPlaced id none mid
            (reset_round-IsPlaced id cleared mid ks (drop_declines-IsPlaced id db placed) reset)),
      subst IsInStep (sym after)
          (IsInStep-same db (assign id none mid).1 (farms' ∙ farms) (λ i. same' i ∙ same i) step),
    )

reassign_open_round-InOrder :
    (farm_id : ℕ) (db db' : Db) (keys : List String)
    → Distinct db.rounds
    → InOrder db
    → reassign_open_round farm_id db ≡ ok (keys, db')
    → InOrder db'
reassign_open_round-InOrder farm_id db db' keys distinct h run =
    elim (Option-cases (find_first (is_open_round farm_id) db.rounds)) [
      | inl nothing ↦
          InOrder-same db db' (ground (arith, nothing, run)) (ground (arith, nothing, run))
            (ground (arith, nothing, run)) h
      | inr (round, first) ↦
          let (is_open, found) =
            find_first-Every (is_open_round farm_id) (λ r. find r.id db.rounds ≡ some r) db.rounds
              round (Every-find db.rounds distinct) first in
          start_over-InOrder round.id round db db' keys found (ground (arith, is_open)) h
            (ground (arith, first, run))
    ]

-- An edit that does not reopen a farm leaves its status.
edited-InStep :
    (id : ℕ) (current : Farm) (dto : UpdateFarmDto) (db db' : Db)
    → db'.farms ≡ modify id (edited current dto) db.farms
    → db'.rounds ≡ db.rounds
    → IsInStep db
    → IsInStep db'
edited-InStep id current dto db db' farms rounds h = record {
  step = λ i farm e.
      at i farm (find-modify_inv id i (edited current dto) db.farms (λ r. refl) (rw (← farms) e));
}
  where
    at :
        (i : ℕ) (farm : Farm)
        → ((id ≡ i) × ((r : Farm) × (find i db.farms ≡ some r) × (farm ≡ edited current dto r)))
          ⊎ ((id ≢ i) × (find i db.farms ≡ some farm))
        → Matches farm.verification_status (open_rounds i db')
    at i farm (inl (same, (r, found, e))) =
        rw (e, ap (sum_by (open_of i)) rounds) (h.step i r found)
    at i farm (inr (ne, found)) = rw (ap (sum_by (open_of i)) rounds) (h.step i farm found)

reopened-look :
    (id i : ℕ) (current farm : Farm) (dto : UpdateFarmDto) (farms : List Farm)
    → find i (modify id (updated_farm current dto true) farms) ≡ some farm
    → ((i ≡ id) × (farm.verification_status ≡ FarmVerificationStatus.pending))
      ⊎ ((i ≢ id) × (find i farms ≡ some farm))
reopened-look id i current farm dto farms e =
    at (find-modify_inv id i (updated_farm current dto true) farms (λ r. refl) e)
  where
    at :
        ((id ≡ i)
            × ((r : Farm) × (find i farms ≡ some r) × (farm ≡ updated_farm current dto true r)))
          ⊎ ((id ≢ i) × (find i farms ≡ some farm))
        → ((i ≡ id) × (farm.verification_status ≡ FarmVerificationStatus.pending))
          ⊎ ((i ≢ id) × (find i farms ≡ some farm))
    at (inl (same, (r, found, e'))) = inl (sym same, ap (λ f. f.verification_status) e')
    at (inr (ne, found)) = inr ((λ same. ne (sym same)), found)

update_own_farm_inv :
    (user_id id : ℕ) (referral : Option ℕ) (f : Farm → Farm) (db db' : Db) (u : Unit {0})
    → update_own_farm user_id id referral f db ≡ ok (u, db')
    → (any (is_own user_id id) db.farms ≡ true) × (db' ≡ record db { farms = modify id f db.farms })
unfolding update_own_farm
update_own_farm_inv user_id id referral f db db' u run = (ground (arith, run), ground (arith, run))

route_round-InOrder :
    (now id : ℕ) (current : Farm) (dto : UpdateFarmDto) (reopen lga_moved : Bool) (db mid db' : Db)
    (keys : List String)
    → Distinct db.rounds
    → InOrder db
    → mid.farms ≡ modify id (updated_farm current dto reopen) db.farms
    → mid.rounds ≡ db.rounds
    → mid.declines ≡ db.declines
    → route_round now id reopen lga_moved mid ≡ ok (keys, db')
    → InOrder db'
unfolding route_round
route_round-InOrder now id current dto true lga_moved db mid db' keys distinct (placed, step) farms
      rounds declines run =
    let preferred = if lga_moved then none else agent_of (latest_round id mid.rounds) in
    let finish : ℕ → Tx (List String) = λ _. pure [] in
    let going : (open_farm_round now id preferred >>= finish) mid ≡ ok (keys, db') =
      ground (arith, run) in
    let (new, (after, opened, rest)) =
      >>=-eq-ok (open_farm_round now id preferred) finish mid going in
    let (farms', none_before, one_now, others, written) =
      open_farm_round_inv now id preferred mid after new opened in
    InOrder-same after db' (ground (arith, rest)) (ground (arith, rest)) (ground (arith, rest)) (
      subst IsPlaced (sym written)
          (open_round-IsPlaced now id preferred mid (IsPlaced-same db mid rounds declines placed)),
      opened-IsInStep id db mid after step
          (λ i farm e. reopened-look id i current farm dto db.farms (rw (← farms) e)) rounds farms'
          one_now others,
    )
route_round-InOrder now id current dto false true db mid db' keys distinct (placed, step) farms
      rounds declines run =
    reassign_open_round-InOrder id mid db' keys (subst Distinct (sym rounds) distinct)
      (
        IsPlaced-same db mid rounds declines placed,
        edited-InStep id current dto db mid farms rounds step,
      )
      run
route_round-InOrder now id current dto false false db mid db' keys distinct (placed, step) farms
      rounds declines run =
    InOrder-same mid db' (ground (arith, run)) (ground (arith, run)) (ground (arith, run)) (
      IsPlaced-same db mid rounds declines placed,
      edited-InStep id current dto db mid farms rounds step,
    )

pub update_tx-InOrder :
    (now : ℕ) (user : User) (id : ℕ) (current : Farm) (dto : UpdateFarmDto) (db db' : Db)
    (keys : List String)
    → Distinct db.rounds
    → InOrder db
    → update_tx now user id current dto db ≡ ok (keys, db')
    → InOrder db'
unfolding update_tx
update_tx-InOrder now user id current dto db db' keys distinct h run =
    let reopen = is_reopened current.verification_status (is_moved current dto) in
    let (v, (mid, audited, rest)) =
      >>=-eq-ok
        (update_own_farm user.id id dto.referral_agent_id (updated_farm current dto reopen)
          >> modify_db (
              record_audit (
                farm_event current.owner_id id AuditCategory.farm
                  ("Farm " ++ (current.farm_code ++ " updated")) (given_or dto.name current.name))))
        _ db run in
    let (u, (start, updated, told)) =
      >>=-eq-ok (update_own_farm user.id id dto.referral_agent_id (updated_farm current dto reopen))
        _ db audited in
    let (found, written) =
      update_own_farm_inv user.id id dto.referral_agent_id (updated_farm current dto reopen) db
        start u updated in
    route_round-InOrder now id current dto reopen (lga_changed current dto) db mid db' keys distinct
      h (ground (arith, told) ∙ ap (λ d. d.farms) written)
      (ground (arith, told) ∙ ap (λ d. d.rounds) written)
      (ground (arith, told) ∙ ap (λ d. d.declines) written) rest
