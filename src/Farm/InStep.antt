-- ===== src/Farm/InStep.antt =====
-- A farm's verification status and its open rounds: `verificationStatus` "denormalised from the
-- latest FarmVerification" (prisma/schema.prisma), and what the steps of assignment keep of it.
use Prim.Native.String.{String}
use mathlib.Core.Path.{subst}
use laicos_backend.Prelude.{
  ℕ, ◌≤◌, ◌≡◌, ◌≢◌, refl, sym, ap, ◌∙◌, inl, inr, true, false, Option, none, some, List, [], ◌∷◌,
  arith, if◌then◌else◌, Bool-cases, Option-cases,
}
use laicos_backend.Prelude.Table.{find, any, modify, sum_by, find-key, sum_by-modify}
use laicos_backend.Schema.{
  Db, ok, Farm, FarmVerification, FarmVerificationStatus, round_keyed, farm_keyed,
}
use laicos_backend.Verification.Agents.{pick_agent}
use laicos_backend.Verification.Documents.{is_tracked}
use laicos_backend.Verification.Assignment.{
  is_unassigned, cleared_round, candidates, assigned_to, assign_round, assign, new_round, put_round,
  open_round, reset_round,
}
use laicos_backend.Farm.Service.{is_open_round, open_farm_round}

abbrev pub open_of : ℕ → FarmVerification → ℕ
open_of farm_id r = if is_open_round farm_id r then 1 else 0

abbrev pub open_rounds : ℕ → Db → ℕ
open_rounds farm_id db = sum_by (open_of farm_id) db.rounds

-- A farm that waits for verification has one open round, one that is decided has none.
abbrev pub Matches : FarmVerificationStatus → ℕ → Type 0
Matches FarmVerificationStatus.pending n = n ≡ 1
Matches FarmVerificationStatus.verified n = n ≡ 0
Matches FarmVerificationStatus.rejected n = n ≡ 0
Matches FarmVerificationStatus.suspended n = n ≤ 1

pub record IsInStep (db : Db) : Type 0 where
  pub step :
      (i : ℕ) (farm : Farm)
      → find i db.farms ≡ some farm
      → Matches farm.verification_status (open_rounds i db)

pub IsInStep-same :
    (db db' : Db)
    → db'.farms ≡ db.farms
    → ((i : ℕ) → open_rounds i db' ≡ open_rounds i db)
    → IsInStep db
    → IsInStep db'
IsInStep-same db db' farms same h = record {
  step = λ i farm e.
      subst (Matches farm.verification_status) (sym (same i)) (h.step i farm (rw (← farms) e));
}

-- What a step of assignment keeps: the farms, and how many rounds are open on each.
abbrev pub SameRounds : Db → Db → Type 0
SameRounds db db' = (db'.farms ≡ db.farms) × ((i : ℕ) → open_rounds i db' ≡ open_rounds i db)

pub assign-SameRounds :
    (round_id : ℕ) (preferred : Option ℕ) (db : Db) → SameRounds db (assign round_id preferred db).1
unfolding assign
assign-SameRounds round_id preferred db = elim (Option-cases (find round_id db.rounds)) [
  | inl missing ↦ rw (missing, assign) (refl, λ i. refl)
  | inr (round, found) ↦
      rw (found, assign)
        (elim (Option-cases (find round.farm_id db.farms)) [
          | inl missing ↦ rw missing (refl, λ i. refl)
          | inr (farm, there) ↦ rw there (
              placed round (find-key round_id db.rounds round found) found
                (pick_agent (candidates round_id farm.lga_id db) preferred))
        ])
]
  where
    placed :
        (round : FarmVerification)
        → round.id ≡ round_id
        → find round_id db.rounds ≡ some round
        → (picked : Option ℕ) → SameRounds db (assign_round round picked db).1
    placed round key found none = (refl, λ i. refl)
    placed round key found (some a) = elim (Bool-cases (is_unassigned round.status)) [
      | inr taken ↦ rw taken (refl, λ i. refl)
      | inl free ↦
          rw (free, key)
            (
              refl,
              λ i. ground (
                arith,
                free,
                sum_by-modify (open_of i) round_id (assigned_to a) db.rounds round found,
              ),
            )
    ]

none_open :
    (i : ℕ) (rounds : List FarmVerification)
    → any (is_open_round i) rounds ≡ false
    → sum_by (open_of i) rounds ≡ 0
none_open i [] h = refl
none_open i (r ∷ rounds) h = ground (arith, none_open i rounds)

-- Opening a round where the farm had none.
pub open_farm_round_inv :
    (now farm_id : ℕ) (preferred : Option ℕ) (db db' : Db) (id : ℕ)
    → open_farm_round now farm_id preferred db ≡ ok (id, db')
    → (db'.farms ≡ db.farms)
      × (open_rounds farm_id db ≡ 0)
      × (open_rounds farm_id db' ≡ 1)
      × ((i : ℕ) → i ≢ farm_id → open_rounds i db' ≡ open_rounds i db)
      × (db' ≡ (open_round now farm_id preferred db).1)
unfolding open_farm_round open_round
open_farm_round_inv now farm_id preferred db db' id run =
    elim (Bool-cases (any (is_open_round farm_id) db.rounds)) [
      | inl taken ↦ ground (arith, taken, run)
      | inr free ↦
          let start = put_round (new_round now db.next_id farm_id) db in
          let (farms, same) = assign-SameRounds db.next_id preferred start in
          let after : db' ≡ (assign db.next_id preferred start).1 = ground (arith, free, run) in
          let zero_open = none_open farm_id db.rounds free in
          (
            ap (λ d. d.farms) after ∙ farms,
            zero_open,
            ap (open_rounds farm_id) after ∙ same farm_id ∙ ground (arith, zero_open),
            λ i ne. ap (open_rounds i) after ∙ same i ∙ ground (arith, ne),
            after,
          )
    ]

-- Clearing an open round leaves it open.
pub reset_round-SameRounds :
    (round_id : ℕ) (round : FarmVerification) (db db' : Db) (keys : List String)
    → find round_id db.rounds ≡ some round
    → is_tracked round.status ≡ true
    → reset_round round_id db ≡ ok (keys, db')
    → SameRounds db db'
unfolding reset_round
reset_round-SameRounds round_id round db db' keys found tracked run =
    let rounds : db'.rounds ≡ modify round_id cleared_round db.rounds =
      ground (arith, found, run) in
    (
      ground (arith, found, run),
      λ i.
          ap (sum_by (open_of i)) rounds
          ∙ ground (
            arith,
            tracked,
            sum_by-modify (open_of i) round_id cleared_round db.rounds round found,
          ),
    )
