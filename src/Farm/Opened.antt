-- ===== src/Farm/Opened.antt =====
-- The invariants of a farm's rounds when a farm is created
-- (src/farm/services/farm.service.ts).
use Prim.Native.String.{String}
use mathlib.Core.Path.{subst}
use laicos_backend.Prelude.{
  ℕ, ◌+◌, ◌≡◌, ◌≢◌, refl, sym, ap, ◌∙◌, ◌⊎◌, inl, inr, Option, none, some, ◌∷◌, arith, ◌==◌,
  Bool-cases,
}
use laicos_backend.Prelude.Table.{find, sum_by}
use laicos_backend.Schema.{Db, ok, Farm, FarmVerificationStatus, Farmer, round_keyed, farm_keyed}
use laicos_backend.Order.Service.Frames.{>>=-eq-ok}
use laicos_backend.Verification.Placed.{IsPlaced, IsPlaced-same, open_round-IsPlaced}
use laicos_backend.Farm.Service.{
  CreateFarmDto, create_tx, insert_farm, new_farm, open_farm_round, farm_documents_summary,
}
use laicos_backend.Farm.InStep.{
  open_of, open_rounds, Matches, IsInStep, IsInStep-same, open_farm_round_inv,
}

-- The two invariants of a farm's rounds.
abbrev pub InOrder : Db → Type 0
InOrder db = IsPlaced db × IsInStep db

pub InOrder-same :
    (db db' : Db)
    → db'.farms ≡ db.farms
    → db'.rounds ≡ db.rounds
    → db'.declines ≡ db.declines
    → InOrder db
    → InOrder db'
InOrder-same db db' farms rounds declines (placed, step) = (
  IsPlaced-same db db' rounds declines placed,
  IsInStep-same db db' farms (λ i. ap (sum_by (open_of i)) rounds) step,
)

-- A new round on farm `id`, which now waits for verification.
pub opened-IsInStep :
    (id : ℕ) (db mid db' : Db)
    → IsInStep db
    → ((i : ℕ) (farm : Farm)
        → find i mid.farms ≡ some farm
        → ((i ≡ id) × (farm.verification_status ≡ FarmVerificationStatus.pending))
          ⊎ ((i ≢ id) × (find i db.farms ≡ some farm)))
    → mid.rounds ≡ db.rounds
    → db'.farms ≡ mid.farms
    → open_rounds id db' ≡ 1
    → ((i : ℕ) → i ≢ id → open_rounds i db' ≡ open_rounds i mid)
    → IsInStep db'
opened-IsInStep id db mid db' h look rounds farms here there = record {
  step = λ i farm e. at i farm (look i farm (rw (← farms) e));
}
  where
    at :
        (i : ℕ) (farm : Farm)
        → ((i ≡ id) × (farm.verification_status ≡ FarmVerificationStatus.pending))
          ⊎ ((i ≢ id) × (find i db.farms ≡ some farm))
        → Matches farm.verification_status (open_rounds i db')
    at i farm (inl (same, waits)) = rw (waits, same) here
    at i farm (inr (ne, found)) =
        subst (Matches farm.verification_status) (sym (there i ne ∙ ap (sum_by (open_of i)) rounds))
          (h.step i farm found)

insert_farm_inv :
    (now : ℕ) (farm : Farm) (preferred : Option ℕ) (db db' : Db) (id : ℕ)
    → insert_farm now farm preferred db ≡ ok (id, db')
    → open_farm_round now farm.id preferred
        (record db { farms = farm ∷ db.farms; next_id = db.next_id + 1 })
      ≡ ok (id, db')
unfolding insert_farm
insert_farm_inv now farm preferred db db' id run = ground (arith, run)

insert_farm-InOrder :
    (now : ℕ) (farm : Farm) (preferred : Option ℕ) (db db' : Db) (id : ℕ)
    → farm.verification_status ≡ FarmVerificationStatus.pending
    → InOrder db
    → insert_farm now farm preferred db ≡ ok (id, db')
    → InOrder db'
insert_farm-InOrder now farm preferred db db' id pending (placed, step) run =
    let mid = record db { farms = farm ∷ db.farms; next_id = db.next_id + 1 } in
    let (farms, none_before, one_now, others, written) =
      open_farm_round_inv now farm.id preferred mid db' id
        (insert_farm_inv now farm preferred db db' id run) in
    (
      subst IsPlaced (sym written)
          (open_round-IsPlaced now farm.id preferred mid (IsPlaced-same db mid refl refl placed)),
      opened-IsInStep farm.id db mid db' step look refl farms one_now others,
    )
  where
    look :
        (i : ℕ) (f : Farm)
        → find i (farm ∷ db.farms) ≡ some f
        → ((i ≡ farm.id) × (f.verification_status ≡ FarmVerificationStatus.pending))
          ⊎ ((i ≢ farm.id) × (find i db.farms ≡ some f))
    look i f e = elim (Bool-cases (farm.id == i)) [
      | inl here ↦
          let same : ◌≡◌ {A = Farm} farm f = ground (arith, here, e) in
          inl (
            ground (arith, here),
            subst (λ g. g.verification_status ≡ FarmVerificationStatus.pending) same pending,
          )
      | inr off ↦ inr (ground (arith, off), ground (arith, off, e))
    ]

pub create_tx-InOrder :
    (now : ℕ) (farmer : Farmer) (dto : CreateFarmDto) (ownership_key chief_key : Option String)
    (db db' : Db) (u : Unit {0})
    → InOrder db
    → create_tx now farmer dto ownership_key chief_key db ≡ ok (u, db')
    → InOrder db'
unfolding create_tx farm_documents_summary
create_tx-InOrder now farmer dto ownership_key chief_key db db' u h run =
    let farm = new_farm db.next_id (db.farm_codes db.next_id) farmer dto ownership_key chief_key in
    let (id, (mid, inserted, rest)) = >>=-eq-ok (insert_farm now farm none) _ db run in
    InOrder-same mid db' (ground (arith, rest)) (ground (arith, rest)) (ground (arith, rest))
      (insert_farm-InOrder now farm none db mid id refl h inserted)
