-- ===== src/Tests/Farms.antt =====
-- The farm service run on the small marketplace: a farm that was rejected is edited, and its round
-- goes to an agent, who declines it.
use laicos_backend.Prelude.{
  ◌≡◌, refl, false, inl, inr, none, some, [], ◌∷◌, arith, ◌==◌, Bool-cases,
}
use mathlib.Core.Path.{subst}
use laicos_backend.Prelude.Table.{find}
use laicos_backend.Schema.{Db, Farm, FarmVerificationStatus, ok, round_keyed, farm_keyed}
use laicos_backend.Verification.Assignment.{new_round, assigned_to}
use laicos_backend.Verification.Placed.{IsPlaced}
use laicos_backend.Verification.Methods.{RoundCall, after_round_call}
use laicos_backend.Farm.InStep.{IsInStep, Matches, open_rounds}
use laicos_backend.Farm.Update
use laicos_backend.Farm.Update.{UpdateFarmDto}
use laicos_backend.Farm.Methods.{FarmCall, after_farm_call, after_farm_call-InOrder}
use laicos_backend.Farm.Agents.{after_round_call-IsInStep}
use laicos_backend.Farm.Reopen.{update_reopens}
use laicos_backend.Tests.Shop.{farmer, farm, shop}
use laicos_backend.Tests.Verifications.{agent}

abbrev dto : UpdateFarmDto
dto = record {
  name = some "High Hill";
  state_id = none;
  lga_id = none;
  location = none;
  size = none;
  unit = none;
  main_produce = none;
  is_exporting = none;
  referral_agent_id = some 6;
}

abbrev rejected : Farm
rejected = record farm {
  verification_status = FarmVerificationStatus.rejected;
  cluster_agent_id = none;
  is_clustered = false;
}

abbrev declined : Db
declined = record shop { farms = rejected ∷ []; agents = agent 6 ∷ [] }

-- The only farm of a marketplace is in step if its status matches its open rounds.
one_farm-IsInStep :
    (db : Db) (farm : Farm)
    → db.farms ≡ farm ∷ []
    → Matches farm.verification_status (open_rounds farm.id db)
    → IsInStep db
one_farm-IsInStep db farm only matches = record {
  step = λ i f e. elim (Bool-cases (farm.id == i)) [
    | inl here ↦
        let same : farm ≡ f = ground (arith, only, here, e) in
        let at : farm.id ≡ i = ground (arith, here) in
        subst (λ k. Matches f.verification_status (open_rounds k db)) at
          (subst (λ g. Matches g.verification_status (open_rounds farm.id db)) same matches)
    | inr other ↦ absurd (ground (arith, only, other, e))
  ];
}

declined-IsInStep : IsInStep declined
declined-IsInStep = one_farm-IsInStep declined rejected refl refl

update_reopens_example :
    (db' : Db) × (Update.update 800 farmer 3 dto declined declined ≡ (ok [], db'))
    × (open_rounds 3 db' ≡ 1)
    × ((f : Farm) × (find 3 db'.farms ≡ some f)
        × (f.verification_status ≡ FarmVerificationStatus.pending)
        × (f.cluster_agent_id ≡ none))
update_reopens_example =
    update_reopens 800 farmer 3 dto rejected declined refl refl refl refl refl declined-IsInStep

after_farm_call-InOrder_example :
    IsPlaced (after_farm_call 800 (FarmCall.update farmer 3 dto) declined declined)
    × IsInStep (after_farm_call 800 (FarmCall.update farmer 3 dto) declined declined)
after_farm_call-InOrder_example =
    after_farm_call-InOrder 800 (FarmCall.update farmer 3 dto) declined declined (refl, tt) tt
      (record { placed = λ i r e. absurd cc }, declined-IsInStep)

-- A farm that waits, and the round that its agent has.
abbrev waiting : Db
waiting = record declined {
  farms = record rejected { verification_status = FarmVerificationStatus.pending } ∷ [];
  rounds = assigned_to 6 (new_round 100 51 3) ∷ [];
}

after_round_call-IsInStep_example :
    IsInStep (after_round_call 900 (RoundCall.reject 6 51 "No such farm") waiting waiting)
after_round_call-IsInStep_example =
    after_round_call-IsInStep 900 (RoundCall.reject 6 51 "No such farm") waiting waiting refl (
      one_farm-IsInStep waiting
        (record rejected { verification_status = FarmVerificationStatus.pending }) refl refl)
