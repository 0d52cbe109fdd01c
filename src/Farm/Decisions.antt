-- ===== src/Farm/Decisions.antt =====
-- Deciding a farm's round (`approve` and `reject` of
-- src/verification/services/verification.service.ts).
use Prim.Native.String.{String}
use laicos_backend.Prelude.{
  ℕ, ◌+◌, ◌≤◌, ◌≡◌, ◌≢◌, refl, ap, ◌∙◌, ◌⊎◌, inl, inr, true, false, none, some, arith,
}
use laicos_backend.Prelude.Table.{find, modify, sum_by, find-modify_inv, sum_by-modify}
use laicos_backend.Schema.{
  Db, ok, Farm, FarmVerification, FarmVerificationStatus, VerificationTaskStatus, round_keyed,
  farm_keyed, agent_keyed, farmer_keyed,
}
use laicos_backend.Order.Service.Frames.{>>=-eq-ok}
use laicos_backend.Verification.Documents.{is_tracked}
use laicos_backend.Verification.Assignment.{is_open_task}
use laicos_backend.Verification.Service
use laicos_backend.Verification.Service.{
  own_round, require_open, put_rounds, transition, in_progress, start, start_unless, record_draft,
  audit_round, farm_of, SaveLocationDto, set_location, UpdateVerificationDto, set_fields,
  AddEvidenceDto, set_document, put_check, put_evidence, store_evidence, farm_documents,
  refresh_farm_evidence_status, hand_back, put_decline, decide, put_verified, verify_farm,
  reject_farm,
}
use laicos_backend.Farm.InStep.{open_of, open_rounds, Matches, IsInStep}
use laicos_backend.Farm.Rounds.{transition_open}

-- A decision: an open round closes, and its farm gets the status of it.
pub record Decides (id : ℕ) (f : FarmVerification → FarmVerification) (g : Farm → Farm)
    (db db' : Db) : Type 0 where
  pub round : FarmVerification
  pub found : find id db.rounds ≡ some round
  pub is_open : is_open_task round.status ≡ true
  pub same : (f round).farm_id ≡ round.farm_id
  pub closed : is_tracked (f round).status ≡ false
  pub keeps : (farm : Farm) → (g farm).id ≡ farm.id
  pub decides : (farm : Farm) → Matches (g farm).verification_status 0
  pub rounds : db'.rounds ≡ modify id f db.rounds
  pub farms : db'.farms ≡ modify round.farm_id g db.farms

pub moved_rounds :
    (id : ℕ) (f : FarmVerification → FarmVerification) (g : Farm → Farm) (db db' : Db)
    (d : Decides id f g db db') (i : ℕ)
    → open_rounds i db' + open_of i d.round ≡ open_rounds i db
moved_rounds id f g db db' d i = rw (ap (sum_by (open_of i)) d.rounds) (
    ground (
      arith,
      d.same,
      d.closed,
      d.is_open,
      sum_by-modify (open_of i) id f db.rounds d.round d.found,
    ))

pub Decides-IsInStep :
    (id : ℕ) (f : FarmVerification → FarmVerification) (g : Farm → Farm) (db db' : Db)
    → Decides id f g db db'
    → IsInStep db
    → IsInStep db'
Decides-IsInStep id f g db db' d h = record {
  step = λ i farm e.
      at i farm (find-modify_inv d.round.farm_id i g db.farms d.keeps (rw (← d.farms) e));
}
  where
    most : (s : FarmVerificationStatus) (n : ℕ) → Matches s n → n ≤ 1
    most FarmVerificationStatus.pending n m = omega (arith, m)
    most FarmVerificationStatus.verified n m = omega (arith, m)
    most FarmVerificationStatus.rejected n m = omega (arith, m)
    most FarmVerificationStatus.suspended n m = m

    at :
        (i : ℕ) (farm : Farm)
        → ((d.round.farm_id ≡ i) × ((x : Farm) × (find i db.farms ≡ some x) × (farm ≡ g x)))
          ⊎ ((d.round.farm_id ≢ i) × (find i db.farms ≡ some farm))
        → Matches farm.verification_status (open_rounds i db')
    at i farm (inl (own, (x, there, e))) =
        let none_left : open_rounds i db' ≡ 0 = ground (
          arith,
          own,
          d.is_open,
          moved_rounds id f g db db' d i,
          most x.verification_status (open_rounds i db) (h.step i x there),
        ) in
        rw (e, none_left) (d.decides x)
    at i farm (inr (ne, there)) =
        let unmoved : open_rounds i db' ≡ open_rounds i db =
          ground (arith, ne, moved_rounds id f g db db' d i) in
        rw unmoved (h.step i farm there)

pub reject_Decides :
    (now agent_id id : ℕ) (reason : String) (db db' : Db) (u : Unit {0})
    → Service.reject_tx now agent_id id reason db ≡ ok (u, db')
    → Decides id (decide VerificationTaskStatus.rejected (some reason) now) reject_farm db db'
unfolding Service.reject_tx
reject_Decides now agent_id id reason db db' u run =
    let f = decide VerificationTaskStatus.rejected (some reason) now in
    let (r, (mid, moved, rest)) = >>=-eq-ok (transition agent_id id f) _ db run in
    let (found, is_open, wrote) = transition_open agent_id id f db mid r moved in
    record {
      round = r;
      found = found;
      is_open = is_open;
      same = refl;
      closed = refl;
      keeps = λ x. refl;
      decides = λ x. refl;
      rounds = ground (arith, rest) ∙ ap (λ d. d.rounds) wrote;
      farms = ground (arith, rest) ∙ ap (λ d. modify r.farm_id reject_farm d.farms) wrote;
    }

approve_round-Decides :
    (now agent_id id : ℕ) (db db' : Db) (u : Unit {0})
    → Service.approve_round now agent_id id db ≡ ok (u, db')
    → Decides id (decide VerificationTaskStatus.approved none now) (verify_farm agent_id) db db'
unfolding Service.approve_round
approve_round-Decides now agent_id id db db' u run =
    let f = decide VerificationTaskStatus.approved none now in
    let (r, (mid, moved, rest)) = >>=-eq-ok (transition agent_id id f) _ db run in
    let (found, is_open, wrote) = transition_open agent_id id f db mid r moved in
    record {
      round = r;
      found = found;
      is_open = is_open;
      same = refl;
      closed = refl;
      keeps = λ x. refl;
      decides = λ x. refl;
      rounds = ground (arith, rest) ∙ ap (λ d. d.rounds) wrote;
      farms =
          ground (arith, rest) ∙ ap (λ d. modify r.farm_id (verify_farm agent_id) d.farms) wrote;
    }

pub approve_Decides :
    (now agent_id id : ℕ) (db db' : Db) (u : Unit {0})
    → Service.approve_tx now agent_id id db ≡ ok (u, db')
    → Decides id (decide VerificationTaskStatus.approved none now) (verify_farm agent_id) db db'
unfolding Service.approve_tx
approve_Decides now agent_id id db db' u run =
    approve_round-Decides now agent_id id db db' u (ground (arith, run))
