-- ===== src/Farm/Rounds.antt =====
-- A farm's status and its open rounds across the methods of
-- src/verification/services/verification.service.ts.
use Prim.Native.String.{String}
use mathlib.Core.Path.{subst}
use laicos_backend.Prelude.{
  ℕ, ◌≡◌, refl, sym, ap, ◌∙◌, inl, inr, Bool, true, false, ◌&&◌, Option, none, some, List, [], ◌∷◌,
  arith, is_some, ◌==◌, Option-cases,
}
use laicos_backend.Prelude.Table.{
  find, sum_by, find-key, find-modify_self, sum_by-modify, sum_by-modify_same, sum_by-update_many,
}
use laicos_backend.Schema.{
  Db, ok, ◌>>=◌, ◌>>◌, pure, modify_db, FarmVerification, VerificationCheckKey, VerificationCheck,
  CheckResult, round_keyed, farm_keyed, agent_keyed, farmer_keyed,
}
use laicos_backend.Order.Service.Frames.{>>=-eq-ok}
use laicos_backend.Verification.Documents.{is_tracked, refresh_round}
use laicos_backend.Verification.Assignment.{is_open_task, reset_round, assign, assign_each}
use laicos_backend.Verification.Service
use laicos_backend.Verification.Service.{
  own_round, require_open, put_rounds, transition, in_progress, start, start_unless, record_draft,
  audit_round, farm_of, SaveLocationDto, set_location, UpdateVerificationDto, set_fields,
  AddEvidenceDto, set_document, put_check, put_evidence, store_evidence, farm_documents,
  refresh_farm_evidence_status, hand_back, put_decline, decide, put_verified, verify_farm,
  reject_farm,
}
use laicos_backend.Verification.Steps.{transition_inv}
use laicos_backend.Farm.InStep.{
  open_of, open_rounds, SameRounds, assign-SameRounds, reset_round-SameRounds,
}

SameRounds-trans : (a b c : Db) → SameRounds a b → SameRounds b c → SameRounds a c
SameRounds-trans a b c (farms, same) (farms', same') = (farms' ∙ farms, λ i. same' i ∙ same i)

SameRounds-tables :
    (db db' : Db) → db'.farms ≡ db.farms → db'.rounds ≡ db.rounds → SameRounds db db'
SameRounds-tables db db' farms rounds = (farms, λ i. ap (sum_by (open_of i)) rounds)

-- The round that an agent moves is open, and is the row with its id.
pub transition_open :
    (agent_id id : ℕ) (f : FarmVerification → FarmVerification) (db db' : Db) (r : FarmVerification)
    → transition agent_id id f db ≡ ok (r, db')
    → (find id db.rounds ≡ some r) × (is_open_task r.status ≡ true) × (db' ≡ put_rounds id f db)
unfolding transition require_open
transition_open agent_id id f db db' r run =
    let (found, held, wrote) = transition_inv agent_id id f db db' r run in
    elim (Option-cases (own_round agent_id id db)) [
      | inl missing ↦ absurd (ground (arith, missing))
      | inr (x, own) ↦
          let same : x ≡ r = ground (arith, own) in
          (found, subst (λ y. is_open_task y.status ≡ true) same (ground (arith, own, run)), wrote)
    ]

-- A step of a round that leaves it open.
transition-SameRounds :
    (agent_id id : ℕ) (f : FarmVerification → FarmVerification) (db db' : Db) (r : FarmVerification)
    → (f r).farm_id ≡ r.farm_id
    → is_tracked (f r).status ≡ true
    → transition agent_id id f db ≡ ok (r, db')
    → SameRounds db db'
transition-SameRounds agent_id id f db db' r same tracked run =
    let (found, is_open, wrote) = transition_open agent_id id f db db' r run in
    (
      ap (λ d. d.farms) wrote,
      λ i.
          ap (open_rounds i) wrote
          ∙ ground
              (arith, same, tracked, is_open, sum_by-modify (open_of i) id f db.rounds r found),
    )

start_unless-SameRounds :
    (b : Bool) (now id : ℕ) (db : Db) → SameRounds db (start_unless b now id db)
start_unless-SameRounds true now id db = (refl, λ i. refl)
start_unless-SameRounds false now id db =
    (refl, λ i. sum_by-modify_same (open_of i) id (start now) db.rounds (λ r. refl))

record_draft-SameRounds :
    (now agent_id id : ℕ) (f : FarmVerification → FarmVerification) (db db' : Db)
    (r : FarmVerification)
    → (f r).farm_id ≡ r.farm_id
    → record_draft now agent_id id f db ≡ ok (r, db')
    → SameRounds db db'
unfolding record_draft
record_draft-SameRounds now agent_id id f db db' r same run =
    let (round, (mid, moved, rest)) = >>=-eq-ok (transition agent_id id (in_progress f)) _ db run in
    let e : round ≡ r = ground (arith, rest) in
    let after : db' ≡ start_unless (is_some round.started_at) now id mid = ground (arith, rest) in
    SameRounds-trans db mid db'
      (transition-SameRounds agent_id id (in_progress f) db mid round
        (subst (λ x. (f x).farm_id ≡ x.farm_id) (sym e) same) refl moved)
      (subst (SameRounds mid) (sym after)
        (start_unless-SameRounds (is_some round.started_at) now id mid))

refresh_SameRounds :
    (farm_id : ℕ) (db : Db) → SameRounds db (refresh_farm_evidence_status farm_id db)
unfolding refresh_farm_evidence_status
refresh_SameRounds farm_id db = elim (Option-cases (find farm_id db.farms)) [
  | inl missing ↦ rw (missing, refresh_farm_evidence_status) (refl, λ i. refl)
  | inr (farm, found) ↦
      rw (found, refresh_farm_evidence_status)
        (
          refl,
          λ i.
              sum_by-update_many (open_of i) (λ r. r.farm_id == farm_id && is_tracked r.status)
                (refresh_round (farm_documents farm db)) db.rounds (λ r h. refl),
        )
]

store_evidence-SameRounds :
    (id farm_id : ℕ) (dto : AddEvidenceDto) (storage_key : String) (db : Db)
    → SameRounds db (store_evidence id farm_id dto storage_key db)
store_evidence-SameRounds id farm_id dto storage_key db = elim (Option-cases dto.document) [
  | inl check ↦ rw check (refl, λ i. refl)
  | inr (document, sent) ↦ rw sent (
      let written = put_rounds id (set_document document storage_key) db in
      SameRounds-trans db written (refresh_farm_evidence_status farm_id written)
        (
          refl,
          λ i.
              sum_by-modify_same (open_of i) id (set_document document storage_key) db.rounds
                (λ r. refl),
        )
        (refresh_SameRounds farm_id written))
]

set_location_farm :
    (dto : SaveLocationDto) (r : FarmVerification) → (set_location dto r).farm_id ≡ r.farm_id
set_location_farm dto r = ground arith

pub save_location_SameRounds :
    (now agent_id id : ℕ) (dto : SaveLocationDto) (db db' : Db) (u : Unit {0})
    → Service.save_location_tx now agent_id id dto db ≡ ok (u, db')
    → SameRounds db db'
unfolding Service.save_location_tx
save_location_SameRounds now agent_id id dto db db' u run =
    let (r, (mid, drafted, rest)) =
      >>=-eq-ok (record_draft now agent_id id (set_location dto)) _ db run in
    SameRounds-trans db mid db'
      (record_draft-SameRounds now agent_id id (set_location dto) db mid r (set_location_farm dto r)
        drafted)
      (SameRounds-tables mid db' (ground (arith, rest)) (ground (arith, rest)))

put_check_tables :
    (new : VerificationCheck) (db : Db)
    → ((put_check new db).farms ≡ db.farms) × ((put_check new db).rounds ≡ db.rounds)
put_check_tables new db = (ground arith, ground arith)

pub save_check_SameRounds :
    (now agent_id id : ℕ) (key : VerificationCheckKey) (key_text : String) (result : CheckResult)
    (remark : Option String) (db db' : Db) (u : Unit {0})
    → Service.save_check_tx now agent_id id key key_text result remark db ≡ ok (u, db')
    → SameRounds db db'
unfolding Service.save_check_tx
save_check_SameRounds now agent_id id key key_text result remark db db' u run =
    let (r, (mid, drafted, rest)) = >>=-eq-ok (record_draft now agent_id id (λ x. x)) _ db run in
    let (farms, rounds) =
      put_check_tables (record { verification_id = id; key = key; result = result; note = remark })
        mid in
    SameRounds-trans db mid db'
      (record_draft-SameRounds now agent_id id (λ x. x) db mid r refl drafted)
      (SameRounds-tables mid db' (ground (arith, rest, farms)) (ground (arith, rest, rounds)))

pub update_SameRounds :
    (now agent_id id : ℕ) (dto : UpdateVerificationDto) (db db' : Db) (u : Unit {0})
    → Service.update_tx now agent_id id dto db ≡ ok (u, db')
    → SameRounds db db'
unfolding Service.update_tx
update_SameRounds now agent_id id dto db db' u run =
    let (r, (mid, drafted, rest)) =
      >>=-eq-ok (record_draft now agent_id id (set_fields dto)) _ db run in
    SameRounds-trans db mid db'
      (record_draft-SameRounds now agent_id id (set_fields dto) db mid r refl drafted)
      (SameRounds-tables mid db' (ground (arith, rest)) (ground (arith, rest)))

pub add_evidence_SameRounds :
    (now agent_id id : ℕ) (dto : AddEvidenceDto) (storage_key : String) (db db' : Db) (u : Unit {0})
    → Service.add_evidence_tx now agent_id id dto storage_key db ≡ ok (u, db')
    → SameRounds db db'
unfolding Service.add_evidence_tx
add_evidence_SameRounds now agent_id id dto storage_key db db' u run =
    let (r, (mid, drafted, rest)) = >>=-eq-ok (record_draft now agent_id id (λ x. x)) _ db run in
    let (farm, (same, found, rest')) = >>=-eq-ok (farm_of r.farm_id) _ mid rest in
    let (v, (told, audited, rest'')) =
      >>=-eq-ok (audit_round agent_id r.farm_id "Verification evidence saved" farm.farm_code)
        (λ _. modify_db (store_evidence id r.farm_id dto storage_key)) same rest' in
    let farms : told.farms ≡ mid.farms = ground (arith, found, audited) in
    let rounds : told.rounds ≡ mid.rounds = ground (arith, found, audited) in
    let stored : store_evidence id r.farm_id dto storage_key told ≡ db' = ground (arith, rest'') in
    SameRounds-trans db mid db'
      (record_draft-SameRounds now agent_id id (λ x. x) db mid r refl drafted)
      (SameRounds-trans mid told db' (SameRounds-tables mid told farms rounds) (
        subst (SameRounds told) stored
          (store_evidence-SameRounds id r.farm_id dto storage_key told)))

pub remove_evidence_SameRounds :
    (now agent_id id evidence_id : ℕ) (db db' : Db) (key : String)
    → Service.remove_evidence_tx now agent_id id evidence_id db ≡ ok (key, db')
    → SameRounds db db'
unfolding Service.remove_evidence_tx
remove_evidence_SameRounds now agent_id id evidence_id db db' key run =
    let (r, (mid, drafted, rest)) = >>=-eq-ok (record_draft now agent_id id (λ x. x)) _ db run in
    SameRounds-trans db mid db'
      (record_draft-SameRounds now agent_id id (λ x. x) db mid r refl drafted)
      (SameRounds-tables mid db' (ground (arith, rest)) (ground (arith, rest)))

pub decline_SameRounds :
    (agent_id id : ℕ) (reason : String) (db db' : Db) (keys : List String)
    → Service.decline_tx agent_id id reason db ≡ ok (keys, db')
    → SameRounds db db'
unfolding Service.decline_tx
decline_SameRounds agent_id id reason db db' keys run =
    let (r, (mid, moved, rest)) = >>=-eq-ok (transition agent_id id hand_back) _ db run in
    let (found, is_open, wrote) = transition_open agent_id id hand_back db mid r moved in
    let handed : find id mid.rounds ≡ some (hand_back r) =
      ap (λ d. find id d.rounds) wrote
      ∙ find-modify_self id hand_back db.rounds r (find-key id db.rounds r found) found in
    let (u, (written, declined, rest')) = >>=-eq-ok (put_decline id agent_id reason) _ mid rest in
    let (v, (told, audited, rest'')) =
      >>=-eq-ok (audit_round agent_id r.farm_id "Verification declined" reason)
        (λ _. reset_round id >>= λ ks. (modify_db (λ d. (assign id none d).1) >> pure ks)) written
        rest' in
    let farms : told.farms ≡ mid.farms = ground (arith, declined, audited) in
    let rounds : told.rounds ≡ mid.rounds = ground (arith, declined, audited) in
    let (ks, (cleared, reset, end)) = >>=-eq-ok (reset_round id) _ told rest'' in
    let assigned : (assign id none cleared).1 ≡ db' = ground (arith, end) in
    SameRounds-trans db mid db'
      (transition-SameRounds agent_id id hand_back db mid r refl refl moved)
      (SameRounds-trans mid told db' (SameRounds-tables mid told farms rounds) (
        SameRounds-trans told cleared db'
          (reset_round-SameRounds id (hand_back r) told cleared ks (ap (find id) rounds ∙ handed)
            refl reset)
          (subst (SameRounds cleared) assigned (assign-SameRounds id none cleared))))

pub assign_each-SameRounds :
    (rounds : List FarmVerification) (db : Db) → SameRounds db (assign_each rounds db).1
unfolding assign_each
assign_each-SameRounds [] db = (refl, λ i. refl)
assign_each-SameRounds (round ∷ rounds) db =
    let mid = (assign round.id none db).1 in
    SameRounds-trans db mid (assign_each rounds mid).1 (assign-SameRounds round.id none db)
      (assign_each-SameRounds rounds mid)
