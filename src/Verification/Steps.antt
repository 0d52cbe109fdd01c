-- ===== src/Verification/Steps.antt =====
-- Who holds a round, across the transactions of src/verification/services/verification.service.ts.
use Prim.Native.String.{String, ◌++◌}
use mathlib.Core.Path.{subst}
use laicos_backend.Prelude.{
  ℕ, ◌≡◌, refl, sym, ap, ◌∙◌, ◌⊎◌, inl, inr, ◌≢◌, Bool, true, false, ◌&&◌, Option, none, some, List,
  ◌∷◌, arith, is_some, ◌==◌, Option-cases,
}
use laicos_backend.Prelude.Table.{find, modify, find-key, find-modify_inv}
use laicos_backend.Schema.{
  Db, Result, ok, Failure, Tx, ◌>>=◌, ◌>>◌, pure, gets, or_throw, throw_if, modify_db,
  FarmVerification, VerificationTaskStatus, VerificationCheckKey, VerificationCheck, CheckResult,
  round_keyed, farm_keyed, agent_keyed, farmer_keyed,
}
use laicos_backend.Order.Service.Frames.{>>=-eq-ok}
use laicos_backend.Verification.Documents.{refresh_round, is_tracked}
use laicos_backend.Verification.Assignment.{is_unassigned, assign, reset_round}
use laicos_backend.Verification.Service
use laicos_backend.Verification.Service.{
  own_round, require_open, put_rounds, transition, in_progress, start, start_unless, record_draft,
  audit_round, farm_of, SaveLocationDto, set_location, UpdateVerificationDto, set_fields,
  AddEvidenceDto, set_document, put_check, put_evidence, store_evidence, farm_documents,
  refresh_farm_evidence_status, hand_back, put_decline, decide, put_verified,
}
use laicos_backend.Verification.Placed.{
  Placed, IsPlaced, IsPlaced-same, IsPlaced-modify, IsPlaced-update_many, assign-IsPlaced,
  reset_round-IsPlaced,
}

-- A step after which every round is still held rightly.
abbrev pub Keeps : {A : Type 0} → Tx A → Type 0
Keeps {A} m = (db db' : Db) (a : A) → IsPlaced db → m db ≡ ok (a, db') → IsPlaced db'

then_Keeps :
    {A B : Type 0} (m : Tx A) (k : A → Tx B) → Keeps m → ((a : A) → Keeps (k a)) → Keeps (m >>= k)
then_Keeps m k hm hk db db' b h run =
    let (a, (mid, first, rest)) = >>=-eq-ok m k db run in hk a mid db' b (hm db mid a h first) rest

wrote :
    {A : Type 0} (x a : A) (d d' : Db) → ◌≡◌ {A = Result (A × Db)} (ok (x, d)) (ok (a, d')) → d' ≡ d
wrote x a d d' e = cc

modify_Keeps : (g : Db → Db) → ((db : Db) → IsPlaced db → IsPlaced (g db)) → Keeps (modify_db g)
modify_Keeps g keep db db' a h run = subst IsPlaced (sym (wrote tt a (g db) db' run)) (keep db h)

pure-Keeps : {A : Type 0} (x : A) → Keeps (pure x)
pure-Keeps x db db' a h run = subst IsPlaced (sym (wrote x a db db' run)) h

gets-Keeps : {A : Type 0} (f : Db → A) → Keeps (gets f)
gets-Keeps f db db' a h run = subst IsPlaced (sym (wrote (f db) a db db' run)) h

or_throw-Keeps : {A : Type 0} (e : Failure) (o : Option A) → Keeps (or_throw e o)
or_throw-Keeps e none db db' a h run = absurd cc
or_throw-Keeps e (some x) db db' a h run = subst IsPlaced (sym (wrote x a db db' run)) h

throw_if-Keeps : (b : Bool) (e : Failure) → Keeps (throw_if b e)
throw_if-Keeps true e db db' a h run = absurd cc
throw_if-Keeps false e db db' a h run = subst IsPlaced (sym (wrote tt a db db' run)) h

farm_of-Keeps : (farm_id : ℕ) → Keeps (farm_of farm_id)
farm_of-Keeps farm_id =
    then_Keeps (gets (λ db. find farm_id db.farms)) _ (gets-Keeps _)
      (λ o. or_throw-Keeps Failure.record_not_found o)

audit_round-Keeps :
    (agent_id farm_id : ℕ) (title summary : String)
    → Keeps (audit_round agent_id farm_id title summary)
audit_round-Keeps agent_id farm_id title summary =
    modify_Keeps _ (λ db h. IsPlaced-same db _ refl refl h)

pub own_round_inv :
    (agent_id id : ℕ) (db : Db) (r : FarmVerification)
    → own_round agent_id id db ≡ some r
    → (find id db.rounds ≡ some r) × (r.agent_id ≡ some agent_id)
own_round_inv agent_id id db r h = elim (Option-cases (find id db.rounds)) [
  | inl missing ↦ absurd (ground (arith, missing))
  | inr (x, found) ↦ (ground (arith, found), ground (arith, found))
]

pub transition_inv :
    (agent_id id : ℕ) (f : FarmVerification → FarmVerification) (db db' : Db) (r : FarmVerification)
    → transition agent_id id f db ≡ ok (r, db')
    → (find id db.rounds ≡ some r) × (r.agent_id ≡ some agent_id) × (db' ≡ put_rounds id f db)
unfolding transition require_open
transition_inv agent_id id f db db' r run = elim (Option-cases (own_round agent_id id db)) [
  | inl missing ↦ absurd (ground (arith, missing))
  | inr (x, own) ↦
      let same : x ≡ r = ground (arith, own) in
      let (found, held) = own_round_inv agent_id id db x own in
      (
        subst (λ y. find id db.rounds ≡ some y) same found,
        subst (λ y. y.agent_id ≡ some agent_id) same held,
        ground (arith, own),
      )
]

-- A transition that keeps the agent, to a status that has one.
transition-Keeps :
    (agent_id id : ℕ) (f : FarmVerification → FarmVerification)
    → ((r : FarmVerification)
        → ((f r).id ≡ r.id) × ((f r).agent_id ≡ r.agent_id) × (is_unassigned (f r).status ≡ false))
    → Keeps (transition agent_id id f)
transition-Keeps agent_id id f keeps db db' a h run =
    let (found, held, wrote) = transition_inv agent_id id f db db' a run in
    IsPlaced-modify db db' id f (ap (λ d. d.rounds) wrote) (ap (λ d. d.declines) wrote)
      (λ r. (keeps r).0)
      (λ r at_id was.
        let same : a ≡ r = cc in
        let mine : r.agent_id ≡ some agent_id = subst (λ y. y.agent_id ≡ some agent_id) same held in
        (ground (arith, keeps r, mine), λ b e. rw (keeps r).0 (was.1 b (sym (keeps r).1 ∙ e))))
      h

record_draft-Keeps :
    (now agent_id id : ℕ) (f : FarmVerification → FarmVerification)
    → ((r : FarmVerification) → ((f r).id ≡ r.id) × ((f r).agent_id ≡ r.agent_id))
    → Keeps (record_draft now agent_id id f)
unfolding record_draft
record_draft-Keeps now agent_id id f keeps =
    then_Keeps (transition agent_id id (in_progress f)) _
      (transition-Keeps agent_id id (in_progress f) (λ r. ((keeps r).0, (keeps r).1, refl)))
      λ round db db' a h run.
        started (is_some round.started_at) db db' h
          (wrote round a (start_unless (is_some round.started_at) now id db) db' run)
  where
    started : (b : Bool) (db db' : Db) → IsPlaced db → db' ≡ start_unless b now id db → IsPlaced db'
    started true db db' h e = subst IsPlaced (sym e) h
    started false db db' h e =
        IsPlaced-modify db db' id (start now) (ap (λ d. d.rounds) e) (ap (λ d. d.declines) e)
          (λ r. refl) (λ r at_id was. was) h

pub refresh_Keeps :
    (farm_id : ℕ) (db : Db) → IsPlaced db → IsPlaced (refresh_farm_evidence_status farm_id db)
unfolding refresh_farm_evidence_status
refresh_Keeps farm_id db h = elim (Option-cases (find farm_id db.farms)) [
  | inl missing ↦ rw (missing, refresh_farm_evidence_status) h
  | inr (farm, found) ↦
      rw (found, refresh_farm_evidence_status)
        (IsPlaced-update_many db _ (λ r. r.farm_id == farm_id && is_tracked r.status)
          (refresh_round (farm_documents farm db)) refl refl (λ r. (refl, refl, refl)) h)
]

store_evidence_Keeps :
    (id farm_id : ℕ) (dto : AddEvidenceDto) (storage_key : String) (db : Db)
    → IsPlaced db
    → IsPlaced (store_evidence id farm_id dto storage_key db)
store_evidence_Keeps id farm_id dto storage_key db h = elim (Option-cases dto.document) [
  | inl check ↦ rw check (IsPlaced-same db _ refl refl h)
  | inr (document, sent) ↦ rw sent (
      refresh_Keeps farm_id (put_rounds id (set_document document storage_key) db) (
        IsPlaced-modify db _ id (set_document document storage_key) refl refl (λ r. refl)
          (λ r at_id was. was) h))
]

pub save_location_Keeps :
    (now agent_id id : ℕ) (dto : SaveLocationDto)
    → Keeps (Service.save_location_tx now agent_id id dto)
unfolding Service.save_location_tx
save_location_Keeps now agent_id id dto =
    then_Keeps (record_draft now agent_id id (set_location dto)) _
      (record_draft-Keeps now agent_id id (set_location dto) (λ r. at dto.matches r))
      λ round.
        then_Keeps (farm_of round.farm_id) _ (farm_of-Keeps round.farm_id)
          λ farm. audit_round-Keeps agent_id round.farm_id _ _
  where
    at :
        (b : Bool) (r : FarmVerification)
        → ((set_location (record dto { matches = b }) r).id ≡ r.id)
          × ((set_location (record dto { matches = b }) r).agent_id ≡ r.agent_id)
    at true r = (refl, refl)
    at false r = (refl, refl)

put_check_same :
    (new : VerificationCheck) (db : Db)
    → ((put_check new db).rounds ≡ db.rounds) × ((put_check new db).declines ≡ db.declines)
put_check_same new db = (ground arith, ground arith)

pub save_check_Keeps :
    (now agent_id id : ℕ) (key : VerificationCheckKey) (key_text : String) (result : CheckResult)
    (remark : Option String)
    → Keeps (Service.save_check_tx now agent_id id key key_text result remark)
unfolding Service.save_check_tx
save_check_Keeps now agent_id id key key_text result remark =
    then_Keeps (record_draft now agent_id id (λ r. r)) _
      (record_draft-Keeps now agent_id id (λ r. r) (λ r. (refl, refl)))
      λ round.
        then_Keeps (modify_db _) _
          (modify_Keeps _
            (λ db h. IsPlaced-same db _ (put_check_same _ db).0 (put_check_same _ db).1 h))
          λ _. then_Keeps (farm_of round.farm_id) _ (farm_of-Keeps round.farm_id) λ farm.
            audit_round-Keeps agent_id round.farm_id "Verification check saved"
              (key_text ++ (" on " ++ farm.farm_code))

pub update_Keeps :
    (now agent_id id : ℕ) (dto : UpdateVerificationDto)
    → Keeps (Service.update_tx now agent_id id dto)
unfolding Service.update_tx
update_Keeps now agent_id id dto =
    then_Keeps (record_draft now agent_id id (set_fields dto)) _
      (record_draft-Keeps now agent_id id (set_fields dto) (λ r. (refl, refl)))
      λ round. pure-Keeps tt

pub add_evidence_Keeps :
    (now agent_id id : ℕ) (dto : AddEvidenceDto) (storage_key : String)
    → Keeps (Service.add_evidence_tx now agent_id id dto storage_key)
unfolding Service.add_evidence_tx
add_evidence_Keeps now agent_id id dto storage_key =
    then_Keeps (record_draft now agent_id id (λ r. r)) _
      (record_draft-Keeps now agent_id id (λ r. r) (λ r. (refl, refl)))
      λ round. then_Keeps (farm_of round.farm_id) _ (farm_of-Keeps round.farm_id) λ farm.
        then_Keeps (audit_round agent_id round.farm_id _ _) _
          (audit_round-Keeps agent_id round.farm_id _ _)
          λ _. modify_Keeps _ (store_evidence_Keeps id round.farm_id dto storage_key)

pub remove_evidence_Keeps :
    (now agent_id id evidence_id : ℕ)
    → Keeps (Service.remove_evidence_tx now agent_id id evidence_id)
unfolding Service.remove_evidence_tx
remove_evidence_Keeps now agent_id id evidence_id db db' a h run =
    let (round, (mid, first, rest)) = >>=-eq-ok (record_draft now agent_id id (λ r. r)) _ db run in
    let kept =
      record_draft-Keeps now agent_id id (λ r. r) (λ r. (refl, refl)) db mid round h first in
    IsPlaced-same mid db' (ground (arith, rest)) (ground (arith, rest)) kept

approve_round-Keeps : (now agent_id id : ℕ) → Keeps (Service.approve_round now agent_id id)
unfolding Service.approve_round
approve_round-Keeps now agent_id id db db' a h run =
    let f = decide VerificationTaskStatus.approved none now in
    let (round, (mid, first, rest)) = >>=-eq-ok (transition agent_id id f) _ db run in
    let kept = transition-Keeps agent_id id f (λ r. (refl, refl, refl)) db mid round h first in
    IsPlaced-same mid db' (ground (arith, rest)) (ground (arith, rest)) kept

pub approve_Keeps : (now agent_id id : ℕ) → Keeps (Service.approve_tx now agent_id id)
unfolding Service.approve_tx
approve_Keeps now agent_id id db db' a h run =
    approve_round-Keeps now agent_id id db db' a h (ground (arith, run))

pub reject_Keeps :
    (now agent_id id : ℕ) (reason : String) → Keeps (Service.reject_tx now agent_id id reason)
unfolding Service.reject_tx
reject_Keeps now agent_id id reason db db' a h run =
    let f = decide VerificationTaskStatus.rejected (some reason) now in
    let (round, (mid, first, rest)) = >>=-eq-ok (transition agent_id id f) _ db run in
    let kept = transition-Keeps agent_id id f (λ r. (refl, refl, refl)) db mid round h first in
    IsPlaced-same mid db' (ground (arith, rest)) (ground (arith, rest)) kept

-- A decline takes the round from its agent before it is written down.
declined_IsPlaced :
    (agent_id id : ℕ) (reason : String) (db db' : Db) (r : FarmVerification)
    → find id db.rounds ≡ some r
    → db'.rounds ≡ modify id hand_back db.rounds
    → db'.declines
      ≡ record { verification_id = id; agent_id = agent_id; reason = reason } ∷ db.declines
    → IsPlaced db
    → IsPlaced db'
declined_IsPlaced agent_id id reason db db' r found rounds declines h = record {
  placed = λ j s e. at j s (find-modify_inv id j hand_back db.rounds (λ x. refl) (rw (← rounds) e));
}
  where
    at :
        (j : ℕ) (s : FarmVerification)
        → ((id ≡ j) × ((x : FarmVerification) × (find j db.rounds ≡ some x) × (s ≡ hand_back x)))
          ⊎ ((id ≢ j) × (find j db.rounds ≡ some s))
        → Placed db'.declines s
    at j s (inl (e, (x, there, same))) = rw same (refl, λ a e'. absurd cc)
    at j s (inr (ne, there)) =
        let (held, free) = h.placed j s there in
        let key : s.id ≡ j = find-key j db.rounds s there in
        (held, λ a e. rw declines (ground (arith, ne, key, free a e)))

-- The rest of a decline: the round is cleared, and assigned anew.
passed_on_Keeps :
    (agent_id farm_id id : ℕ) (reason : String)
    → Keeps {A = List String} (
        audit_round agent_id farm_id "Verification declined" reason
        >> (reset_round id >>= λ keys. modify_db (λ db. (assign id none db).1) >> pure keys))
passed_on_Keeps agent_id farm_id id reason =
    then_Keeps (audit_round agent_id farm_id "Verification declined" reason) _
      (audit_round-Keeps agent_id farm_id "Verification declined" reason)
      λ _.
        then_Keeps (reset_round id) _ (λ db db' keys. reset_round-IsPlaced id db db' keys)
          λ keys.
            then_Keeps (modify_db (λ db. (assign id none db).1)) _
              (modify_Keeps (λ db. (assign id none db).1) (λ db h. assign-IsPlaced id none db h))
              λ _. pure-Keeps keys

pub decline_Keeps :
    (agent_id id : ℕ) (reason : String) → Keeps (Service.decline_tx agent_id id reason)
unfolding Service.decline_tx
decline_Keeps agent_id id reason db db' a h run =
    let (round, (mid, first, rest)) = >>=-eq-ok (transition agent_id id hand_back) _ db run in
    let (found, held, wrote_round) = transition_inv agent_id id hand_back db mid round first in
    let (u, (told, second, rest')) = >>=-eq-ok (put_decline id agent_id reason) _ mid rest in
    let told_IsPlaced =
      declined_IsPlaced agent_id id reason db told round found (ground (arith, wrote_round, second))
        (ground (arith, wrote_round, second)) h in
    passed_on_Keeps agent_id round.farm_id id reason told db' a told_IsPlaced rest'
