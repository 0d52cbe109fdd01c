-- ===== src/Farm/Rewritten.antt =====
-- The invariants of a farm's rounds when its documents are replaced, and when it is suspended or
-- removed (src/verification/services/farm-documents.service.ts, src/farm/services).
use mathlib.Core.Path.{subst}
use laicos_backend.Prelude.{
  ℕ, ◌≤◌, ◌≡◌, ◌≢◌, refl, sym, ap, ◌⊎◌, inl, inr, Bool, false, ◌&&◌, not, some, List, [], ◌∷◌,
  arith, ◌==◌, if◌then◌else◌, Bool-cases, Option-cases,
}
use laicos_backend.Prelude.Table.{
  find, find_many, any, modify, update_many, sum_by, find-modify_inv, sum_by-update_many,
}
use laicos_backend.Prelude.Every.{Distinct, find-find_many, find-delete, find-update_many}
use laicos_backend.Schema.{
  Db, ok, User, Farm, FarmVerificationStatus, Farmer, FarmVerification, AssignmentDecline,
  round_keyed, farm_keyed,
}
use laicos_backend.Verification.Documents.{is_tracked, refresh_round}
use laicos_backend.Verification.Assignment.{has_declined}
use laicos_backend.Verification.Service.{refresh_farm_evidence_status, farm_documents}
use laicos_backend.Verification.Placed.{IsPlaced-same}
use laicos_backend.Verification.Steps.{refresh_Keeps}
use laicos_backend.Farm.Service.{farm_documents_summary}
use laicos_backend.Farm.Documents.{
  with_identity, FarmDocumentUploads, replace_tx, with_documents, farmer_document_events,
  delete_farm, without_farm, suspend_tx, suspended,
}
use laicos_backend.Farm.InStep.{open_of, open_rounds, Matches, IsInStep, IsInStep-same}
use laicos_backend.Farm.Opened.{InOrder, InOrder-same}

refresh_InOrder :
    (farm_id : ℕ) (db : Db) → InOrder db → InOrder (refresh_farm_evidence_status farm_id db)
unfolding refresh_farm_evidence_status
refresh_InOrder farm_id db (placed, step) = (
  refresh_Keeps farm_id db placed,
  elim (Option-cases (find farm_id db.farms)) [
    | inl missing ↦ rw (missing, refresh_farm_evidence_status) step
    | inr (farm, found) ↦
        rw (found, refresh_farm_evidence_status)
          (IsInStep-same db _ refl
            (λ i.
              sum_by-update_many (open_of i) (λ r. r.farm_id == farm_id && is_tracked r.status)
                (refresh_round (farm_documents farm db)) db.rounds (λ r h. refl))
            step)
  ],
)

replaced-InStep :
    (id : ℕ) (sent : FarmDocumentUploads) (db db' : Db)
    → db'.farms ≡ modify id (with_documents sent) db.farms
    → db'.rounds ≡ db.rounds
    → IsInStep db
    → IsInStep db'
replaced-InStep id sent db db' farms rounds h = record {
  step = λ i farm e.
      at i farm (find-modify_inv id i (with_documents sent) db.farms (λ r. refl) (rw (← farms) e));
}
  where
    at :
        (i : ℕ) (farm : Farm)
        → ((id ≡ i) × ((r : Farm) × (find i db.farms ≡ some r) × (farm ≡ with_documents sent r)))
          ⊎ ((id ≢ i) × (find i db.farms ≡ some farm))
        → Matches farm.verification_status (open_rounds i db')
    at i farm (inl (same, (r, found, e))) =
        rw (e, ap (sum_by (open_of i)) rounds) (h.step i r found)
    at i farm (inr (ne, found)) = rw (ap (sum_by (open_of i)) rounds) (h.step i farm found)

-- The steps of `replace` before its refresh.
stored_documents : ℕ → ℕ → FarmDocumentUploads → Db → Db
stored_documents id owner_id sent db =
    with_identity sent.id_document owner_id
      (record db { farms = modify id (with_documents sent) db.farms })

stored_documents_tables :
    (id owner_id : ℕ) (sent : FarmDocumentUploads) (db : Db)
    → let db' = stored_documents id owner_id sent db in
      (db'.farms ≡ modify id (with_documents sent) db.farms)
      × (db'.rounds ≡ db.rounds)
      × (db'.declines ≡ db.declines)
unfolding stored_documents
stored_documents_tables id owner_id sent db = (ground arith, ground arith, ground arith)

events_tables :
    (farmer : Farmer) (farm_id : ℕ) (sent : FarmDocumentUploads) (db : Db)
    → let db' = farmer_document_events farmer farm_id sent db in
      (db'.farms ≡ db.farms) × (db'.rounds ≡ db.rounds) × (db'.declines ≡ db.declines)
unfolding farmer_document_events farm_documents_summary
events_tables farmer farm_id sent db = (ground arith, ground arith, ground arith)

replace_tx_inv :
    (user : User) (id owner_id : ℕ) (farmer : Farmer) (sent : FarmDocumentUploads) (db db' : Db)
    (u : Unit {0})
    → replace_tx user id owner_id farmer sent db ≡ ok (u, db')
    → db'
      ≡ farmer_document_events farmer id sent
          (refresh_farm_evidence_status id (stored_documents id owner_id sent db))
unfolding replace_tx stored_documents
replace_tx_inv user id owner_id farmer sent db db' u run = ground (arith, run)

pub replace_tx-InOrder :
    (user : User) (id owner_id : ℕ) (farmer : Farmer) (sent : FarmDocumentUploads) (db db' : Db)
    (u : Unit {0})
    → InOrder db
    → replace_tx user id owner_id farmer sent db ≡ ok (u, db')
    → InOrder db'
replace_tx-InOrder user id owner_id farmer sent db db' u (placed, step) run =
    let stored = stored_documents id owner_id sent db in
    let (farms, rounds, declines) = stored_documents_tables id owner_id sent db in
    let fresh = refresh_farm_evidence_status id stored in
    let (farms', rounds', declines') = events_tables farmer id sent fresh in
    subst InOrder (sym (replace_tx_inv user id owner_id farmer sent db db' u run)) (
      InOrder-same fresh (farmer_document_events farmer id sent fresh) farms' rounds' declines' (
        refresh_InOrder id stored (
          IsPlaced-same db stored rounds declines placed,
          replaced-InStep id sent db stored farms rounds step,
        )))

pub suspend_tx-InOrder :
    (id : ℕ) (db db' : Db) (u : Unit {0})
    → InOrder db
    → suspend_tx id db ≡ ok (u, db')
    → InOrder db'
unfolding suspend_tx
suspend_tx-InOrder id db db' u (placed, step) run =
    let rounds : db'.rounds ≡ db.rounds = ground (arith, run) in
    let farms : db'.farms ≡ update_many (λ farm. farm.owner_id == id) suspended db.farms =
      ground (arith, run) in
    (
      IsPlaced-same db db' rounds (ground (arith, run)) placed,
      record {
        step = λ i farm e.
            let (r, found, e') =
              find-update_many i (λ f. f.owner_id == id) suspended db.farms farm (λ f. refl)
                (rw (← farms) e) in
            subst (λ f. Matches f.verification_status (open_rounds i db')) (sym e')
              (subst
                (λ n. Matches (if r.owner_id == id then suspended r else r).verification_status n)
                (sym (ap (sum_by (open_of i)) rounds)) (at i r (step.step i r found)));
      },
    )
  where
    most : (s : FarmVerificationStatus) (n : ℕ) → Matches s n → n ≤ 1
    most FarmVerificationStatus.pending n h = omega (arith, h)
    most FarmVerificationStatus.verified n h = omega (arith, h)
    most FarmVerificationStatus.rejected n h = omega (arith, h)
    most FarmVerificationStatus.suspended n h = h

    at :
        (i : ℕ) (r : Farm)
        → Matches r.verification_status (open_rounds i db)
        → Matches
            (if r.owner_id == id then suspended r else r).verification_status
            (open_rounds i db)
    at i r h = elim (Bool-cases (r.owner_id == id)) [
      | inl his ↦ rw his (most r.verification_status (open_rounds i db) h)
      | inr other ↦ rw other h
    ]

kept_rounds :
    (id i : ℕ) (rounds : List FarmVerification)
    → i ≢ id
    → sum_by (open_of i) (find_many (λ r. not (r.farm_id == id)) rounds) ≡ sum_by (open_of i) rounds
kept_rounds id i [] ne = refl
kept_rounds id i (r ∷ rounds) ne = ground (arith, ne, kept_rounds id i rounds ne)

any_kept :
    (p q : AssignmentDecline → Bool) (declines : List AssignmentDecline)
    → any p declines ≡ false
    → any p (find_many q declines) ≡ false
any_kept p q [] h = refl
any_kept p q (d ∷ declines) h = ground (arith, any_kept p q declines)

without_farm-InOrder :
    (id : ℕ) (db : Db)
    → Distinct db.farms
    → Distinct db.rounds
    → InOrder db
    → InOrder (without_farm id db)
without_farm-InOrder id db farms rounds (placed, step) = (
  record {
    placed = λ i r e.
        let (found, kept) = find-find_many i (λ r. not (r.farm_id == id)) db.rounds r rounds e in
        let (held, free) = placed.placed i r found in
        (held, λ a same. any_kept (has_declined r.id a) _ db.declines (free a same));
  },
  record {
    step = λ i farm e.
        let (ne, found) = find-delete id i db.farms farm farms e in
        subst (Matches farm.verification_status)
          (sym (kept_rounds id i db.rounds (λ same. ne (sym same)))) (step.step i farm found);
  },
)

pub delete_farm-InOrder :
    (user_id id : ℕ) (db db' : Db) (u : Unit {0})
    → Distinct db.farms
    → Distinct db.rounds
    → InOrder db
    → delete_farm user_id id db ≡ ok (u, db')
    → InOrder db'
unfolding delete_farm
delete_farm-InOrder user_id id db db' u farms rounds h run =
    let gone : db' ≡ without_farm id db = ground (arith, run) in
    subst InOrder (sym gone) (without_farm-InOrder id db farms rounds h)
