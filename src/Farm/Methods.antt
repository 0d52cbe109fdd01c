-- ===== src/Farm/Methods.antt =====
-- What every method that writes a farm keeps (src/farm/services and
-- src/verification/services/farm-documents.service.ts).
use Prim.Native.String.{String}
use laicos_backend.Prelude.{
  ℕ, ◌≡◌, inl, inr, ◌&&◌, ◌||◌, not, Option, Bool-cases, Option-cases, is_some,
}
use laicos_backend.Prelude.Table.{find_first}
use laicos_backend.Prelude.Every.{Distinct}
use laicos_backend.Schema.{
  Db, Tx, ok, User, round_keyed, farm_keyed, transaction, map_error, Failure, is_farm_verified,
}
use laicos_backend.Order.Service.Frames.{transaction_keeps, map_error_keeps}
use laicos_backend.Verification.Documents.{is_given}
use laicos_backend.Verification.Placed.{IsPlaced}
use laicos_backend.Produce.Service.{given_or}
use laicos_backend.Farm.Service
use laicos_backend.Farm.Service.{
  find_farmer, lga_exists, farm_event, CreateFarmDto, create_tx, insert_farm, new_farm,
  is_open_round, open_farm_round, farm_save_error, farm_documents_summary,
}
use laicos_backend.Farm.Update.{
  is_own, edited, UpdateFarmDto, update_tx, update_own_farm, updated_farm, is_reopened, is_moved,
  lga_changed, route_round, reassign_open_round, start_over, drop_declines, latest_round, agent_of,
}
use laicos_backend.Farm.Update
use laicos_backend.Farm.Documents
use laicos_backend.Farm.Documents.{
  with_identity, locked_error, farm_delete_error, is_nothing, FarmDocumentUploads, replace_tx,
  with_documents, farmer_document_events, delete_farm, without_farm, suspend_tx, suspended,
}
use laicos_backend.Farm.InStep.{IsInStep}
use laicos_backend.Farm.Opened.{InOrder, create_tx-InOrder}
use laicos_backend.Farm.Updated.{update_tx-InOrder}
use laicos_backend.Farm.Rewritten.{replace_tx-InOrder, suspend_tx-InOrder, delete_farm-InOrder}

-- The methods that write farms. `seen` is what each reads before its transaction.
pub data FarmCall : Type 0 where
  create : User → CreateFarmDto → Option String → Option String → FarmCall
  update : User → ℕ → UpdateFarmDto → FarmCall
  replace_documents : User → ℕ → FarmDocumentUploads → FarmCall
  remove : User → ℕ → FarmCall
  suspend : ℕ → FarmCall

unfoldable pub after_farm_call : ℕ → FarmCall → Db → Db → Db
after_farm_call now (FarmCall.create user dto ownership_key chief_key) seen db =
    (Service.create now user dto ownership_key chief_key seen db).1
after_farm_call now (FarmCall.update user id dto) seen db =
    (Update.update now user id dto seen db).1
after_farm_call now (FarmCall.replace_documents user id sent) seen db =
    (Documents.replace_documents user id sent seen db).1
after_farm_call now (FarmCall.remove user id) seen db = (Documents.remove user id seen db).1
after_farm_call now (FarmCall.suspend id) seen db = (Documents.suspend id db).1

committed :
    {A : Type 0} (f : Failure → Failure) (body : Tx A) (db : Db)
    → InOrder db
    → ((a : A) (db' : Db) → body db ≡ ok (a, db') → InOrder db')
    → InOrder (map_error f (transaction body db)).1
committed f body db h keep =
    map_error_keeps InOrder f (transaction body db) (transaction_keeps InOrder body db h keep)

create-InOrder :
    (now : ℕ) (user : User) (dto : CreateFarmDto) (ownership_key chief_key : Option String)
    (seen db : Db)
    → InOrder db
    → InOrder (Service.create now user dto ownership_key chief_key seen db).1
unfolding Service.create
create-InOrder now user dto ownership_key chief_key seen db h =
    elim (Option-cases (find_farmer user.id seen)) [
      | inl missing ↦ rw (missing, Service.create) h
      | inr (farmer, found) ↦
          rw (found, Service.create)
            (elim (Bool-cases (not (is_given farmer.id_document_key))) [
              | inl lacking ↦ rw lacking h
              | inr given ↦
                  rw given (elim (Bool-cases (not (lga_exists dto.state_id dto.lga_id seen))) [
                    | inl invalid ↦ rw invalid h
                    | inr valid ↦ rw valid (
                        committed farm_save_error (create_tx now farmer dto ownership_key chief_key)
                          db h
                          (λ u db' run.
                            create_tx-InOrder now farmer dto ownership_key chief_key db db' u h
                              run))
                  ])
            ])
    ]

update-InOrder :
    (now : ℕ) (user : User) (id : ℕ) (dto : UpdateFarmDto) (seen db : Db)
    → Distinct db.rounds
    → InOrder db
    → InOrder (Update.update now user id dto seen db).1
unfolding Update.update
update-InOrder now user id dto seen db distinct h =
    elim (Option-cases (find_first (is_own user.id id) seen.farms)) [
      | inl missing ↦ rw (missing, Update.update) h
      | inr (current, found) ↦
          rw (found, Update.update)
            (elim (Bool-cases (
              (is_some dto.state_id || is_some dto.lga_id)
              && not (
                  lga_exists (given_or dto.state_id current.state_id)
                    (given_or dto.lga_id current.lga_id) seen))) [
                      | inl invalid ↦ rw invalid h
                      | inr valid ↦ rw valid (
                          committed farm_save_error (update_tx now user id current dto) db h
                            (λ keys db' run.
                              update_tx-InOrder now user id current dto db db' keys distinct h run))
                    ])
    ]

replace_documents-InOrder :
    (user : User) (id : ℕ) (sent : FarmDocumentUploads) (seen db : Db)
    → InOrder db
    → InOrder (Documents.replace_documents user id sent seen db).1
unfolding Documents.replace_documents
replace_documents-InOrder user id sent seen db h = elim (Option-cases (find_farmer user.id seen)) [
  | inl missing ↦ rw (missing, Documents.replace_documents) h
  | inr (farmer, found) ↦
      rw (found, Documents.replace_documents)
        (elim (Bool-cases (is_nothing sent)) [
          | inl nothing ↦ rw nothing h
          | inr something ↦
              rw something (elim (Option-cases (find_first (is_own user.id id) seen.farms)) [
                | inl missing ↦ rw missing h
                | inr (current, there) ↦
                    rw there (elim (Bool-cases (is_farm_verified current.verification_status)) [
                      | inl locked ↦ rw locked h
                      | inr free ↦ rw free (
                          committed locked_error (replace_tx user id current.owner_id farmer sent)
                            db h
                            (λ u db' run.
                              replace_tx-InOrder user id current.owner_id farmer sent db db' u h
                                run))
                    ])
              ])
        ])
]

remove-InOrder :
    (user : User) (id : ℕ) (seen db : Db)
    → Distinct db.farms
    → Distinct db.rounds
    → InOrder db
    → InOrder (Documents.remove user id seen db).1
unfolding Documents.remove
remove-InOrder user id seen db farms rounds h =
    elim (Option-cases (find_first (is_own user.id id) seen.farms)) [
      | inl missing ↦ rw (missing, Documents.remove) h
      | inr (farm, found) ↦
          rw (found, Documents.remove)
            (committed farm_delete_error (delete_farm user.id id) db h
              (λ u db' run. delete_farm-InOrder user.id id db db' u farms rounds h run))
    ]

-- Where farm and round ids are distinct, creating, editing, removing and suspending farms and
-- replacing their documents, on every branch and whatever a method read before its transaction,
-- keeps two invariants: every round has an agent unless it is unassigned, and never one who
-- declined it; and a pending farm has exactly one open round, a verified or rejected farm none, a
-- suspended farm at most one.
pub after_farm_call-InOrder :
    (now : ℕ) (call : FarmCall) (seen db : Db)
    → Distinct db.farms
    → Distinct db.rounds
    → IsPlaced db × IsInStep db
    → IsPlaced (after_farm_call now call seen db) × IsInStep (after_farm_call now call seen db)
unfolding after_farm_call Documents.suspend
after_farm_call-InOrder now (FarmCall.create user dto ownership_key chief_key) seen db farms rounds
      h =
    create-InOrder now user dto ownership_key chief_key seen db h
after_farm_call-InOrder now (FarmCall.update user id dto) seen db farms rounds h =
    update-InOrder now user id dto seen db rounds h
after_farm_call-InOrder now (FarmCall.replace_documents user id sent) seen db farms rounds h =
    replace_documents-InOrder user id sent seen db h
after_farm_call-InOrder now (FarmCall.remove user id) seen db farms rounds h =
    remove-InOrder user id seen db farms rounds h
after_farm_call-InOrder now (FarmCall.suspend id) seen db farms rounds h =
    transaction_keeps InOrder (suspend_tx id) db h λ u db' run. suspend_tx-InOrder id db db' u h run
