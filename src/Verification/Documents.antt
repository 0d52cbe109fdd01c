-- ===== src/Verification/Documents.antt =====
-- src/verification/utils/expected-document.ts and evidence-status.ts: the files that a round
-- collects, and the evidence status that follows them. `Boolean(key)` is false of an empty text.
use Prim.Native.String.{String}
use mathlib.Core.Path.{subst}
use text.Mathlib.Text.{◌==◌ as str_eq}
use laicos_backend.Schema.{RoundDocuments, EvidenceStatus, VerificationTaskStatus, FarmVerification}
use laicos_backend.Prelude.{
  ◌≡◌, refl, sym, ◌∙◌, ap, Bool, true, false, Option, none, some, List, [], ◌∷◌, ◌&&◌, not, arith,
  if◌then◌else◌,
}

pub data ExpectedDocument : Type 0 where
  location_evidence production_evidence farm_plot_sketch harvest_estimate : ExpectedDocument

-- The write of `documentUpdate`.
abbrev pub document_update : ExpectedDocument → String → RoundDocuments → RoundDocuments
document_update ExpectedDocument.location_evidence key r = record r {
  location_evidence_key = some key;
}
document_update ExpectedDocument.production_evidence key r = record r {
  production_evidence_key = some key;
}
document_update ExpectedDocument.farm_plot_sketch key r = record r {
  farm_plot_sketch_key = some key;
}
document_update ExpectedDocument.harvest_estimate key r = record r {
  harvest_estimate_key = some key;
}

-- `storedDocumentKey`.
abbrev pub stored_document_key : RoundDocuments → ExpectedDocument → Option String
stored_document_key r ExpectedDocument.location_evidence = r.location_evidence_key
stored_document_key r ExpectedDocument.production_evidence = r.production_evidence_key
stored_document_key r ExpectedDocument.farm_plot_sketch = r.farm_plot_sketch_key
stored_document_key r ExpectedDocument.harvest_estimate = r.harvest_estimate_key

abbrev pub is_given : Option String → Bool
is_given none = false
is_given (some text) = not (str_eq text "")

-- `TRACKED`.
abbrev pub is_tracked : VerificationTaskStatus → Bool
is_tracked VerificationTaskStatus.unassigned = true
is_tracked VerificationTaskStatus.assigned = true
is_tracked VerificationTaskStatus.in_progress = true
is_tracked _ = false

-- The documents that the farmer and the farm hold.
pub record FarmDocuments : Type 0 where
  pub id_document_key : Option String
  pub ownership_document_key : Option String

-- `documentsComplete`.
abbrev pub documents_complete : FarmDocuments → RoundDocuments → Bool
documents_complete farm r =
    is_given farm.id_document_key
    && is_given farm.ownership_document_key
    && is_given r.location_evidence_key
    && is_given r.production_evidence_key
    && is_given r.farm_plot_sketch_key
    && is_given r.harvest_estimate_key

abbrev pub is_chosen : EvidenceStatus → Bool
is_chosen EvidenceStatus.awaiting_docs = true
is_chosen EvidenceStatus.follow_up = true
is_chosen _ = false

-- `nextEvidenceStatus`.
abbrev pub next_evidence_status : EvidenceStatus → Bool → EvidenceStatus
next_evidence_status current complete =
    if is_chosen current
    then current
    else if complete
    then EvidenceStatus.incomplete
    else EvidenceStatus.missing_docs

abbrev pub refresh_round : FarmDocuments → FarmVerification → FarmVerification
refresh_round farm r = record r {
  evidence_status = next_evidence_status r.evidence_status (documents_complete farm r.documents);
}

-- An upload to an open round: the document, and the refresh after it.
unfoldable pub upload :
    FarmDocuments → FarmVerification → ExpectedDocument × String → FarmVerification
upload farm r (document, key) =
    refresh_round farm (record r { documents = document_update document key r.documents })

unfoldable pub upload_all :
    FarmDocuments → FarmVerification → List (ExpectedDocument × String) → FarmVerification
upload_all farm r [] = r
upload_all farm r (u ∷ us) = upload_all farm (upload farm r u) us

abbrev pub is_same : ExpectedDocument → ExpectedDocument → Bool
is_same ExpectedDocument.location_evidence ExpectedDocument.location_evidence = true
is_same ExpectedDocument.production_evidence ExpectedDocument.production_evidence = true
is_same ExpectedDocument.farm_plot_sketch ExpectedDocument.farm_plot_sketch = true
is_same ExpectedDocument.harvest_estimate ExpectedDocument.harvest_estimate = true
is_same _ _ = false

-- The last upload of a document, or what was there before.
abbrev pub latest :
    ExpectedDocument → Option String → List (ExpectedDocument × String) → Option String
latest wanted old [] = old
latest wanted old ((document, key) ∷ us) =
    latest wanted (if is_same document wanted then some key else old) us

stored-update :
    (d w : ExpectedDocument) (key : String) (r : RoundDocuments)
    → stored_document_key (document_update d key r) w
      ≡ (if is_same d w then some key else stored_document_key r w)
stored-update d w key r = ground arith

stored-upload_all :
    (farm : FarmDocuments) (w : ExpectedDocument) (us : List (ExpectedDocument × String))
    (r : FarmVerification)
    → stored_document_key (upload_all farm r us).documents w
      ≡ latest w (stored_document_key r.documents w) us
unfolding upload_all upload
stored-upload_all farm w [] r = refl
stored-upload_all farm w ((d, key) ∷ us) r =
    stored-upload_all farm w us (upload farm r (d, key))
    ∙ ap (λ old. latest w old us) (stored-update d w key r.documents)

next-next :
    (s : EvidenceStatus) (c d : Bool)
    → next_evidence_status (next_evidence_status s c) d ≡ next_evidence_status s d
next-next s c d = ground arith

status-upload_all :
    (farm : FarmDocuments) (us : List (ExpectedDocument × String)) (r : FarmVerification)
    (s : EvidenceStatus)
    → r.evidence_status ≡ next_evidence_status s (documents_complete farm r.documents)
    → (upload_all farm r us).evidence_status
      ≡ next_evidence_status s (documents_complete farm (upload_all farm r us).documents)
unfolding upload_all upload
status-upload_all farm [] r s h = h
status-upload_all farm ((d, key) ∷ us) r s h =
    status-upload_all farm us (upload farm r (d, key)) s (
      ap (λ t. next_evidence_status t (documents_complete farm (document_update d key r.documents)))
        h
      ∙ next-next s _ _)

-- The evidence status after uploads: what an agent chose stays, the others say whether every
-- document is stored.
abbrev pub Follows : EvidenceStatus → Bool → EvidenceStatus → Type 0
Follows EvidenceStatus.awaiting_docs complete s = s ≡ EvidenceStatus.awaiting_docs
Follows EvidenceStatus.follow_up complete s = s ≡ EvidenceStatus.follow_up
Follows _ true s = s ≡ EvidenceStatus.incomplete
Follows _ false s = s ≡ EvidenceStatus.missing_docs

next_evidence_status-Follows :
    (s : EvidenceStatus) (complete : Bool) → Follows s complete (next_evidence_status s complete)
next_evidence_status-Follows EvidenceStatus.awaiting_docs complete = refl
next_evidence_status-Follows EvidenceStatus.follow_up complete = refl
next_evidence_status-Follows EvidenceStatus.missing_docs true = refl
next_evidence_status-Follows EvidenceStatus.missing_docs false = refl
next_evidence_status-Follows EvidenceStatus.incomplete true = refl
next_evidence_status-Follows EvidenceStatus.incomplete false = refl

-- After a sequence of one or more uploads to a round, with the refresh that follows each, every
-- document reads back as its last upload or as it was before, and the evidence status is what the
-- first status and the documents at the end give: awaiting documents and follow-up stay, and
-- otherwise it says whether every document is stored.
pub upload_all_lem :
    (farm : FarmDocuments) (r : FarmVerification) (u : ExpectedDocument × String)
    (us : List (ExpectedDocument × String))
    → let after = upload_all farm r (u ∷ us) in
      ((w : ExpectedDocument)
        → stored_document_key after.documents w
          ≡ latest w (stored_document_key r.documents w) (u ∷ us))
      × (after.evidence_status
          ≡ next_evidence_status r.evidence_status (documents_complete farm after.documents))
      × Follows r.evidence_status (documents_complete farm after.documents) after.evidence_status
unfolding upload_all upload
upload_all_lem farm r u us =
    let status = status-upload_all farm us (upload farm r u) r.evidence_status refl in
    let complete = documents_complete farm (upload_all farm r (u ∷ us)).documents in
    (
      λ w. stored-upload_all farm w (u ∷ us) r,
      status,
      subst (Follows r.evidence_status complete) (sym status)
          (next_evidence_status-Follows r.evidence_status complete),
    )
