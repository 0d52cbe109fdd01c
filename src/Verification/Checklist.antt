-- ===== src/Verification/Checklist.antt =====
-- src/verification/utils/checklist.ts. Each message is a constructor of `Gap`.
pub mod Complete
use Prim.Native.String.{String}
use laicos_backend.Prelude.{
  ℕ, ◌≡◌, refl, sym, ◌∙◌, ap, inl, inr, Bool, true, false, Option, none, some, List, [], ◌∷◌, ◌++◌,
  ◌&&◌, ◌||◌, not, arith, is_some, ◌==◌, if◌then◌else◌, Bool-cases, Option-cases,
}
use laicos_backend.Prelude.Table.{any, all}
use laicos_backend.Schema.{RoundDocuments, VerificationCheckKey, CheckResult, EvidenceKind}
use laicos_backend.Verification.Documents.{FarmDocuments, is_given, documents_complete}

-- `Object.values(VerificationCheckKey)`.
abbrev pub check_keys : List VerificationCheckKey
check_keys =
    VerificationCheckKey.farmer_id ∷ VerificationCheckKey.farm_ownership
    ∷ VerificationCheckKey.chief_confirmation ∷ VerificationCheckKey.farm_active
    ∷ VerificationCheckKey.access_route ∷ VerificationCheckKey.measurements
    ∷ VerificationCheckKey.declared_produce ∷ VerificationCheckKey.crop_health
    ∷ VerificationCheckKey.estimated_yield ∷ []

-- A key's place in the enum, to compare keys by.
abbrev pub place_of : VerificationCheckKey → ℕ
place_of VerificationCheckKey.farmer_id = 0
place_of VerificationCheckKey.farm_ownership = 1
place_of VerificationCheckKey.chief_confirmation = 2
place_of VerificationCheckKey.farm_active = 3
place_of VerificationCheckKey.access_route = 4
place_of VerificationCheckKey.measurements = 5
place_of VerificationCheckKey.declared_produce = 6
place_of VerificationCheckKey.crop_health = 7
place_of VerificationCheckKey.estimated_yield = 8

abbrev pub is_identity : VerificationCheckKey → Bool
is_identity VerificationCheckKey.farmer_id = true
is_identity VerificationCheckKey.farm_ownership = true
is_identity VerificationCheckKey.chief_confirmation = true
is_identity _ = false

-- `isResultAllowed`.
abbrev pub is_result_allowed : VerificationCheckKey → CheckResult → Bool
is_result_allowed key CheckResult.verified = true
is_result_allowed key CheckResult.issue = true
is_result_allowed key CheckResult.unable = is_identity key
is_result_allowed key CheckResult.not_applicable = not (is_identity key)

abbrev pub is_issue : CheckResult → Bool
is_issue CheckResult.issue = true
is_issue _ = false

abbrev pub is_check_evidence : EvidenceKind → Bool
is_check_evidence EvidenceKind.check = true
is_check_evidence _ = false

pub record Check : Type 0 where
  pub key : VerificationCheckKey
  pub result : CheckResult
  pub note : Option String

pub record Evidence : Type 0 where
  pub kind : EvidenceKind
  pub check_key : Option VerificationCheckKey

-- Coordinates are asked for and not read, so they are the decimals' texts.
pub record ChecklistState : Type 0 where
  pub documents : RoundDocuments
  pub location_matches : Option Bool
  pub discrepancy_lat : Option String
  pub discrepancy_lng : Option String
  pub discrepancy_note : Option String
  pub identity_note : Option String
  pub general_note : Option String
  pub checks : List Check
  pub evidence : List Evidence
  pub farm : FarmDocuments

pub data Gap : Type 0 where
  location_missing discrepancy_incomplete : Gap
  check_missing note_missing evidence_missing : VerificationCheckKey → Gap
  farmer_id_missing ownership_missing identity_note_missing : Gap
  location_evidence_missing production_evidence_missing sketch_missing : Gap
  harvest_estimate_missing general_note_missing : Gap

abbrev pub same_key : VerificationCheckKey → Option VerificationCheckKey → Bool
same_key key none = false
same_key key (some other) = place_of other == place_of key

-- `checks.get(key)` of the map of the checks: a later one replaces an earlier.
abbrev pub check_of : VerificationCheckKey → List Check → Option Check
check_of key [] = none
check_of key (c ∷ checks) = elim (check_of key checks) [
  | some later ↦ some later
  | none ↦ if place_of c.key == place_of key then some c else none
]

abbrev pub has_evidence : VerificationCheckKey → List Evidence → Bool
has_evidence key = any (λ item. is_check_evidence item.kind && same_key key item.check_key)

-- `if (!ok) gaps.push(gap)`.
abbrev pub push_unless : Bool → Gap → List Gap
push_unless true gap = []
push_unless false gap = gap ∷ []

abbrev pub location_gaps : ChecklistState → List Gap
location_gaps round = elim round.location_matches [
  | none ↦ Gap.location_missing ∷ []
  | some matches ↦
      push_unless
        (matches
          || is_some round.discrepancy_lat
            && is_some round.discrepancy_lng
            && is_given round.discrepancy_note)
        Gap.discrepancy_incomplete
]

abbrev pub check_gaps : ChecklistState → VerificationCheckKey → List Gap
check_gaps round key = elim (check_of key round.checks) [
  | none ↦ Gap.check_missing key ∷ []
  | some c ↦
      if is_issue c.result
      then push_unless (is_given c.note) (Gap.note_missing key)
        ++ push_unless (has_evidence key round.evidence) (Gap.evidence_missing key)
      else []
]

abbrev pub gaps_of : ChecklistState → List VerificationCheckKey → List Gap
gaps_of round [] = []
gaps_of round (key ∷ keys) = check_gaps round key ++ gaps_of round keys

-- The messages of a sequence of such tests.
abbrev pub missing : List (Bool × Gap) → List Gap
missing [] = []
missing ((ok, gap) ∷ rest) = push_unless ok gap ++ missing rest

-- What the documents and the notes miss, in order.
abbrev pub document_tests : ChecklistState → List (Bool × Gap)
document_tests round =
    (is_given round.farm.id_document_key, Gap.farmer_id_missing)
    ∷ (is_given round.farm.ownership_document_key, Gap.ownership_missing)
    ∷ (is_given round.identity_note, Gap.identity_note_missing)
    ∷ (is_given round.documents.location_evidence_key, Gap.location_evidence_missing)
    ∷ (is_given round.documents.production_evidence_key, Gap.production_evidence_missing)
    ∷ (is_given round.documents.farm_plot_sketch_key, Gap.sketch_missing)
    ∷ (is_given round.documents.harvest_estimate_key, Gap.harvest_estimate_missing)
    ∷ (is_given round.general_note, Gap.general_note_missing)
    ∷ []

-- `checklistGaps`.
unfoldable pub checklist_gaps : ChecklistState → List Gap
checklist_gaps round =
    location_gaps round ++ (gaps_of round check_keys ++ missing (document_tests round))
