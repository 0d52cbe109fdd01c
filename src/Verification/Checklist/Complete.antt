-- ===== src/Verification/Checklist/Complete.antt =====
-- A checklist has no gap exactly when it is complete.
use laicos_backend.Prelude.{
  ◌≡◌, refl, ◌∙◌, Bool, true, false, none, some, List, [], ◌∷◌, ◌++◌, ◌&&◌, ◌||◌, not, arith,
  is_some,
}
use laicos_backend.Prelude.Table.{all}
use laicos_backend.Verification.Documents.{is_given, documents_complete}
use laicos_backend.Schema.{VerificationCheckKey}
use laicos_backend.Verification.Checklist.{
  check_keys, is_issue, ChecklistState, Gap, check_of, has_evidence, push_unless, location_gaps,
  check_gaps, gaps_of, missing, document_tests, checklist_gaps,
}

abbrev pub no_gap : List Gap → Bool
no_gap [] = true
no_gap (_ ∷ _) = false

-- The location is recorded, with what a mismatch needs.
abbrev pub is_located : ChecklistState → Bool
is_located round = elim round.location_matches [
  | none ↦ false
  | some matches ↦
      matches
      || is_some round.discrepancy_lat
        && is_some round.discrepancy_lng
        && is_given round.discrepancy_note
]

-- The check is recorded, with a note and a photo if it found an issue.
abbrev pub is_settled : ChecklistState → VerificationCheckKey → Bool
is_settled round key = elim (check_of key round.checks) [
  | none ↦ false
  | some c ↦ not (is_issue c.result) || is_given c.note && has_evidence key round.evidence
]

-- Everything that an approval needs.
abbrev pub is_complete : ChecklistState → Bool
is_complete round =
    is_located round
    && (all (is_settled round) check_keys
        && (documents_complete round.farm round.documents
            && is_given round.identity_note
            && is_given round.general_note))

no_gap-append : (xs ys : List Gap) → no_gap (xs ++ ys) ≡ no_gap xs && no_gap ys
no_gap-append [] ys = refl
no_gap-append (x ∷ xs) ys = refl

no_gap-push_unless : (b : Bool) (gap : Gap) → no_gap (push_unless b gap) ≡ b
no_gap-push_unless true gap = refl
no_gap-push_unless false gap = refl

no_gap-location_gaps : (round : ChecklistState) → no_gap (location_gaps round) ≡ is_located round
no_gap-location_gaps round = ground arith

no_gap-check_gaps :
    (round : ChecklistState) (key : VerificationCheckKey)
    → no_gap (check_gaps round key) ≡ is_settled round key
no_gap-check_gaps round key = ground arith

no_gap-gaps_of :
    (round : ChecklistState) (keys : List VerificationCheckKey)
    → no_gap (gaps_of round keys) ≡ all (is_settled round) keys
no_gap-gaps_of round [] = refl
no_gap-gaps_of round (key ∷ keys) =
    rw
      (
        no_gap-append (check_gaps round key) (gaps_of round keys),
        no_gap-check_gaps round key,
        no_gap-gaps_of round keys,
      )
      refl

no_gap-both :
    (xs ys : List Gap) (b c : Bool) → no_gap xs ≡ b → no_gap ys ≡ c → no_gap (xs ++ ys) ≡ b && c
no_gap-both xs ys b c x y = rw (no_gap-append xs ys, x, y) refl

no_gap-missing : (tests : List (Bool × Gap)) → no_gap (missing tests) ≡ all (λ test. test.0) tests
no_gap-missing [] = refl
no_gap-missing ((ok, gap) ∷ rest) =
    no_gap-both (push_unless ok gap) (missing rest) _ _ (no_gap-push_unless ok gap)
      (no_gap-missing rest)

no_gap-document_tests :
    (round : ChecklistState)
    → no_gap (missing (document_tests round))
      ≡ documents_complete round.farm round.documents
        && is_given round.identity_note
        && is_given round.general_note
no_gap-document_tests round =
    no_gap-missing (document_tests round)
    ∙ reorder (is_given round.farm.id_document_key) (is_given round.farm.ownership_document_key)
        (is_given round.identity_note) (is_given round.documents.location_evidence_key)
        (is_given round.documents.production_evidence_key)
        (is_given round.documents.farm_plot_sketch_key)
        (is_given round.documents.harvest_estimate_key) (is_given round.general_note)
  where
    reorder :
        (f o i l p k h g : Bool)
        → f && (o && (i && (l && (p && (k && (h && (g && true)))))))
          ≡ (f && o && l && p && k && h) && i && g
    reorder f o i l p k h g = ground arith

-- A round has no checklist gap exactly when its location is settled, each of the nine checks is
-- recorded with a note and a photo if it found an issue, all six documents are stored, and both
-- notes are written.
pub checklist_gaps-is_complete :
    (round : ChecklistState) → no_gap (checklist_gaps round) ≡ is_complete round
unfolding checklist_gaps
checklist_gaps-is_complete round =
    no_gap-both (location_gaps round) (gaps_of round check_keys ++ missing (document_tests round)) _
      _ (no_gap-location_gaps round)
      (no_gap-both (gaps_of round check_keys) (missing (document_tests round)) _ _
        (no_gap-gaps_of round check_keys) (no_gap-document_tests round))
