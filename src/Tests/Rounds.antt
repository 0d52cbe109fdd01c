-- ===== src/Tests/Rounds.antt =====
-- A verification round: its agent, its documents and its checklist.
use Prim.Native.String.{String}
use laicos_backend.Prelude.{◌≡◌, refl, inl, inr, false, none, some, List, [], ◌∷◌}
use laicos_backend.Schema.{
  FarmVerification, EvidenceStatus, VerificationTaskStatus, VerificationCheckKey, CheckResult,
}
use laicos_backend.Verification.Agents.{
  AgentCandidate, pick_agent, Among, SameCandidates, pick_agent-SameCandidates,
}
use laicos_backend.Verification.Agents.Picked.{Picks, pick_agent-Picks}
use laicos_backend.Verification.Documents.{
  ExpectedDocument, FarmDocuments, upload, upload_all, stored_document_key, latest,
  next_evidence_status, documents_complete, Follows, upload_all_lem,
}
use laicos_backend.Verification.Checklist.{ChecklistState, checklist_gaps}
use laicos_backend.Verification.Checklist.Complete.{no_gap, is_complete, checklist_gaps-is_complete}

abbrev busy : AgentCandidate
busy = record { id = 1; created_at = 10; cluster_size = 4; open_tasks = 0 }

abbrev recent : AgentCandidate
recent = record { id = 2; created_at = 30; cluster_size = 2; open_tasks = 1 }

abbrev early : AgentCandidate
early = record { id = 3; created_at = 20; cluster_size = 2; open_tasks = 1 }

abbrev agents : List AgentCandidate
agents = busy ∷ recent ∷ early ∷ []

pick_run : pick_agent agents none ≡ some 3
unfolding pick_agent
pick_run = refl

abbrev turned : List AgentCandidate
turned = early ∷ recent ∷ busy ∷ []

turned_same : SameCandidates agents turned
turned_same = (to, from)
  where
    to : (a : AgentCandidate) → Among a agents → Among a turned
    to a (inl e) = inr (inr (inl e))
    to a (inr (inl e)) = inr (inl e)
    to a (inr (inr (inl e))) = inl e
    to a (inr (inr (inr m))) = absurd m

    from : (a : AgentCandidate) → Among a turned → Among a agents
    from a (inl e) = inr (inr (inl e))
    from a (inr (inl e)) = inr (inl e)
    from a (inr (inr (inl e))) = inl e
    from a (inr (inr (inr m))) = absurd m

pick_agent-SameCandidates_example : pick_agent agents none ≡ pick_agent turned none
pick_agent-SameCandidates_example = pick_agent-SameCandidates agents turned none turned_same

-- The agent of the previous round has left the list.
pick_agent-Picks_example : Picks agents (some 7) (pick_agent agents (some 7))
pick_agent-Picks_example = pick_agent-Picks agents (some 7)

abbrev farm : FarmDocuments
farm = record { id_document_key = some "id"; ownership_document_key = some "deed" }

abbrev begun : FarmVerification
begun = record {
  id = 51;
  farm_id = 3;
  agent_id = some 3;
  status = VerificationTaskStatus.in_progress;
  location_matches = none;
  discrepancy_lat = none;
  discrepancy_lng = none;
  discrepancy_note = none;
  identity_note = none;
  measured_size = none;
  estimated_yield = none;
  estimated_yield_unit = none;
  general_note = none;
  rejection_reason = none;
  evidence_status = EvidenceStatus.missing_docs;
  documents = record {
    location_evidence_key = some "gate";
    production_evidence_key = none;
    farm_plot_sketch_key = some "plot";
    harvest_estimate_key = some "yield";
  };
  information_request_note = none;
  information_requested_at = none;
  started_at = some 200;
  decided_at = none;
  created_at = 100;
}

abbrev sent : ExpectedDocument × String
sent = (ExpectedDocument.production_evidence, "maize")

upload_run : (upload_all farm begun (sent ∷ [])).evidence_status ≡ EvidenceStatus.incomplete
unfolding upload_all upload
upload_run = refl

upload_all_example :
    let after = upload_all farm begun (sent ∷ (ExpectedDocument.location_evidence, "road") ∷ []) in
    ((w : ExpectedDocument)
      → stored_document_key after.documents w
        ≡ latest w
            (stored_document_key begun.documents w)
            (sent ∷ (ExpectedDocument.location_evidence, "road") ∷ []))
    × (after.evidence_status
        ≡ next_evidence_status begun.evidence_status (documents_complete farm after.documents))
    × Follows begun.evidence_status (documents_complete farm after.documents) after.evidence_status
upload_all_example =
    upload_all_lem farm begun sent ((ExpectedDocument.location_evidence, "road") ∷ [])

abbrev visited : ChecklistState
visited = record {
  documents = begun.documents;
  location_matches = some false;
  discrepancy_lat = some "6.5";
  discrepancy_lng = none;
  discrepancy_note = some "Across the river";
  identity_note = some "Seen";
  general_note = none;
  checks =
      record { key = VerificationCheckKey.farmer_id; result = CheckResult.issue; note = none } ∷ [];
  evidence = [];
  farm = farm;
}

gaps_run : no_gap (checklist_gaps visited) ≡ false
unfolding checklist_gaps
gaps_run = refl

checklist_gaps-is_complete_example : no_gap (checklist_gaps visited) ≡ is_complete visited
checklist_gaps-is_complete_example = checklist_gaps-is_complete visited
