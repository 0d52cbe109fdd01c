-- ===== src/SourcingRequest/Synced.antt =====
-- What `syncSourcingRequest` promises (src/sourcing-request/utils/sync-sourcing-request.ts).
use laicos_backend.Prelude.{
  ℕ, ◌≡◌, refl, ap, ◌∙◌, sym, inl, inr, Option, none, some, List, [], ◌∷◌, arith, Option-cases,
}
use laicos_backend.Prelude.Table.{Keyed, find, modify, find-key, find-modify_self}
use laicos_backend.Schema.{Db, SourcingRequest, request_keyed}
use laicos_backend.SourcingRequest.Rules.{SourcingSnapshot, derive_sourcing_status}
use laicos_backend.SourcingRequest.Sync.{
  snapshot_of, synced_request, synced_requests, sync_sourcing_request,
}

modify-settled :
    {R : Type 0} ⦃k : Keyed R⦄ (i : ℕ) (f g : R → R) (t : List R) (r : R)
    → find i t ≡ some r
    → k.key (f r) ≡ i
    → g (f r) ≡ f r
    → modify i g (modify i f t) ≡ modify i f t
modify-settled i f g [] r found same settled = refl
modify-settled i f g (x ∷ t) r found same settled =
    ground (arith, modify-settled i f g t r, settled, same)

abbrev with_closed : Option ℕ → SourcingSnapshot → SourcingSnapshot
with_closed closed s = record s { closed_at = closed }

-- Deriving again from what was written derives the same status, and closes nothing a second time.
synced_request_settled :
    (now later : ℕ) (s : SourcingSnapshot) (r : SourcingRequest)
    → s.closed_at ≡ r.closed_at
    → let r' = synced_request now s r in synced_request later (with_closed r'.closed_at s) r' ≡ r'
unfolding synced_request derive_sourcing_status
synced_request_settled now later s r e = elim (Option-cases r.closed_at) [
  | inr (t, closed) ↦ ground arith
  | inl still_open ↦ elim (Option-cases s.paid_orders) [
    | inl unpaid ↦ ground arith
    | inr (paid, known) ↦ ground arith
  ]
]

synced_request_keeps :
    (now : ℕ) (s : SourcingSnapshot) (r : SourcingRequest)
    → ((synced_request now s r).id ≡ r.id)
      × ((synced_request now s r).assigned_agent_id ≡ r.assigned_agent_id)
unfolding synced_request
synced_request_keeps now s r = (ground arith, ground arith)

-- The snapshot after a rewrite differs in the closing time at most.
snapshot_after :
    (now : ℕ) (s : SourcingSnapshot) (r : SourcingRequest) (t : List SourcingRequest) (db : Db)
    → let r' = synced_request now s r in
      snapshot_of r' (record db { requests = t }) ≡ with_closed r'.closed_at (snapshot_of r db)
unfolding snapshot_of
snapshot_after now s r t db =
    let (same_id, same_agent) = synced_request_keeps now s r in rw (same_id, same_agent) refl

synced_requests-none :
    (now id : ℕ) (db : Db) → find id db.requests ≡ none → synced_requests now id db ≡ db.requests
unfolding synced_requests
synced_requests-none now id db missing = ground (arith, missing)

synced_requests-some :
    (now id : ℕ) (db : Db) (r : SourcingRequest)
    → find id db.requests ≡ some r
    → synced_requests now id db
      ≡ modify id (λ x. synced_request now (snapshot_of r db) x) db.requests
unfolding synced_requests
synced_requests-some now id db r found = rw (found, synced_requests) refl

closed_at_of : (r : SourcingRequest) (db : Db) → (snapshot_of r db).closed_at ≡ r.closed_at
unfolding snapshot_of
closed_at_of r db = refl

-- The row that a second rewrite meets is settled.
settled_row :
    (now later : ℕ) (r : SourcingRequest) (t : List SourcingRequest) (db : Db)
    → let r' = synced_request now (snapshot_of r db) r in
      synced_request later (snapshot_of r' (record db { requests = t })) r' ≡ r'
settled_row now later r t db =
    rw (snapshot_after now (snapshot_of r db) r t db)
      (synced_request_settled now later (snapshot_of r db) r (closed_at_of r db))

-- A second rewrite of the same row, in tables.
rewrite_twice :
    (i : ℕ) (f : SourcingRequest → SourcingRequest)
    (g : SourcingRequest → SourcingRequest → SourcingRequest) (t u v : List SourcingRequest)
    (r : SourcingRequest)
    → find i t ≡ some r
    → (f r).id ≡ i
    → u ≡ modify i f t
    → ((x : SourcingRequest) → find i u ≡ some x → v ≡ modify i (g x) u)
    → g (f r) (f r) ≡ f r
    → v ≡ u
rewrite_twice i f g t u v r found key written again settled =
    let step : v ≡ modify i (g (f r)) u =
      again (f r) (ap (find i) written ∙ find-modify_self i f t r key found) in
    let same : modify i (g (f r)) u ≡ modify i f t =
      ap (modify i (g (f r))) written ∙ modify-settled i f (g (f r)) t r found key settled in
    step ∙ same ∙ sym written

synced_requests_again :
    (now later id : ℕ) (db : Db)
    → synced_requests later id (sync_sourcing_request now id db) ≡ synced_requests now id db
synced_requests_again now later id db = elim (Option-cases (find id db.requests)) [
  | inl missing ↦
      synced_requests-none later id (sync_sourcing_request now id db)
        (ap (find id) (synced_requests-none now id db missing) ∙ missing)
  | inr (r, found) ↦
      rewrite_twice id (synced_request now (snapshot_of r db))
        (λ x. synced_request later (snapshot_of x (sync_sourcing_request now id db))) db.requests
        (synced_requests now id db) (synced_requests later id (sync_sourcing_request now id db)) r
        found ((synced_request_keeps now (snapshot_of r db) r).0 ∙ find-key id db.requests r found)
        (synced_requests-some now id db r found)
        (λ x e. synced_requests-some later id (sync_sourcing_request now id db) x e)
        (settled_row now later r (synced_requests now id db) db)
]

unfoldable put_requests : Db → List SourcingRequest → Db
put_requests db t = record db { requests = t }

-- Rewriting the status of a sourcing request twice in a row, at any two times, leaves the database
-- as rewriting it once does: in particular a request that closes itself keeps its closing time.
pub sync_sourcing_request_idem :
    (now later id : ℕ) (db : Db)
    → sync_sourcing_request later id (sync_sourcing_request now id db)
      ≡ sync_sourcing_request now id db
unfolding put_requests
sync_sourcing_request_idem now later id db =
    ap (put_requests db) (synced_requests_again now later id db)
