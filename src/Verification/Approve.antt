-- ===== src/Verification/Approve.antt =====
-- What `approve` of src/verification/services/verification.service.ts asks for, and what it makes of
-- the farm.
use laicos_backend.Prelude.{
  ℕ, ◌≡◌, ◌≢◌, refl, ap, ◌∙◌, ◌⊎◌, inl, inr, true, false, none, some, List, [], ◌∷◌, arith, ◌==◌,
  if◌then◌else◌, Option-cases, Bool-cases,
}
use laicos_backend.Prelude.Table.{
  find, modify, update_many, find-key, find-modify_self, find-modify_ne, find-update_many,
}
use laicos_backend.Schema.{
  Db, ok, Agent, Farm, FarmVerificationStatus, FarmVerification, VerificationTaskStatus, Farmer,
  FarmerStatus, Order, OrderHandover, HandoverStatus, round_keyed, farm_keyed, agent_keyed,
  farmer_keyed, handover_keyed, order_keyed,
}
use laicos_backend.Verification.Assignment.{is_open_task}
use laicos_backend.Verification.Checklist.{Gap, checklist_gaps}
use laicos_backend.Verification.Checklist.Complete.{no_gap, is_complete, checklist_gaps-is_complete}
use laicos_backend.Verification.Service.{
  own_round, require_open, transition, has_gap, checklist_state, farm_documents, verify_farm,
  decide, activate, waits_for_agent, is_open_handover, approve_round, approve_tx,
}
use laicos_backend.Verification.Steps.{own_round_inv}

-- What was so when an approval went through, and the rows that it leaves.
pub record IsApproval (now agent_id id : ℕ) (db db' : Db) : Type 0 where
  pub round : FarmVerification
  pub found : find id db.rounds ≡ some round
  pub own : round.agent_id ≡ some agent_id
  pub was_open :
      (round.status ≡ VerificationTaskStatus.assigned)
      ⊎ (round.status ≡ VerificationTaskStatus.in_progress)
  pub agent : Agent
  pub known : find agent_id db.agents ≡ some agent
  pub has_cluster : agent.has_cluster ≡ true
  pub farm : Farm
  pub its_farm : find round.farm_id db.farms ≡ some farm
  pub complete : is_complete (checklist_state round (farm_documents farm db) db) ≡ true
  pub approved :
      find id db'.rounds
      ≡ some (record round { status = VerificationTaskStatus.approved; decided_at = some now })
  pub verified :
      find round.farm_id db'.farms
      ≡ some (record farm {
        verification_status = FarmVerificationStatus.verified;
        cluster_agent_id = some agent_id;
        is_clustered = true;
      })
  pub other_rounds : (j : ℕ) → j ≢ id → find j db'.rounds ≡ find j db.rounds
  pub other_farms : (j : ℕ) → j ≢ round.farm_id → find j db'.farms ≡ find j db.farms
  pub farmer : Farmer
  pub owner : find farm.owner_id db.farmers ≡ some farmer
  pub active :
      find farm.owner_id db'.farmers ≡ some (record farmer { status = FarmerStatus.active })
  pub given :
      (i : ℕ) (h : OrderHandover) (o : Order)
      → find i db.handovers ≡ some h
      → h.agent_id ≡ none
      → (h.status ≡ HandoverStatus.pending) ⊎ (h.status ≡ HandoverStatus.verified)
      → find h.order_id db.orders ≡ some o
      → o.farm_id ≡ round.farm_id
      → find i db'.handovers ≡ some (record h { agent_id = some agent_id })
  pub kept :
      (i a : ℕ) (h : OrderHandover)
      → find i db.handovers ≡ some h
      → h.agent_id ≡ some a
      → find i db'.handovers ≡ some h

has_gap_not : (gaps : List Gap) → has_gap gaps ≡ false → no_gap gaps ≡ true
has_gap_not [] h = refl
has_gap_not (g ∷ gaps) h = absurd cc

-- The writes of an approval, and what it looks up.
record Writes (now agent_id id : ℕ) (round : FarmVerification) (farm : Farm) (db db' : Db)
    : Type 0 where
  was_open : is_open_task round.status ≡ true
  agent : Agent
  known : find agent_id db.agents ≡ some agent
  has_cluster : agent.has_cluster ≡ true
  farmer : Farmer
  owner : find farm.owner_id db.farmers ≡ some farmer
  rounds : db'.rounds ≡ modify id (decide VerificationTaskStatus.approved none now) db.rounds
  farms : db'.farms ≡ modify round.farm_id (verify_farm agent_id) db.farms
  farmers : db'.farmers ≡ modify farm.owner_id activate db.farmers
  handovers :
      db'.handovers
      ≡ update_many
          (waits_for_agent round.farm_id db)
          (λ h. record h { agent_id = some agent_id })
          db.handovers

approve_round-Writes :
    (now agent_id id : ℕ) (db db' : Db) (a : Unit {0}) (round : FarmVerification) (farm : Farm)
    → own_round agent_id id db ≡ some round
    → find round.farm_id db.farms ≡ some farm
    → approve_round now agent_id id db ≡ ok (a, db')
    → Writes now agent_id id round farm db db'
unfolding approve_round transition require_open
approve_round-Writes now agent_id id db db' a round farm own there run =
    elim (Option-cases (find agent_id db.agents)) [
      | inl missing ↦ absurd (ground (arith, own, there, missing, run))
      | inr (agent, known) ↦ elim (Option-cases (find farm.owner_id db.farmers)) [
        | inl missing ↦ absurd (ground (arith, own, there, known, missing, run))
        | inr (farmer, owner) ↦ record {
          was_open = ground (arith, own, run);
          agent = agent;
          known = known;
          has_cluster = ground (arith, own, there, known, run);
          farmer = farmer;
          owner = owner;
          rounds = ground (arith, own, there, known, owner, run);
          farms = ground (arith, own, there, known, owner, run);
          farmers = ground (arith, own, there, known, owner, run);
          handovers = ground (arith, own, there, known, owner, run);
        }
      ]
    ]

open_task :
    (s : VerificationTaskStatus)
    → is_open_task s ≡ true
    → (s ≡ VerificationTaskStatus.assigned) ⊎ (s ≡ VerificationTaskStatus.in_progress)
open_task VerificationTaskStatus.unassigned h = absurd cc
open_task VerificationTaskStatus.assigned h = inl refl
open_task VerificationTaskStatus.in_progress h = inr refl
open_task VerificationTaskStatus.approved h = absurd cc
open_task VerificationTaskStatus.rejected h = absurd cc

waiting_open :
    (s : HandoverStatus)
    → (s ≡ HandoverStatus.pending) ⊎ (s ≡ HandoverStatus.verified)
    → is_open_handover s ≡ true
waiting_open s (inl e) = ap is_open_handover e
waiting_open s (inr e) = ap is_open_handover e

-- The agent of a handover after an approval: its own if it had one, the approver if it waited.
given_agent :
    (agent_id farm_id : ℕ) (db : Db) (h : OrderHandover) (o : Order)
    → h.agent_id ≡ none
    → (h.status ≡ HandoverStatus.pending) ⊎ (h.status ≡ HandoverStatus.verified)
    → find h.order_id db.orders ≡ some o
    → o.farm_id ≡ farm_id
    → waits_for_agent farm_id db h ≡ true
given_agent agent_id farm_id db h o free status its_order its_farm =
    ground (arith, free, waiting_open h.status status, its_order, its_farm)

kept_agent :
    (a farm_id : ℕ) (db : Db) (h : OrderHandover)
    → h.agent_id ≡ some a
    → waits_for_agent farm_id db h ≡ false
kept_agent a farm_id db h held = ground (arith, held)

not_same : (i j : ℕ) → j ≢ i → (i == j) ≡ false
not_same i j ne = ground (arith, ne)

Writes-IsApproval :
    (now agent_id id : ℕ) (db db' : Db) (round : FarmVerification) (farm : Farm)
    → find id db.rounds ≡ some round
    → round.agent_id ≡ some agent_id
    → find round.farm_id db.farms ≡ some farm
    → is_complete (checklist_state round (farm_documents farm db) db) ≡ true
    → Writes now agent_id id round farm db db'
    → IsApproval now agent_id id db db'
Writes-IsApproval now agent_id id db db' round farm found own there complete w =
    let give : OrderHandover → OrderHandover = λ h. record h { agent_id = some agent_id } in
    let waits = waits_for_agent round.farm_id db in
    record {
      round = round;
      found = found;
      own = own;
      was_open = open_task round.status w.was_open;
      agent = w.agent;
      known = w.known;
      has_cluster = w.has_cluster;
      farm = farm;
      its_farm = there;
      complete = complete;
      approved =
          ap (find id) w.rounds
          ∙ find-modify_self id (decide VerificationTaskStatus.approved none now) db.rounds round
              (find-key id db.rounds round found) found;
      verified =
          ap (find round.farm_id) w.farms
          ∙ find-modify_self round.farm_id (verify_farm agent_id) db.farms farm
              (find-key round.farm_id db.farms farm there) there;
      other_rounds = λ j ne.
          ap (find j) w.rounds
          ∙ find-modify_ne id j (decide VerificationTaskStatus.approved none now) db.rounds
              (λ r. refl) (not_same id j ne);
      other_farms = λ j ne.
          ap (find j) w.farms
          ∙ find-modify_ne round.farm_id j (verify_farm agent_id) db.farms (λ r. refl)
              (not_same round.farm_id j ne);
      farmer = w.farmer;
      owner = w.owner;
      active =
          ap (find farm.owner_id) w.farmers
          ∙ find-modify_self farm.owner_id activate db.farmers w.farmer
              (find-key farm.owner_id db.farmers w.farmer w.owner) w.owner;
      given = λ i h o at free status its_order its_farm.
          ap (find i) w.handovers
          ∙ find-update_many i waits give db.handovers h (λ s. refl) at
          ∙ ap (λ b. some (if b then give h else h))
              (given_agent agent_id round.farm_id db h o free status its_order its_farm);
      kept = λ i a h at held.
          ap (find i) w.handovers
          ∙ find-update_many i waits give db.handovers h (λ s. refl) at
          ∙ ap (λ b. some (if b then give h else h)) (kept_agent a round.farm_id db h held);
    }

-- When the transaction of an approval goes through, the round was the agent's own and assigned or
-- in progress, the agent had a cluster and the checklist was complete. Then the round is approved
-- with the time given; its farm is verified, clustered and in the agent's cluster; no other round
-- or farm changed; the farm's owner is active; and each open handover of an order of the farm that
-- had no agent has this one, while every handover with an agent is as it was.
pub approve_tx-IsApproval :
    (now agent_id id : ℕ) (db db' : Db) (a : Unit {0})
    → approve_tx now agent_id id db ≡ ok (a, db')
    → IsApproval now agent_id id db db'
unfolding approve_tx
approve_tx-IsApproval now agent_id id db db' a run =
    elim (Option-cases (own_round agent_id id db)) [
      | inl missing ↦ absurd (ground (arith, missing))
      | inr (round, own) ↦ elim (Option-cases (find round.farm_id db.farms)) [
        | inl missing ↦ absurd (ground (arith, own, missing))
        | inr (farm, there) ↦
            let state = checklist_state round (farm_documents farm db) db in
            elim (Bool-cases (has_gap (checklist_gaps state))) [
              | inl gaps ↦ absurd (ground (arith, own, there, gaps))
              | inr full ↦
                  let (found, held) = own_round_inv agent_id id db round own in
                  Writes-IsApproval now agent_id id db db' round farm found held there
                    (rw (← checklist_gaps-is_complete state)
                      (has_gap_not (checklist_gaps state) full))
                    (approve_round-Writes now agent_id id db db' a round farm own there
                      (ground (arith, own, there, full)))
            ]
      ]
    ]
