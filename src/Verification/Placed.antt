-- ===== src/Verification/Placed.antt =====
-- Who holds a round, and what assigning one keeps of it
-- (src/verification/services/assignment.service.ts).
use Prim.Native.String.{String}
use mathlib.Core.Path.{subst}
use laicos_backend.Prelude.{
  ℕ, ◌≡◌, ◌≢◌, refl, sym, ◌∙◌, ◌⊎◌, inl, inr, Bool, true, false, not, Option, none, some, List, [],
  ◌∷◌, map, arith, is_some, ◌==◌, if◌then◌else◌, Bool-cases, Option-cases,
}
use laicos_backend.Prelude.Table.{
  find, find_many, any, modify, update_many, find-key, find-modify_inv,
}
use laicos_backend.Prelude.Every.{find-update_many}
use laicos_backend.Schema.{
  Db, ok, Agent, Farm, FarmVerification, AssignmentDecline, round_keyed, farm_keyed, agent_keyed,
}
use laicos_backend.Verification.Agents.{AgentCandidate, pick_agent, has_id, Among-any}
use laicos_backend.Verification.Agents.Picked.{Picks, pick_agent-Picks}
use laicos_backend.Verification.Assignment.{
  is_unassigned, cleared_round, has_declined, is_assignable, candidate_of, candidates, assigned_to,
  assign_round, assign, new_round, put_round, open_round, reset_round, assign_each,
}

-- A round has an agent unless it waits for one, and its agent has not declined it.
abbrev pub Placed : List AssignmentDecline → FarmVerification → Type 0
Placed declines r =
    (is_unassigned r.status ≡ not (is_some r.agent_id))
    × ((agent_id : ℕ)
        → r.agent_id ≡ some agent_id
        → any (has_declined r.id agent_id) declines ≡ false)

pub record IsPlaced (db : Db) : Type 0 where
  pub placed : (i : ℕ) (r : FarmVerification) → find i db.rounds ≡ some r → Placed db.declines r

pub IsPlaced-same :
    (db db' : Db) → db'.rounds ≡ db.rounds → db'.declines ≡ db.declines → IsPlaced db → IsPlaced db'
IsPlaced-same db db' rounds declines h = record {
  placed = λ i r e. rw declines (h.placed i r (rw (← rounds) e));
}

pub IsPlaced-modify :
    (db db' : Db) (i : ℕ) (f : FarmVerification → FarmVerification)
    → db'.rounds ≡ modify i f db.rounds
    → db'.declines ≡ db.declines
    → ((r : FarmVerification) → (f r).id ≡ r.id)
    → ((r : FarmVerification)
        → find i db.rounds ≡ some r
        → Placed db.declines r
        → Placed db.declines (f r))
    → IsPlaced db
    → IsPlaced db'
IsPlaced-modify db db' i f rounds declines keeps step h = record {
  placed = λ j r e. rw declines (at j r (find-modify_inv i j f db.rounds keeps (rw (← rounds) e)));
}
  where
    at :
        (j : ℕ) (s : FarmVerification)
        → ((i ≡ j) × ((r : FarmVerification) × (find j db.rounds ≡ some r) × (s ≡ f r)))
          ⊎ ((i ≢ j) × (find j db.rounds ≡ some s))
        → Placed db.declines s
    at j s (inl (e, (r, found, same))) =
        subst (Placed db.declines) (sym same)
          (step r (subst (λ n. find n db.rounds ≡ some r) (sym e) found) (h.placed j r found))
    at j s (inr (ne, found)) = h.placed j s found

-- A mass update that writes no id, status and agent.
pub IsPlaced-update_many :
    (db db' : Db) (p : FarmVerification → Bool) (f : FarmVerification → FarmVerification)
    → db'.rounds ≡ update_many p f db.rounds
    → db'.declines ≡ db.declines
    → ((r : FarmVerification)
        → ((f r).id ≡ r.id) × ((f r).status ≡ r.status) × ((f r).agent_id ≡ r.agent_id))
    → IsPlaced db
    → IsPlaced db'
IsPlaced-update_many db db' p f rounds declines keeps h = record {
  placed = λ i s e.
      let (r, found, same) =
        find-update_many i p f db.rounds s (λ r. (keeps r).0) (rw (← rounds) e) in
      rw declines (subst (Placed db.declines) (sym same) (at r (h.placed i r found)));
}
  where
    at : (r : FarmVerification) → Placed db.declines r → Placed db.declines (if p r then f r else r)
    at r (held, free) = elim (Bool-cases (p r)) [
      | inl here ↦
          rw here
            ((ground (arith, held, keeps r)), λ a e. rw (keeps r).0 (free a (sym (keeps r).2 ∙ e)))
      | inr off ↦ rw off (held, free)
    ]

-- Whoever is picked is a candidate.
pick_agent-any :
    (cs : List AgentCandidate) (preferred : Option ℕ) (a : ℕ)
    → pick_agent cs preferred ≡ some a
    → any (has_id a) cs ≡ true
pick_agent-any cs preferred a h = at (pick_agent-Picks cs preferred)
  where
    picked : (b : AgentCandidate) → pick_agent cs preferred ≡ some b.id → b.id ≡ a
    picked b e = cc

    at : Picks cs preferred (pick_agent cs preferred) → any (has_id a) cs ≡ true
    at (inl (b, among, asked, e)) =
        subst (λ n. any (has_id n) cs ≡ true) (picked b e) (Among-any b cs among)
    at (inr (others, inl (empty, none_picked))) = absurd cc
    at (inr (others, inr (b, best, e))) =
        subst (λ n. any (has_id n) cs ≡ true) (picked b e) (Among-any b cs best.0)

candidates_undeclined :
    (round_id lga_id a : ℕ) (db : Db) (agents : List Agent)
    → any (has_id a) (map (candidate_of db) (find_many (is_assignable round_id lga_id db) agents))
      ≡ true
    → any (has_declined round_id a) db.declines ≡ false
candidates_undeclined round_id lga_id a db [] h = absurd cc
candidates_undeclined round_id lga_id a db (g ∷ agents) h =
    elim (Bool-cases (is_assignable round_id lga_id db g)) [
      | inr off ↦ candidates_undeclined round_id lga_id a db agents (rw off at h)
      | inl can ↦ elim (Bool-cases (g.id == a)) [
        | inl here ↦
            let e : g.id ≡ a = ground arith in
            subst (λ n. any (has_declined round_id n) db.declines ≡ false) e (ground (arith, can))
        | inr other ↦ candidates_undeclined round_id lga_id a db agents (ground (arith, can, other))
      ]
    ]

pub assign-IsPlaced :
    (round_id : ℕ) (preferred : Option ℕ) (db : Db)
    → IsPlaced db
    → IsPlaced (assign round_id preferred db).1
unfolding assign
assign-IsPlaced round_id preferred db h = elim (Option-cases (find round_id db.rounds)) [
  | inl missing ↦ rw (missing, assign) h
  | inr (round, found) ↦
      rw (found, assign)
        (elim (Option-cases (find round.farm_id db.farms)) [
          | inl missing ↦ rw missing h
          | inr (farm, there) ↦ rw there (
              placed round farm found (pick_agent (candidates round_id farm.lga_id db) preferred)
                refl)
        ])
]
  where
    placed :
        (round : FarmVerification) (farm : Farm)
        → find round_id db.rounds ≡ some round
        → (picked : Option ℕ) → pick_agent (candidates round_id farm.lga_id db) preferred ≡ picked
        → IsPlaced (assign_round round picked db).1
    placed round farm found none e = h
    placed round farm found (some a) e = elim (Bool-cases (is_unassigned round.status)) [
      | inr taken ↦ rw taken h
      | inl free ↦ rw free (
          IsPlaced-modify db _ round.id (assigned_to a) refl refl (λ r. refl)
            (λ r at_id was. (
              refl,
              λ b same.
                  let key : r.id ≡ round_id =
                    find-key round.id db.rounds r at_id ∙ find-key round_id db.rounds round found in
                  let ab : a ≡ b = cc in
                  subst (λ n. any (has_declined r.id n) db.declines ≡ false) ab
                    (rw key (
                      candidates_undeclined round_id farm.lga_id a db db.agents
                        (pick_agent-any (candidates round_id farm.lga_id db) preferred a e))),
            ))
            h)
    ]

pub assign_each-IsPlaced :
    (rounds : List FarmVerification) (db : Db) → IsPlaced db → IsPlaced (assign_each rounds db).1
unfolding assign_each
assign_each-IsPlaced [] db h = h
assign_each-IsPlaced (round ∷ rounds) db h =
    assign_each-IsPlaced rounds (assign round.id none db).1 (assign-IsPlaced round.id none db h)

pub open_round-IsPlaced :
    (now farm_id : ℕ) (preferred : Option ℕ) (db : Db)
    → IsPlaced db
    → IsPlaced (open_round now farm_id preferred db).1
unfolding open_round
open_round-IsPlaced now farm_id preferred db h =
    assign-IsPlaced db.next_id preferred (put_round (new_round now db.next_id farm_id) db) (record {
      placed = λ i r e. elim (Bool-cases (db.next_id == i)) [
        | inl here ↦
            let same : r ≡ new_round now db.next_id farm_id = ground arith in
            subst (Placed db.declines) (sym same) (refl, λ a e'. absurd cc)
        | inr off ↦ h.placed i r (ground arith)
      ];
    })

pub reset_round-IsPlaced :
    (round_id : ℕ) (db db' : Db) (keys : List String)
    → IsPlaced db
    → reset_round round_id db ≡ ok (keys, db')
    → IsPlaced db'
unfolding reset_round
reset_round-IsPlaced round_id db db' keys h run = elim (Option-cases (find round_id db.rounds)) [
  | inl missing ↦ absurd (ground arith)
  | inr (round, found) ↦
      IsPlaced-modify db db' round_id cleared_round (ground (arith, found)) (ground (arith, found))
        (λ r. refl) (λ r at_id was. (refl, λ a e. absurd cc)) h
]
