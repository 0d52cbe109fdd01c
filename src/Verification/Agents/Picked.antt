-- ===== src/Verification/Agents/Picked.antt =====
-- Who is picked (src/verification/utils/pick-agent.ts), by the order that its comment gives.
use laicos_backend.Prelude.{
  ℕ, ◌<◌, ◌≤◌, ◌≡◌, ◌≢◌, refl, sym, ap, ◌⊎◌, inl, inr, true, false, Option, none, some, List, [],
  ◌∷◌, arith, ◌==◌, Bool-cases,
}
use laicos_backend.Prelude.Table.{any}
use laicos_backend.Prelude.Every.{Every, Every-map}
use laicos_backend.Verification.Agents.{
  AgentCandidate, goes_first, sort_candidates, head_id, has_id, is_candidate, pick_agent, Among,
  Among-any, any-Among, IsFirst, HasBest, HasBest-sort,
}

-- Less in the first number, or the same there and so by what follows.
abbrev pub Less : ℕ → ℕ → Type 0 → Type 0
Less m n Next = (m < n) ⊎ ((m ≡ n) × Next)

-- The smaller cluster, then the fewer open tasks, then the earlier registration, then the id.
abbrev pub Precedes : AgentCandidate → AgentCandidate → Type 0
Precedes a b =
    Less a.cluster_size b.cluster_size
      (Less a.open_tasks b.open_tasks (Less a.created_at b.created_at (a.id ≤ b.id)))

abbrev pub IsBest : AgentCandidate → List AgentCandidate → Type 0
IsBest a candidates = Among a candidates × Every (Precedes a) candidates

goes_first-Precedes : (a b : AgentCandidate) → goes_first a b ≡ true → Precedes a b
goes_first-Precedes a b h = elim (Bool-cases (a.cluster_size == b.cluster_size)) [
  | inr size ↦ inl (ground (arith, h, size))
  | inl size ↦ inr (
    ground (arith, size),
    elim (Bool-cases (a.open_tasks == b.open_tasks)) [
      | inr tasks ↦ inl (ground (arith, h, size, tasks))
      | inl tasks ↦ inr (
        ground (arith, tasks),
        elim (Bool-cases (a.created_at == b.created_at)) [
          | inr time ↦ inl (ground (arith, h, size, tasks, time))
          | inl time ↦ inr (ground (arith, time), ground (arith, h, size, tasks, time))
        ],
      )
    ],
  )
]

IsFirst-IsBest :
    (a : AgentCandidate) (candidates : List AgentCandidate)
    → IsFirst a candidates
    → IsBest a candidates
IsFirst-IsBest a candidates h = (
  h.0,
  Every-map (λ b. goes_first a b ≡ true) (Precedes a) candidates (λ b. goes_first-Precedes a b) h.1,
)

-- Nobody is picked from no candidates, and otherwise the best.
abbrev pub PicksBest : List AgentCandidate → Option ℕ → Type 0
PicksBest candidates picked =
    ((candidates ≡ []) × (picked ≡ none))
    ⊎ ((a : AgentCandidate) × IsBest a candidates × (picked ≡ some a.id))

-- The preferred agent if a candidate, and otherwise the best.
abbrev pub Picks : List AgentCandidate → Option ℕ → Option ℕ → Type 0
Picks candidates preferred picked =
    ((a : AgentCandidate) × Among a candidates × (preferred ≡ some a.id) × (picked ≡ some a.id))
    ⊎ (((a : AgentCandidate) → Among a candidates → preferred ≢ some a.id)
        × PicksBest candidates picked)

pick_agent-PicksBest :
    (candidates : List AgentCandidate) (preferred : Option ℕ)
    → is_candidate preferred candidates ≡ false
    → PicksBest candidates (pick_agent candidates preferred)
unfolding pick_agent
pick_agent-PicksBest candidates preferred off =
    rw off (at (sort_candidates candidates) (HasBest-sort candidates))
  where
    at :
        (sorted : List AgentCandidate)
        → HasBest sorted candidates
        → PicksBest candidates (head_id sorted)
    at [] h = inl (h, refl)
    at (a ∷ rest) h = inr (a, IsFirst-IsBest a candidates h, refl)

-- The preferred agent is picked if a candidate. Otherwise a candidate is picked who against every
-- candidate has the smaller cluster, or as large a one and the fewer open tasks, or as many and
-- the earlier registration, or the same and an id that is not greater; and none is picked only if
-- there is no candidate.
pub pick_agent-Picks :
    (candidates : List AgentCandidate) (preferred : Option ℕ)
    → Picks candidates preferred (pick_agent candidates preferred)
unfolding pick_agent
pick_agent-Picks candidates none =
    inr (λ a m e. absurd cc, pick_agent-PicksBest candidates none refl)
pick_agent-Picks candidates (some id) = elim (Bool-cases (any (has_id id) candidates)) [
  | inl there ↦
      let (a, m, e) = any-Among id candidates there in
      let same : ◌≡◌ {A = Option ℕ} (some id) (some a.id) = ap (λ i. some i) (sym e) in
      inl (a, m, same, ground (arith, there, same))
  | inr off ↦ inr (
    λ a m e.
        let same : id ≡ a.id = cc in absurd (ground (arith, off, same, Among-any a candidates m)),
    pick_agent-PicksBest candidates (some id) off,
  )
]
