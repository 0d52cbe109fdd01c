-- ===== src/Verification/Agents.antt =====
-- src/verification/utils/pick-agent.ts. Ids and registration times are numbers, so `localeCompare`
-- and `getTime` are their order.
pub mod Picked
use mathlib.Core.Path.{subst}
use laicos_backend.Prelude.{
  ℕ, ◌≡◌, refl, sym, ◌∙◌, ap, ◌⊎◌, inl, inr, Bool, true, false, Option, none, some, List, [], ◌∷◌,
  not, arith, ltb, leb, ◌==◌, if◌then◌else◌, Bool-cases,
}
use laicos_backend.Prelude.Table.{any}
use laicos_backend.Prelude.Every.{Every, Every-map}

pub record AgentCandidate : Type 0 where
  pub id : ℕ
  pub created_at : ℕ
  pub cluster_size : ℕ
  pub open_tasks : ℕ

-- The comparator's `a` is not after `b`.
abbrev pub goes_first : AgentCandidate → AgentCandidate → Bool
goes_first a b =
    if not (a.cluster_size == b.cluster_size)
    then ltb a.cluster_size b.cluster_size
    else if not (a.open_tasks == b.open_tasks)
    then ltb a.open_tasks b.open_tasks
    else if not (a.created_at == b.created_at)
    then ltb a.created_at b.created_at
    else leb a.id b.id

abbrev pub insert_candidate : AgentCandidate → List AgentCandidate → List AgentCandidate
insert_candidate a [] = a ∷ []
insert_candidate a (b ∷ bs) = if goes_first a b then a ∷ b ∷ bs else b ∷ insert_candidate a bs

-- `[...candidates].sort`.
abbrev pub sort_candidates : List AgentCandidate → List AgentCandidate
sort_candidates [] = []
sort_candidates (a ∷ rest) = insert_candidate a (sort_candidates rest)

abbrev pub head_id : List AgentCandidate → Option ℕ
head_id [] = none
head_id (a ∷ _) = some a.id

abbrev pub has_id : ℕ → AgentCandidate → Bool
has_id id a = a.id == id

abbrev pub is_candidate : Option ℕ → List AgentCandidate → Bool
is_candidate none candidates = false
is_candidate (some id) candidates = any (has_id id) candidates

-- `pickAgent`.
unfoldable pub pick_agent : List AgentCandidate → Option ℕ → Option ℕ
pick_agent candidates preferred =
    if is_candidate preferred candidates then preferred else head_id (sort_candidates candidates)

goes_first_trans :
    (a b c : AgentCandidate) → goes_first a b ≡ true → goes_first b c ≡ true → goes_first a c ≡ true
goes_first_trans a b c x y = ground arith

goes_first_total : (a b : AgentCandidate) → goes_first a b ≡ false → goes_first b a ≡ true
goes_first_total a b x = ground arith

goes_first_antisym :
    (a b : AgentCandidate) → goes_first a b ≡ true → goes_first b a ≡ true → a.id ≡ b.id
goes_first_antisym a b x y = ground arith

-- The candidate is in the list.
abbrev pub Among : AgentCandidate → List AgentCandidate → Type 0
Among a [] = ⊥
Among a (b ∷ bs) = (a ≡ b) ⊎ Among a bs

-- A candidate whom the comparator puts before none.
abbrev pub IsFirst : AgentCandidate → List AgentCandidate → Type 0
IsFirst a candidates = Among a candidates × Every (λ b. goes_first a b ≡ true) candidates

abbrev pub HasBest : List AgentCandidate → List AgentCandidate → Type 0
HasBest [] candidates = candidates ≡ []
HasBest (a ∷ _) candidates = IsFirst a candidates

HasBest-insert :
    (a : AgentCandidate) (sorted rest : List AgentCandidate)
    → HasBest sorted rest
    → HasBest (insert_candidate a sorted) (a ∷ rest)
HasBest-insert a [] rest h = rw h ((inl refl, (ground arith, tt)))
HasBest-insert a (b ∷ bs) rest h = elim (Bool-cases (goes_first a b)) [
  | inl first ↦ rw first (
      (
        inl refl,
        (
          ground arith,
          Every-map (λ c. goes_first b c ≡ true) (λ c. goes_first a c ≡ true) rest
              (λ c. goes_first_trans a b c first) h.1,
        ),
      ))
  | inr later ↦ rw later ((inr h.0, (goes_first_total a b later, h.1)))
]

pub HasBest-sort :
    (candidates : List AgentCandidate) → HasBest (sort_candidates candidates) candidates
HasBest-sort [] = refl
HasBest-sort (a ∷ rest) = HasBest-insert a (sort_candidates rest) rest (HasBest-sort rest)

pub Every-Among :
    (P : AgentCandidate → Type 0) (a : AgentCandidate) (t : List AgentCandidate)
    → Every P t
    → Among a t
    → P a
Every-Among P a [] h m = absurd m
Every-Among P a (b ∷ t) h (inl e) = subst P (sym e) h.0
Every-Among P a (b ∷ t) h (inr m) = Every-Among P a t h.1 m

pub any-Among :
    (id : ℕ) (t : List AgentCandidate)
    → any (has_id id) t ≡ true
    → (a : AgentCandidate) × Among a t × (a.id ≡ id)
any-Among id [] h = absurd cc
any-Among id (b ∷ t) h = elim (Bool-cases (has_id id b)) [
  | inl here ↦ (b, inl refl, ground arith)
  | inr off ↦ let (a, m, e) = any-Among id t (ground arith) in (a, inr m, e)
]

pub Among-any :
    (a : AgentCandidate) (t : List AgentCandidate) → Among a t → any (has_id a.id) t ≡ true
Among-any a [] m = absurd m
Among-any a (b ∷ t) (inl e) = rw (← e) (ground arith)
Among-any a (b ∷ t) (inr m) = ground (arith, Among-any a t m)

-- Every candidate of one list is one of the other.
abbrev pub SameCandidates : List AgentCandidate → List AgentCandidate → Type 0
SameCandidates cs ds =
    ((a : AgentCandidate) → Among a cs → Among a ds)
    × ((a : AgentCandidate) → Among a ds → Among a cs)

any-same :
    (id : ℕ) (cs ds : List AgentCandidate)
    → ((a : AgentCandidate) → Among a cs → Among a ds)
    → any (has_id id) cs ≡ true
    → any (has_id id) ds ≡ true
any-same id cs ds keep h =
    let (a, m, e) = any-Among id cs h in
    subst (λ i. any (has_id i) ds ≡ true) e (Among-any a ds (keep a m))

is_candidate-same :
    (preferred : Option ℕ) (cs ds : List AgentCandidate)
    → SameCandidates cs ds
    → is_candidate preferred cs ≡ is_candidate preferred ds
is_candidate-same none cs ds same = refl
is_candidate-same (some id) cs ds same = elim (Bool-cases (any (has_id id) cs)) [
  | inl there ↦ there ∙ sym (any-same id cs ds same.0 there)
  | inr off ↦ elim (Bool-cases (any (has_id id) ds)) [
    | inl there ↦ any-same id ds cs same.1 there ∙ sym there
    | inr away ↦ off ∙ sym away
  ]
]

best-same :
    (xs ys cs ds : List AgentCandidate)
    → HasBest xs cs
    → HasBest ys ds
    → SameCandidates cs ds
    → head_id xs ≡ head_id ys
best-same [] [] cs ds x y same = refl
best-same [] (b ∷ ys) cs ds x y same = absurd (subst (λ t. Among b t) x (same.1 b y.0))
best-same (a ∷ xs) [] cs ds x y same = absurd (subst (λ t. Among a t) y (same.0 a x.0))
best-same (a ∷ xs) (b ∷ ys) cs ds x y same =
    ap (λ i. some i)
      (goes_first_antisym a b (Every-Among (λ c. goes_first a c ≡ true) b cs x.1 (same.1 b y.0))
        (Every-Among (λ c. goes_first b c ≡ true) a ds y.1 (same.0 a x.0)))

-- The choice is deterministic: lists with the same candidates, in any order, give the same agent.
pub pick_agent-SameCandidates :
    (cs ds : List AgentCandidate) (preferred : Option ℕ)
    → SameCandidates cs ds
    → pick_agent cs preferred ≡ pick_agent ds preferred
unfolding pick_agent
pick_agent-SameCandidates cs ds preferred same =
    rw
      (
        is_candidate-same preferred cs ds same,
        best-same (sort_candidates cs) (sort_candidates ds) cs ds (HasBest-sort cs)
            (HasBest-sort ds) same,
      )
      refl
