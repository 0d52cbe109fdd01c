-- ===== src/Prelude/Every.antt =====
-- Facts about every row of a table, and tables whose keys are distinct.
use Prim.Native.Nat.{ℕ, ◌≤◌}
use mathlib.Core.Path.{◌≡◌, refl, subst}
use mathlib.Core.Bool.{Bool, true, false}
use mathlib.Core.Option.{none, some}
use mathlib.Core.List.{List, [], ◌∷◌, ◌++◌}
use mathlib.Core.Logic.{◌≢◌, inl, inr}
use native.Mathlib.Omega.{arith}
use laicos_backend.Prelude.Tests.{◌==◌, if◌then◌else◌, Bool-cases}
use laicos_backend.Prelude.Table.{
  Keyed, find, find_first, find_many, any, update_many, modify, delete, sum_by,
}

module _ {R : Type 0} where
  abbrev pub Every : (R → Type 0) → List R → Type 0
  Every P [] = Unit
  Every P (r ∷ t) = P r × Every P t

  pub Every-map : (P Q : R → Type 0) (t : List R) → ((r : R) → P r → Q r) → Every P t → Every Q t
  Every-map P Q [] f h = tt
  Every-map P Q (r ∷ t) f h = (f r h.0, Every-map P Q t f h.1)

  pub Every-both :
      (P Q : R → Type 0) (t : List R) → Every P t → Every Q t → Every (λ r. P r × Q r) t
  Every-both P Q [] h k = tt
  Every-both P Q (r ∷ t) h k = ((h.0, k.0), Every-both P Q t h.1 k.1)

  pub Every-append : (P : R → Type 0) (t u : List R) → Every P t → Every P u → Every P (t ++ u)
  Every-append P [] u h k = k
  Every-append P (r ∷ t) u h k = (h.0, Every-append P t u h.1 k)

  pub Every-update_many :
      (P Q : R → Type 0) (p : R → Bool) (f : R → R) (t : List R)
      → ((r : R) → P r → Q (if p r then f r else r))
      → Every P t
      → Every Q (update_many p f t)
  Every-update_many P Q p f [] keep h = tt
  Every-update_many P Q p f (r ∷ t) keep h = (keep r h.0, Every-update_many P Q p f t keep h.1)

  pub Every-find_many :
      (P : R → Type 0) (p : R → Bool) (t : List R)
      → Every P t
      → Every (λ r. P r × (p r ≡ true)) (find_many p t)
  Every-find_many P p [] h = tt
  Every-find_many P p (r ∷ t) h = elim (Bool-cases (p r)) [
    | inl holds ↦ rw holds ((h.0, holds), Every-find_many P p t h.1)
    | inr fails ↦ rw fails (Every-find_many P p t h.1)
  ]

  -- The row that a query finds meets its condition.
  pub find_first-Every :
      (p : R → Bool) (P : R → Type 0) (t : List R) (r : R)
      → Every P t
      → find_first p t ≡ some r
      → (p r ≡ true) × P r
  find_first-Every p P [] r h e = absurd cc
  find_first-Every p P (x ∷ t) r h e = elim (Bool-cases (p x)) [
    | inl here ↦
        let same : ◌≡◌ {A = R} x r = ground (arith, here, e) in
        (subst (λ y. p y ≡ true) same here, subst P same h.0)
    | inr later ↦ find_first-Every p P t r h.1 (ground (arith, later, e))
  ]

  pub sum_by-update_many-Every :
      (P : R → Type 0) (g : R → ℕ) (p : R → Bool) (f : R → R) (t : List R)
      → ((r : R) → P r → p r ≡ true → g (f r) ≤ g r)
      → Every P t
      → sum_by g (update_many p f t) ≤ sum_by g t
  sum_by-update_many-Every P g p f [] fall h = omega arith
  sum_by-update_many-Every P g p f (r ∷ t) fall h =
      ground (arith, fall r h.0, sum_by-update_many-Every P g p f t fall h.1)

  -- A mass update under which only rows with a property get it.
  pub any-update_many :
      (q p : R → Bool) (f : R → R) (t : List R)
      → ((r : R) → p r ≡ true → q (f r) ≡ true → q r ≡ true)
      → any q (update_many p f t) ≡ true
      → any q t ≡ true
  any-update_many q p f [] old h = h
  any-update_many q p f (r ∷ t) old h = ground (arith, old r, any-update_many q p f t old)

  pub any-weaken :
      (p q : R → Bool) (t : List R)
      → ((r : R) → p r ≡ true → q r ≡ true)
      → any p t ≡ true
      → any q t ≡ true
  any-weaken p q [] w h = h
  any-weaken p q (r ∷ t) w h = ground (arith, w r, any-weaken p q t w)

  pub any-not : (p : R → Bool) (t : List R) → any p t ≡ false → Every (λ r. p r ≡ false) t
  any-not p [] h = tt
  any-not p (r ∷ t) h = (ground arith, any-not p t (ground arith))

module _ {R : Type 0} ⦃k : Keyed R⦄ where
  -- No two rows have the same key.
  abbrev pub Distinct : List R → Type 0
  Distinct [] = Unit
  Distinct (r ∷ t) = (find (k.key r) t ≡ none) × Distinct t

  pub find-delete :
      (i j : ℕ) (t : List R) (s : R)
      → Distinct t
      → find j (delete i t) ≡ some s
      → (i ≢ j) × (find j t ≡ some s)
  find-delete i j [] s h e = absurd cc
  find-delete i j (r ∷ t) s h e = elim (Bool-cases (k.key r == i)) [
    | inl here ↦
        let at_i : k.key r ≡ i = ground arith in
        let gone : find i t ≡ none = subst (λ n. find n t ≡ none) at_i h.0 in
        let rest : find j t ≡ some s = ground (arith, here) in
        let other : i ≢ j = λ same.
          absurd (let there : find j t ≡ none = subst (λ n. find n t ≡ none) same gone in cc) in
        (other, ground (arith, at_i, other, rest))
    | inr off ↦ elim (Bool-cases (k.key r == j)) [
      | inl there ↦ (ground (arith, off, there), ground (arith, off, there))
      | inr away ↦
          let (other, found) = find-delete i j t s h.1 (ground (arith, off, away)) in
          (other, rw away found)
    ]
  ]

  find-none-find_many :
      (i : ℕ) (p : R → Bool) (t : List R) → find i t ≡ none → find i (find_many p t) ≡ none
  find-none-find_many i p [] h = refl
  find-none-find_many i p (x ∷ t) h = ground (arith, find-none-find_many i p t)

  -- A row that is left after a mass delete was there before.
  pub find-find_many :
      (i : ℕ) (p : R → Bool) (t : List R) (r : R)
      → Distinct t
      → find i (find_many p t) ≡ some r
      → (find i t ≡ some r) × (p r ≡ true)
  find-find_many i p [] r h e = absurd cc
  find-find_many i p (x ∷ t) r h e = elim (Bool-cases (k.key x == i)) [
    | inl here ↦
        let at_i : k.key x ≡ i = ground arith in
        let gone : find i (find_many p t) ≡ none =
          find-none-find_many i p t (subst (λ n. find n t ≡ none) at_i h.0) in
        (ground (arith, here, gone, e), ground (arith, here, gone, e))
    | inr off ↦
        let (found, holds) = find-find_many i p t r h.1 (ground (arith, off, e)) in
        (rw off found, holds)
  ]

  abbrev pub has_key : ℕ → R → ℕ
  has_key i r = if k.key r == i then 1 else 0

  pub sum_by-has_key-none : (i : ℕ) (t : List R) → find i t ≡ none → sum_by (has_key i) t ≡ 0
  sum_by-has_key-none i [] h = refl
  sum_by-has_key-none i (r ∷ t) h = ground (arith, sum_by-has_key-none i t)

  pub sum_by-has_key : (i : ℕ) (t : List R) → Distinct t → sum_by (has_key i) t ≤ 1
  sum_by-has_key i [] h = omega arith
  sum_by-has_key i (r ∷ t) h = elim (Bool-cases (k.key r == i)) [
    | inl at_i ↦
        let e : k.key r ≡ i = ground arith in
        rw (at_i, sum_by-has_key-none i t (rw (← e) h.0)) (omega arith)
    | inr off ↦ ground (arith, sum_by-has_key i t h.1)
  ]

  -- In a table with distinct keys each row is the one found by its key.
  pub Every-find : (t : List R) → Distinct t → Every (λ r. find (k.key r) t ≡ some r) t
  Every-find [] h = tt
  Every-find (x ∷ t) h = (
    ground arith,
    Every-map (λ r. find (k.key r) t ≡ some r) (λ r. find (k.key r) (x ∷ t) ≡ some r) t
        (λ r found. later r found) (Every-find t h.1),
  )
    where
      later : (r : R) → find (k.key r) t ≡ some r → find (k.key r) (x ∷ t) ≡ some r
      later r found = elim (Bool-cases (k.key x == k.key r)) [
        | inl same ↦
            let e : k.key x ≡ k.key r = ground arith in
            let gone : find (k.key r) t ≡ none = rw (← e) h.0 in absurd (ground arith)
        | inr other ↦ rw other found
      ]

  pub any-modify :
      (q : R → Bool) (i : ℕ) (f : R → R) (t : List R)
      → ((r : R) → q (f r) ≡ q r)
      → any q (modify i f t) ≡ true
      → any q t ≡ true
  any-modify q i f [] same h = h
  any-modify q i f (r ∷ t) same h = ground (arith, same r, any-modify q i f t same)

  pub find-update_many :
      (i : ℕ) (p : R → Bool) (f : R → R) (t : List R) (s : R)
      → ((r : R) → k.key (f r) ≡ k.key r)
      → find i (update_many p f t) ≡ some s
      → (r : R) × (find i t ≡ some r) × (s ≡ (if p r then f r else r))
  find-update_many i p f [] s keeps h = absurd cc
  find-update_many i p f (x ∷ t) s keeps h = elim (Bool-cases (k.key x == i)) [
    | inl at_i ↦ (x, ground arith, ground (arith, keeps x))
    | inr off ↦
        let (r, found, e) = find-update_many i p f t s keeps (ground (arith, keeps x)) in
        (r, rw off found, e)
  ]
