-- ===== src/Prelude/Table.antt =====
-- A database table as the list of its rows, and the queries that the services make of it.
-- A query by primary key finds the first row with that key.
use Prim.Native.Nat.{ℕ, ◌+◌, ◌≤◌}
use mathlib.Core.Path.{◌∙◌, ap, ◌≡◌, refl}
use mathlib.Core.Bool.{Bool, true, false, ◌&&◌, ◌||◌}
use mathlib.Core.Option.{Option, none, some}
use mathlib.Core.List.{List, [], ◌∷◌, ◌++◌}
use native.Mathlib.Omega.{arith}
use mathlib.Core.Logic.{◌≢◌, ◌⊎◌, inl, inr}
use laicos_backend.Prelude.Tests.{◌==◌, leb, if◌then◌else◌, Bool-cases}

-- Rows that have a primary key.
pub record Keyed (R : Type 0) : Type 0 where
  pub key : R → ℕ

module _ {R : Type 0} where
  -- `findMany` with a condition, in table order.
  abbrev pub find_many : (R → Bool) → List R → List R
  find_many p [] = []
  find_many p (r ∷ rs) = if p r then r ∷ find_many p rs else find_many p rs

  -- `findFirst` with a condition.
  abbrev pub find_first : (R → Bool) → List R → Option R
  find_first p [] = none
  find_first p (r ∷ rs) = if p r then some r else find_first p rs

  -- `some` of a relation filter, and `Array.some`.
  abbrev pub any : (R → Bool) → List R → Bool
  any p [] = false
  any p (r ∷ rs) = p r || any p rs

  abbrev pub all : (R → Bool) → List R → Bool
  all p [] = true
  all p (r ∷ rs) = p r && all p rs

  -- `updateMany`.
  abbrev pub update_many : (R → Bool) → (R → R) → List R → List R
  update_many p f [] = []
  update_many p f (r ∷ rs) = (if p r then f r else r) ∷ update_many p f rs

  -- The sum of a number over the rows.
  abbrev pub sum_by : (R → ℕ) → List R → ℕ
  sum_by g [] = 0
  sum_by g (r ∷ rs) = g r + sum_by g rs

  -- `orderBy` a number, ascending.
  abbrev pub insert_by : (R → ℕ) → R → List R → List R
  insert_by g r [] = r ∷ []
  insert_by g r (x ∷ xs) = if leb (g r) (g x) then r ∷ x ∷ xs else x ∷ insert_by g r xs

  abbrev pub sort_by : (R → ℕ) → List R → List R
  sort_by g [] = []
  sort_by g (r ∷ rs) = insert_by g r (sort_by g rs)

  sum_by-insert_by :
      (h g : R → ℕ) (r : R) (t : List R) → sum_by h (insert_by g r t) ≡ h r + sum_by h t
  sum_by-insert_by h g r [] = refl
  sum_by-insert_by h g r (x ∷ t) = ground (arith, sum_by-insert_by h g r t)

  pub sum_by-sort_by : (h g : R → ℕ) (t : List R) → sum_by h (sort_by g t) ≡ sum_by h t
  sum_by-sort_by h g [] = refl
  sum_by-sort_by h g (r ∷ t) =
      omega (arith, sum_by-insert_by h g r (sort_by g t), sum_by-sort_by h g t)

  pub sum_by-append : (g : R → ℕ) (t u : List R) → sum_by g (t ++ u) ≡ sum_by g t + sum_by g u
  sum_by-append g [] u = omega arith
  sum_by-append g (r ∷ t) u = omega (arith, sum_by-append g t u)

  -- A mass update under which no row's number changes keeps the sum.
  pub sum_by-update_many :
      (g : R → ℕ) (p : R → Bool) (f : R → R) (t : List R)
      → ((r : R) → p r ≡ true → g (f r) ≡ g r)
      → sum_by g (update_many p f t) ≡ sum_by g t
  sum_by-update_many g p f [] same = refl
  sum_by-update_many g p f (r ∷ t) same = ground (arith, same r, sum_by-update_many g p f t same)

  -- A mass update under which no row's number grows lowers the sum.
  pub sum_by-update_many_le :
      (g : R → ℕ) (p : R → Bool) (f : R → R) (t : List R)
      → ((r : R) → p r ≡ true → g (f r) ≤ g r)
      → sum_by g (update_many p f t) ≤ sum_by g t
  sum_by-update_many_le g p f [] fall = omega arith
  sum_by-update_many_le g p f (r ∷ t) fall =
      ground (arith, fall r, sum_by-update_many_le g p f t fall)

module _ {R : Type 0} ⦃k : Keyed R⦄ where
  -- `findUnique` by primary key.
  abbrev pub find : ℕ → List R → Option R
  find i [] = none
  find i (r ∷ rs) = if k.key r == i then some r else find i rs

  -- The write of an `update` by primary key.
  abbrev pub modify : ℕ → (R → R) → List R → List R
  modify i f [] = []
  modify i f (r ∷ rs) = if k.key r == i then f r ∷ rs else r ∷ modify i f rs

  -- `delete` by primary key.
  abbrev pub delete : ℕ → List R → List R
  delete i [] = []
  delete i (r ∷ rs) = if k.key r == i then rs else r ∷ delete i rs

  pub find-key : (i : ℕ) (t : List R) (r : R) → find i t ≡ some r → k.key r ≡ i
  find-key i [] r e = cc
  find-key i (x ∷ t) r e = ground (arith, find-key i t r)

  pub find-modify_self :
      (i : ℕ) (f : R → R) (t : List R) (r : R)
      → k.key (f r) ≡ i
      → find i t ≡ some r
      → find i (modify i f t) ≡ some (f r)
  find-modify_self i f [] r keeps e = cc
  find-modify_self i f (x ∷ t) r keeps e = ground (arith, find-modify_self i f t r keeps)

  pub find-modify_ne :
      (i j : ℕ) (f : R → R) (t : List R)
      → ((r : R) → k.key (f r) ≡ k.key r)
      → (i == j) ≡ false
      → find j (modify i f t) ≡ find j t
  find-modify_ne i j f [] keeps ne = refl
  find-modify_ne i j f (x ∷ t) keeps ne = ground (arith, keeps x, find-modify_ne i j f t keeps ne)

  -- A row found after a mass update.
  pub find-update_many :
      (i : ℕ) (p : R → Bool) (f : R → R) (t : List R) (r : R)
      → ((s : R) → k.key (f s) ≡ k.key s)
      → find i t ≡ some r
      → find i (update_many p f t) ≡ some (if p r then f r else r)
  find-update_many i p f [] r keeps e = absurd cc
  find-update_many i p f (x ∷ t) r keeps e = elim (Bool-cases (k.key x == i)) [
    | inl here ↦
        let same : ◌≡◌ {A = R} x r = ground (arith, here) in
        let at : k.key x ≡ i = ground (arith, here) in
        let met : find i (update_many p f (x ∷ t)) ≡ some (if p x then f x else x) =
          elim (Bool-cases (p x)) [
            | inl holds ↦ ground (arith, holds, at, keeps x)
            | inr fails ↦ ground (arith, fails, at)
          ] in
        met ∙ ap (λ y. some (if p y then f y else y)) same
    | inr off ↦
        let rest = find-update_many i p f t r keeps (ground (arith, off)) in
        elim (Bool-cases (p x)) [
          | inl holds ↦ ground (arith, holds, off, keeps x, rest)
          | inr fails ↦ ground (arith, fails, off, rest)
        ]
  ]

  -- What a row found after an update was before it.
  pub find-modify_inv :
      (i j : ℕ) (f : R → R) (t : List R) {s : R}
      → ((r : R) → k.key (f r) ≡ k.key r)
      → find j (modify i f t) ≡ some s
      → ((i ≡ j) × ((r : R) × (find j t ≡ some r) × (s ≡ f r))) ⊎ ((i ≢ j) × (find j t ≡ some s))
  find-modify_inv i j f [] keeps e = cc
  find-modify_inv i j f (x ∷ t) {s} keeps e = elim (Bool-cases (k.key x == i)) [
    | inl at_i ↦ elim (Bool-cases (k.key x == j)) [
      | inl at_j ↦ inl (ground (arith, keeps x), (x, ground arith, ground (arith, keeps x)))
      | inr off_j ↦ inr (ground (arith, keeps x), ground (arith, keeps x))
    ]
    | inr off_i ↦ elim (Bool-cases (k.key x == j)) [
      | inl at_j ↦ inr (ground arith, ground arith)
      | inr off_j ↦ later off_j (find-modify_inv i j f t keeps (ground arith))
    ]
  ]
    where
      later :
          (k.key x == j) ≡ false
          → ((i ≡ j) × ((r : R) × (find j t ≡ some r) × (s ≡ f r)))
            ⊎ ((i ≢ j) × (find j t ≡ some s))
          → ((i ≡ j) × ((r : R) × (find j (x ∷ t) ≡ some r) × (s ≡ f r)))
            ⊎ ((i ≢ j) × (find j (x ∷ t) ≡ some s))
      later off (inl (e, (r, found, same))) = inl (e, (r, rw off found, same))
      later off (inr (ne, found)) = inr (ne, rw off found)

  pub modify-modify :
      (i : ℕ) (f g : R → R) (t : List R)
      → ((r : R) → k.key (f r) ≡ k.key r)
      → modify i g (modify i f t) ≡ modify i (λ r. g (f r)) t
  modify-modify i f g [] keeps = refl
  modify-modify i f g (x ∷ t) keeps = ground (arith, keeps x, modify-modify i f g t keeps)

  pub find-append : (i : ℕ) (t u : List R) (r : R) → find i t ≡ some r → find i (t ++ u) ≡ some r
  find-append i [] u r e = cc
  find-append i (x ∷ t) u r e = ground (arith, find-append i t u r)

  -- Changing one row moves the sum by that row's change.
  pub sum_by-modify :
      (g : R → ℕ) (i : ℕ) (f : R → R) (t : List R) (r : R)
      → find i t ≡ some r
      → sum_by g (modify i f t) + g r ≡ sum_by g t + g (f r)
  sum_by-modify g i f [] r e = cc
  sum_by-modify g i f (x ∷ t) r e = ground (arith, sum_by-modify g i f t r)

  pub sum_by-modify_same :
      (g : R → ℕ) (i : ℕ) (f : R → R) (t : List R)
      → ((r : R) → g (f r) ≡ g r)
      → sum_by g (modify i f t) ≡ sum_by g t
  sum_by-modify_same g i f [] same = refl
  sum_by-modify_same g i f (x ∷ t) same = ground (arith, same x, sum_by-modify_same g i f t same)

  pub sum_by-modify_le :
      (g : R → ℕ) (i : ℕ) (f : R → R) (t : List R)
      → ((r : R) → g (f r) ≤ g r)
      → sum_by g (modify i f t) ≤ sum_by g t
  sum_by-modify_le g i f [] fall = omega arith
  sum_by-modify_le g i f (x ∷ t) fall = ground (arith, fall x, sum_by-modify_le g i f t fall)

  pub sum_by-delete :
      (g : R → ℕ) (i : ℕ) (t : List R) (r : R)
      → find i t ≡ some r
      → sum_by g (delete i t) + g r ≡ sum_by g t
  sum_by-delete g i [] r e = cc
  sum_by-delete g i (x ∷ t) r e = ground (arith, sum_by-delete g i t r)
