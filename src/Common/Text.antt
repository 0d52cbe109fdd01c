-- ===== src/Common/Text.antt =====
-- `text.trim().toLowerCase()`, which the rules about names and units compare by: the code points
-- that are left. Capitals beyond Latin-1 are kept as they are.
use Prim.Native.Char.{code}
use Prim.Native.String.{String}
use mathlib.Core.List.{reverse}
use laicos_backend.Prelude.{
  ℕ, ◌+◌, Bool, true, false, ◌&&◌, ◌||◌, not, List, [], ◌∷◌, map, leb, ◌==◌, if◌then◌else◌,
}

abbrev pub codes : String → List ℕ
codes String.[] = []
codes (String.◌∷◌ c s) = code c ∷ codes s

abbrev between : ℕ → ℕ → ℕ → Bool
between lo hi c = leb lo c && leb c hi

-- White space and line ends, as `trim` takes them.
abbrev is_space : ℕ → Bool
is_space c =
    between 9 13 c
    || c == 32
    || c == 160
    || c == 5760
    || between 8192 8202 c
    || between 8232 8233 c
    || c == 8239
    || c == 8287
    || c == 12288
    || c == 65279

abbrev drop_spaces : List ℕ → List ℕ
drop_spaces [] = []
drop_spaces (c ∷ s) = if is_space c then drop_spaces s else c ∷ s

abbrev trim : List ℕ → List ℕ
trim s = reverse (drop_spaces (reverse (drop_spaces s)))

abbrev lower : ℕ → ℕ
lower c = if between 65 90 c || (between 192 222 c && not (c == 215)) then c + 32 else c

unfoldable pub normalized : String → List ℕ
normalized text = map lower (trim (codes text))

abbrev pub same_codes : List ℕ → List ℕ → Bool
same_codes [] [] = true
same_codes (a ∷ s) (b ∷ t) = a == b && same_codes s t
same_codes _ _ = false
