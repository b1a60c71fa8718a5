-- ===== src/Base/Spaces.antt =====
-- `trim` and `split(/\s+/)` of the standard library, on code units below 256.
use dnsdata_js.Base.Tests.{leb, ◌==◌, if◌then◌else◌}
use Prim.Native.Nat.{ℕ}
use mathlib.Core.Bool.{Bool, true, false, ◌&&◌, ◌||◌}
use mathlib.Core.List.{List, [], ◌∷◌, reverse}
use dnsdata_js.Base.Text.{Text, cons_first}
pub mod Words

-- White space and line ends among the units below 256.
abbrev pub is_space : ℕ → Bool
is_space c = (leb 9 c && leb c 13) || ((c == 32) || (c == 160))

unfoldable pub drop_spaces : Text → Text
drop_spaces [] = []
drop_spaces (c ∷ s) = let rest = drop_spaces s in if is_space c then rest else c ∷ s

-- `s.trim()`
unfoldable pub trim : Text → Text
unfolding drop_spaces
trim s = reverse (drop_spaces (reverse (drop_spaces s)))

abbrev starts_with_space : Text → Bool
starts_with_space [] = false
starts_with_space (c ∷ s) = is_space c

-- `s.split(/\s+/)`: the last space of a run is where the piece ends.
unfoldable pub split_spaces : Text → List Text
split_spaces [] = [] ∷ []
split_spaces (c ∷ s) =
    let ps = split_spaces s in
    if is_space c then (if starts_with_space s then ps else [] ∷ ps) else cons_first c ps
