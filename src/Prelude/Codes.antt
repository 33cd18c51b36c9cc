-- ===== src/Prelude/Codes.antt =====
-- A text as the sequence of its `char`s, for code that walks it.
use Prim.Native.Nat.{ℕ}
use Prim.Native.Char.{code}
use Prim.Native.String.{String}
use mathlib.Core.Bool.{Bool, true, false, ◌&&◌, ◌||◌}
use mathlib.Core.List.{List, [], ◌∷◌, ◌++◌}
use zhongshu.Prelude.Tests.{eqb, if◌then◌else◌}
use zhongshu.Prelude.Text.{is_whitespace}

abbrev pub Codes : Type 0
Codes = List ℕ

abbrev pub codes : String → Codes
codes String.[] = []
codes (String.◌∷◌ c s) = code c ∷ codes s

unfoldable pub same : Codes → Codes → Bool
same [] [] = true
same [] (d ∷ t) = false
same (c ∷ s) [] = false
same (c ∷ s) (d ∷ t) = eqb c d && same s t

unfoldable pub is_one_of : Codes → List String → Bool
unfolding same
is_one_of s [] = false
is_one_of s (w ∷ ws) = same s (codes w) || is_one_of s ws

unfoldable pub starts_with : Codes → Codes → Bool
starts_with s [] = true
starts_with [] (d ∷ t) = false
starts_with (c ∷ s) (d ∷ t) = eqb c d && starts_with s t

unfoldable pub contains : Codes → Codes → Bool
unfolding starts_with
contains [] t = starts_with [] t
contains (c ∷ s) t = starts_with (c ∷ s) t || contains s t

unfoldable pub reverse_onto : Codes → Codes → Codes
reverse_onto [] t = t
reverse_onto (c ∷ s) t = reverse_onto s (c ∷ t)

abbrev pub reverse : Codes → Codes
reverse s = reverse_onto s []

unfoldable pub drop_spaces : Codes → Codes
unfolding is_whitespace
drop_spaces [] = []
drop_spaces (c ∷ s) = if is_whitespace c then drop_spaces s else (c ∷ s)

unfoldable pub trim : Codes → Codes
unfolding drop_spaces reverse_onto
trim s = reverse (drop_spaces (reverse (drop_spaces s)))

unfoldable pub is_nothing : {A : Type 0} → List A → Bool
is_nothing [] = true
is_nothing (c ∷ s) = false

unfoldable pub join : Codes → List Codes → Codes
join by [] = []
join by (s ∷ []) = s
join by (s ∷ t ∷ ts) = s ++ by ++ join by (t ∷ ts)

-- `trim_matches(c)`.
unfoldable pub drop_char : ℕ → Codes → Codes
drop_char d [] = []
drop_char d (c ∷ s) = if eqb c d then drop_char d s else (c ∷ s)

unfoldable pub trim_char : ℕ → Codes → Codes
unfolding drop_char reverse_onto
trim_char d s = reverse (drop_char d (reverse (drop_char d s)))

unfoldable pub ends_with_char : ℕ → Codes → Bool
ends_with_char d [] = false
ends_with_char d (c ∷ []) = eqb c d
ends_with_char d (c ∷ e ∷ s) = ends_with_char d (e ∷ s)

-- What follows the last `/` or `\`: the first of `rsplit(['/', '\\'])`.
unfoldable pub part_loop : Codes → Codes → Codes
part_loop part [] = part
part_loop part (c ∷ s) = part_loop (if eqb c b'/' || eqb c b'\\' then [] else part ++ c ∷ []) s

unfoldable pub last_part : Codes → Codes
unfolding part_loop
last_part s = part_loop [] s
