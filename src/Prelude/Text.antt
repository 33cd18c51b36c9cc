-- ===== src/Prelude/Text.antt =====
-- Texts: equality and order as Rust's `String` has them, and `trim().is_empty()`.
use Prim.Native.Nat.{ℕ, Ordering}
use Prim.Native.Char.{code}
use Prim.Native.String.{String, compare}
use Prim.Native.String.compare
use mathlib.Core.Path.{◌≡◌, refl, ap}
use mathlib.Core.Bool.{Bool, true, false, ◌&&◌, ◌||◌}
use native.Mathlib.Omega.{arith}
use text.Mathlib.TextEquality.{path_by_compare}
use text.Mathlib.TextPositions.{compare_refl}
use zhongshu.Prelude.Tests.{leb, eqb, holds}

decide_by : {s t : String} → (o : Ordering) → compare s t ≡ o → Dec (s ≡ t)
decide_by {s} {t} Ordering.eq e = yes (path_by_compare s t e)
decide_by {s} {t} Ordering.lt e = no λ p. cc (ap (compare s) p, compare_refl s)
decide_by {s} {t} Ordering.gt e = no λ p. cc (ap (compare s) p, compare_refl s)

unfoldable pub String-discrete : Discrete String
unfolding decide_by
String-discrete s t = decide_by (compare s t) refl

infix 50 ◌==◌
abbrev pub ◌==◌ : String → String → Bool
s == t = holds (String-discrete s t)

-- `<` of `str`: lexicographic by scalar values, which is the order of the UTF-8 bytes.
abbrev is_lt : Ordering → Bool
is_lt Ordering.lt = true
is_lt _ = false

unfoldable pub str_lt : String → String → Bool
str_lt s t = is_lt (compare s t)

pub str_lt_irrefl : (s : String) → str_lt s s ≡ false
unfolding str_lt
str_lt_irrefl s = ap is_lt (compare_refl s)

compare_flip : (s t : String) → compare s t ≡ Ordering.gt → compare t s ≡ Ordering.lt
compare_flip String.[] String.[] h = cc (compare.nil-nil)
compare_flip String.[] (String.◌∷◌ d t) h = cc (compare.nil-cons d t)
compare_flip (String.◌∷◌ c s) String.[] h = compare.nil-cons c s
compare_flip (String.◌∷◌ c s) (String.◌∷◌ d t) h =
    ground (arith, compare_flip s t, compare.cons-cons c d s t, compare.cons-cons d c t s)

pub str_lt_total : (s t : String) → ¬ (s ≡ t) → str_lt s t ≡ false → str_lt t s ≡ true
unfolding str_lt
str_lt_total s t ne h = ground (arith, compare_flip s t, path_by_compare s t)

compare_trans :
    (s t u : String)
    → compare s t ≡ Ordering.lt
    → compare t u ≡ Ordering.lt
    → compare s u ≡ Ordering.lt
compare_trans s String.[] String.[] p q = cc
compare_trans String.[] String.[] (String.◌∷◌ e u) p q = q
compare_trans (String.◌∷◌ c s) String.[] (String.◌∷◌ e u) p q = cc (compare.cons-nil c s)
compare_trans s (String.◌∷◌ d t) String.[] p q = cc (compare.cons-nil d t)
compare_trans String.[] (String.◌∷◌ d t) (String.◌∷◌ e u) p q = compare.nil-cons e u
compare_trans (String.◌∷◌ c s) (String.◌∷◌ d t) (String.◌∷◌ e u) p q = ground (
  arith,
  compare_trans s t u,
  compare.cons-cons c d s t,
  compare.cons-cons d e t u,
  compare.cons-cons c e s u,
)

pub str_lt_trans : (s t u : String) → str_lt s t ≡ true → str_lt t u ≡ true → str_lt s u ≡ true
unfolding str_lt
str_lt_trans s t u p q = ground (arith, compare_trans s t u)

pub str_lt_asymm : (s t : String) → str_lt s t ≡ true → str_lt t s ≡ false
str_lt_asymm s t p = ground (arith, str_lt_trans s t s p, str_lt_irrefl s)

-- `char::is_whitespace`: the code points with the Unicode property White_Space.
unfoldable pub is_whitespace : ℕ → Bool
is_whitespace c =
    (leb 9 c && leb c 13)
    || eqb c 32
    || eqb c 133
    || eqb c 160
    || eqb c 5760
    || (leb 8192 c && leb c 8202)
    || eqb c 8232
    || eqb c 8233
    || eqb c 8239
    || eqb c 8287
    || eqb c 12288

-- `s.trim().is_empty()`: nothing but white space.
unfoldable pub is_blank : String → Bool
unfolding is_whitespace
is_blank String.[] = true
is_blank (String.◌∷◌ c s) = is_whitespace (code c) && is_blank s
