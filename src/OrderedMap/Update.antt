-- ===== src/OrderedMap/Update.antt =====
-- Writing a key that is there: the other entries stay, and so does the order.
use zhongshu.Prelude.{
  String, ℕ, suc, Bool, true, false, [], ◌∷◌, some, ◌≡◌, refl, ap, arith, if◌then◌else◌, ◌==◌,
  str_lt, str_lt_trans, ◌≤◌, length,
}
use zhongshu.OrderedMap.{Map, lookup, insert, keys}
use zhongshu.OrderedMap.Order.{IsSorted, Above, lookup_of_Above}

module _ {ℓ} {V : Type ℓ} where
  unfoldable pub replace : String → V → Map V → Map V
  replace k w [] = []
  replace k w ((j, v) ∷ m) = if j == k then (k, w) ∷ m else (j, v) ∷ replace k w m

  Above-trans : (i j : String) (m : Map V) → str_lt i j ≡ true → Above j m → Above i m
  Above-trans i j [] h a = tt
  Above-trans i j ((k, v) ∷ m) h a = (str_lt_trans i j k h a.0, Above-trans i j m h a.1)

  pub insert-replace :
      (k : String) (v w : V) (m : Map V)
      → IsSorted m
      → lookup k m ≡ some v
      → insert k w m ≡ replace k w m
  unfolding lookup insert replace
  insert-replace k v w [] s h = cc
  insert-replace k v w ((j, u) ∷ m) s h =
      ground (arith, insert-replace k v w m s.1, lookup_of_Above k m, Above-trans k j m, s.0)

  pub keys-replace : (k : String) (w : V) (m : Map V) → keys (replace k w m) ≡ keys m
  unfolding keys replace
  keys-replace k w [] = refl
  keys-replace k w ((j, v) ∷ m) = ground (arith, keys-replace k w m)

  -- How many values pass a test.
  unfoldable pub count : (V → Bool) → Map V → ℕ
  count p [] = 0
  count p ((k, v) ∷ m) = let rest = count p m in if p v then suc rest else rest

  pub count-le-length : (p : V → Bool) (m : Map V) → count p m ≤ length m
  unfolding count
  count-le-length p [] = omega arith
  count-le-length p ((k, v) ∷ m) = ground (arith, count-le-length p m)

  pub count-replace :
      (p : V → Bool) (k : String) (v w : V) (m : Map V)
      → lookup k m ≡ some v
      → p v ≡ true
      → p w ≡ false
      → suc (count p (replace k w m)) ≡ count p m
  unfolding count replace lookup
  count-replace p k v w [] h a b = cc
  count-replace p k v w ((j, u) ∷ m) h a b = ground (arith, count-replace p k v w m, ap p)
