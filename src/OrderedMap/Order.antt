-- ===== src/OrderedMap/Order.antt =====
-- The order of a map's keys: every `insert` keeps it, and `collect` of the values gives it back.
use zhongshu.Prelude.{
  String, true, [], ◌∷◌, ◌++◌, none, some, ◌≡◌, refl, sym, ap, arith, In, here, there, str_lt,
  str_lt_trans, str_lt_total, str_lt_irrefl, str_lt_asymm, String-discrete, append-nil,
  append_assoc, subst,
}
use zhongshu.OrderedMap.{Map, lookup, insert, values, insert_all}

module _ {ℓ} {V : Type ℓ} where
  -- Every key of the map lies above `k`.
  abbrev pub Above : String → Map V → Type 0
  Above k [] = Unit
  Above k ((j, v) ∷ m) = (str_lt k j ≡ true) × Above k m

  abbrev pub IsSorted : Map V → Type 0
  IsSorted [] = Unit
  IsSorted ((k, v) ∷ m) = Above k m × IsSorted m

  Above-trans : (i j : String) (m : Map V) → str_lt i j ≡ true → Above j m → Above i m
  Above-trans i j [] h a = tt
  Above-trans i j ((k, v) ∷ m) h a = (str_lt_trans i j k h a.0, Above-trans i j m h a.1)

  Above-insert :
      (i k : String) (v : V) (m : Map V) → str_lt i k ≡ true → Above i m → Above i (insert k v m)
  unfolding insert
  Above-insert i k v [] h a = (h, tt)
  Above-insert i k v ((j, w) ∷ m) h a = ground (arith, Above-insert i k v m)

  pub insert-IsSorted : (k : String) (v : V) (m : Map V) → IsSorted m → IsSorted (insert k v m)
  unfolding insert
  insert-IsSorted k v [] s = (tt, tt)
  insert-IsSorted k v ((j, w) ∷ m) s =
      ground
        (arith, insert-IsSorted k v m, Above-insert j k v m, Above-trans k j m, str_lt_total k j)

  -- Every key of the map lies below `k`.
  abbrev Below : String → Map V → Type 0
  Below k [] = Unit
  Below k ((j, v) ∷ m) = (str_lt j k ≡ true) × Below k m

  Below-snoc :
      (k j : String) (v : V) (m : Map V)
      → str_lt j k ≡ true
      → Below k m
      → Below k (m ++ (j, v) ∷ [])
  Below-snoc k j v [] h b = (h, tt)
  Below-snoc k j v ((i, w) ∷ m) h b = (b.0, Below-snoc k j v m h b.1)

  insert_last : (k : String) (v : V) (m : Map V) → Below k m → insert k v m ≡ m ++ (k, v) ∷ []
  unfolding insert
  insert_last k v [] b = refl
  insert_last k v ((j, w) ∷ m) b =
      ground (arith, insert_last k v m, str_lt_irrefl j, str_lt_asymm j k)

  -- Every value is stored under the key that it carries.
  abbrev pub Keyed : (V → String) → Map V → Type 0
  Keyed key [] = Unit
  Keyed key ((k, v) ∷ m) = (k ≡ key v) × Keyed key m

  -- Every key of the first map lies below every key of the second.
  abbrev Apart : Map V → Map V → Type 0
  Apart m [] = Unit
  Apart m ((k, v) ∷ n) = Below k m × Apart m n

  Apart-snoc :
      (j : String) (v : V) (m n : Map V) → Apart m n → Above j n → Apart (m ++ (j, v) ∷ []) n
  Apart-snoc j v m [] a b = tt
  Apart-snoc j v m ((k, w) ∷ n) a b = (Below-snoc k j v m b.0 a.0, Apart-snoc j v m n a.1 b.1)

  insert_all-values_onto :
      (key : V → String) (m n : Map V)
      → Apart m n
      → IsSorted n
      → Keyed key n
      → insert_all key m (values n) ≡ m ++ n
  unfolding insert_all values
  insert_all-values_onto key m [] a s e = sym (append-nil m)
  insert_all-values_onto key m ((k, v) ∷ n) a s e =
      let inserted : insert (key v) v m ≡ m ++ (k, v) ∷ [] =
        subst (λ j. insert j v m ≡ m ++ (k, v) ∷ []) e.0 (insert_last k v m a.0) in
      rw (inserted, insert_all)
        (rw (insert_all-values_onto key (m ++ (k, v) ∷ []) n (Apart-snoc k v m n a.1 s.0) s.1 e.1)
          (append_assoc m ((k, v) ∷ []) n))

  Apart-nil : (n : Map V) → Apart [] n
  Apart-nil [] = tt
  Apart-nil ((k, v) ∷ n) = (tt, Apart-nil n)

  -- Collecting the values of a sorted map under their own keys gives the map.
  pub insert_all-values :
      (key : V → String) (m : Map V) → IsSorted m → Keyed key m → insert_all key [] (values m) ≡ m
  insert_all-values key m s e = insert_all-values_onto key [] m (Apart-nil m) s e

  pub insert-Keyed :
      (key : V → String) (k : String) (v : V) (m : Map V)
      → k ≡ key v
      → Keyed key m
      → Keyed key (insert k v m)
  unfolding insert
  insert-Keyed key k v [] e h = (e, tt)
  insert-Keyed key k v ((j, w) ∷ m) e h = ground (arith, insert-Keyed key k v m e)

  pub lookup_of_Above : (k : String) (m : Map V) → Above k m → lookup k m ≡ none
  unfolding lookup
  lookup_of_Above k [] a = refl
  lookup_of_Above k ((j, v) ∷ m) a = ground (arith, lookup_of_Above k m a.1, str_lt_irrefl j, a.0)

  key_of_value-Above :
      (key : V → String) (i : String) (v : V) (m : Map V)
      → Keyed key m
      → Above i m
      → In v (values m)
      → str_lt i (key v) ≡ true
  unfolding values
  key_of_value-Above key i v [] e a p = elim p [ ]
  key_of_value-Above key i v ((j, w) ∷ m) e a (here q) = ground (arith, e.0, a.0, ap key q)
  key_of_value-Above key i v ((j, w) ∷ m) e a (there p) = key_of_value-Above key i v m e.1 a.1 p

  -- A value of a sorted map is found under its own key.
  pub lookup_of_value :
      (key : V → String) (v : V) (m : Map V)
      → IsSorted m
      → Keyed key m
      → In v (values m)
      → lookup (key v) m ≡ some v
  unfolding lookup values
  lookup_of_value key v [] s e p = elim p [ ]
  lookup_of_value key v ((j, w) ∷ m) s e (here q) = ground (arith, e.0, ap key q)
  lookup_of_value key v ((j, w) ∷ m) s e (there p) = ground (
    arith,
    lookup_of_value key v m s.1 e.1 p,
    key_of_value-Above key j v m e.1 s.0 p,
    str_lt_irrefl j,
  )

  pub value_of_lookup : (k : String) (v : V) (m : Map V) → lookup k m ≡ some v → In v (values m)
  unfolding lookup values
  value_of_lookup k v [] h = cc
  value_of_lookup k v ((j, w) ∷ m) h = elim (String-discrete j k) [
    | yes e ↦ here (ground arith)
    | no ne ↦ there (value_of_lookup k v m (ground arith))
  ]

  -- A found value carries the key that it was asked for.
  pub key_of_lookup :
      (key : V → String) (k : String) (v : V) (m : Map V)
      → Keyed key m
      → lookup k m ≡ some v
      → key v ≡ k
  unfolding lookup
  key_of_lookup key k v [] e h = cc
  key_of_lookup key k v ((j, w) ∷ m) e h = ground (arith, key_of_lookup key k v m e.1, e.0)
