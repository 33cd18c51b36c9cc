-- ===== src/OrderedMap.antt =====
-- `BTreeMap<String, V>` of the Rust standard library, as the list of its entries in the order of
-- iteration: by key, each key once.
pub mod Laws
pub mod Order
pub mod Update
pub mod Project
use zhongshu.Prelude.{
  String, Bool, true, false, List, [], ◌∷◌, Option, none, some, if◌then◌else◌, ◌==◌, str_lt,
}

abbrev pub Map {ℓ} : Type ℓ → Type ℓ
Map V = List (String × V)

module _ {ℓ} {V : Type ℓ} where
  -- `get`.
  unfoldable pub lookup : String → Map V → Option V
  lookup key [] = none
  lookup key ((other, value) ∷ rest) = if other == key then some value else lookup key rest

  -- `insert`, which overwrites the value of a key that is there.
  unfoldable pub insert : String → V → Map V → Map V
  insert key new [] = (key, new) ∷ []
  insert key new ((other, old) ∷ rest) =
      if other == key
      then (key, new) ∷ rest
      else if str_lt key other
      then (key, new) ∷ (other, old) ∷ rest
      else (other, old) ∷ insert key new rest

  abbrev pub is_some : Option V → Bool
  is_some none = false
  is_some (some _) = true

  unfoldable pub contains_key : String → Map V → Bool
  unfolding lookup
  contains_key k m = is_some (lookup k m)

  -- `values().cloned().collect()`.
  unfoldable pub values : Map V → List V
  values [] = []
  values ((k, v) ∷ m) = v ∷ values m

  unfoldable pub keys : Map V → List String
  keys [] = []
  keys ((k, v) ∷ m) = k ∷ keys m

  -- `extend`, with the key that a value carries.
  unfoldable pub insert_all : (V → String) → Map V → List V → Map V
  unfolding insert
  insert_all key m [] = m
  insert_all key m (v ∷ vs) = insert_all key (insert (key v) v m) vs
