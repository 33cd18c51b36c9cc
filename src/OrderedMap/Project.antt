-- ===== src/OrderedMap/Project.antt =====
-- The map that holds, under each key, a view of the value.
use zhongshu.Prelude.{
  String, [], ◌∷◌, Option, none, some, ◌≡◌, refl, ap, arith, str_lt_trans, str_lt_asymm,
  str_lt_total,
}
use zhongshu.OrderedMap.{Map, lookup, insert, keys}
use zhongshu.OrderedMap.Order.{IsSorted, Above}

module _ {ℓ κ} {V : Type ℓ} {W : Type κ} (view : V → W) where
  unfoldable pub project : Map V → Map W
  project [] = []
  project ((k, v) ∷ m) = (k, view v) ∷ project m

  abbrev pub viewed : Option V → Option W
  viewed none = none
  viewed (some v) = some (view v)

  pub lookup-project : (k : String) (m : Map V) → lookup k (project m) ≡ viewed (lookup k m)
  unfolding lookup project
  lookup-project k [] = refl
  lookup-project k ((j, v) ∷ m) = ground (arith, lookup-project k m)

  pub project-insert :
      (k : String) (v : V) (m : Map V) → project (insert k v m) ≡ insert k (view v) (project m)
  unfolding insert project
  project-insert k v [] = refl
  project-insert k v ((j, w) ∷ m) = ground (arith, project-insert k v m)

  pub keys-project : (m : Map V) → keys (project m) ≡ keys m
  unfolding keys project
  keys-project [] = refl
  keys-project ((k, v) ∷ m) = ap (◌∷◌ k) (keys-project m)

  pub Above-project : (k : String) (m : Map V) → Above k m → Above k (project m)
  unfolding project
  Above-project k [] a = tt
  Above-project k ((j, v) ∷ m) a = (a.0, Above-project k m a.1)

  pub project-IsSorted : (m : Map V) → IsSorted m → IsSorted (project m)
  unfolding project
  project-IsSorted [] s = tt
  project-IsSorted ((k, v) ∷ m) s = (Above-project k m s.0, project-IsSorted m s.1)

module _ {ℓ} {V : Type ℓ} where
  -- Two keys may be written in either order.
  pub insert_comm :
      (j k : String) (v w : V) (m : Map V)
      → ¬ (j ≡ k)
      → insert j v (insert k w m) ≡ insert k w (insert j v m)
  unfolding insert
  insert_comm j k v w [] ne = ground (arith, str_lt_total j k, str_lt_asymm j k)
  insert_comm j k v w ((i, u) ∷ m) ne = ground (
    arith,
    insert_comm j k v w m ne,
    str_lt_total j k,
    str_lt_asymm j k,
    str_lt_trans j k i,
    str_lt_trans k j i,
    str_lt_total j i,
    str_lt_total k i,
    str_lt_trans i j k,
    str_lt_trans i k j,
  )
