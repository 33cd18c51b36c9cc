-- ===== src/OrderedMap/Laws.antt =====
-- What a map answers after a change, and its entries as a family.
use zhongshu.Prelude.{
  String, true, [], ◌∷◌, some, if◌then◌else◌, ◌==◌, ◌≡◌, refl, arith, In, here, there,
  String-discrete,
}
use zhongshu.OrderedMap.{Map, lookup, insert, contains_key}

module _ {ℓ} {V : Type ℓ} where
  pub lookup-insert :
      (put asked : String) (new : V) (entries : Map V)
      → lookup asked (insert put new entries)
        ≡ (if put == asked then some new else lookup asked entries)
  unfolding lookup insert
  lookup-insert put asked new [] = refl
  lookup-insert put asked new (entry ∷ entries) =
      let (key, old) = entry in ground (arith, lookup-insert put asked new entries)

  pub lookup-insert_self :
      (put : String) (new : V) (entries : Map V) → lookup put (insert put new entries) ≡ some new
  lookup-insert_self put new entries = ground (arith, lookup-insert put put new entries)

  pub lookup-insert_ne :
      (k j : String) (v : V) (m : Map V) → ¬ (k ≡ j) → lookup j (insert k v m) ≡ lookup j m
  lookup-insert_ne k j v m ne = ground (arith, lookup-insert k j v m)

  pub contains_key-insert :
      (k j : String) (v : V) (m : Map V)
      → contains_key j (insert k v m) ≡ (if k == j then true else contains_key j m)
  unfolding contains_key
  contains_key-insert k j v m = ground (arith, lookup-insert k j v m)

  pub In-of_lookup : (k : String) (v : V) (m : Map V) → lookup k m ≡ some v → In (k, v) m
  unfolding lookup
  In-of_lookup k v [] h = cc
  In-of_lookup k v ((j, w) ∷ m) h = elim (String-discrete j k) [
    | yes e ↦ here (ground arith)
    | no ne ↦ there (In-of_lookup k v m (ground arith))
  ]
