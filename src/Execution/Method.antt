-- ===== src/Execution/Method.antt =====
-- A method of `ExecutionGraph` that takes `&mut self` and returns a `Result`: the graph it leaves
-- behind is part of its answer on an error too.
use zhongshu.Prelude.{List, [], ◌∷◌, Result, ok, err, ◌≡◌, refl, ap}
use zhongshu.Execution.Types.{ExecutionGraph, ExecutionGraphError}

abbrev pub Method {ℓ} : Type ℓ → Type ℓ
Method A = ExecutionGraph → Result ExecutionGraphError A × ExecutionGraph

abbrev pub proceed {ℓ κ} :
    {A : Type ℓ} {B : Type κ} → (A → Method B) → Result ExecutionGraphError A → Method B
proceed f (ok a) g = f a g
proceed f (err e) g = (err e, g)

-- `?` after a call of a method.
infixl 5 ◌>>=◌ ◌>>◌
abbrev pub ◌>>=◌ {ℓ κ} : {A : Type ℓ} {B : Type κ} → Method A → (A → Method B) → Method B
◌>>=◌ m f g = proceed f (m g).0 (m g).1

abbrev pub ◌>>◌ {ℓ} : {B : Type ℓ} → Method (Unit {0}) → Method B → Method B
m >> k = m >>= λ _. k

-- A method that reads the graph only.
abbrev pub reads {ℓ} : {A : Type ℓ} → (ExecutionGraph → Result ExecutionGraphError A) → Method A
reads f g = (f g, g)

abbrev pub changes : (ExecutionGraph → ExecutionGraph) → Method (Unit {0})
changes f g = (ok tt, f g)

-- `for x in xs { body(x)?; }`.
unfoldable pub for_each {ℓ} : {X : Type ℓ} → (X → Method (Unit {0})) → List X → Method (Unit {0})
for_each body [] g = (ok tt, g)
for_each body (x ∷ xs) g = (body x >> for_each body xs) g

module _ {ℓ κ} {A : Type ℓ} {B : Type κ} (m : Method A) (f : A → Method B)
    (g h : ExecutionGraph) where
  pub bind_ok : (a : A) → m g ≡ (ok a, h) → (m >>= f) g ≡ f a h
  bind_ok a e = ap (λ r. proceed f r.0 r.1) e

  pub bind_err : (x : ExecutionGraphError) → m g ≡ (err x, h) → (m >>= f) g ≡ (err x, h)
  bind_err x e = ap (λ r. proceed f r.0 r.1) e

module _ {ℓ} {X : Type ℓ} (body : X → Method (Unit {0})) where
  pub for_each-nil : (g : ExecutionGraph) → for_each body [] g ≡ (ok tt, g)
  unfolding for_each
  for_each-nil g = refl

  -- A round that succeeds.
  pub for_each-cons :
      (x : X) (xs : List X) (g h : ExecutionGraph)
      → body x g ≡ (ok tt, h)
      → for_each body (x ∷ xs) g ≡ for_each body xs h
  unfolding for_each
  for_each-cons x xs g h e = bind_ok (body x) (λ _. for_each body xs) g h tt e

-- What each part of a sequence keeps, the sequence keeps.
module _ {ℓ} (P : ExecutionGraph → Type ℓ) where
  bind_keeps_on {κ μ} :
      {A : Type κ} {B : Type μ} (f : A → Method B) (r : Result ExecutionGraphError A)
      (h : ExecutionGraph)
      → P h
      → ((a : A) → r ≡ ok a → P (f a h).1)
      → P (proceed f r h).1
  bind_keeps_on f (ok a) h p k = k a refl
  bind_keeps_on f (err e) h p k = p

  pub bind_keeps {κ μ} :
      {A : Type κ} {B : Type μ} (m : Method A) (f : A → Method B) (g : ExecutionGraph)
      → P (m g).1
      → ((a : A) → (m g).0 ≡ ok a → P (f a (m g).1).1)
      → P ((m >>= f) g).1
  bind_keeps m f g p k = bind_keeps_on f (m g).0 (m g).1 p k
