-- ===== src/Execution/Paths.antt =====
-- The search of `has_path` against the relation that it decides.
use zhongshu.Prelude.{
  String, ℕ, zero, suc, ◌+◌, ◌<◌, Bool, true, false, ◌||◌, List, [], ◌∷◌, ◌++◌, Option, none, some,
  ◌≡◌, ◌≢◌, ◌↔◌, refl, ap, subst, arith, All, All-append, In, here, there, keep, length,
  length-append, Bool-cases, ◌==◌, if◌then◌else◌, inl, inr,
}
use zhongshu.Execution.Graph.{targets, path_loop, path_exists, found, member}
use zhongshu.Execution.Types.{ExecutionEdge}

-- A way along the edges, of any length.
pub data Leads (edges : List ExecutionEdge) (a : String) : String → Type 0 where
  stay : Leads edges a a
  along :
      {b c : String}
      → Leads edges a b
      → (e : ExecutionEdge) → In e edges
      → e.from ≡ b
      → e.to ≡ c
      → Leads edges a c

targets_lead :
    (edges all : List ExecutionEdge) (a current : String)
    → ((e : ExecutionEdge) → In e edges → In e all)
    → Leads all a current
    → All (Leads all a) (targets current edges)
unfolding targets keep
targets_lead [] all a current within l = tt
targets_lead (e ∷ es) all a current within l =
    let rest = targets_lead es all a current (λ f i. within f (there i)) l in
    elim (Bool-cases (e.from == current)) [
      | inl same ↦ rw (same, keep) (along l e (within e (here refl)) (ground arith) refl, rest)
      | inr other ↦ rw (other, keep) rest
    ]

module _ (edges : List ExecutionEdge) (a to : String) where
  path_loop_sound :
      (fuel : ℕ) (queue visited : List String)
      → All (Leads edges a) queue
      → path_loop fuel edges to queue visited ≡ some true
      → Leads edges a to
  unfolding path_loop
  path_loop_sound zero queue visited reach h = cc
  path_loop_sound (suc fuel) [] visited reach h = cc
  path_loop_sound (suc fuel) (current ∷ queue) visited reach h = elim (Bool-cases (current == to)) [
    | inl done ↦ subst (Leads edges a) (ground arith) reach.0
    | inr more ↦ elim (Bool-cases (member current visited)) [
      | inl old ↦ path_loop_sound fuel queue visited reach.1 (ground arith)
      | inr new ↦
          path_loop_sound fuel (queue ++ targets current edges) (current ∷ visited)
            (All-append (Leads edges a) queue (targets current edges) reach.1
              (targets_lead edges edges a current (λ e i. i) reach.0))
            (ground arith)
    ]
  ]

-- The edges whose source has not been expanded.
unexpanded : List String → List ExecutionEdge → ℕ
unexpanded visited [] = 0
unexpanded visited (e ∷ es) =
    let rest = unexpanded visited es in if member e.from visited then rest else suc rest

unexpanded-cons :
    (current : String) (visited : List String) (edges : List ExecutionEdge)
    → member current visited ≡ false
    → unexpanded (current ∷ visited) edges + length (targets current edges)
      ≡ unexpanded visited edges
unfolding unexpanded targets keep member
unexpanded-cons current visited [] new = omega arith
unexpanded-cons current visited (e ∷ es) new =
    ground (arith, unexpanded-cons current visited es new)

unexpanded-nil : (edges : List ExecutionEdge) → unexpanded [] edges ≡ length edges
unfolding unexpanded member
unexpanded-nil [] = refl
unexpanded-nil (e ∷ es) = ap suc (unexpanded-nil es)

-- The fuel is enough.
path_loop_ends :
    (edges : List ExecutionEdge) (to : String) (fuel : ℕ) (queue visited : List String)
    → length queue + unexpanded visited edges < fuel
    → path_loop fuel edges to queue visited ≢ none
unfolding path_loop
path_loop_ends edges to zero queue visited h e = absurd (omega arith)
path_loop_ends edges to (suc fuel) [] visited h e = cc
path_loop_ends edges to (suc fuel) (current ∷ queue) visited h e =
    elim (Bool-cases (current == to)) [
      | inl done ↦ ground arith
      | inr more ↦ elim (Bool-cases (member current visited)) [
        | inl old ↦ path_loop_ends edges to fuel queue visited (omega arith) (ground arith)
        | inr new ↦
            path_loop_ends edges to fuel (queue ++ targets current edges) (current ∷ visited)
              (omega (
                arith,
                length-append queue (targets current edges),
                unexpanded-cons current visited edges new,
              ))
              (ground arith)
      ]
    ]

pub member-append :
    (x : String) (xs ys : List String) → member x (xs ++ ys) ≡ (member x xs || member x ys)
unfolding member
member-append x [] ys = refl
member-append x (y ∷ xs) ys = ground (arith, member-append x xs ys)

member-targets :
    (e : ExecutionEdge) (edges : List ExecutionEdge)
    → In e edges
    → member e.to (targets e.from edges) ≡ true
unfolding member targets keep
member-targets e [] i = elim i [ ]
member-targets e (f ∷ es) (here p) =
    ground (arith, ap (λ (x : ExecutionEdge). x.from) p, ap (λ (x : ExecutionEdge). x.to) p)
member-targets e (f ∷ es) (there i) = ground (arith, member-targets e es i)

-- What the loop keeps: every target of an expanded node was expanded or waits in the queue, and no
-- expanded node is the one that is looked for.
module _ (edges : List ExecutionEdge) (a to : String) where
  abbrev Closed : List String → List String → Type 0
  Closed queue visited =
      (e : ExecutionEdge)
      → In e edges
      → member e.from visited ≡ true
      → (member e.to queue || member e.to visited) ≡ true

  abbrev Misses : List String → Type 0
  Misses visited = (x : String) → member x visited ≡ true → x ≢ to

  Closed-skip :
      (current : String) (queue visited : List String)
      → member current visited ≡ true
      → Closed (current ∷ queue) visited
      → Closed queue visited
  unfolding member
  Closed-skip current queue visited old c e i m = ground (arith, c e i m)

  Closed-expand :
      (current : String) (queue visited : List String)
      → Closed (current ∷ queue) visited
      → Closed (queue ++ targets current edges) (current ∷ visited)
  unfolding member
  Closed-expand current queue visited c e i m =
      ground
        (arith, c e i, member-append e.to queue (targets current edges), member-targets e edges i)

  Misses-expand :
      (current : String) (visited : List String)
      → (current == to) ≡ false
      → Misses visited
      → Misses (current ∷ visited)
  unfolding member
  Misses-expand current visited ne h x m e = ground (arith, h x)

  -- A closed set with an empty queue holds all that its members lead to.
  Closed-Leads :
      (visited : List String)
      → Closed [] visited
      → member a visited ≡ true
      → (x : String) → Leads edges a x
      → member x visited ≡ true
  unfolding member
  Closed-Leads visited c m x stay = m
  Closed-Leads visited c m x (along {b} {c = y} l e i p q) =
      ground (arith, Closed-Leads visited c m b l, c e i)

  path_loop_complete :
      (fuel : ℕ) (queue visited : List String)
      → path_loop fuel edges to queue visited ≡ some false
      → Closed queue visited
      → Misses visited
      → (member a queue || member a visited) ≡ true
      → Leads edges a to
      → ⊥
  unfolding path_loop
  path_loop_complete zero queue visited h c n m l = cc
  path_loop_complete (suc fuel) [] visited h c n m l =
      n to (Closed-Leads visited c (unfold member in m) to l) refl
  path_loop_complete (suc fuel) (current ∷ queue) visited h c n m l =
      elim (Bool-cases (current == to)) [
        | inl done ↦ ground arith
        | inr more ↦ elim (Bool-cases (member current visited)) [
          | inl old ↦
              path_loop_complete fuel queue visited (ground arith)
                (Closed-skip current queue visited old c) n (unfold member in ground arith) l
          | inr new ↦
              path_loop_complete fuel (queue ++ targets current edges) (current ∷ visited)
                (ground arith) (Closed-expand current queue visited c)
                (Misses-expand current visited more n)
                (unfold member in ground (arith, member-append a queue (targets current edges))) l
        ]
      ]

found-true : {r : Option Bool} → found r ≡ true → r ≡ some true
unfolding found
found-true h = ground arith

found_of : {r : Option Bool} → r ≢ none → r ≢ some false → found r ≡ true
unfolding found
found_of {r = none} h k = absurd (h refl)
found_of {r = some false} h k = absurd (k refl)
found_of {r = some true} h k = refl

-- `has_path` answers whether the edges lead from the one node to the other; its loop never runs out
-- of fuel.
pub path_exists_iff :
    (edges : List ExecutionEdge) (from to : String)
    → (path_exists edges from to ≡ true) ↔ Leads edges from to
unfolding path_exists
path_exists_iff edges from to = (
  λ h. path_loop_sound edges from to (length edges + 2) (from ∷ []) [] (stay, tt) (found-true h),
  λ l.
      found_of
        (λ e.
          path_loop_ends edges to (length edges + 2) (from ∷ []) []
            (omega (arith, unexpanded-nil edges)) e)
        (λ e.
          path_loop_complete edges from to (length edges + 2) (from ∷ []) [] e
            (λ f i m. unfold member in cc) (λ x m. unfold member in cc)
            (unfold member in ground arith) l),
)
