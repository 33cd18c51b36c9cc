-- ===== src/Permission/Entries.antt =====
-- What the tests of the lists of permissions mean.
use zhongshu.Prelude.{
  Bool, true, false, ◌||◌, List, [], ◌∷◌, ◌++◌, In, here, there, any, ◌↔◌, ◌⊎◌, inl, inr,
  Bool-cases, ◌≡◌, refl, sym, ap, subst, ◌∙◌, Option, append-nil, arith,
}
use zhongshu.Prelude.Codes.{Codes, same, trim, is_nothing}
use zhongshu.Permission.Hosts.{to_ascii_lowercase, trim_end_dots, ends_with, covers, host_allowed}
use zhongshu.Permission.Paths.{
  Component, FilePath, component_eq, path_eq, path_starts_with, resolve_path_for_permission,
  path_allowed,
}
use zhongshu.Permission.Guard.{member_text}

pub same_sound : (s t : Codes) → same s t ≡ true → s ≡ t
unfolding same
same_sound [] [] h = refl
same_sound [] (d ∷ t) h = cc
same_sound (c ∷ s) [] h = cc
same_sound (c ∷ s) (d ∷ t) h = ground (arith, h, same_sound s t)

pub same_self : (s : Codes) → same s s ≡ true
unfolding same
same_self [] = refl
same_self (c ∷ s) = ground (arith, same_self s)

-- A member of a list that passes a test.
pub any_sound {ℓ} :
    {A : Type ℓ} (p : A → Bool) (xs : List A) → any p xs ≡ true → (x : A) × In x xs × (p x ≡ true)
unfolding any
any_sound p [] h = cc
any_sound p (x ∷ xs) h = elim (Bool-cases (p x)) [
  | inl e ↦ (x, here refl, e)
  | inr e ↦ let (y, i, f) = any_sound p xs (ground (arith, h, e)) in (y, there i, f)
]

pub any_complete {ℓ} :
    {A : Type ℓ} (p : A → Bool) (x : A) (xs : List A) → In x xs → p x ≡ true → any p xs ≡ true
unfolding any
any_complete p x [] i h = elim i [ ]
any_complete p x (y ∷ xs) (here e) h = ground (arith, h, ap p e)
any_complete p x (y ∷ xs) (there i) h = ground (arith, any_complete p x xs i h)

pub member_text_iff : (s : Codes) (texts : List Codes) → (member_text s texts ≡ true) ↔ In s texts
unfolding member_text
member_text_iff s texts = (
  λ h.
      let (t, i, e) = any_sound (same s) texts h in
      subst (λ x. In x texts) (sym (same_sound s t e)) i,
  λ i. any_complete (same s) s texts i (same_self s),
)

ends_with_sound : (s t : Codes) → ends_with s t ≡ true → (x : Codes) × (s ≡ x ++ t)
unfolding ends_with is_nothing
ends_with_sound [] [] h = ([], refl)
ends_with_sound [] (d ∷ t) h = cc
ends_with_sound (c ∷ s) t h = elim (Bool-cases (same (c ∷ s) t)) [
  | inl e ↦ ([], same_sound (c ∷ s) t e)
  | inr e ↦ let (x, f) = ends_with_sound s t (ground (arith, h, e)) in (c ∷ x, ap (λ y. c ∷ y) f)
]

ends_with_complete : (x t : Codes) → ends_with (x ++ t) t ≡ true
unfolding ends_with is_nothing
ends_with_complete [] [] = refl
ends_with_complete [] (d ∷ t) = ground (arith, same_self (d ∷ t))
ends_with_complete (c ∷ x) t = ground (arith, ends_with_complete x t)

-- A host as the guard compares it, and an entry of the list.
abbrev pub host_name : Codes → Codes
host_name host = to_ascii_lowercase (trim_end_dots host)

abbrev pub entry_name : Codes → Codes
entry_name allowed = to_ascii_lowercase (trim_end_dots (trim allowed))

-- The host is the entry, or a subdomain of it.
abbrev pub IsWithin : Codes → Codes → Type 0
IsWithin host allowed =
    (is_nothing allowed ≡ false) × ((host ≡ allowed) ⊎ ((x : Codes) × (host ≡ x ++ b'.' ∷ allowed)))

covers_iff : (host allowed : Codes) → (covers host allowed ≡ true) ↔ IsWithin host allowed
unfolding covers
covers_iff host allowed = (
  λ h. (
    ground (arith, h),
    elim (Bool-cases (same host allowed)) [
      | inl e ↦ inl (same_sound host allowed e)
      | inr e ↦ inr (ends_with_sound host (b'.' ∷ allowed) (ground (arith, h, e)))
    ],
  ),
  λ (full, w). elim w [
    | inl e ↦ subst (λ x. covers x allowed ≡ true) (sym e) (ground (arith, full, same_self allowed))
    | inr (x, e) ↦
        subst (λ y. covers y allowed ≡ true) (sym e)
          (ground (arith, full, ends_with_complete x (b'.' ∷ allowed)))
  ],
)

-- An entry of the list that the host is within.
abbrev pub HostGranted : Codes → List Codes → Type 0
HostGranted host allowed_hosts =
    (allowed : Codes) × In allowed allowed_hosts × IsWithin (host_name host) (entry_name allowed)

pub host_allowed_iff :
    (host : Codes) (allowed_hosts : List Codes)
    → (host_allowed host allowed_hosts ≡ true) ↔ HostGranted host allowed_hosts
unfolding host_allowed
host_allowed_iff host allowed_hosts = (
  λ h.
      let (a, i, e) = any_sound (λ a. covers (host_name host) (entry_name a)) allowed_hosts h in
      (a, i, (covers_iff (host_name host) (entry_name a)).0 e),
  λ (a, i, w).
      any_complete (λ b. covers (host_name host) (entry_name b)) a allowed_hosts i
        ((covers_iff (host_name host) (entry_name a)).1 w),
)

component_eq_sound : (c d : Component) → component_eq c d ≡ true → c ≡ d
unfolding component_eq
component_eq_sound Component.root_dir Component.root_dir h = refl
component_eq_sound Component.cur_dir Component.cur_dir h = refl
component_eq_sound Component.parent_dir Component.parent_dir h = refl
component_eq_sound (Component.normal s) (Component.normal t) h =
    ap Component.normal (same_sound s t h)
component_eq_sound _ _ h = cc

pub component_eq_self : (c : Component) → component_eq c c ≡ true
unfolding component_eq
component_eq_self (Component.normal s) = same_self s
component_eq_self _ = refl

path_starts_with_sound :
    (p q : FilePath) → path_starts_with p q ≡ true → (rest : FilePath) × (p ≡ q ++ rest)
unfolding path_starts_with
path_starts_with_sound p [] h = (p, refl)
path_starts_with_sound [] (d ∷ q) h = cc
path_starts_with_sound (c ∷ p) (d ∷ q) h =
    let (rest, e) = path_starts_with_sound p q (ground (arith, h)) in
    let f = component_eq_sound c d (ground (arith, h)) in (rest, ground (arith, e, f))

path_starts_with_complete : (q rest : FilePath) → path_starts_with (q ++ rest) q ≡ true
unfolding path_starts_with
path_starts_with_complete [] rest = refl
path_starts_with_complete (d ∷ q) rest =
    ground (arith, component_eq_self d, path_starts_with_complete q rest)

pub path_eq_sound : (p q : FilePath) → path_eq p q ≡ true → p ≡ q
unfolding path_eq
path_eq_sound [] [] h = refl
path_eq_sound [] (d ∷ q) h = cc
path_eq_sound (c ∷ p) [] h = cc
path_eq_sound (c ∷ p) (d ∷ q) h =
    let e = path_eq_sound p q (ground (arith, h)) in
    let f = component_eq_sound c d (ground (arith, h)) in ground (arith, e, f)

under_sound :
    (p q : FilePath)
    → (path_eq p q || path_starts_with p q) ≡ true
    → (rest : FilePath) × (p ≡ q ++ rest)
under_sound p q h = elim (Bool-cases (path_eq p q)) [
  | inl e ↦ ([], path_eq_sound p q e ∙ sym (append-nil q))
  | inr e ↦ path_starts_with_sound p q (ground (arith, h, e))
]

under_complete :
    (q rest : FilePath) → (path_eq (q ++ rest) q || path_starts_with (q ++ rest) q) ≡ true
under_complete q rest = ground (arith, path_starts_with_complete q rest)

module _ (canonicalize : FilePath → Option FilePath) (components : Codes → FilePath)
    (current_dir : FilePath) where
  abbrev pub resolved : Codes → FilePath
  resolved = resolve_path_for_permission canonicalize components current_dir

  -- The path lies, once resolved, at or below an entry of the list.
  abbrev pub PathGranted : Codes → List Codes → Type 0
  PathGranted path allowed_paths =
      (allowed : Codes) × In allowed allowed_paths
      × (rest : FilePath) × (resolved path ≡ resolved allowed ++ rest)

  pub path_allowed_iff :
      (path : Codes) (allowed_paths : List Codes)
      → (path_allowed canonicalize components current_dir path allowed_paths ≡ true)
        ↔ PathGranted path allowed_paths
  unfolding path_allowed
  path_allowed_iff path allowed_paths = (
    λ h.
        let (a, i, e) =
          any_sound
            (λ a.
              path_eq (resolved path) (resolved a) || path_starts_with (resolved path) (resolved a))
            allowed_paths h in
        let (rest, f) = under_sound (resolved path) (resolved a) e in (a, i, rest, f),
    λ (a, i, rest, e).
        any_complete
          (λ b.
            path_eq (resolved path) (resolved b) || path_starts_with (resolved path) (resolved b))
          a allowed_paths i
          (subst (λ p. (path_eq p (resolved a) || path_starts_with p (resolved a)) ≡ true) (sym e)
            (under_complete (resolved a) rest)),
  )
