-- ===== src/Permission/Normal.antt =====
-- What `normalize_path` makes of a path.
use zhongshu.Prelude.{
  true, false, [], ◌∷◌, ◌++◌, ◌≡◌, sym, ◌∙◌, All, All-append, ◌⊎◌, inl, inr, append_assoc,
  append-nil, Bool-cases,
}
use zhongshu.Prelude.Codes.{Codes}
use zhongshu.Permission.Paths.{
  Component, FilePath, pop, is_absolute, push_component, normalize_loop, normalize_path,
}

abbrev IsName : Component → Type 0
IsName (Component.normal s) = Unit
IsName _ = ⊥

-- The root, and names below it: no `.` and no `..`.
abbrev pub IsClean : FilePath → Type 0
IsClean [] = ⊥
IsClean (Component.root_dir ∷ names) = All IsName names
IsClean (c ∷ names) = ⊥

pop-names : (names : FilePath) → All IsName names → All IsName (pop names)
unfolding pop
pop-names [] h = tt
pop-names (Component.normal s ∷ []) h = tt
pop-names (Component.normal s ∷ d ∷ names) h = (tt, pop-names (d ∷ names) h.1)
pop-names (Component.root_dir ∷ names) h = absurd h.0
pop-names (Component.cur_dir ∷ names) h = absurd h.0
pop-names (Component.parent_dir ∷ names) h = absurd h.0

pop-IsClean : (p : FilePath) → IsClean p → IsClean (pop p)
unfolding pop
pop-IsClean [] h = h
pop-IsClean (Component.root_dir ∷ []) h = tt
pop-IsClean (Component.root_dir ∷ d ∷ names) h = pop-names (d ∷ names) h
pop-IsClean (Component.cur_dir ∷ names) h = absurd h
pop-IsClean (Component.parent_dir ∷ names) h = absurd h
pop-IsClean (Component.normal s ∷ names) h = absurd h

push-IsClean : (p : FilePath) (s : Codes) → IsClean p → IsClean (p ++ Component.normal s ∷ [])
push-IsClean [] s h = absurd h
push-IsClean (Component.root_dir ∷ names) s h =
    All-append IsName names (Component.normal s ∷ []) h (tt, tt)
push-IsClean (Component.cur_dir ∷ names) s h = absurd h
push-IsClean (Component.parent_dir ∷ names) s h = absurd h
push-IsClean (Component.normal t ∷ names) s h = absurd h

normalize_loop-IsClean :
    (p normalized : FilePath) → IsClean normalized → IsClean (normalize_loop normalized p)
unfolding normalize_loop push_component
normalize_loop-IsClean [] normalized h = h
normalize_loop-IsClean (Component.cur_dir ∷ p) normalized h = normalize_loop-IsClean p normalized h
normalize_loop-IsClean (Component.parent_dir ∷ p) normalized h =
    normalize_loop-IsClean p (pop normalized) (pop-IsClean normalized h)
normalize_loop-IsClean (Component.normal s ∷ p) normalized h =
    normalize_loop-IsClean p (normalized ++ Component.normal s ∷ []) (push-IsClean normalized s h)
normalize_loop-IsClean (Component.root_dir ∷ p) normalized h =
    normalize_loop-IsClean p (Component.root_dir ∷ []) tt

-- Names are pushed one by one.
normalize_loop-names :
    (names normalized : FilePath)
    → All IsName names
    → normalize_loop normalized names ≡ normalized ++ names
unfolding normalize_loop
normalize_loop-names [] normalized h = sym (append-nil normalized)
normalize_loop-names (Component.normal s ∷ names) normalized h =
    normalize_loop-names names (normalized ++ Component.normal s ∷ []) h.1
    ∙ append_assoc normalized (Component.normal s ∷ []) names
normalize_loop-names (Component.root_dir ∷ names) normalized h = absurd h.0
normalize_loop-names (Component.cur_dir ∷ names) normalized h = absurd h.0
normalize_loop-names (Component.parent_dir ∷ names) normalized h = absurd h.0

normalize_clean : (current_dir p : FilePath) → IsClean p → normalize_path current_dir p ≡ p
unfolding normalize_path normalize_loop push_component is_absolute
normalize_clean current_dir [] h = absurd h
normalize_clean current_dir (Component.root_dir ∷ names) h =
    normalize_loop-names names (Component.root_dir ∷ []) h
normalize_clean current_dir (Component.cur_dir ∷ names) h = absurd h
normalize_clean current_dir (Component.parent_dir ∷ names) h = absurd h
normalize_clean current_dir (Component.normal s ∷ names) h = absurd h

absolute-IsClean :
    (current_dir p : FilePath) → is_absolute p ≡ true → IsClean (normalize_path current_dir p)
unfolding normalize_path normalize_loop push_component is_absolute
absolute-IsClean current_dir [] h = cc
absolute-IsClean current_dir (Component.root_dir ∷ p) h =
    normalize_loop-IsClean p (Component.root_dir ∷ []) tt
absolute-IsClean current_dir (Component.cur_dir ∷ p) h = cc
absolute-IsClean current_dir (Component.parent_dir ∷ p) h = cc
absolute-IsClean current_dir (Component.normal s ∷ p) h = cc

relative-IsClean :
    (current_dir p : FilePath)
    → is_absolute p ≡ false
    → IsClean current_dir
    → IsClean (normalize_path current_dir p)
unfolding normalize_path
relative-IsClean current_dir p h clean = rw h (normalize_loop-IsClean p current_dir clean)

-- If the path is absolute, or the current directory is a clean absolute path, then normalizing gives
-- the root and names below it, with no `.` or `..`, and normalizing again changes nothing.
pub normalize_path-IsClean :
    (current_dir p : FilePath)
    → (is_absolute p ≡ true) ⊎ IsClean current_dir
    → IsClean (normalize_path current_dir p)
      × (normalize_path current_dir (normalize_path current_dir p) ≡ normalize_path current_dir p)
normalize_path-IsClean current_dir p from =
    let clean : IsClean (normalize_path current_dir p) = elim from [
      | inl absolute ↦ absolute-IsClean current_dir p absolute
      | inr at ↦ elim (Bool-cases (is_absolute p)) [
        | inl absolute ↦ absolute-IsClean current_dir p absolute
        | inr relative ↦ relative-IsClean current_dir p relative at
      ]
    ] in
    (clean, normalize_clean current_dir (normalize_path current_dir p) clean)
