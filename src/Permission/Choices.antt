-- ===== src/Permission/Choices.antt =====
-- Checks one after the other, and lists that are empty or not.
use zhongshu.Prelude.{
  Bool, true, false, List, [], ◌∷◌, Result, ok, err, ◌>>◌, In, ◌↔◌, ◌≡◌, refl, if◌then◌else◌,
}
use zhongshu.Prelude.Codes.{is_nothing}
use zhongshu.Permission.Types.{Refusal}

pub full_of_In : {A : Type 0} (x : A) (xs : List A) → In x xs → is_nothing xs ≡ false
unfolding is_nothing
full_of_In x [] i = elim i [ ]
full_of_In x (y ∷ xs) i = refl

pub nothing_is_nil : {A : Type 0} (xs : List A) → is_nothing xs ≡ true → xs ≡ []
unfolding is_nothing
nothing_is_nil [] h = refl
nothing_is_nil (x ∷ xs) h = cc

pub nil_is_nothing : {A : Type 0} (xs : List A) → xs ≡ [] → is_nothing xs ≡ true
unfolding is_nothing
nil_is_nothing xs e = rw e refl

-- A check that is made if a key is there.
pub if_there :
    (there : Bool) (c : Result Refusal (Unit {0})) {P : Type 0}
    → (c ≡ ok tt) ↔ P
    → ((if there then c else ok tt) ≡ ok tt) ↔ (there ≡ true → P)
if_there true c (f, g) = (λ h e. f h, λ h. g (h refl))
if_there false c (f, g) = (λ h e. cc, λ h. refl)

pub both_ok : (c d : Result Refusal (Unit {0})) → ((c >> d) ≡ ok tt) ↔ ((c ≡ ok tt) × (d ≡ ok tt))
both_ok (ok u) d = (λ h. (refl, h), λ (e, h). h)
both_ok (err r) d = (λ h. cc, λ (e, h). cc)

-- A choice between two checks.
pub if_iff :
    (t : Bool) (c d : Result Refusal (Unit {0})) {P Q : Type 0}
    → (c ≡ ok tt) ↔ P
    → (d ≡ ok tt) ↔ Q
    → ((if t then c else d) ≡ ok tt) ↔ (if t then P else Q)
if_iff true c d p q = p
if_iff false c d p q = q
