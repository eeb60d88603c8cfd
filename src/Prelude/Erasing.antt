-- ===== src/Prelude/Erasing.antt =====
-- `chops::erase_where(vec, val)` of the utility repository, which is not in this one: it erases the
-- elements of a vector that are equal to a value, and keeps the others in their order.
use mathlib.Core.Path.{◌≡◌, refl, ap, ◌∙◌}
use mathlib.Core.Bool.{Bool}
use mathlib.Core.List.{List, [], ◌∷◌}
use chops.Prelude.Tests.{if◌then◌else◌}

pub record EraseWhere {ℓ} (A : Type ℓ) (eq : A → A → Bool) : Type ℓ where
  pub erase_where : List A → A → List A
  pub erase_where-nil : (v : A) → erase_where [] v ≡ []
  pub erase_where-cons :
      (x : A) (xs : List A) (v : A)
      → erase_where (x ∷ xs) v ≡ (if eq x v then erase_where xs v else x ∷ erase_where xs v)

-- What the documented behaviour comes to.
abbrev pub without {ℓ} : {A : Type ℓ} → (A → A → Bool) → List A → A → List A
without eq [] v = []
without eq (x ∷ xs) v = if eq x v then without eq xs v else x ∷ without eq xs v

pub erase_where-without {ℓ} :
    {A : Type ℓ} {eq : A → A → Bool} (e : EraseWhere A eq) (xs : List A) (v : A)
    → e.erase_where xs v ≡ without eq xs v
erase_where-without e [] v = e.erase_where-nil v
erase_where-without {eq = eq} e (x ∷ xs) v =
    e.erase_where-cons x xs v
    ∙ ap (λ ys. if eq x v then ys else x ∷ ys) (erase_where-without e xs v)

-- A function that behaves so.
abbrev pub erase_equal {ℓ} : {A : Type ℓ} (eq : A → A → Bool) → EraseWhere A eq
erase_equal eq = record {
  erase_where = without eq;
  erase_where-nil = λ v. refl;
  erase_where-cons = λ x xs v. refl;
}
