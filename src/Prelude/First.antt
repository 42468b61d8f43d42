-- ===== src/Prelude/First.antt =====
-- Loops that look for the first element of a slice that passes a test, and change or return it.
use Prim.Native.Nat.{suc}
use mathlib.Core.Path.{◌≡◌, refl, ap}
use mathlib.Core.Logic.{inl, inr}
use mathlib.Core.List.{List, [], ◌∷◌}
use mathlib.Core.Option
use mathlib.Core.Bool.{Bool, true, false}
use mathlib.Core.Option.{Option, none, some}
use native.Mathlib.Omega.{arith}
use what_is_it.Prelude.Tests.{if◌then◌else◌, Bool-cases, or_else}
use what_is_it.Prelude.Lists.{All, All-imp, Pairwise, length}

module _ {ℓ} {A : Type ℓ} where
  -- `for i := range l { if test(l[i]) { l[i] = f(l[i]); return } }`: `none` if no element passes.
  unfoldable pub update_first : (A → Bool) → (A → A) → List A → Option (List A)
  update_first test f [] = none
  update_first test f (x ∷ xs) =
      if test x then some (f x ∷ xs) else Option.map (◌∷◌ x) (update_first test f xs)

  unfoldable pub find_first : (A → Bool) → List A → Option A
  find_first test [] = none
  find_first test (x ∷ xs) = if test x then some x else find_first test xs

-- What holds of the value, if there is one.
abbrev pub OnSome {ℓ κ} : {A : Type ℓ} → (A → Type κ) → Option A → Type κ
OnSome P none = Unit
OnSome P (some a) = P a

pub or_else-keeps {ℓ κ} :
    {A : Type ℓ} (P : A → Type κ) (o : Option A) (d : A)
    → OnSome P o
    → (o ≡ none → P d)
    → P (or_else o d)
or_else-keeps P none d h k = k refl
or_else-keeps P (some a) d h k = h

pub OnSome-map {ℓ κ} :
    {A : Type ℓ} (P : A → Type κ) (g : A → A) (o : Option A)
    → ((a : A) → o ≡ some a → P (g a))
    → OnSome P (Option.map g o)
OnSome-map P g none h = tt
OnSome-map P g (some a) h = h a refl

module _ {ℓ} {A : Type ℓ} (test : A → Bool) (f : A → A) where
  pub update_first-none :
      (xs : List A) → update_first test f xs ≡ none → All (λ x. test x ≡ false) xs
  unfolding update_first
  update_first-none [] h = tt
  update_first-none (x ∷ xs) h = elim (Bool-cases (test x)) [
    | inl e ↦ absurd (ground arith)
    | inr e ↦ (e, update_first-none xs (ground arith))
  ]

  pub update_first-All {κ} :
      (P : A → Type κ)
      → ((x : A) → test x ≡ true → P x → P (f x))
      → (xs : List A) → All P xs
      → OnSome (All P) (update_first test f xs)
  unfolding update_first
  update_first-All P keep [] p = tt
  update_first-All P keep (x ∷ xs) p = elim (Bool-cases (test x)) [
    | inl e ↦ rw e (keep x e p.0, p.1)
    | inr e ↦ rw e (
        OnSome-map (All P) (◌∷◌ x) (update_first test f xs)
          (λ ys h. (p.0, rw h at (update_first-All P keep xs p.1))))
  ]

  pub update_first-Pairwise {κ} :
      (R : A → A → Type κ)
      → ((x y : A) → test x ≡ true → R x y → R (f x) y)
      → ((x y : A) → test y ≡ true → R x y → R x (f y))
      → (xs : List A) → Pairwise R xs
      → OnSome (Pairwise R) (update_first test f xs)
  unfolding update_first
  update_first-Pairwise R left right [] p = tt
  update_first-Pairwise R left right (x ∷ xs) p = elim (Bool-cases (test x)) [
    | inl e ↦ rw e (All-imp (R x) (R (f x)) (λ y. left x y e) xs p.0, p.1)
    | inr e ↦ rw e (
        OnSome-map (Pairwise R) (◌∷◌ x) (update_first test f xs) (λ ys h. (
          rw h at (update_first-All (R x) (λ y. right x y) xs p.0),
          rw h at (update_first-Pairwise R left right xs p.1),
        )))
  ]

  pub length-update_first :
      (xs : List A) → OnSome (λ ys. length ys ≡ length xs) (update_first test f xs)
  unfolding update_first
  length-update_first [] = tt
  length-update_first (x ∷ xs) = elim (Bool-cases (test x)) [
    | inl e ↦ rw e refl
    | inr e ↦ rw e (
        OnSome-map (λ ys. length ys ≡ length (x ∷ xs)) (◌∷◌ x) (update_first test f xs)
          (λ ys h. ap suc (rw h at (length-update_first xs))))
  ]

  pub update_first-absent :
      (xs : List A) → All (λ x. test x ≡ false) xs → update_first test f xs ≡ none
  unfolding update_first
  update_first-absent [] h = refl
  update_first-absent (x ∷ xs) h = rw (h.0, update_first-absent xs h.1)

-- An element that passes is found exactly when the update has something to change.
module _ {ℓ} {A : Type ℓ} (test : A → Bool) where
  pub find_first-none : (xs : List A) → find_first test xs ≡ none → All (λ x. test x ≡ false) xs
  unfolding find_first
  find_first-none [] h = tt
  find_first-none (x ∷ xs) h = elim (Bool-cases (test x)) [
    | inl e ↦ absurd (ground arith)
    | inr e ↦ (e, find_first-none xs (ground arith))
  ]

  pub find_first-absent : (xs : List A) → All (λ x. test x ≡ false) xs → find_first test xs ≡ none
  unfolding find_first
  find_first-absent [] h = refl
  find_first-absent (x ∷ xs) h = rw h.0 (find_first-absent xs h.1)

  pub update_first-found :
      (f : A → A) (xs : List A) {old : A}
      → find_first test xs ≡ some old
      → (ys : List A) × (update_first test f xs ≡ some ys)
  unfolding find_first update_first
  update_first-found f [] h = absurd (cc)
  update_first-found f (x ∷ xs) h = elim (Bool-cases (test x)) [
    | inl e ↦ (f x ∷ xs, rw e)
    | inr e ↦ let (ys, u) = update_first-found f xs (rw e at h) in (x ∷ ys, rw (e, u))
  ]

  -- What a search for another element sees of the update, and what the same search sees.
  pub find_first-update_first :
      (f : A → A) (other : A → Bool)
      → ((x : A) → test x ≡ true → (other x ≡ false) × (other (f x) ≡ false))
      → (xs : List A)
      → OnSome (λ ys. find_first other ys ≡ find_first other xs) (update_first test f xs)
  unfolding find_first update_first
  find_first-update_first f other apart [] = tt
  find_first-update_first f other apart (x ∷ xs) = elim (Bool-cases (test x)) [
    | inl e ↦ rw e (rw ((apart x e).0, (apart x e).1))
    | inr e ↦ rw e (
        OnSome-map (λ ys. find_first other ys ≡ find_first other (x ∷ xs)) (◌∷◌ x)
          (update_first test f xs)
          (λ ys h. rw (rw h at (find_first-update_first f other apart xs))))
  ]

  pub find_first-update_first_self :
      (f : A → A)
      → ((x : A) → test x ≡ true → test (f x) ≡ true)
      → (xs : List A)
      → OnSome
          (λ ys. find_first test ys ≡ Option.map f (find_first test xs))
          (update_first test f xs)
  unfolding find_first update_first
  find_first-update_first_self f keep [] = tt
  find_first-update_first_self f keep (x ∷ xs) = elim (Bool-cases (test x)) [
    | inl e ↦ rw e (rw (keep x e))
    | inr e ↦ rw e (
        OnSome-map (λ ys. find_first test ys ≡ Option.map f (find_first test xs)) (◌∷◌ x)
          (update_first test f xs)
          (λ ys h. rw e (rw h at (find_first-update_first_self f keep xs))))
  ]
