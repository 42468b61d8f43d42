-- ===== src/Prelude/Perms.antt =====
-- What a permutation of a list leaves alone: predicates of all elements, symmetric relations between
-- them, and the search for an element of which there is only one.
use mathlib.Core.Path.{◌≡◌, refl, subst, ◌∙◌}
use mathlib.Core.Logic.{∥∥₁_elim}
use mathlib.Core.List.{List, [], ◌∷◌, Perm, Permᴰ}
use mathlib.Core.Bool.{Bool, true, false}
use mathlib.Core.Option.{Option}
use native.Mathlib.Omega.{arith}
use what_is_it.Prelude.Lists.{All, Pairwise}
use what_is_it.Prelude.First.{find_first}

module _ {ℓ} {A : Type ℓ} where
  All-permᴰ {κ} : (P : A → Type κ) {xs ys : List A} → Permᴰ xs ys → All P xs → All P ys
  All-permᴰ P Permᴰ.nil h = h
  All-permᴰ P (Permᴰ.cons e p) h = (subst P e h.0, All-permᴰ P p h.1)
  All-permᴰ P (Permᴰ.swap e f) h = (subst P f h.1.0, (subst P e h.0, h.1.1))
  All-permᴰ P (Permᴰ.trans p q) h = All-permᴰ P q (All-permᴰ P p h)

  Pairwise-permᴰ {κ} :
      (R : A → A → Type κ)
      → ((a b : A) → R a b → R b a)
      → {xs ys : List A} → Permᴰ xs ys
      → Pairwise R xs
      → Pairwise R ys
  Pairwise-permᴰ R flip Permᴰ.nil h = h
  Pairwise-permᴰ R flip (Permᴰ.cons {b = b} {l₂ = l} e p) h =
      (subst (λ x. All (R x) l) e (All-permᴰ _ p h.0), Pairwise-permᴰ R flip p h.1)
  Pairwise-permᴰ R flip (Permᴰ.swap {a = a} {b = b} {b' = b'} {l = l} e f) h = (
    (subst (λ x. R x b') f (subst (R b) e (flip a b h.0.0)), subst (λ x. All (R x) l) f h.1.0),
    (subst (λ x. All (R x) l) e h.0.1, h.1.1),
  )
  Pairwise-permᴰ R flip (Permᴰ.trans p q) h = Pairwise-permᴰ R flip q (Pairwise-permᴰ R flip p h)

  pub All-prop {κ} : (P : A → Type κ) → ((x : A) → IsProp (P x)) → (xs : List A) → IsProp (All P xs)
  All-prop P prop [] = hlevel
  All-prop P prop (x ∷ xs) = hlevel (prop x, All-prop P prop xs)

  Pairwise-prop {κ} :
      (R : A → A → Type κ) → ((x y : A) → IsProp (R x y)) → (xs : List A) → IsProp (Pairwise R xs)
  Pairwise-prop R prop [] = hlevel
  Pairwise-prop R prop (x ∷ xs) = hlevel (All-prop (R x) (prop x) xs, Pairwise-prop R prop xs)

  pub All-perm {κ} :
      (P : A → Type κ)
      → ((x : A) → IsProp (P x))
      → (xs ys : List A) → Perm xs ys
      → All P xs
      → All P ys
  All-perm P prop xs ys p h = ∥∥₁_elim p (All-prop P prop ys) λ q. All-permᴰ P q h

  pub Pairwise-perm {κ} :
      (R : A → A → Type κ)
      → ((a b : A) → R a b → R b a)
      → ((x y : A) → IsProp (R x y))
      → (xs ys : List A) → Perm xs ys
      → Pairwise R xs
      → Pairwise R ys
  Pairwise-perm R flip prop xs ys p h =
      ∥∥₁_elim p (Pairwise-prop R prop ys) λ q. Pairwise-permᴰ R flip q h

  -- If no two elements pass the test, a search finds the same in every order.
  find_first-permᴰ {κ} :
      (R : A → A → Type κ)
      → ((a b : A) → R a b → R b a)
      → (test : A → Bool) → ((a b : A) → R a b → test a ≡ true → test b ≡ false)
      → {xs ys : List A} → Permᴰ xs ys
      → Pairwise R xs
      → find_first test xs ≡ find_first test ys
  unfolding find_first
  find_first-permᴰ R flip test apart Permᴰ.nil h = refl
  find_first-permᴰ R flip test apart (Permᴰ.cons {a = a} {b = b} e p) h =
      rw (e, find_first-permᴰ R flip test apart p h.1)
  find_first-permᴰ R flip test apart (Permᴰ.swap {a = a} {b = b} e f) h =
      rw (← e, ← f) (ground (arith, apart a b h.0.0))
  find_first-permᴰ R flip test apart (Permᴰ.trans p q) h =
      find_first-permᴰ R flip test apart p h
      ∙ find_first-permᴰ R flip test apart q (Pairwise-permᴰ R flip p h)

  pub find_first-perm {κ} :
      (R : A → A → Type κ)
      → ((a b : A) → R a b → R b a)
      → (test : A → Bool) → ((a b : A) → R a b → test a ≡ true → test b ≡ false)
      → IsSet A
      → (xs ys : List A) → Perm xs ys
      → Pairwise R xs
      → find_first test xs ≡ find_first test ys
  find_first-perm R flip test apart set xs ys p h =
      let option_set : IsSet (Option A) = hlevel set in
      ∥∥₁_elim p (option_set (find_first test xs) (find_first test ys))
        λ q. find_first-permᴰ R flip test apart q h
