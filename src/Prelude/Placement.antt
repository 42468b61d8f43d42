-- ===== src/Prelude/Placement.antt =====
-- Appending to a sorted slice and sorting it again puts the new element behind those that it is not
-- less than; a bounded slice keeps the last ones.
use Prim.Native.Nat.{ℕ, suc, ◌-◌, ◌≤◌}
use mathlib.Core.Path.{◌≡◌, refl, sym, ap, ◌∙◌}
use mathlib.Core.Logic.{◌⊎◌, inl, inr}
use mathlib.Core.List.{List, [], ◌∷◌, ◌++◌}
use mathlib.Core.Bool.{Bool, true, false}
use native.Mathlib.Omega.{arith}
use what_is_it.Prelude.Tests.{if◌then◌else◌, Bool-cases, ltb}
use what_is_it.Prelude.Lists.{All, All-imp, length, keep_last, keep_last-short}
use what_is_it.Prelude.Sort.{
  StrictWeak, IsSorted, insert_sorted, slice_stable, slice_stable-IsSorted,
}

module _ {ℓ} {A : Type ℓ} where
  -- Before the first element that `x` is less than.
  unfoldable pub place : (A → A → Bool) → A → List A → List A
  place less x [] = x ∷ []
  place less x (y ∷ ys) = if less x y then x ∷ y ∷ ys else y ∷ place less x ys

  pub length-place :
      (less : A → A → Bool) (x : A) (xs : List A) → length (place less x xs) ≡ suc (length xs)
  unfolding place
  length-place less x [] = refl
  length-place less x (y ∷ ys) = ground (arith, length-place less x ys)

  pub All-place {κ} :
      (P : A → Type κ) (less : A → A → Bool) (x : A) (xs : List A)
      → P x
      → All P xs
      → All P (place less x xs)
  unfolding place
  All-place P less x [] p h = (p, tt)
  All-place P less x (y ∷ ys) p h = elim (Bool-cases (less x y)) [
    | inl e ↦ rw e (p, h)
    | inr e ↦ rw e (h.0, All-place P less x ys p h.1)
  ]

  -- An element that nothing is less than goes to the front.
  insert_sorted-front :
      (less : A → A → Bool) (x : A) (ys : List A)
      → All (λ y. less y x ≡ false) ys
      → insert_sorted less x ys ≡ x ∷ ys
  unfolding insert_sorted
  insert_sorted-front less x [] h = refl
  insert_sorted-front less x (y ∷ ys) h = rw h.0

  place-front :
      (less : A → A → Bool) (x : A) (ys : List A)
      → All (λ y. less x y ≡ true) ys
      → place less x ys ≡ x ∷ ys
  unfolding place
  place-front less x [] h = refl
  place-front less x (y ∷ ys) h = rw h.0

  keep_last-cons :
      (n : ℕ) (y : A) (ys : List A) → n ≤ length ys → keep_last n (y ∷ ys) ≡ keep_last n ys
  unfolding keep_last
  keep_last-cons n y ys h = rw (cut (length ys) n h) (ground arith)
    where
      cut : (l k : ℕ) → k ≤ l → suc l - k ≡ suc (l - k)
      cut l k le = omega arith

  pub keep_last-full : (n : ℕ) (y : A) (ys : List A) → length ys ≡ n → keep_last n (y ∷ ys) ≡ ys
  keep_last-full n y ys e = keep_last-cons n y ys (omega arith) ∙ keep_last-short n ys (omega arith)

module _ {ℓ} {A : Type ℓ} {less : A → A → Bool} (order : StrictWeak less) where
  less_of_not_less : (m x y : A) → less m x ≡ true → less y x ≡ false → less m y ≡ true
  less_of_not_less m x y h k = elim (Bool-cases (less m y)) [
    | inl e ↦ e
    | inr e ↦ absurd (cc (h, order.neg_trans x y m k e))
  ]

  -- What is less than the head of a sorted list goes before it.
  front_of_sorted :
      (m x : A) (xs : List A)
      → less m x ≡ true
      → All (λ y. less y x ≡ false) xs
      → place less m xs ≡ m ∷ xs
  front_of_sorted m x xs e h =
      place-front less m xs (
        All-imp (λ y. less y x ≡ false) (λ y. less m y ≡ true) (λ y. less_of_not_less m x y e) xs h)

  -- Where the new element ends up: the list is cut, and nothing else moves.
  pub place-cut :
      (x : A) (xs : List A)
      → IsSorted less xs
      → (before : List A) × (after : List A) × (xs ≡ before ++ after)
        × (place less x xs ≡ before ++ x ∷ after)
        × All (λ y. less x y ≡ false) before
        × All (λ y. less x y ≡ true) after
  unfolding place
  place-cut x [] s = ([], [], refl, refl, tt, tt)
  place-cut x (y ∷ ys) s = elim (Bool-cases (less x y)) [
    | inl e ↦ (
      [],
      y ∷ ys,
      refl,
      rw e,
      tt,
      (
        e,
        All-imp (λ z. less z y ≡ false) (λ z. less x z ≡ true) (λ z. less_of_not_less x y z e) ys
            s.0,
      ),
    )
    | inr e ↦
        let (before, after, whole, placed, behind, ahead) = place-cut x ys s.1 in
        (y ∷ before, after, ap (◌∷◌ y) whole, rw e (ap (◌∷◌ y) placed), (e, behind), ahead)
  ]

  pub slice_stable-append :
      (xs : List A) (m : A) → IsSorted less xs → slice_stable less (xs ++ m ∷ []) ≡ place less m xs
  unfolding slice_stable insert_sorted place
  slice_stable-append [] m s = refl
  slice_stable-append (x ∷ xs) m s = elim (Bool-cases (less m x)) [
    | inl e ↦
        rw (e, slice_stable-append xs m s.1, front_of_sorted m x xs e s.0, e)
          (ap (◌∷◌ m) (insert_sorted-front less x xs s.0))
    | inr e ↦
        rw (e, slice_stable-append xs m s.1)
          (insert_sorted-front less x (place less m xs)
            (All-place (λ y. less y x ≡ false) less m xs e s.0))
  ]

  pub place-IsSorted : (xs : List A) (m : A) → IsSorted less xs → IsSorted less (place less m xs)
  place-IsSorted xs m s =
      rw (← slice_stable-append xs m s) (slice_stable-IsSorted order (xs ++ m ∷ []))

  -- Of two elements that the order tells apart, either may be placed first.
  pub place-place :
      (a b : A) (xs : List A)
      → (less a b ≡ true) ⊎ (less b a ≡ true)
      → place less a (place less b xs) ≡ place less b (place less a xs)
  unfolding place
  place-place a b [] h = ground (arith, order.asym a b, order.asym b a)
  place-place a b (m ∷ xs) h = ground (
    arith,
    order.asym a b,
    order.asym b a,
    order.asym a m,
    order.asym b m,
    order.neg_trans b m a,
    order.neg_trans a m b,
    place-place a b xs h,
  )

  -- Cutting to the last `n` before another placement, or only after it, is the same.
  pub keep_last-place :
      (n : ℕ) (m : A) (xs : List A)
      → IsSorted less xs
      → length xs ≤ suc n
      → keep_last n (place less m (keep_last n xs)) ≡ keep_last n (place less m xs)
  unfolding place
  keep_last-place n m [] s h =
      ap (λ (l : List A). keep_last n (place less m l)) (keep_last-short n [] (omega arith))
  keep_last-place n m (x ∷ xs) s h = elim (Bool-cases (ltb (length xs) n)) [
    | inl short ↦
        ap (λ (l : List A). keep_last n (place less m l))
          (keep_last-short n (x ∷ xs) (ground arith))
    | inr full ↦ rw (keep_last-full n x xs (ground arith)) (elim (Bool-cases (less m x)) [
      | inl e ↦ rw (e, place) (first e (ground arith))
      | inr e ↦
          rw (e, place)
            (sym (keep_last-cons n x (place less m xs) (ground (arith, length-place less m xs))))
    ])
  ]
    where
      first :
          less m x ≡ true → length xs ≡ n → keep_last n (place less m xs) ≡ keep_last n (m ∷ x ∷ xs)
      first e full =
          rw
            (
              front_of_sorted m x xs e s.0,
              keep_last-cons n m xs (omega arith),
              keep_last-cons n m (x ∷ xs) (omega arith),
              keep_last-cons n x xs (omega arith),
            )
            refl
