-- ===== src/Prelude/Sort.antt =====
-- `sort.SliceStable` and `sort.Slice`. Both put the slice in the order of a strict weak order; the
-- first keeps the order of equal elements. The order in which `range` visits a map, and that in
-- which `sort.Slice` leaves equal elements, are left open by Go: an `Arrangement` stands for both.
use mathlib.Core.Path.{◌≡◌, refl}
use mathlib.Core.Logic.{inl, inr}
use mathlib.Core.List.{List, [], ◌∷◌, Perm}
use mathlib.Core.List.Perm
use mathlib.Core.Bool.{Bool, true, false}
use native.Mathlib.Omega.{arith}
use what_is_it.Prelude.Tests.{if◌then◌else◌, Bool-cases}
use what_is_it.Prelude.Lists.{All, All-imp, Pairwise, length}

-- What the comparison function of a sort has to be.
pub record StrictWeak {ℓ} {A : Type ℓ} (less : A → A → Bool) : Type ℓ where
  pub asym : (a b : A) → less a b ≡ true → less b a ≡ false
  pub neg_trans : (a b c : A) → less b a ≡ false → less c b ≡ false → less c a ≡ false

pub record Arrangement : Type 1 where
  pub arrange : (A : Type 0) → List A → List A
  pub arrange_perm : (A : Type 0) (xs : List A) → Perm (arrange A xs) xs

module _ {ℓ} {A : Type ℓ} where
  unfoldable pub insert_sorted : (A → A → Bool) → A → List A → List A
  insert_sorted less x [] = x ∷ []
  insert_sorted less x (y ∷ ys) = if less y x then y ∷ insert_sorted less x ys else x ∷ y ∷ ys

  unfoldable pub slice_stable : (A → A → Bool) → List A → List A
  unfolding insert_sorted
  slice_stable less [] = []
  slice_stable less (x ∷ xs) = insert_sorted less x (slice_stable less xs)

  -- No element is less than one before it.
  abbrev pub IsSorted : (A → A → Bool) → List A → Type 0
  IsSorted less = Pairwise (λ x y. less y x ≡ false)

  pub All-insert_sorted {κ} :
      (P : A → Type κ) (less : A → A → Bool) (x : A) (xs : List A)
      → P x
      → All P xs
      → All P (insert_sorted less x xs)
  unfolding insert_sorted
  All-insert_sorted P less x [] p h = (p, tt)
  All-insert_sorted P less x (y ∷ ys) p h = elim (Bool-cases (less y x)) [
    | inl e ↦ rw e (h.0, All-insert_sorted P less x ys p h.1)
    | inr e ↦ rw e (p, h)
  ]

  pub All-slice_stable {κ} :
      (P : A → Type κ) (less : A → A → Bool) (xs : List A) → All P xs → All P (slice_stable less xs)
  unfolding slice_stable
  All-slice_stable P less [] h = tt
  All-slice_stable P less (x ∷ xs) h =
      All-insert_sorted P less x (slice_stable less xs) h.0 (All-slice_stable P less xs h.1)

  -- A symmetric relation between the elements does not depend on their order.
  pub Pairwise-insert_sorted {κ} :
      (R : A → A → Type κ)
      → ((a b : A) → R a b → R b a)
      → (less : A → A → Bool) (x : A) (xs : List A) → All (R x) xs
      → Pairwise R xs
      → Pairwise R (insert_sorted less x xs)
  unfolding insert_sorted
  Pairwise-insert_sorted R flip less x [] h p = (tt, tt)
  Pairwise-insert_sorted R flip less x (y ∷ ys) h p = elim (Bool-cases (less y x)) [
    | inl e ↦ rw e (
      All-insert_sorted (R y) less x ys (flip x y h.0) p.0,
      Pairwise-insert_sorted R flip less x ys h.1 p.1,
    )
    | inr e ↦ rw e (h, p)
  ]

  pub Pairwise-slice_stable {κ} :
      (R : A → A → Type κ)
      → ((a b : A) → R a b → R b a)
      → (less : A → A → Bool) (xs : List A) → Pairwise R xs
      → Pairwise R (slice_stable less xs)
  unfolding slice_stable
  Pairwise-slice_stable R flip less [] p = tt
  Pairwise-slice_stable R flip less (x ∷ xs) p =
      Pairwise-insert_sorted R flip less x (slice_stable less xs)
        (All-slice_stable (R x) less xs p.0) (Pairwise-slice_stable R flip less xs p.1)

  pub insert_sorted-perm :
      (less : A → A → Bool) (x : A) (xs : List A) → Perm (insert_sorted less x xs) (x ∷ xs)
  unfolding insert_sorted
  insert_sorted-perm less x [] = Perm.refl (x ∷ [])
  insert_sorted-perm less x (y ∷ ys) = elim (Bool-cases (less y x)) [
    | inl e ↦ rw e (Perm.trans (Perm.cons y (insert_sorted-perm less x ys)) (Perm.swap x y ys))
    | inr e ↦ rw e (Perm.refl (x ∷ y ∷ ys))
  ]

  pub slice_stable-perm : (less : A → A → Bool) (xs : List A) → Perm (slice_stable less xs) xs
  unfolding slice_stable
  slice_stable-perm less [] = Perm.refl []
  slice_stable-perm less (x ∷ xs) =
      Perm.trans (insert_sorted-perm less x (slice_stable less xs))
        (Perm.cons x (slice_stable-perm less xs))

  pub length-insert_sorted :
      (less : A → A → Bool) (x : A) (xs : List A)
      → length (insert_sorted less x xs) ≡ length (x ∷ xs)
  unfolding insert_sorted
  length-insert_sorted less x [] = refl
  length-insert_sorted less x (y ∷ ys) = ground (arith, length-insert_sorted less x ys)

  pub length-slice_stable :
      (less : A → A → Bool) (xs : List A) → length (slice_stable less xs) ≡ length xs
  unfolding slice_stable
  length-slice_stable less [] = refl
  length-slice_stable less (x ∷ xs) =
      omega (arith, length-insert_sorted less x (slice_stable less xs), length-slice_stable less xs)

module _ {ℓ} {A : Type ℓ} {less : A → A → Bool} (order : StrictWeak less) where
  pub insert_sorted-IsSorted :
      (x : A) (xs : List A) → IsSorted less xs → IsSorted less (insert_sorted less x xs)
  unfolding insert_sorted
  insert_sorted-IsSorted x [] s = (tt, tt)
  insert_sorted-IsSorted x (y ∷ ys) s = elim (Bool-cases (less y x)) [
    | inl e ↦ rw e (
      All-insert_sorted (λ z. less z y ≡ false) less x ys (order.asym y x e) s.0,
      insert_sorted-IsSorted x ys s.1,
    )
    | inr e ↦ rw e (
      (
        e,
        All-imp (λ z. less z y ≡ false) (λ z. less z x ≡ false) (λ z. order.neg_trans x y z e) ys
            s.0,
      ),
      s,
    )
  ]

  pub slice_stable-IsSorted : (xs : List A) → IsSorted less (slice_stable less xs)
  unfolding slice_stable
  slice_stable-IsSorted [] = tt
  slice_stable-IsSorted (x ∷ xs) =
      insert_sorted-IsSorted x (slice_stable less xs) (slice_stable-IsSorted xs)

-- `sort.Slice(l, less)`
unfoldable pub sort_slice : Arrangement → {A : Type 0} → (A → A → Bool) → List A → List A
sort_slice order {A} less xs = slice_stable less (order.arrange A xs)

module _ (order : Arrangement) {A : Type 0} (less : A → A → Bool) where
  pub sort_slice-perm : (xs : List A) → Perm (sort_slice order less xs) xs
  unfolding sort_slice
  sort_slice-perm xs =
      Perm.trans (slice_stable-perm less (order.arrange A xs)) (order.arrange_perm A xs)

  pub sort_slice-IsSorted :
      StrictWeak less → (xs : List A) → IsSorted less (sort_slice order less xs)
  unfolding sort_slice
  sort_slice-IsSorted w xs = slice_stable-IsSorted w (order.arrange A xs)

-- The arrangement that leaves everything where it is.
abbrev pub as_it_stands : Arrangement
as_it_stands = record { arrange = λ A xs. xs; arrange_perm = λ A xs. Perm.refl xs }
