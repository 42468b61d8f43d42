-- ===== src/Prelude/Lists.antt =====
-- Slices as lists over the native numbers: lengths, suffixes, bounded buffers and quantifiers.
use Prim.Native.Nat.{ℕ, zero, suc, ◌+◌, ◌-◌, ◌≤◌, min}
use mathlib.Core.Path.{◌≡◌, refl, ap}
use mathlib.Core.Logic.Or
use mathlib.Core.Logic.{◌⊎◌, inl, inr}
use mathlib.Core.List.{List, [], ◌∷◌, ◌++◌, Mem, mem-cons, not-mem-nil}
use mathlib.Core.Bool.{true, false}
use mathlib.Core.Option.{Option, none, some}
use native.Mathlib.Omega.{arith}
use what_is_it.Prelude.Tests.{if◌then◌else◌, ltb}

module _ {ℓ} {A : Type ℓ} where
  abbrev pub length : List A → ℕ
  length [] = 0
  length (x ∷ xs) = suc (length xs)

  abbrev pub take : ℕ → List A → List A
  take zero xs = []
  take (suc n) [] = []
  take (suc n) (x ∷ xs) = x ∷ take n xs

  abbrev pub drop : ℕ → List A → List A
  drop zero xs = xs
  drop (suc n) [] = []
  drop (suc n) (x ∷ xs) = drop n xs

  abbrev pub get_elem? : List A → ℕ → Option A
  get_elem? [] i = none
  get_elem? (x ∷ xs) zero = some x
  get_elem? (x ∷ xs) (suc i) = get_elem? xs i

  -- `l[len(l)-1]`, if there is one.
  abbrev pub get_last? : List A → Option A
  get_last? [] = none
  get_last? (x ∷ []) = some x
  get_last? (x ∷ y ∷ ys) = get_last? (y ∷ ys)

  pub length-append : (xs ys : List A) → length (xs ++ ys) ≡ length xs + length ys
  length-append [] ys = omega arith
  length-append (x ∷ xs) ys = omega (arith, length-append xs ys)

  pub length-drop : (n : ℕ) (xs : List A) → length (drop n xs) ≡ length xs - n
  length-drop zero xs = omega arith
  length-drop (suc n) [] = omega arith
  length-drop (suc n) (x ∷ xs) = omega (arith, length-drop n xs)

  pub take-append-drop : (n : ℕ) (xs : List A) → take n xs ++ drop n xs ≡ xs
  take-append-drop zero xs = refl
  take-append-drop (suc n) [] = refl
  take-append-drop (suc n) (x ∷ xs) = ap (◌∷◌ x) (take-append-drop n xs)

  pub drop-append-length : (xs ys : List A) → drop (length xs) (xs ++ ys) ≡ ys
  drop-append-length [] ys = refl
  drop-append-length (x ∷ xs) ys = drop-append-length xs ys

  pub drop-append : (n : ℕ) (xs ys : List A) → n ≤ length xs → drop n (xs ++ ys) ≡ drop n xs ++ ys
  drop-append zero xs ys h = refl
  drop-append (suc n) [] ys h = absurd (omega arith)
  drop-append (suc n) (x ∷ xs) ys h = drop-append n xs ys (omega arith)

  -- `if len(l) > n { l = l[len(l)-n:] }`
  unfoldable pub keep_last : ℕ → List A → List A
  keep_last n xs = if ltb n (length xs) then drop (length xs - n) xs else xs

  pub length-keep_last : (n : ℕ) (xs : List A) → length (keep_last n xs) ≡ min n (length xs)
  unfolding keep_last
  length-keep_last n xs = ground (arith, length-drop (length xs - n) xs)

  pub keep_last-short : (n : ℕ) (xs : List A) → length xs ≤ n → keep_last n xs ≡ xs
  unfolding keep_last
  keep_last-short n xs h = ground arith

module _ {ℓ κ} {A : Type ℓ} where
  -- Every element satisfies `P`. It computes to a tuple.
  abbrev pub All : (A → Type κ) → List A → Type κ
  All P [] = Unit
  All P (x ∷ xs) = P x × All P xs

  pub All-append : (P : A → Type κ) (xs ys : List A) → All P xs → All P ys → All P (xs ++ ys)
  All-append P [] ys p q = q
  All-append P (x ∷ xs) ys p q = (p.0, All-append P xs ys p.1 q)

  pub All-drop : (P : A → Type κ) (n : ℕ) (xs : List A) → All P xs → All P (drop n xs)
  All-drop P zero xs p = p
  All-drop P (suc n) [] p = p
  All-drop P (suc n) (x ∷ xs) p = All-drop P n xs p.1

  pub All-mem :
      (P : A → Type κ)
      → ((x : A) → IsProp (P x))
      → (xs : List A) → All P xs
      → {a : A} → Mem a xs
      → P a
  All-mem P prop [] h m = absurd (not-mem-nil m)
  All-mem P prop (x ∷ xs) h {a} m =
      Or.elim (prop a) (mem-cons.0 m) (λ e. rw e h.0) (λ k. All-mem P prop xs h.1 k)

  pub All-imp : (P Q : A → Type κ) → ((x : A) → P x → Q x) → (xs : List A) → All P xs → All Q xs
  All-imp P Q f [] p = tt
  All-imp P Q f (x ∷ xs) p = (f x p.0, All-imp P Q f xs p.1)

module _ {ℓ κ} {A : Type ℓ} where
  -- Every element is related to each one behind it.
  abbrev pub Pairwise : (A → A → Type κ) → List A → Type κ
  Pairwise R [] = Unit
  Pairwise R (x ∷ xs) = All (R x) xs × Pairwise R xs

  pub Pairwise-imp :
      {R : A → A → Type κ} {S : A → A → Type κ}
      → ((x y : A) → R x y → S x y)
      → (xs : List A) → Pairwise R xs
      → Pairwise S xs
  Pairwise-imp {R = R} {S = S} h [] p = tt
  Pairwise-imp {R = R} {S = S} h (x ∷ xs) p =
      (All-imp (R x) (S x) (h x) xs p.0, Pairwise-imp h xs p.1)

  pub Pairwise-append :
      (R : A → A → Type κ) (xs : List A) (y : A)
      → Pairwise R xs
      → All (λ x. R x y) xs
      → Pairwise R (xs ++ y ∷ [])
  Pairwise-append R [] y p h = (tt, tt)
  Pairwise-append R (x ∷ xs) y p h =
      (All-append (R x) xs (y ∷ []) p.0 (h.0, tt), Pairwise-append R xs y p.1 h.1)

module _ {ℓ} {A : Type ℓ} where
  -- A predicate on lists that passes from a list to its tail.
  pub drop-keeps {κ} :
      (P : List A → Type κ)
      → ((x : A) (xs : List A) → P (x ∷ xs) → P xs)
      → (n : ℕ) (xs : List A) → P xs
      → P (drop n xs)
  drop-keeps P tail zero xs p = p
  drop-keeps P tail (suc n) [] p = p
  drop-keeps P tail (suc n) (x ∷ xs) p = drop-keeps P tail n xs (tail x xs p)

  pub keep_last-keeps {κ} :
      (P : List A → Type κ)
      → ((x : A) (xs : List A) → P (x ∷ xs) → P xs)
      → (n : ℕ) (xs : List A) → P xs
      → P (keep_last n xs)
  unfolding keep_last
  keep_last-keeps P tail n xs p =
      elim (ltb n (length xs)) as (λ b. P (if b then drop (length xs - n) xs else xs)) [
        | true ↦ drop-keeps P tail (length xs - n) xs p
        | false ↦ p
      ]

  pub All-keep_last {κ} : (P : A → Type κ) (n : ℕ) (xs : List A) → All P xs → All P (keep_last n xs)
  All-keep_last P = keep_last-keeps (All P) (λ x xs h. h.1)

  pub Pairwise-keep_last {κ} :
      (R : A → A → Type κ) (n : ℕ) (xs : List A) → Pairwise R xs → Pairwise R (keep_last n xs)
  Pairwise-keep_last R = keep_last-keeps (Pairwise R) (λ x xs h. h.1)

pub List-cases {ℓ} : {A : Type ℓ} (xs : List A) → (xs ≡ []) ⊎ ((p : A × List A) × (xs ≡ p.0 ∷ p.1))
List-cases [] = inl refl
List-cases (x ∷ xs) = inr ((x, xs), refl)
