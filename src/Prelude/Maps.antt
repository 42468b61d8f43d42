-- ===== src/Prelude/Maps.antt =====
-- Go's `map[string]V`: an association list in which a key stands once.
use mathlib.Core.Path.{◌≡◌, refl, subst}
use mathlib.Core.Logic.{inl, inr}
use mathlib.Core.List.{List, [], ◌∷◌}
use mathlib.Core.Bool.{true, false}
use mathlib.Core.Option.{Option, none, some}
use native.Mathlib.Omega.{arith}
use what_is_it.Prelude.Tests.{if◌then◌else◌, Bool-cases}
use what_is_it.Prelude.Lists.{All}
use what_is_it.Prelude.Bytes.{Text, text_eq, text_eq_iff, text_eq→eq}

abbrev pub Dict {ℓ} : Type ℓ → Type ℓ
Dict V = List (Text × V)

module _ {ℓ} {V : Type ℓ} where
  -- `v, ok := m[k]`
  unfoldable pub lookup : Text → Dict V → Option V
  lookup k [] = none
  lookup k ((j, v) ∷ m) = if text_eq j k then some v else lookup k m

  -- `m[k] = v`
  unfoldable pub insert : Text → V → Dict V → Dict V
  insert k v [] = (k, v) ∷ []
  insert k v ((j, w) ∷ m) = if text_eq j k then (j, v) ∷ m else (j, w) ∷ insert k v m

  -- `delete(m, k)`
  unfoldable pub delete : Text → Dict V → Dict V
  delete k [] = []
  delete k ((j, w) ∷ m) = let rest = delete k m in if text_eq j k then rest else (j, w) ∷ rest

  pub lookup-insert :
      (k j : Text) (v : V) (m : Dict V)
      → lookup j (insert k v m) ≡ (if text_eq k j then some v else lookup j m)
  unfolding lookup insert
  lookup-insert k j v [] = refl
  lookup-insert k j v ((i, w) ∷ m) =
      ground (arith, text_eq_iff k j, text_eq_iff i k, text_eq_iff i j, lookup-insert k j v m)

  pub lookup-delete :
      (k j : Text) (m : Dict V) → lookup j (delete k m) ≡ (if text_eq k j then none else lookup j m)
  unfolding lookup delete
  lookup-delete k j [] = ground arith
  lookup-delete k j ((i, w) ∷ m) =
      ground (arith, text_eq_iff k j, text_eq_iff i k, text_eq_iff i j, lookup-delete k j m)

  -- A second write of the same key wins, and leaves the key where it stands.
  pub insert-insert : (k : Text) (v w : V) (m : Dict V) → insert k w (insert k v m) ≡ insert k w m
  unfolding insert
  insert-insert k v w [] = ground (arith, text_eq_iff k k)
  insert-insert k v w ((i, u) ∷ m) = ground (arith, text_eq_iff i k, insert-insert k v w m)

  -- No entry of the map has the key `k`.
  abbrev pub KeyFree : Text → Dict V → Type 0
  KeyFree k = All (λ (e : Text × V). text_eq e.0 k ≡ false)

  abbrev pub DistinctKeys : Dict V → Type 0
  DistinctKeys [] = Unit
  DistinctKeys ((k, v) ∷ m) = KeyFree k m × DistinctKeys m

  KeyFree-insert :
      (j k : Text) (v : V) (m : Dict V)
      → text_eq k j ≡ false
      → KeyFree j m
      → KeyFree j (insert k v m)
  unfolding insert
  KeyFree-insert j k v [] h f = (h, tt)
  KeyFree-insert j k v ((i, w) ∷ m) h f = elim (Bool-cases (text_eq i k)) [
    | inl e ↦ rw e f
    | inr e ↦ rw e (f.0, KeyFree-insert j k v m h f.1)
  ]

  pub DistinctKeys-insert :
      (k : Text) (v : V) (m : Dict V) → DistinctKeys m → DistinctKeys (insert k v m)
  unfolding insert
  DistinctKeys-insert k v [] d = (tt, tt)
  DistinctKeys-insert k v ((i, w) ∷ m) d = elim (Bool-cases (text_eq i k)) [
    | inl e ↦ rw e d
    | inr e ↦ rw e (
      KeyFree-insert i k v m (ground (arith, text_eq_iff i k, text_eq_iff k i)) d.0,
      DistinctKeys-insert k v m d.1,
    )
  ]

  -- What holds of every entry, and of the new value, holds of every entry after a write.
  pub All-insert {κ} :
      (P : Text × V → Type κ) (k : Text) (v : V) (m : Dict V)
      → ((j : Text) → text_eq j k ≡ true → P (j, v))
      → All P m
      → All P (insert k v m)
  unfolding insert
  All-insert P k v [] p h = (p k (ground (arith, text_eq_iff k k)), tt)
  All-insert P k v ((i, w) ∷ m) p h = elim (Bool-cases (text_eq i k)) [
    | inl e ↦ rw e (p i e, h.1)
    | inr e ↦ rw e (h.0, All-insert P k v m p h.1)
  ]

  pub All-lookup {κ} :
      (P : Text × V → Type κ) (k : Text) (m : Dict V) {v : V}
      → lookup k m ≡ some v
      → All P m
      → P (k, v)
  unfolding lookup
  All-lookup P k [] e h = absurd (cc)
  All-lookup P k ((i, w) ∷ m) {v} e h = elim (Bool-cases (text_eq i k)) [
    | inl t ↦ subst P (found t (rw t at e)) h.0
    | inr t ↦ All-lookup P k m (rw t at e) h.1
  ]
    where
      found : text_eq i k ≡ true → some w ≡ some v → ◌≡◌ {A = Text × V} (i, w) (k, v)
      found t e' = cc (text_eq→eq i k t)
