-- ===== src/Video/Keyframe.antt =====
-- server-go/calls.go, `isKeyframe`: the answer is the type of the first unit.
use what_is_it.Prelude.{
  ℕ, zero, suc, List, [], ◌∷◌, ◌++◌, Bool, ◌≡◌, ◌≢◌, refl, ◌∙◌, ◌≤◌, length, length-append, arith,
  All,
}
use what_is_it.Video.{is_key_nal, scan_at, is_keyframe}

abbrev pub zeros : ℕ → List ℕ
zeros zero = []
zeros (suc n) = 0 ∷ zeros n

-- The unit whose first byte is `nal`, behind the start code 00 00 01 and what precedes that.
abbrev pub unit_at : ℕ → ℕ → List ℕ → List ℕ
unit_at k nal rest = zeros k ++ (0 ∷ 0 ∷ 1 ∷ nal ∷ rest)

skip_zero : (more : List ℕ) → is_keyframe (0 ∷ 0 ∷ 0 ∷ 0 ∷ more) ≡ is_keyframe (0 ∷ 0 ∷ 0 ∷ more)
unfolding is_keyframe
skip_zero [] = refl
skip_zero (e ∷ more) = refl

is_keyframe-zeros : (k nal : ℕ) (rest : List ℕ) → is_keyframe (unit_at k nal rest) ≡ is_key_nal nal
unfolding is_keyframe
is_keyframe-zeros zero nal rest = refl
is_keyframe-zeros (suc zero) nal rest = refl
is_keyframe-zeros (suc (suc zero)) nal rest = refl
is_keyframe-zeros (suc (suc (suc zero))) nal rest = refl
is_keyframe-zeros (suc (suc (suc (suc k)))) nal rest =
    skip_zero (unit_at k nal rest) ∙ is_keyframe-zeros (suc (suc (suc k))) nal rest

scan_at-nonzero :
    (b : ℕ) (l : List ℕ) (later : Bool) → b ≢ 0 → 3 ≤ length l → scan_at b l later ≡ later
unfolding scan_at
scan_at-nonzero b [] later h n = absurd (omega arith)
scan_at-nonzero b (c ∷ []) later h n = absurd (omega arith)
scan_at-nonzero b (c ∷ d ∷ []) later h n = absurd (omega arith)
scan_at-nonzero b (c ∷ d ∷ e ∷ rest) later h n = ground arith

-- An access unit is a keyframe exactly if its first unit is an IDR, SPS or PPS unit, however many
-- zero bytes its start code has, and whatever bytes that are not zero stand before it.
pub is_keyframe-first_unit :
    (junk : List ℕ) (k nal : ℕ) (rest : List ℕ)
    → All (λ b. b ≢ 0) junk
    → is_keyframe (junk ++ unit_at k nal rest) ≡ is_key_nal nal
unfolding is_keyframe
is_keyframe-first_unit [] k nal rest h = is_keyframe-zeros k nal rest
is_keyframe-first_unit (b ∷ junk) k nal rest h =
    scan_at-nonzero b (junk ++ unit_at k nal rest) (is_keyframe (junk ++ unit_at k nal rest)) h.0 (
      omega (
        arith,
        length-append junk (unit_at k nal rest),
        length-append (zeros k) (0 ∷ 0 ∷ 1 ∷ nal ∷ rest),
      ))
    ∙ is_keyframe-first_unit junk k nal rest h.1
