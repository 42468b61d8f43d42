-- ===== src/Audio/Resample.antt =====
-- server-go/calls.go: the samples between the app, 48 kHz stereo of 16 bits, and a call, 16 kHz mono of
-- float32. The arithmetic of float32 is a parameter; of a call's samples nothing else is known.
pub mod Rates
use what_is_it.Prelude.{
  ℕ, ℤ, pos, negsuc, zero, suc, ◌+◌, ◌-◌, ◌*◌, ◌/◌, ◌%◌, ltb, ltb_ℤ, List, [], ◌∷◌, ◌++◌, Bool,
  true, false, if◌then◌else◌,
}
use what_is_it.Audio.{to_int16, to_uint16}

-- float32: `of_int` is the conversion of an integer and `to_int32` that of a float.
pub record Floats : Type 1 where
  pub Float : Type 0
  pub of_int : ℤ → Float
  pub add : Float → Float → Float
  pub sub : Float → Float → Float
  pub mul : Float → Float → Float
  pub div : Float → Float → Float
  pub to_int32 : Float → ℤ

module _ (f : Floats) where
  -- `float32(int16(lo)|int16(hi)<<8) / 32768.0`
  abbrev level : ℕ → ℕ → f.Float
  level lo hi = f.div (f.of_int (to_int16 lo hi)) (f.of_int (pos 32768))

  -- The loop of `downmix48kStereo`: it takes one stereo frame of four bytes and skips the next two.
  unfoldable pub downmix_from : (skip : ℕ) → List ℕ → List f.Float
  downmix_from zero (a ∷ b ∷ c ∷ d ∷ rest) =
      f.div (f.add (level a b) (level c d)) (f.of_int (pos 2)) ∷ downmix_from 2 rest
  downmix_from (suc skip) (a ∷ b ∷ c ∷ d ∷ rest) = downmix_from skip rest
  downmix_from skip _ = []

  unfoldable pub downmix : List ℕ → List f.Float
  unfolding downmix_from
  downmix bytes = downmix_from 0 bytes

  -- The two tests on `iv`.
  abbrev pub clamp : ℤ → ℤ
  clamp z =
      if ltb_ℤ (pos 32767) z then pos 32767 else if ltb_ℤ z (negsuc 32767) then negsuc 32767 else z

  abbrev pub stereo : ℕ → List ℕ
  stereo s = (s % 256) ∷ (s / 256) ∷ (s % 256) ∷ (s / 256) ∷ []

  -- `cur*(1-frac) + next*frac` for `frac = float32(k) / 3.0`
  abbrev pub between : f.Float → f.Float → ℕ → f.Float
  between cur next k =
      let frac = f.div (f.of_int (pos k)) (f.of_int (pos 3)) in
      f.add (f.mul cur (f.sub (f.of_int (pos 1)) frac)) (f.mul next frac)

  unfoldable pub output : f.Float → f.Float → ℕ → List ℕ
  output cur next k =
      stereo (to_uint16 (clamp (f.to_int32 (f.mul (between cur next k) (f.of_int (pos 32768))))))

  abbrev pub next_of : f.Float → List f.Float → f.Float
  next_of cur [] = cur
  next_of cur (next ∷ rest) = next

  unfoldable pub upsample : List f.Float → List ℕ
  unfolding output
  upsample [] = []
  upsample (cur ∷ rest) =
      output cur (next_of cur rest) 0
      ++ (output cur (next_of cur rest) 1 ++ (output cur (next_of cur rest) 2 ++ upsample rest))
