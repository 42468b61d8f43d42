-- ===== src/Audio/Resample/Rates.antt =====
-- server-go/calls.go: how many samples the two conversions make of how many.
use what_is_it.Prelude.{
  ℕ, ℤ, pos, negsuc, suc, ◌*◌, ◌/◌, ◌%◌, ◌<◌, List, [], ◌∷◌, ◌++◌, ◌≡◌, refl, arith, ap, All,
  length,
}
use what_is_it.Audio.{to_uint16}
use what_is_it.Audio.Resample.{
  Floats, downmix, downmix_from, clamp, between, output, next_of, upsample,
}

to_uint16-bounded : (z : ℤ) → to_uint16 z < 65536
to_uint16-bounded (pos n) = omega arith
to_uint16-bounded (negsuc n) = omega arith

abbrev pub IsByte : ℕ → Type 0
IsByte b = b < 256

stereo-bytes :
    (s : ℕ) (rest : List ℕ)
    → s < 65536
    → All IsByte rest
    → All IsByte ((s % 256) ∷ (s / 256) ∷ (s % 256) ∷ (s / 256) ∷ rest)
stereo-bytes s rest h r = (omega arith, (omega arith, (omega arith, (omega arith, r))))

module _ (f : Floats) where
  output-bytes :
      (cur next : f.Float) (k : ℕ) (rest : List ℕ)
      → All IsByte rest
      → All IsByte (output f cur next k ++ rest)
  unfolding output
  output-bytes cur next k rest h =
      stereo-bytes _ rest
        (to_uint16-bounded
          (clamp f (f.to_int32 (f.mul (between f cur next k) (f.of_int (pos 32768))))))
        h

  upsample-bytes : (xs : List f.Float) → All IsByte (upsample f xs)
  unfolding upsample
  upsample-bytes [] = tt
  upsample-bytes (cur ∷ rest) =
      let next = next_of f cur rest in
      output-bytes cur next 0 (output f cur next 1 ++ (output f cur next 2 ++ upsample f rest)) (
        output-bytes cur next 1 (output f cur next 2 ++ upsample f rest)
          (output-bytes cur next 2 (upsample f rest) (upsample-bytes rest)))

  length-upsample : (xs : List f.Float) → length (upsample f xs) ≡ 12 * length xs
  unfolding upsample output
  length-upsample [] = refl
  length-upsample (cur ∷ rest) = omega (arith, length-upsample rest)

  length-downmix-upsample : (xs : List f.Float) → length (downmix f (upsample f xs)) ≡ length xs
  unfolding downmix downmix_from upsample output
  length-downmix-upsample [] = refl
  length-downmix-upsample (cur ∷ rest) = ap suc (length-downmix-upsample rest)

-- Whatever the arithmetic of floats gives, the samples of a call become twelve bytes each, and these bytes
-- come back from the other conversion as just as many samples.
pub resample_rates :
    (f : Floats) (xs : List f.Float)
    → All IsByte (upsample f xs)
      × (length (upsample f xs) ≡ 12 * length xs)
      × (length (downmix f (upsample f xs)) ≡ length xs)
resample_rates f xs = (upsample-bytes f xs, length-upsample f xs, length-downmix-upsample f xs)
