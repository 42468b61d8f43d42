-- ===== src/Audio/Samples.antt =====
-- server-go/ws.go: `pcmToS16le` and `s16leToPCM` undo each other.
use what_is_it.Prelude.{ℤ, pos, negsuc, ◌/◌, ◌%◌, ◌<◌, List, [], ◌∷◌, ◌≡◌, refl, arith, All}
use what_is_it.Audio.{to_int16, to_uint16, pcm_to_s16le, s16le_to_pcm}

-- The range of an `int16`.
abbrev pub IsInt16 : ℤ → Type 0
IsInt16 (pos n) = n < 32768
IsInt16 (negsuc n) = n < 32768

to_int16-bytes : (v : ℤ) → IsInt16 v → to_int16 (to_uint16 v % 256) (to_uint16 v / 256) ≡ v
to_int16-bytes (pos n) h = ground arith
to_int16-bytes (negsuc n) h = ground arith

-- Samples that are written as bytes are read back unchanged.
pub pcm_to_s16le-s16le_to_pcm : (vs : List ℤ) → All IsInt16 vs → pcm_to_s16le (s16le_to_pcm vs) ≡ vs
unfolding pcm_to_s16le s16le_to_pcm
pcm_to_s16le-s16le_to_pcm [] h = refl
pcm_to_s16le-s16le_to_pcm (v ∷ vs) h = rw (to_int16-bytes v h.0, pcm_to_s16le-s16le_to_pcm vs h.1)
