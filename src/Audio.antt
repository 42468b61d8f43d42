-- ===== src/Audio.antt =====
-- server-go/calls.go and server-go/ws.go: the app's microphone samples on their way into a call, and
-- the bytes of 16-bit samples. A sample is of any type; no arithmetic of floats is modelled.
pub mod Frames
pub mod Samples
pub mod Resample
use what_is_it.Prelude.{
  ℕ, ℤ, pos, negsuc, zero, suc, ◌+◌, ◌-◌, ◌*◌, ◌/◌, ◌%◌, ◌^◌, ltb, leb, ◌==◌, List, [], ◌∷◌, ◌++◌,
  Option, none, some, Bool, true, false, if◌then◌else◌, length, take, drop,
}

abbrev pub frame_samples : ℕ
frame_samples = 960

abbrev pub replicate {ℓ} : {A : Type ℓ} → ℕ → A → List A
replicate zero a = []
replicate (suc n) a = a ∷ replicate n a

-- What a read has taken, what stays pending, and the chunks that are still in the channel.
pub record Read (A : Type 0) : Type 0 where
  pub taken : List A
  pub pending : List A
  pub chunks : List (List A)

module _ {A : Type 0} where
  -- The loop of `ReadFrame` with `need` samples to go. It drains the pending samples and then
  -- receives the next chunk; `done` is closed when there are no more chunks.
  unfoldable pub read_samples : ℕ → List A → List (List A) → Read A
  read_samples need pending [] = record {
    taken = take need pending;
    pending = drop need pending;
    chunks = [];
  }
  read_samples need pending (c ∷ cs) =
      let rest = read_samples (need - length pending) c cs in
      if leb need (length pending)
      then record { taken = take need pending; pending = drop need pending; chunks = c ∷ cs }
      else record { taken = pending ++ rest.taken; pending = rest.pending; chunks = rest.chunks }

  -- `ReadFrame`: `none` is `io.EOF`; a last partial frame is padded with zeros.
  unfoldable pub read_frame : A → List A → List (List A) → Option (List A) × Read A
  unfolding read_samples
  read_frame silence pending chunks =
      let r = read_samples frame_samples pending chunks in
      (
        if length r.taken == 0
            then none
            else some (r.taken ++ replicate (frame_samples - length r.taken) silence),
        r,
      )

-- `int16(binary.LittleEndian.Uint16(…))`
abbrev pub to_int16 : ℕ → ℕ → ℤ
to_int16 lo hi = let n = lo + 256 * hi in if ltb n (2 ^ 15) then pos n else negsuc (2 ^ 16 - 1 - n)

-- `uint16(v)`
abbrev pub to_uint16 : ℤ → ℕ
to_uint16 (pos n) = n % 2 ^ 16
to_uint16 (negsuc n) = (2 ^ 16 - 1 - n % 2 ^ 16) % 2 ^ 16

unfoldable pub pcm_to_s16le : List ℕ → List ℤ
pcm_to_s16le (lo ∷ hi ∷ rest) = to_int16 lo hi ∷ pcm_to_s16le rest
pcm_to_s16le _ = []

unfoldable pub s16le_to_pcm : List ℤ → List ℕ
s16le_to_pcm [] = []
s16le_to_pcm (v ∷ vs) = (to_uint16 v % 256) ∷ (to_uint16 v / 256) ∷ s16le_to_pcm vs
