-- ===== src/Audio/Frames.antt =====
-- server-go/calls.go, `pcmSource.ReadFrame`: frames are full, and no sample is lost or moved.
use mathlib.Core.List.{append_assoc, append-nil}
use what_is_it.Prelude.{
  ℕ, zero, suc, ◌-◌, ◌≤◌, leb, List, [], ◌∷◌, ◌++◌, some, ◌≡◌, refl, sym, ap, ◌∙◌, inl, inr, arith,
  Bool-cases, length, take, drop, length-append, take-append-drop,
}
use what_is_it.Audio.{frame_samples, replicate, read_samples, read_frame}

abbrev pub concat : {A : Type 0} → List (List A) → List A
concat [] = []
concat (c ∷ cs) = c ++ concat cs

length-take-le : {A : Type 0} (n : ℕ) (xs : List A) → n ≤ length xs → length (take n xs) ≡ n
length-take-le zero xs h = refl
length-take-le (suc n) [] h = absurd (omega arith)
length-take-le (suc n) (x ∷ xs) h = ap suc (length-take-le n xs (omega arith))

length-take-bound : {A : Type 0} (n : ℕ) (xs : List A) → length (take n xs) ≤ n
length-take-bound zero xs = omega arith
length-take-bound (suc n) [] = omega arith
length-take-bound (suc n) (x ∷ xs) = omega (arith, length-take-bound n xs)

length-replicate : {A : Type 0} (n : ℕ) (a : A) → length (replicate n a) ≡ n
length-replicate zero a = refl
length-replicate (suc n) a = ap suc (length-replicate n a)

module _ {A : Type 0} where
  -- Everything that was pending or in the channel is taken or still there, in the same order.
  read_samples-keeps :
      (need : ℕ) (pending : List A) (chunks : List (List A))
      → let r = read_samples need pending chunks in
        r.taken ++ (r.pending ++ concat r.chunks) ≡ pending ++ concat chunks
  unfolding read_samples
  read_samples-keeps need pending [] =
      ap (λ (l : List A). take need pending ++ l) (append-nil (drop need pending))
      ∙ (take-append-drop need pending ∙ sym (append-nil pending))
  read_samples-keeps need pending (c ∷ cs) = elim (Bool-cases (leb need (length pending))) [
    | inl e ↦ rw e (
        sym (append_assoc (take need pending) (drop need pending) (c ++ concat cs))
        ∙ ap (λ (l : List A). l ++ (c ++ concat cs)) (take-append-drop need pending))
    | inr e ↦ rw e (
        append_assoc pending _ _
        ∙ ap (λ (l : List A). pending ++ l) (read_samples-keeps (need - length pending) c cs))
  ]

  length-read_samples :
      (need : ℕ) (pending : List A) (chunks : List (List A))
      → length (read_samples need pending chunks).taken ≤ need
  unfolding read_samples
  length-read_samples need pending [] = length-take-bound need pending
  length-read_samples need pending (c ∷ cs) = elim (Bool-cases (leb need (length pending))) [
    | inl e ↦ rw e (length-take-bound need pending)
    | inr e ↦ rw e (
        ground (
          arith,
          length-append pending (read_samples (need - length pending) c cs).taken,
          length-read_samples (need - length pending) c cs,
        ))
  ]

  -- A read is short only when the samples have run out.
  read_samples-full :
      (need : ℕ) (pending : List A) (chunks : List (List A))
      → need ≤ length (pending ++ concat chunks)
      → length (read_samples need pending chunks).taken ≡ need
  unfolding read_samples
  read_samples-full need pending [] h = length-take-le need pending (rw append-nil at h)
  read_samples-full need pending (c ∷ cs) h = elim (Bool-cases (leb need (length pending))) [
    | inl e ↦ rw e (length-take-le need pending (ground arith))
    | inr e ↦ rw e (
        ground (
          arith,
          length-append pending (read_samples (need - length pending) c cs).taken,
          length-append pending (c ++ concat cs),
          read_samples-full (need - length pending) c cs,
        ))
  ]

  -- While there are enough samples, a frame is the next 960 of them, exactly: what was pending or
  -- in the channel is the frame followed by what is pending or in the channel afterwards.
  pub read_frame-full :
      (silence : A) (pending : List A) (chunks : List (List A))
      → frame_samples ≤ length (pending ++ concat chunks)
      → (frame : List A) × ((read_frame silence pending chunks).0 ≡ some frame)
        × (length frame ≡ frame_samples)
        × (frame
              ++ ((read_frame silence pending chunks).1.pending
                  ++ concat (read_frame silence pending chunks).1.chunks)
            ≡ pending ++ concat chunks)
  unfolding read_frame
  read_frame-full silence pending chunks h =
      let r = read_samples frame_samples pending chunks in
      let full : length r.taken ≡ frame_samples =
        read_samples-full frame_samples pending chunks h in
      (
        r.taken,
        rw full (ap some (append-nil r.taken)),
        full,
        read_samples-keeps frame_samples pending chunks,
      )

  -- Every frame that is returned has 960 samples, the last one with silence at its end.
  pub length-read_frame :
      (silence : A) (pending : List A) (chunks : List (List A)) (frame : List A)
      → (read_frame silence pending chunks).0 ≡ some frame
      → length frame ≡ frame_samples
  unfolding read_frame
  length-read_frame silence pending chunks frame e =
      let r = read_samples frame_samples pending chunks in
      ground (
        arith,
        length-append r.taken (replicate (frame_samples - length r.taken) silence),
        length-replicate (frame_samples - length r.taken) silence,
        length-read_samples frame_samples pending chunks,
      )
