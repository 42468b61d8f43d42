-- ===== src/Video/Relay.antt =====
-- server-go/ws.go: what the frames carry and where they go.
use what_is_it.Prelude.{
  refl, if◌then◌else◌, ltb, ◌++◌, ℕ, ◌≤◌, List, [], ◌∷◌, ◌≡◌, ◌≢◌, arith, length, length-append,
}
use what_is_it.Video.{
  Intake, mic_size, cam_size, frame_tag_audio, frame_tag_video, feed, route, on_frame, audio_frame,
}

pub record IsIntake (r : Intake) : Type 0 where
  pub mic : length r.mic ≤ mic_size
  pub cam : length r.cam ≤ cam_size

feed-bounded :
    (size : ℕ) (payload : List ℕ) (buffer : List (List ℕ))
    → length buffer ≤ size
    → length (feed size payload buffer) ≤ size
unfolding feed
feed-bounded size payload buffer h = ground (arith, length-append buffer (payload ∷ []))

-- Whatever the app sends, the buffers of the relay stay within their sizes.
pub on_frame-IsIntake : (frame : List ℕ) (r : Intake) → IsIntake r → IsIntake (on_frame frame r)
unfolding on_frame route
on_frame-IsIntake [] r v = v
on_frame-IsIntake (tag ∷ []) r v = v
on_frame-IsIntake (tag ∷ b ∷ payload) r v = record {
  mic = ground (arith, feed-bounded mic_size (b ∷ payload) r.mic v.mic);
  cam = ground (arith, feed-bounded cam_size (b ∷ payload) r.cam v.cam);
}

-- The payload of an audio frame that is not empty goes whole to the end of the microphone buffer, and
-- that of any frame with tag 2 to the camera buffer, if there is room, and is dropped otherwise;
-- nothing else changes, and a frame with another tag changes nothing.
pub on_frame-routed :
    (tag b : ℕ) (pcm payload : List ℕ) (r : Intake)
    → tag ≢ frame_tag_audio
    → tag ≢ frame_tag_video
    → (on_frame (audio_frame (b ∷ pcm)) r
        ≡ record r { mic = if ltb (length r.mic) mic_size then r.mic ++ (b ∷ pcm) ∷ [] else r.mic })
      × (on_frame (frame_tag_video ∷ b ∷ payload) r ≡ record r {
        cam = if ltb (length r.cam) cam_size then r.cam ++ (b ∷ payload) ∷ [] else r.cam;
      })
      × (on_frame (tag ∷ b ∷ payload) r ≡ r)
unfolding on_frame route feed audio_frame
on_frame-routed tag b pcm payload r h k = (refl, refl, ground arith)
