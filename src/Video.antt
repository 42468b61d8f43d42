-- ===== src/Video.antt =====
-- server-go/calls.go, `isKeyframe`, and server-go/ws.go: the binary frames between the app and the
-- call relay. Bytes are numbers below 256.
pub mod Keyframe
pub mod Relay
use Prim.Native.Nat.{bit_and}
use what_is_it.Prelude.{
  ℕ, ◌<◌, ltb, ◌==◌, List, [], ◌∷◌, ◌++◌, Option, none, some, Bool, true, false, ◌&&◌, ◌||◌,
  if◌then◌else◌, length,
}

-- A network abstraction layer unit of type IDR (5), SPS (7) or PPS (8), by its first byte.
unfoldable pub is_key_nal : ℕ → Bool
is_key_nal b = let nal_type = bit_and b 0x1f in nal_type == 5 || (nal_type == 7 || nal_type == 8)

-- The test of a start code of four bytes: `i+4 < n && au[i+2] == 0 && au[i+3] == 1`.
unfoldable pub long_start : ℕ → ℕ → List ℕ → Bool → Bool
unfolding is_key_nal
long_start c d [] later = later
long_start c d (e ∷ more) later = if c == 0 && d == 1 then is_key_nal e else later

-- One round of the loop, at the byte `a` and what follows it; `later` is what the next rounds say.
unfoldable pub scan_at : ℕ → List ℕ → Bool → Bool
unfolding long_start
scan_at a (b ∷ c ∷ d ∷ more) later =
    if a == 0 && b == 0 then if c == 1 then is_key_nal d else long_start c d more later else later
scan_at a _ later = false

unfoldable pub is_keyframe : List ℕ → Bool
unfolding scan_at
is_keyframe [] = false
is_keyframe (a ∷ rest) = let later = is_keyframe rest in scan_at a rest later

abbrev pub frame_tag_audio : ℕ
frame_tag_audio = 1

abbrev pub frame_tag_video : ℕ
frame_tag_video = 2

-- The frames of `relayMediaOut`.
unfoldable pub audio_frame : List ℕ → List ℕ
audio_frame pcm = frame_tag_audio ∷ pcm

pub record VideoFrameOut : Type 0 where
  pub keyframe : Bool
  pub payload : List ℕ

unfoldable pub video_frame : VideoFrameOut → List ℕ
video_frame f = frame_tag_video ∷ (if f.keyframe then 1 else 0) ∷ f.payload

-- The callback of `ReceiveVideo`.
unfoldable pub receive_video : List ℕ → VideoFrameOut
unfolding is_keyframe
receive_video au = record { keyframe = is_keyframe au; payload = au }

-- The buffers of a relay that the app feeds.
pub record Intake : Type 0 where
  pub mic : List (List ℕ)
  pub cam : List (List ℕ)

abbrev pub mic_size : ℕ
mic_size = 128

abbrev pub cam_size : ℕ
cam_size = 32

-- `select { case relay.micCh <- payload: default: }`
unfoldable pub feed : ℕ → List ℕ → List (List ℕ) → List (List ℕ)
feed size payload buffer = if ltb (length buffer) size then buffer ++ payload ∷ [] else buffer

unfoldable pub route : ℕ → List ℕ → Intake → Intake
unfolding feed
route tag payload r =
    if tag == frame_tag_audio
    then record r { mic = feed mic_size payload r.mic }
    else if tag == frame_tag_video
    then record r { cam = feed cam_size payload r.cam }
    else r

-- One frame of the app: empty frames and frames with no payload are passed over.
unfoldable pub on_frame : List ℕ → Intake → Intake
unfolding route
on_frame [] r = r
on_frame (tag ∷ []) r = r
on_frame (tag ∷ b ∷ payload) r = route tag (b ∷ payload) r
