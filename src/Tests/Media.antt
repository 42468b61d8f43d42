-- ===== src/Tests/Media.antt =====
-- The theorems on audio and video at concrete samples and frames.
use what_is_it.Prelude.{ℤ, pos, negsuc, All, ◌*◌, length, ◌∷◌}
use what_is_it.Audio.Resample.{Floats, upsample, downmix}
use what_is_it.Audio.Resample.Rates.{IsByte, resample_rates}
use what_is_it.Prelude.{
  ℕ, Dict, lookup, pos, negsuc, Text, bytes, text_eq, ◌&&◌, if◌then◌else◌, List, [], ◌∷◌, ◌++◌,
  some, ◌≡◌, ◌≢◌, arith, length,
}
use what_is_it.Audio.{replicate, pcm_to_s16le, s16le_to_pcm}
use what_is_it.Audio.Samples.{pcm_to_s16le-s16le_to_pcm}
use what_is_it.Calls.{ok}
use what_is_it.Media.{media_ext, put, get, serve_media, split_slash, push_part}
use what_is_it.Media.Files.{get-put, serve_media-SameFolder, SameFolder, HasNoSlash}
use what_is_it.Video.{is_key_nal, is_keyframe, Intake, frame_tag_audio, frame_tag_video}
use what_is_it.Video.Keyframe.{is_keyframe-first_unit, unit_at}

abbrev full_chunk : List ℕ
full_chunk = replicate 961 7

abbrev padded : List ℕ
padded = 7 ∷ replicate 959 0

pcm_to_s16le-s16le_to_pcm_example :
    pcm_to_s16le (s16le_to_pcm (pos 300 ∷ negsuc 0 ∷ [])) ≡ pos 300 ∷ negsuc 0 ∷ []
pcm_to_s16le-s16le_to_pcm_example =
    pcm_to_s16le-s16le_to_pcm (pos 300 ∷ negsuc 0 ∷ []) (omega arith, (omega arith, tt))

not_zero : ◌≢◌ {A = ℕ} 9 0
not_zero e = ground arith

is_keyframe-first_unit_example : is_keyframe ((9 ∷ []) ++ unit_at 1 0x67 (1 ∷ [])) ≡ is_key_nal 0x67
is_keyframe-first_unit_example = is_keyframe-first_unit (9 ∷ []) 1 0x67 (1 ∷ []) (not_zero, tt)

abbrev no_intake : Intake
no_intake = record { mic = []; cam = [] }

seven_audio : ◌≢◌ {A = ℕ} 7 frame_tag_audio
seven_audio e = ground arith

seven_video : ◌≢◌ {A = ℕ} 7 frame_tag_video
seven_video e = ground arith

abbrev media_dir : Text
media_dir = bytes "data/media"

plain_id : HasNoSlash (bytes "m1")
plain_id = ground arith

get-put_example :
    get media_dir
      (bytes "m1")
      (bytes "voice")
      (put media_dir (ok tt) (bytes "m1") (bytes "audio") (bytes "OggS") []).1
    ≡ (if text_eq (bytes "m1") (bytes "m1")
          && text_eq (media_ext (bytes "audio")) (media_ext (bytes "voice"))
        then some (bytes "OggS")
        else get media_dir (bytes "m1") (bytes "voice") [])
get-put_example =
    get-put media_dir (bytes "m1") (bytes "audio") (bytes "OggS") (bytes "m1") (bytes "voice") []
      plain_id plain_id

abbrev with_secret : Dict Text
with_secret = (bytes "data/token", bytes "s3cret") ∷ []

same_but_secret : SameFolder media_dir with_secret []
unfolding lookup text_eq split_slash push_part
same_but_secret name h k = ground arith

serve_media-SameFolder_example :
    serve_media media_dir (bytes "../token/image") with_secret
    ≡ serve_media media_dir (bytes "../token/image") []
serve_media-SameFolder_example =
    serve_media-SameFolder media_dir (bytes "../token/image") with_secret [] same_but_secret

-- A crude arithmetic, on whole levels.
abbrev whole_levels : Floats
whole_levels = record {
  Float = ℤ;
  of_int = λ z. z;
  add = λ a b. a;
  sub = λ a b. a;
  mul = λ a b. a;
  div = λ a b. a;
  to_int32 = λ a. a;
}

resample_rates_example :
    All IsByte (upsample whole_levels (pos 7 ∷ negsuc 40000 ∷ []))
    × (length (upsample whole_levels (pos 7 ∷ negsuc 40000 ∷ [])) ≡ 12 * 2)
    × (length (downmix whole_levels (upsample whole_levels (pos 7 ∷ negsuc 40000 ∷ []))) ≡ 2)
resample_rates_example = resample_rates whole_levels (pos 7 ∷ negsuc 40000 ∷ [])
