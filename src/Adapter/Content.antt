-- ===== src/Adapter/Content.antt =====
-- adapter/routes.go: the type of a file by its first bytes, and the routes that serve files.
use what_is_it.Prelude.{
  ℕ, ◌-◌, ◌==◌, ltb, Text, bytes, is_empty, text_eq, ◌&&◌, [], ◌∷◌, ◌++◌, Option, none, some, Bool,
  if◌then◌else◌, lookup, length, take, drop,
}
use what_is_it.Calls.{Answer, ok, err}
use what_is_it.Media.{split_slash, id_and_kind}
use what_is_it.Adapter.Gateway.{World, Adapter, HttpReply, instance_name, proxy}
use what_is_it.Adapter.Reply.{Outcome, succeed, fail, empty, plain, with_file}

-- `string(b[i:j]) == t`. Behind the end of a file that is too short the buffer holds zeros, which are in
-- none of the texts that are looked for.
abbrev at : ℕ → ℕ → Text → Text → Bool
at i j t b = text_eq (take (j - i) (drop i b)) t

unfoldable pub detect_content_type : Text → Text
detect_content_type b =
    if ltb 12 (length b) && at 0 4 (0x89 ∷ bytes "PNG") b
    then bytes "image/png"
    else if ltb 2 (length b) && at 0 2 (0xff ∷ 0xd8 ∷ []) b
    then bytes "image/jpeg"
    else if ltb 4 (length b)
        && (at 0 4 (bytes "RIFF") b && (ltb 8 (length b) && at 8 12 (bytes "WEBP") b))
    then bytes "image/webp"
    else if ltb 4 (length b) && at 0 4 (bytes "OggS") b
    then bytes "audio/ogg"
    else if ltb 12 (length b) && at 4 12 (bytes "ftypmp42") b
    then bytes "video/mp4"
    else if ltb 4 (length b) && at 0 4 (bytes "%PDF") b
    then bytes "application/pdf"
    else bytes "application/octet-stream"

abbrev media_reply : Answer HttpReply × Adapter → Outcome
media_reply (err e, a) = fail 500 e a
media_reply (ok r, a) =
    if r.status == 200
    then succeed (with_file (detect_content_type r.body) r.body) a
    else (record { status = r.status; body = empty }, a)

abbrev media_parts : World → Option (Text × Text) → Adapter → Outcome
media_parts w none a = fail 400 (bytes "bad media path") a
media_parts w (some (id, kind)) a = media_reply (
    proxy w (bytes "GET")
      (bytes "/v1/instance/"
        ++ (instance_name a
            ++ (bytes "/message/media?messageId=" ++ (id ++ (bytes "&type=" ++ kind)))))
      none a)

-- `handleMedia`, for the path after "/media/".
unfoldable pub get_media : World → Text → Adapter → Outcome
unfolding detect_content_type proxy instance_name split_slash
get_media w path a = media_parts w (id_and_kind (split_slash path)) a

abbrev file_reply : Option Text → Adapter → Outcome
file_reply none a = (record { status = 404; body = plain (bytes "404 page not found") }, a)
file_reply (some content) a = succeed (with_file (detect_content_type content) content) a

-- `handleFileServe`, for the path after "/files/".
unfoldable pub serve_file : Text → Adapter → Outcome
unfolding detect_content_type
serve_file name a = file_reply (if is_empty name then none else lookup name a.files) a
