-- ===== src/Upload.antt =====
-- server-go/client.go, `SendMedia`, and the handler `sendMedia` of server-go/web.go: a file of the app is
-- uploaded and sent as a message. The handler keeps nothing of it.
pub mod Kinds
use what_is_it.Prelude.{
  ℕ, ◌==◌, ◌+◌, ◌&&◌, ◌||◌, leb, Text, bytes, is_empty, text_eq, List, [], ◌∷◌, ◌++◌, Option, none,
  some, or_else, Bool, true, false, if◌then◌else◌, take,
}
use what_is_it.Calls.{Answer, ok, err}
use what_is_it.Whatsapp.{Jid}
use what_is_it.Web.{Response, reply, panicked, failed, with_id}

-- `whatsmeow.MediaType`
pub data MediaType : Type 0 where
  image video audio document : MediaType

-- `whatsmeow.UploadResponse`
pub record Uploaded : Type 0 where
  pub url : Text
  pub direct_path : Text
  pub media_key : Text
  pub enc_hash : Text
  pub hash : Text
  pub file_length : ℕ

-- `waE2E.Message` with one of its image, video, audio and document messages.
pub record MediaMessage : Type 0 where
  pub kind : MediaType
  pub mimetype : Text
  pub file_name : Option Text
  pub uploaded : Uploaded

-- What whatsmeow answers.
pub record UploadClient : Type 0 where
  pub upload : Text → MediaType → Answer Uploaded
  pub send_message : Jid → MediaMessage → Answer Text

-- `strings.ToLower`: of the letters outside ASCII only U+0130 and U+212A become ASCII letters, and the
-- other bytes outside ASCII stand in none of the texts it is compared with.
abbrev lower_byte : ℕ → ℕ
lower_byte c = if leb 65 c && leb c 90 then c + 32 else c

unfoldable pub fold_letters : Text → Text
fold_letters [] = []
fold_letters (a ∷ []) = a ∷ []
fold_letters (a ∷ b ∷ []) = elim ((a == 196) && (b == 176)) [ true ↦ 105 ∷ [] | false ↦ a ∷ b ∷ [] ]
fold_letters (a ∷ b ∷ c ∷ cs) = elim ((a == 196) && (b == 176)) [
  | true ↦ 105 ∷ fold_letters (c ∷ cs)
  | false ↦ elim ((a == 226) && ((b == 132) && (c == 170))) [
    | true ↦ 107 ∷ fold_letters cs
    | false ↦ a ∷ fold_letters (b ∷ c ∷ cs)
  ]
]

unfoldable pub lower_bytes : Text → Text
lower_bytes [] = []
lower_bytes (c ∷ cs) = lower_byte c ∷ lower_bytes cs

abbrev pub to_lower : Text → Text
to_lower s = lower_bytes (fold_letters s)

-- What stands behind the last dot.
unfoldable pub after_dot : Text → Option Text
after_dot [] = none
after_dot (c ∷ cs) = elim (after_dot cs) [
  | some rest ↦ some rest
  | none ↦ if c == 46 then some cs else none
]

-- `filename[strings.LastIndexByte(filename, '.')+1:]`: all of a name without a dot.
unfoldable pub extension : Text → Text
unfolding after_dot
extension name = or_else (after_dot name) name

unfoldable pub is_one_of : Text → List Text → Bool
is_one_of s [] = false
is_one_of s (t ∷ ts) = text_eq s t || is_one_of s ts

unfoldable pub type_of : Text → MediaType
unfolding is_one_of
type_of ext =
    if is_one_of ext (bytes "jpg" ∷ bytes "jpeg" ∷ bytes "png" ∷ bytes "gif" ∷ bytes "webp" ∷ [])
    then image
    else if is_one_of ext (bytes "mp4" ∷ bytes "mov" ∷ bytes "mkv" ∷ bytes "3gp" ∷ [])
    then video
    else if is_one_of ext
        (bytes "mp3" ∷ bytes "m4a" ∷ bytes "ogg" ∷ bytes "opus" ∷ bytes "wav" ∷ [])
    then audio
    else document

-- `mediaTypeForFilename`
unfoldable pub media_type_of : Text → MediaType
unfolding type_of extension fold_letters lower_bytes
media_type_of name = type_of (to_lower (extension name))

abbrev mime_of : MediaType → Text
mime_of image = bytes "image/jpeg"
mime_of video = bytes "video/mp4"
mime_of audio = bytes "audio/ogg"
mime_of document = bytes "application/octet-stream"

abbrev name_with : MediaType → Text → Option Text
name_with image name = none
name_with video name = none
name_with audio name = none
name_with document name = some name

-- `buildMediaMessage`
unfoldable pub media_message : MediaType → Uploaded → Text → MediaMessage
media_message kind up name = record {
  kind = kind;
  mimetype = mime_of kind;
  file_name = name_with kind name;
  uploaded = up;
}

abbrev sent_upload : UploadClient → Jid → Text → Answer Uploaded → Answer Text
sent_upload c jid name (err e) = err e
sent_upload c jid name (ok up) = c.send_message jid (media_message (media_type_of name) up name)

-- `SendMedia`
unfoldable pub send_file : UploadClient → Jid → Text → Text → Answer Text
unfolding media_type_of media_message
send_file c jid content name = sent_upload c jid name (c.upload content (media_type_of name))

-- The file of a form: its name, and what reading it answers.
pub record FormFile : Type 0 where
  pub name : Text
  pub content : Answer Text

pub record MediaForm : Type 0 where
  pub chat : Text
  pub file : Option FormFile

-- The limit of the reader: 64 << 20 bytes.
abbrev pub upload_limit : ℕ
upload_limit = 67108864

abbrev refuse : Text → Response
refuse e = reply 400 (failed e)

abbrev answer_upload : Answer Text → Response
answer_upload (err e) = reply 500 (failed e)
answer_upload (ok id) = reply 200 (with_id id)

abbrev to_jid : Option UploadClient → Text → Text → Answer Jid → Response
to_jid client content name (err e) = refuse (bytes "bad jid: " ++ e)
to_jid none content name (ok jid) = panicked
to_jid (some c) content name (ok jid) =
    answer_upload (send_file c jid (take upload_limit content) name)

abbrev of_content : Option UploadClient → Text → Answer Jid → Answer Text → Response
of_content client name jid (err e) = refuse e
of_content client name jid (ok content) = to_jid client content name jid

abbrev of_file : Option UploadClient → Answer Jid → Option FormFile → Response
of_file client jid none = refuse (bytes "file required")
of_file client jid (some f) = of_content client f.name jid f.content

-- `sendMedia`, with `types.ParseJID` and the client; a form that cannot be parsed is an error.
unfoldable pub send_media_file :
    (Text → Answer Jid) → Option UploadClient → Answer MediaForm → Response
unfolding send_file
send_media_file parse_jid client (err e) = refuse (bytes "bad multipart: " ++ e)
send_media_file parse_jid client (ok form) =
    if is_empty form.chat
    then refuse (bytes "chat required")
    else of_file client (parse_jid form.chat) form.file
