-- ===== src/Avatar.antt =====
-- server-go/avatar.go: the cache of profile pictures and the handler that serves it. The directory is a
-- map from file names to pictures; times are nanoseconds since the epoch.
pub mod Cache
use what_is_it.Prelude.{
  ℕ, ◌==◌, ◌||◌, ◌+◌, ltb, Text, bytes, is_empty, text_eq, List, [], ◌∷◌, ◌++◌, Option, none, some,
  Bool, true, false, if◌then◌else◌, Dict, lookup, insert, take, map,
}
use what_is_it.Calls.{Answer, ok, err}
use what_is_it.Whatsapp.{Jid}

-- What the source reads of `types.NewsletterMetadata`.
pub record Newsletter : Type 0 where
  pub id : Jid
  pub name : Text
  pub description : Text
  pub subscribers : ℕ
  pub invite_code : Text
  pub picture_url : Option Text
  pub preview_url : Text
  pub preview_path : Text

-- What whatsmeow answers; `profile_picture` is the URL in `ProfilePictureInfo`.
pub record PictureClient : Type 0 where
  pub is_connected : Bool
  pub newsletter_info : Jid → Answer (Option Newsletter)
  pub profile_picture : Jid → Answer (Option Text)

-- The clock, the disk, `types.ParseJID`, the client (`none` is nil) and `http.Get`, which answers a status
-- and a body.
pub record World : Type 0 where
  pub now : ℕ
  pub disk_takes : Bool
  pub disk_gives : Bool
  pub parse_jid : Text → Answer Jid
  pub client : Option PictureClient
  pub download : Text → Answer (ℕ × Text)

-- A file of the cache with its time of modification.
pub record Picture : Type 0 where
  pub written : ℕ
  pub content : Text

abbrev pub day : ℕ
day = 86400000000000

-- The replacer of `path`: the bytes '@', '/' and ':' become '_'.
abbrev pub slug_byte : ℕ → ℕ
slug_byte c = if (c == 64) || ((c == 47) || (c == 58)) then 95 else c

unfoldable pub slug : Text → Text
slug [] = []
slug (c ∷ cs) = slug_byte c ∷ slug cs

unfoldable pub picture_name : Text → Text
unfolding slug
picture_name jid = slug jid ++ bytes ".jpg"

-- `time.Since(written) > ttl`
abbrev pub is_older : (ttl now written : ℕ) → Bool
is_older ttl now written = ltb (written + ttl) now

abbrev fresh : World → ℕ → Option Picture → Option Text
fresh w ttl none = none
fresh w ttl (some p) =
    if is_older ttl w.now p.written then none else (if w.disk_gives then some p.content else none)

unfoldable pub get_picture : World → Text → ℕ → Dict Picture → Option Text
unfolding picture_name
get_picture w jid ttl files = fresh w ttl (lookup (picture_name jid) files)

unfoldable pub put_picture : World → Text → Text → Dict Picture → Dict Picture
unfolding picture_name
put_picture w jid content files =
    if w.disk_takes
    then insert (picture_name jid) (record { written = w.now; content = content }) files
    else files

abbrev pub is_newsletter : Jid → Bool
is_newsletter jid = text_eq jid.server (bytes "newsletter")

abbrev preview_url_of : Newsletter → Text
preview_url_of meta =
    if is_empty meta.preview_url
    then (if is_empty meta.preview_path
        then []
        else bytes "https://mmg.whatsapp.net" ++ meta.preview_path)
    else meta.preview_url

abbrev newsletter_url : Answer (Option Newsletter) → Text
newsletter_url (err e) = []
newsletter_url (ok none) = []
newsletter_url (ok (some meta)) = elim meta.picture_url [
  | none ↦ preview_url_of meta
  | some url ↦ if is_empty url then preview_url_of meta else url
]

abbrev picture_url : Answer (Option Text) → Text
picture_url (err e) = []
picture_url (ok none) = []
picture_url (ok (some url)) = url

-- `avatarURL`, empty when there is no picture.
unfoldable pub avatar_url : Option PictureClient → Jid → Text
avatar_url none jid = []
avatar_url (some c) jid =
    if c.is_connected
    then (if is_newsletter jid
        then newsletter_url (c.newsletter_info jid)
        else picture_url (c.profile_picture jid))
    else []

-- The limit of `fetchAvatarBytes`: 4 << 20 bytes.
abbrev pub picture_limit : ℕ
picture_limit = 4194304

abbrev limited : Answer (ℕ × Text) → Answer Text
limited (err e) = err e
limited (ok (status, body)) =
    if status == 200 then ok (take picture_limit body) else err (bytes "EOF")

unfoldable pub fetch_picture : World → Text → Answer Text
fetch_picture w url = limited (w.download url)

-- What the handler answers: an image, or a status with a text.
pub data Answered : Type 0 where
  image : (content : Text) → Answered
  refused : (status : ℕ) → (error : Text) → Answered

abbrev not_found : Dict Picture → Answered × Dict Picture
not_found files = (refused 404 (bytes "404 page not found"), files)

abbrev pub fetched : World → Text → Answer Text → Dict Picture → Answered × Dict Picture
fetched w chat (err e) files = not_found files
fetched w chat (ok []) files = not_found files
fetched w chat (ok (c ∷ cs)) files = (image (c ∷ cs), put_picture w chat (c ∷ cs) files)

abbrev pub refetched : World → Text → Jid → Dict Picture → Answered × Dict Picture
refetched w chat jid files =
    let url = avatar_url w.client jid in
    if is_empty url then not_found files else fetched w chat (fetch_picture w url) files

abbrev pub cached : World → Text → Jid → Option Text → Dict Picture → Answered × Dict Picture
cached w chat jid (some content) files = (image content, files)
cached w chat jid none files = refetched w chat jid files

abbrev pub parsed : World → Text → Answer Jid → Dict Picture → Answered × Dict Picture
parsed w chat (err e) files = (refused 400 (bytes "bad jid"), files)
parsed w chat (ok jid) files = cached w chat jid (get_picture w chat day files) files

-- `avatar`
unfoldable pub avatar : World → Text → Dict Picture → Answered × Dict Picture
unfolding get_picture put_picture avatar_url fetch_picture
avatar w chat files =
    if is_empty chat
    then (refused 400 (bytes "chat required"), files)
    else parsed w chat (w.parse_jid chat) files
