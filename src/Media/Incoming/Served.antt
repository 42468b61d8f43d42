-- ===== src/Media/Incoming/Served.antt =====
-- server-go/client.go and server-go/web.go: what a message brought is what a request for it gets.
use what_is_it.Prelude.{
  Text, bytes, is_empty, [], ◌∷◌, ◌++◌, Option, none, some, Bool, true, false, ◌≡◌, refl, arith,
  inl, inr, Bool-cases, Option-cases, if◌then◌else◌, Dict, text_eq_refl, lookup-insert,
}
use what_is_it.Wire.{Message, MediaRef}
use what_is_it.Calls.{ok}
use what_is_it.Whatsapp.{Payload, Directory, ExtendedText}
use what_is_it.Whatsapp.Extract.{
  media_from_message, extract_message, extract_media, extract_extended,
}
use what_is_it.Whatsapp.Session.{MessageEvent, message_of}
use what_is_it.Media.{put, get, split_slash, serve_media, media_mime, file, file_path}
use what_is_it.Media.Files.{HasNoSlash, split_slash-whole}
use what_is_it.Media.Incoming.{Downloadable, Fetch, media_downloadable, cache_incoming}

split_slash-pair :
    (s t : Text) → HasNoSlash s → HasNoSlash t → split_slash (s ++ (bytes "/" ++ t)) ≡ s ∷ t ∷ []
unfolding split_slash
split_slash-pair [] t h k = rw (split_slash-whole t k) refl
split_slash-pair (c ∷ cs) t h k = rw (split_slash-pair cs t h.1 k, h.0) refl

abbrev PlainKind : Option MediaRef → Type 0
PlainKind none = Unit
PlainKind (some md) = HasNoSlash md.kind

media_from_message-PlainKind : (m : Payload) → PlainKind (media_from_message m)
unfolding media_from_message
media_from_message-PlainKind m = elim (Option-cases m.image) [
  | inr (i, e) ↦ rw e plain_image
  | inl e ↦ rw e (elim (Option-cases m.video) [
    | inr (v, h) ↦ rw h plain_video
    | inl h ↦ rw h (elim (Option-cases m.audio) [
      | inr (a, k) ↦ rw k (plain_audio a.ptt)
      | inl k ↦ rw k (elim (Option-cases m.document) [
        | inr (d, j) ↦ rw j plain_document
        | inl j ↦
            rw j
              (elim (Option-cases m.sticker) [ inr (t, g) ↦ rw g plain_sticker | inl g ↦ rw g tt ])
      ])
    ])
  ])
]
  where
    plain_image : HasNoSlash (bytes "image")
    plain_image = ground arith

    plain_video : HasNoSlash (bytes "video")
    plain_video = ground arith

    plain_audio : (ptt : Bool) → HasNoSlash (if ptt then bytes "voice" else bytes "audio")
    plain_audio true = ground arith
    plain_audio false = ground arith

    plain_document : HasNoSlash (bytes "document")
    plain_document = ground arith

    plain_sticker : HasNoSlash (bytes "sticker")
    plain_sticker = ground arith

extract_media-PlainKind :
    (found : Option MediaRef) (emoji : Option Text) (msg : Message)
    → msg.media ≡ none
    → PlainKind found
    → PlainKind (extract_media found emoji msg).media
extract_media-PlainKind (some md) emoji msg e h = h
extract_media-PlainKind none (some emoji) msg e h = rw e tt
extract_media-PlainKind none none msg e h = rw e tt

extract_extended-PlainKind :
    (ext : Option ExtendedText) (m : Payload) (msg : Message)
    → msg.media ≡ none
    → PlainKind (extract_extended ext m msg).media
extract_extended-PlainKind (some ext) m msg e = rw e tt
extract_extended-PlainKind none m msg e =
    extract_media-PlainKind (media_from_message m) m.reaction msg e (media_from_message-PlainKind m)

extract_message-PlainKind :
    (m : Payload) (msg : Message) → msg.media ≡ none → PlainKind (extract_message m msg).media
unfolding extract_message
extract_message-PlainKind m msg e = elim (Bool-cases (is_empty m.conversation)) [
  | inl h ↦ rw h (extract_extended-PlainKind m.extended m msg e)
  | inr h ↦ rw h (rw e tt)
]

message_of-PlainKind : (w : Directory) (e : MessageEvent) → PlainKind (message_of w e).media
unfolding message_of
message_of-PlainKind w e = extract_message-PlainKind e.payload _ refl

cache_incoming-kept :
    (w : Directory) (d : Fetch) (e : MessageEvent) (md : MediaRef) (dl : Downloadable)
    (content : Text) (files : Dict Text)
    → (message_of w e).from_me ≡ false
    → (message_of w e).media ≡ some md
    → media_downloadable e.payload ≡ some dl
    → d.download dl ≡ ok content
    → cache_incoming w d e files ≡ (put d.dir d.disk e.id md.kind content files).1
unfolding cache_incoming
cache_incoming-kept w d e md dl content files f m p c =
    rw (f, cache_incoming) (rw (m, p) (rw c refl))

get-put_same :
    (dir id kind content : Text) (files : Dict Text)
    → get dir id kind (put dir (ok tt) id kind content files).1 ≡ some content
unfolding get put
get-put_same dir id kind content files =
    rw
      (
        lookup-insert (file_path dir id kind) (file_path dir id kind) content files,
        text_eq_refl (file_path dir id kind),
      )
      refl

-- After a message of somebody else whose media the client could download and the disk took, a request for the
-- media of that message under its id and kind is answered with what was downloaded, under the type of its
-- kind, as long as the id has no slash.
pub cache_incoming-served :
    (w : Directory) (d : Fetch) (e : MessageEvent) (md : MediaRef) (dl : Downloadable)
    (content : Text) (files : Dict Text)
    → HasNoSlash e.id
    → (message_of w e).from_me ≡ false
    → (message_of w e).media ≡ some md
    → media_downloadable e.payload ≡ some dl
    → d.download dl ≡ ok content
    → d.disk ≡ ok tt
    → serve_media d.dir (e.id ++ (bytes "/" ++ md.kind)) (cache_incoming w d e files)
      ≡ file (media_mime md.kind) content
unfolding serve_media
cache_incoming-served w d e md dl content files s f m p c k =
    rw
      (
        split_slash-pair e.id md.kind s (rw m at (message_of-PlainKind w e)),
        cache_incoming-kept w d e md dl content files f m p c,
        k,
      )
      (rw (get-put_same d.dir e.id md.kind content files) refl)
