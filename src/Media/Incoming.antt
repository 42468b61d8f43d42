-- ===== src/Media/Incoming.antt =====
-- server-go/client.go, `cacheIncomingMedia`, and `mediaDownloadable` of server-go/extract.go: the media of a
-- message that arrives goes into the cache.
pub mod Served
use what_is_it.Prelude.{Text, Option, none, some, Bool, true, false, if◌then◌else◌, Dict}
use what_is_it.Wire.{Message, MediaRef}
use what_is_it.Calls.{Answer, ok, err}
use what_is_it.Whatsapp.{
  Payload, Directory, ImageMessage, VideoMessage, AudioMessage, DocumentMessage, StickerMessage,
}
use what_is_it.Whatsapp.Session.{MessageEvent, message_of}
use what_is_it.Media.{put}

-- `whatsmeow.DownloadableMessage`
pub data Downloadable : Type 0 where
  of_image : ImageMessage → Downloadable
  of_video : VideoMessage → Downloadable
  of_audio : AudioMessage → Downloadable
  of_document : DocumentMessage → Downloadable
  of_sticker : StickerMessage → Downloadable

abbrev first_of :
    {A : Type 0} → (A → Downloadable) → Option A → Option Downloadable → Option Downloadable
first_of f none rest = rest
first_of f (some a) rest = some (f a)

-- `mediaDownloadable`
unfoldable pub media_downloadable : Payload → Option Downloadable
media_downloadable m = first_of of_image m.image (
    first_of of_video m.video (
      first_of of_audio m.audio
        (first_of of_document m.document (first_of of_sticker m.sticker none))))

-- What the client and the disk answer.
pub record Fetch : Type 0 where
  pub download : Downloadable → Answer Text
  pub dir : Text
  pub disk : Answer (Unit {0})

-- What the goroutine does; a failure is only logged.
abbrev pub kept : Fetch → (id kind : Text) → Answer Text → Dict Text → Dict Text
kept d id kind (err e) files = files
kept d id kind (ok content) files = (put d.dir d.disk id kind content files).1

abbrev pub kept_media :
    Fetch → (id : Text) → Option MediaRef → Option Downloadable → Dict Text → Dict Text
kept_media d id (some md) (some dl) files = kept d id md.kind (d.download dl) files
kept_media d id _ _ files = files

-- The cache after a message, once its download is through.
unfoldable pub cache_incoming : Directory → Fetch → MessageEvent → Dict Text → Dict Text
unfolding media_downloadable message_of put
cache_incoming w d e files =
    let msg = message_of w e in
    if msg.from_me then files else kept_media d e.id msg.media (media_downloadable e.payload) files
