-- ===== src/Whatsapp/Extract.antt =====
-- server-go/extract.go and the extraction of server-go/history.go: text, reply and media of a message.
use what_is_it.Prelude.{Text, bytes, is_empty, [], ◌∷◌, Option, none, some, if◌then◌else◌}
use what_is_it.Wire.{Message, MediaRef}
use what_is_it.Whatsapp.{
  Payload, ExtendedText, ImageMessage, VideoMessage, AudioMessage, DocumentMessage, StickerMessage,
}

abbrev media : Text → Text → Text → Text → Text → MediaRef
media kind url thumb caption mime = record {
  kind = kind;
  url = url;
  thumb_url = thumb;
  caption = caption;
  mime = mime;
}

abbrev or_sticker : Option StickerMessage → Option MediaRef
or_sticker none = none
or_sticker (some s) = some (media (bytes "sticker") s.url [] [] s.mimetype)

abbrev or_document : Option DocumentMessage → Option MediaRef → Option MediaRef
or_document none rest = rest
or_document (some d) rest = some (media (bytes "document") d.url [] d.caption d.mimetype)

abbrev or_audio : Option AudioMessage → Option MediaRef → Option MediaRef
or_audio none rest = rest
or_audio (some a) rest =
    some (media (if a.ptt then bytes "voice" else bytes "audio") a.url [] [] a.mimetype)

abbrev or_video : Option VideoMessage → Option MediaRef → Option MediaRef
or_video none rest = rest
or_video (some v) rest = some (media (bytes "video") v.url [] v.caption v.mimetype)

-- With no thumbnail at all the path of the thumbnail is empty, so both branches read it.
abbrev or_image : Option ImageMessage → Option MediaRef → Option MediaRef
or_image none rest = rest
or_image (some i) rest = some (media (bytes "image") i.url i.thumbnail_path i.caption i.mimetype)

-- The cases of the `switch`, the first that is there.
unfoldable pub media_from_message : Payload → Option MediaRef
media_from_message m =
    or_image m.image
      (or_video m.video (or_audio m.audio (or_document m.document (or_sticker m.sticker))))

abbrev reply_of : Option Text → Text
reply_of none = []
reply_of (some id) = id

-- `extractMessage` after the tests of the conversation and of the extended text.
abbrev pub extract_media : Option MediaRef → Option Text → Message → Message
extract_media (some md) reaction msg = record msg { media = some md; text = md.caption }
extract_media none (some emoji) msg = record msg { reactions = emoji ∷ [] }
extract_media none none msg = msg

abbrev pub extract_extended : Option ExtendedText → Payload → Message → Message
extract_extended (some ext) m msg = record msg {
  text = ext.text;
  reply_to = elim ext.stanza_id [ none ↦ msg.reply_to | some id ↦ id ];
}
extract_extended none m msg = extract_media (media_from_message m) m.reaction msg

unfoldable pub extract_message : Payload → Message → Message
unfolding media_from_message
extract_message m msg =
    if is_empty m.conversation
    then extract_extended m.extended m msg
    else record msg { text = m.conversation }

-- What `extractWebFields` returns.
pub record WebFields : Type 0 where
  pub text : Text
  pub reply_to : Text
  pub media : Option MediaRef

abbrev web_media : Option MediaRef → WebFields
web_media none = record { text = []; reply_to = []; media = none }
web_media (some md) = record { text = md.caption; reply_to = []; media = some md }

abbrev web_extended : Option ExtendedText → Payload → WebFields
web_extended (some ext) m = record {
  text = ext.text;
  reply_to = reply_of ext.stanza_id;
  media = none;
}
web_extended none m = web_media (media_from_message m)

unfoldable pub extract_web_fields : Payload → WebFields
unfolding media_from_message
extract_web_fields m =
    if is_empty m.conversation
    then web_extended m.extended m
    else record { text = m.conversation; reply_to = []; media = none }
