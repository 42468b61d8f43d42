-- ===== src/Whatsapp.antt =====
-- The values of the whatsmeow library that server-go reads: a record for each, with the fields that
-- the source asks for, and the library's functions as the fields of a `Directory`.
pub mod Extract
pub mod Session
pub mod History
pub mod Upkeep
use what_is_it.Prelude.{
  ℕ, ℤ, Text, bytes, is_empty, text_eq, List, [], ◌∷◌, Option, none, some, Bool, if◌then◌else◌,
}
use what_is_it.Calls.{Answer}

pub record Jid : Type 0 where
  pub user : Text
  pub server : Text

pub record Contact : Type 0 where
  pub full_name : Text
  pub push_name : Text
  pub first_name : Text
  pub business_name : Text

-- `types.ParseJID`, `JID.String` and the contact store of the client, where `none` is its error.
pub record Directory : Type 0 where
  pub parse_jid : Text → Answer Jid
  pub jid_text : Jid → Text
  pub contact : Jid → Option Contact

-- The values of the constants `types.DefaultUserServer`, `types.BroadcastServer` and
-- `types.StatusBroadcastJID.String()`.
abbrev pub default_user_server : Text
default_user_server = bytes "s.whatsapp.net"

abbrev pub broadcast_server : Text
broadcast_server = bytes "broadcast"

abbrev pub status_broadcast : Text
status_broadcast = bytes "status@broadcast"

pub record ImageMessage : Type 0 where
  pub url : Text
  pub thumbnail_path : Text
  pub caption : Text
  pub mimetype : Text

pub record VideoMessage : Type 0 where
  pub url : Text
  pub caption : Text
  pub mimetype : Text

pub record AudioMessage : Type 0 where
  pub ptt : Bool
  pub url : Text
  pub mimetype : Text

pub record DocumentMessage : Type 0 where
  pub url : Text
  pub caption : Text
  pub mimetype : Text

pub record StickerMessage : Type 0 where
  pub url : Text
  pub mimetype : Text

pub record ExtendedText : Type 0 where
  pub text : Text
  pub stanza_id : Option Text

-- `waE2E.Message`: a sub-message that is absent is `none`.
pub record Payload : Type 0 where
  pub conversation : Text
  pub extended : Option ExtendedText
  pub image : Option ImageMessage
  pub video : Option VideoMessage
  pub audio : Option AudioMessage
  pub document : Option DocumentMessage
  pub sticker : Option StickerMessage
  pub reaction : Option Text

abbrev first_named : List Text → Text → Text
first_named [] d = d
first_named (n ∷ ns) d = if is_empty n then first_named ns d else n

abbrev name_in : Option Contact → Text → Text
name_in none d = d
name_in (some c) d = first_named (c.full_name ∷ c.push_name ∷ c.first_name ∷ c.business_name ∷ []) d

-- `contactName` in server-go/client.go.
unfoldable pub contact_name : Directory → Jid → Text
contact_name w jid =
    if text_eq jid.server default_user_server then name_in (w.contact jid) jid.user else jid.user
