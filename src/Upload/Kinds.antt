-- ===== src/Upload/Kinds.antt =====
-- server-go/client.go: which file is sent as what, and what a sent file has passed.
use what_is_it.Prelude.{
  ◌==◌, Text, bytes, [], ◌∷◌, ◌++◌, Option, none, some, false, ◌≡◌, refl, All, take,
}
use what_is_it.Calls.{Answer, ok}
use what_is_it.Whatsapp.{Jid}
use what_is_it.Upload.{
  Uploaded, UploadClient, MediaForm, FormFile, after_dot, extension, to_lower, type_of,
  media_type_of, media_message, upload_limit,
}

-- No byte is a dot.
abbrev pub HasNoDot : Text → Type 0
HasNoDot = All (λ c. (c == 46) ≡ false)

after_dot-none : (s : Text) → HasNoDot s → after_dot s ≡ none
unfolding after_dot
after_dot-none [] h = refl
after_dot-none (c ∷ cs) h = rw (after_dot-none cs h.1) (rw h.0 refl)

after_dot-append :
    (stem ext : Text) → HasNoDot ext → after_dot (stem ++ (bytes "." ++ ext)) ≡ some ext
unfolding after_dot
after_dot-append [] ext h = rw (after_dot-none ext h) refl
after_dot-append (c ∷ cs) ext h = rw (after_dot-append cs ext h) refl

-- The type of a file is told by what follows the last dot of its name, in any case of letters, or by the
-- whole name where it has no dot.
pub media_type_of_lem :
    (stem ext : Text)
    → HasNoDot ext
    → (media_type_of (stem ++ (bytes "." ++ ext)) ≡ type_of (to_lower ext))
      × (media_type_of ext ≡ type_of (to_lower ext))
unfolding media_type_of extension
media_type_of_lem stem ext h =
    (rw (after_dot-append stem ext h) refl, rw (after_dot-none ext h) refl)

-- What an answer with the id of a message stands on.
abbrev pub Sent : (Text → Answer Jid) → Option UploadClient → Answer MediaForm → Text → Type 0
Sent parse_jid client form id =
    (c : UploadClient) × (f : MediaForm) × (file : FormFile) × (content : Text) × (jid : Jid)
    × (up : Uploaded) × (client ≡ some c)
    × (form ≡ ok f)
    × (f.file ≡ some file)
    × (file.content ≡ ok content)
    × (parse_jid f.chat ≡ ok jid)
    × (c.upload (take upload_limit content) (media_type_of file.name) ≡ ok up)
    × (c.send_message jid (media_message (media_type_of file.name) up file.name) ≡ ok id)
