-- ===== src/Media.antt =====
-- server-go/media.go and the handler `media` of server-go/web.go: the cache of media files. The
-- disk is a map from paths to the bytes of the files, and what the disk answers is an argument.
pub mod Files
pub mod Incoming
use what_is_it.Prelude.{
  ℕ, ◌==◌, Text, bytes, text_eq, is_empty, List, [], ◌∷◌, ◌++◌, Option, none, some, Bool, true,
  false, ◌||◌, if◌then◌else◌, Dict, lookup, insert,
}
use what_is_it.Calls.{Answer, ok, err}

unfoldable pub media_ext : Text → Text
media_ext kind =
    if text_eq kind (bytes "image")
    then bytes "img"
    else if text_eq kind (bytes "video")
    then bytes "vid"
    else if text_eq kind (bytes "audio") || text_eq kind (bytes "voice")
    then bytes "aud"
    else if text_eq kind (bytes "document")
    then bytes "doc"
    else if text_eq kind (bytes "sticker")
    then bytes "stk"
    else if text_eq kind (bytes "thumb")
    then bytes "thm"
    else bytes "bin"

unfoldable pub media_mime : Text → Text
media_mime kind =
    if text_eq kind (bytes "image")
    then bytes "image/jpeg"
    else if text_eq kind (bytes "video")
    then bytes "video/mp4"
    else if text_eq kind (bytes "audio") || text_eq kind (bytes "voice")
    then bytes "audio/ogg"
    else if text_eq kind (bytes "sticker")
    then bytes "image/webp"
    else if text_eq kind (bytes "thumb")
    then bytes "image/jpeg"
    else bytes "application/octet-stream"

abbrev pub add_byte : ℕ → List Text → List Text
add_byte c [] = (c ∷ []) ∷ []
add_byte c (part ∷ parts) = (c ∷ part) ∷ parts

-- `strings.Split(path, "/")`
unfoldable pub split_slash : Text → List Text
split_slash [] = [] ∷ []
split_slash (c ∷ cs) = let rest = split_slash cs in if c == 47 then [] ∷ rest else add_byte c rest

-- The rest is `filepath.Join` of a system whose paths have slashes: the parts of a path from the last
-- to the first, where ".." takes one away.
abbrev pub up : Bool → List Text → List Text
up true [] = []
up false [] = bytes ".." ∷ []
up rooted (part ∷ parts) = if text_eq part (bytes "..") then bytes ".." ∷ part ∷ parts else parts

unfoldable pub push_part : Bool → Text → List Text → List Text
push_part rooted part parts =
    if is_empty part || text_eq part (bytes ".")
    then parts
    else if text_eq part (bytes "..")
    then up rooted parts
    else part ∷ parts

abbrev pub push_parts : Bool → List Text → List Text → List Text
push_parts rooted [] parts = parts
push_parts rooted (p ∷ ps) parts = push_parts rooted ps (push_part rooted p parts)

abbrev pub join_parts : List Text → Text
join_parts [] = []
join_parts (p ∷ []) = p
join_parts (p ∷ q ∷ ps) = join_parts (q ∷ ps) ++ (bytes "/" ++ p)

abbrev pub is_rooted : Text → Bool
is_rooted [] = false
is_rooted (c ∷ cs) = c == 47

abbrev pub rooted_text : Bool → List Text → Text
rooted_text true parts = bytes "/" ++ join_parts parts
rooted_text false [] = bytes "."
rooted_text false (p ∷ ps) = join_parts (p ∷ ps)

-- `filepath.Clean`
unfoldable pub clean : Text → Text
unfolding split_slash push_part
clean path = rooted_text (is_rooted path) (push_parts (is_rooted path) (split_slash path) [])

-- `filepath.Join`, of a name that is not empty.
unfoldable pub join : (dir name : Text) → Text
unfolding clean
join [] name = clean name
join (c ∷ cs) name = clean ((c ∷ cs) ++ (bytes "/" ++ name))

unfoldable pub file_name : Text → Text → Text
unfolding media_ext
file_name id kind = id ++ (bytes "." ++ media_ext kind)

-- `path`, for the directory of the cache.
unfoldable pub file_path : (dir id kind : Text) → Text
unfolding file_name join
file_path dir id kind = join dir (file_name id kind)

-- `Put`, when the disk answers `disk`.
unfoldable pub put :
    (dir : Text)
    → Answer (Unit {0})
    → Text
    → Text
    → Text
    → Dict Text
    → Answer (Unit {0}) × Dict Text
unfolding file_path
put dir (err e) id kind content files = (err e, files)
put dir (ok _) id kind content files = (ok tt, insert (file_path dir id kind) content files)

unfoldable pub get : (dir : Text) → Text → Text → Dict Text → Option Text
unfolding file_path
get dir id kind files = lookup (file_path dir id kind) files

-- What the handler answers: the content type and the bytes, or a status.
pub data Served : Type 0 where
  file : (mime content : Text) → Served
  bad_path : Served
  not_found : Served

abbrev serve_file : Text → Option Text → Served
serve_file kind none = not_found
serve_file kind (some content) = file (media_mime kind) content

-- The test of `len(parts)`, with the two parts.
abbrev pub id_and_kind : List Text → Option (Text × Text)
id_and_kind (id ∷ kind ∷ []) = some (id, kind)
id_and_kind _ = none

abbrev pub serve_parts : (dir : Text) → Option (Text × Text) → Dict Text → Served
serve_parts dir none files = bad_path
serve_parts dir (some (id, kind)) files = serve_file kind (get dir id kind files)

-- `media`, for the path after "/media/".
unfoldable pub serve_media : (dir path : Text) → Dict Text → Served
unfolding split_slash get media_mime
serve_media dir path files = serve_parts dir (id_and_kind (split_slash path)) files
