-- ===== src/Media/Files.antt =====
-- server-go/media.go: what the cache keeps under which name, and which names requests can reach.
use what_is_it.Prelude.{
  ℕ, ltb, ◌==◌, Text, bytes, text_eq, text_eq_iff, List, [], ◌∷◌, ◌++◌, some, true, false, ◌≡◌,
  refl, ap, arith, inl, inr, Bool-cases, if◌then◌else◌, Dict, lookup-insert, All, length,
  length-append, ◌&&◌, sym, Bool, lookup,
}
use mathlib.Core.List.{append_assoc}
use what_is_it.Calls.{ok}
use what_is_it.Media.{
  media_ext, file_name, put, get, split_slash, add_byte, id_and_kind, file_path, join, clean,
  join_parts, push_part, push_parts, is_rooted, rooted_text, serve_parts, serve_media,
}

length-media_ext : (kind : Text) → length (media_ext kind) ≡ 3
unfolding media_ext
length-media_ext kind = ground arith

-- Two texts with tails of one length are equal only in both parts.
append_split : (xs ys s t : Text) → length s ≡ length t → xs ++ s ≡ ys ++ t → (xs ≡ ys) × (s ≡ t)
append_split [] [] s t h e = (refl, e)
append_split [] (y ∷ ys) s t h e = ground (arith, ap length e, length-append (y ∷ ys) t)
append_split (x ∷ xs) [] s t h e = ground (arith, ap length e, length-append (x ∷ xs) s)
append_split (x ∷ xs) (y ∷ ys) s t h e = ground (arith, append_split xs ys s t h)

file_name-apart :
    (id id' kind kind' : Text)
    → file_name id kind ≡ file_name id' kind'
    → (id ≡ id') × (media_ext kind ≡ media_ext kind')
unfolding file_name
file_name-apart id id' kind kind' e = ground (
  arith,
  length-media_ext kind,
  length-media_ext kind',
  append_split id id' (bytes "." ++ media_ext kind) (bytes "." ++ media_ext kind'),
)

same_name :
    (id id' kind kind' : Text)
    → id ≡ id'
    → media_ext kind ≡ media_ext kind'
    → file_name id kind ≡ file_name id' kind'
unfolding file_name
same_name id id' kind kind' e h = rw (e, h) refl

-- No byte is a slash.
abbrev pub HasNoSlash : Text → Type 0
HasNoSlash = All (λ c. (c == 47) ≡ false)

added :
    (c : ℕ) (parts : List Text)
    → (c == 47) ≡ false
    → All HasNoSlash parts
    → All HasNoSlash (add_byte c parts)
added c [] e h = ((e, tt), tt)
added c (part ∷ parts) e h = ((e, h.0), h.1)

split_slash-HasNoSlash : (path : Text) → All HasNoSlash (split_slash path)
unfolding split_slash
split_slash-HasNoSlash [] = (tt, tt)
split_slash-HasNoSlash (c ∷ cs) = elim (Bool-cases (c == 47)) [
  | inl e ↦ rw e (tt, split_slash-HasNoSlash cs)
  | inr e ↦ rw e (added c (split_slash cs) e (split_slash-HasNoSlash cs))
]

append-HasNoSlash : (s t : Text) → HasNoSlash s → HasNoSlash t → HasNoSlash (s ++ t)
append-HasNoSlash [] t h k = k
append-HasNoSlash (c ∷ s) t h k = (h.0, append-HasNoSlash s t h.1 k)

media_ext-HasNoSlash : (kind : Text) → HasNoSlash (bytes "." ++ media_ext kind)
unfolding media_ext
media_ext-HasNoSlash kind = ground arith

-- What stands before the names of the files directly in a directory.
abbrev before : List Text → Text
before [] = []
before (p ∷ ps) = join_parts (p ∷ ps) ++ bytes "/"

abbrev pub folder : Text → Text
folder [] = []
folder (c ∷ cs) =
    (if c == 47 then bytes "/" else []) ++ before (push_parts (c == 47) (split_slash (c ∷ cs)) [])

join_parts-before : (p : Text) (ps : List Text) → join_parts (p ∷ ps) ≡ before ps ++ p
join_parts-before p [] = refl
join_parts-before p (q ∷ ps) = sym (append_assoc (join_parts (q ∷ ps)) (bytes "/") p)

push_parts-append :
    (rooted : Bool) (ps : List Text) (p : Text) (parts : List Text)
    → push_parts rooted (ps ++ (p ∷ [])) parts ≡ push_part rooted p (push_parts rooted ps parts)
push_parts-append rooted [] p parts = refl
push_parts-append rooted (q ∷ ps) p parts = push_parts-append rooted ps p (push_part rooted q parts)

long-NotDots :
    (a b c d : ℕ) (p : Text)
    → (text_eq (a ∷ b ∷ c ∷ d ∷ p) (bytes ".") ≡ false)
      × (text_eq (a ∷ b ∷ c ∷ d ∷ p) (bytes "..") ≡ false)
unfolding text_eq
long-NotDots a b c d p = (ground arith, ground arith)

push_part-long :
    (rooted : Bool) (p : Text) (parts : List Text)
    → ltb 3 (length p) ≡ true
    → push_part rooted p parts ≡ p ∷ parts
unfolding push_part
push_part-long rooted (a ∷ b ∷ c ∷ []) parts h = ground arith
push_part-long rooted (a ∷ b ∷ c ∷ d ∷ p) parts h =
    rw ((long-NotDots a b c d p).0, (long-NotDots a b c d p).1) refl
push_part-long rooted [] parts h = ground arith
push_part-long rooted (a ∷ []) parts h = ground arith
push_part-long rooted (a ∷ b ∷ []) parts h = ground arith

split_slash-cons : (s : Text) → (p : Text) × (ps : List Text) × (split_slash s ≡ p ∷ ps)
unfolding split_slash
split_slash-cons [] = ([], [], refl)
split_slash-cons (c ∷ cs) = elim (Bool-cases (c == 47)) [
  | inl e ↦ ([], split_slash cs, rw e refl)
  | inr e ↦ let (p, ps, h) = split_slash-cons cs in (c ∷ p, ps, rw (e, h) refl)
]

pub split_slash-whole : (s : Text) → HasNoSlash s → split_slash s ≡ s ∷ []
unfolding split_slash
split_slash-whole [] h = refl
split_slash-whole (c ∷ cs) h = rw (split_slash-whole cs h.1, h.0) refl

split_slash-append :
    (s t : Text) → HasNoSlash t → split_slash (s ++ (bytes "/" ++ t)) ≡ split_slash s ++ (t ∷ [])
unfolding split_slash
split_slash-append [] t k = rw (split_slash-whole t k) refl
split_slash-append (c ∷ cs) t k = elim (Bool-cases (c == 47)) [
  | inl e ↦ rw (e, split_slash-append cs t k) refl
  | inr e ↦ let (p, ps, h) = split_slash-cons cs in rw (e, split_slash-append cs t k, h) refl
]

rooted_text-before :
    (rooted : Bool) (p : Text) (ps : List Text)
    → rooted_text rooted (p ∷ ps) ≡ (if rooted then bytes "/" else []) ++ (before ps ++ p)
rooted_text-before true p ps = ap (λ t. bytes "/" ++ t) (join_parts-before p ps)
rooted_text-before false p ps = join_parts-before p ps

is_rooted-HasNoSlash : (s : Text) → HasNoSlash s → is_rooted s ≡ false
is_rooted-HasNoSlash [] h = refl
is_rooted-HasNoSlash (c ∷ cs) h = h.0

join-folder :
    (dir name : Text)
    → HasNoSlash name
    → ltb 3 (length name) ≡ true
    → join dir name ≡ folder dir ++ name
unfolding join clean
join-folder [] name h k =
    rw (is_rooted-HasNoSlash name h, split_slash-whole name h)
      (rw (push_part-long false name [] k) refl)
join-folder (c ∷ cs) name h k =
    rw
      (
        split_slash-append (c ∷ cs) name h,
        push_parts-append (c == 47) (split_slash (c ∷ cs)) name [],
        push_part-long (c == 47) name (push_parts (c == 47) (split_slash (c ∷ cs)) []) k,
        rooted_text-before (c == 47) name (push_parts (c == 47) (split_slash (c ∷ cs)) []),
      )
      (sym (
        append_assoc (if c == 47 then bytes "/" else [])
          (before (push_parts (c == 47) (split_slash (c ∷ cs)) [])) name))

file_name-HasNoSlash : (id kind : Text) → HasNoSlash id → HasNoSlash (file_name id kind)
unfolding file_name
file_name-HasNoSlash id kind h =
    append-HasNoSlash id (bytes "." ++ media_ext kind) h (media_ext-HasNoSlash kind)

file_name-long : (id kind : Text) → ltb 3 (length (file_name id kind)) ≡ true
unfolding file_name
file_name-long id kind =
    ground (arith, length-append id (bytes "." ++ media_ext kind), length-media_ext kind)

file_path-folder :
    (dir id kind : Text) → HasNoSlash id → file_path dir id kind ≡ folder dir ++ file_name id kind
unfolding file_path
file_path-folder dir id kind h =
    join-folder dir (file_name id kind) (file_name-HasNoSlash id kind h) (file_name-long id kind)

same_start : (s t u : Text) → s ++ t ≡ s ++ u → t ≡ u
same_start [] t u e = e
same_start (c ∷ cs) t u e = ground (arith, same_start cs t u)

file_path-apart :
    (dir id id' kind kind' : Text)
    → HasNoSlash id
    → HasNoSlash id'
    → file_path dir id kind ≡ file_path dir id' kind'
    → (id ≡ id') × (media_ext kind ≡ media_ext kind')
file_path-apart dir id id' kind kind' h k e = file_name-apart id id' kind kind' (
    same_start (folder dir) (file_name id kind) (file_name id' kind')
      (rw (file_path-folder dir id kind h, file_path-folder dir id' kind' k) at e))

same_path :
    (dir id id' kind kind' : Text)
    → id ≡ id'
    → media_ext kind ≡ media_ext kind'
    → file_path dir id kind ≡ file_path dir id' kind'
unfolding file_path
same_path dir id id' kind kind' e h = ap (join dir) (same_name id id' kind kind' e h)

-- After a `Put` that the disk took, under an id without a slash, the cache has the data under that id for
-- every kind with the same extension, and for any other id without a slash or any other extension what it had.
pub get-put :
    (dir id kind content id' kind' : Text) (files : Dict Text)
    → HasNoSlash id
    → HasNoSlash id'
    → get dir id' kind' (put dir (ok tt) id kind content files).1 ≡ (
        if text_eq id id' && text_eq (media_ext kind) (media_ext kind')
        then some content
        else get dir id' kind' files)
unfolding get put
get-put dir id kind content id' kind' files h k = ground (
  arith,
  lookup-insert (file_path dir id kind) (file_path dir id' kind') content files,
  text_eq_iff id id',
  text_eq_iff (media_ext kind) (media_ext kind'),
  text_eq_iff (file_path dir id kind) (file_path dir id' kind'),
  file_path-apart dir id id' kind kind' h k,
  same_path dir id id' kind kind',
)

-- Two disks with the same files directly in a directory, under names that are neither "." nor "..".
abbrev pub SameFolder : Text → Dict Text → Dict Text → Type 0
SameFolder dir files files' =
    (name : Text)
    → HasNoSlash name
    → ltb 3 (length name) ≡ true
    → lookup (folder dir ++ name) files ≡ lookup (folder dir ++ name) files'

serve_parts-SameFolder :
    (dir : Text) (files files' : Dict Text) (parts : List Text)
    → SameFolder dir files files'
    → All HasNoSlash parts
    → serve_parts dir (id_and_kind parts) files ≡ serve_parts dir (id_and_kind parts) files'
unfolding get
serve_parts-SameFolder dir files files' (i ∷ k ∷ []) same h =
    rw
      (
        file_path-folder dir i k h.0,
        same (file_name i k) (file_name-HasNoSlash i k h.0) (file_name-long i k),
      )
      refl
serve_parts-SameFolder dir files files' [] same h = refl
serve_parts-SameFolder dir files files' (i ∷ []) same h = refl
serve_parts-SameFolder dir files files' (i ∷ k ∷ j ∷ more) same h = refl

-- What a request for media is answered depends, whatever its path, only on the files that stand directly in
-- the directory of the cache: no path reaches a file elsewhere on the disk.
pub serve_media-SameFolder :
    (dir path : Text) (files files' : Dict Text)
    → SameFolder dir files files'
    → serve_media dir path files ≡ serve_media dir path files'
unfolding serve_media
serve_media-SameFolder dir path files files' same =
    serve_parts-SameFolder dir files files' (split_slash path) same (split_slash-HasNoSlash path)
