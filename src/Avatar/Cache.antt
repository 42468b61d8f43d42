-- ===== src/Avatar/Cache.antt =====
-- server-go/avatar.go: what the cache of profile pictures keeps, and what a request finds in it.
use what_is_it.Prelude.{
  ℕ, Text, bytes, is_empty, text_eq, text_eq_iff, text_eq_refl, [], ◌∷◌, ◌++◌, none, some, true,
  false, ◌≡◌, refl, arith, inl, inr, Bool-cases, if◌then◌else◌, Dict, lookup-insert, length,
  length-append, ap,
}
use what_is_it.Calls.{Answer, ok, err}
use what_is_it.Whatsapp.{Jid}
use what_is_it.Avatar.{
  World, Picture, day, is_older, slug, picture_name, get_picture, put_picture, avatar, image,
  avatar_url, fetch_picture, refetched, fetched,
}

append_same : (s t u : Text) → s ++ u ≡ t ++ u → length s ≡ length t → s ≡ t
append_same [] [] u e h = refl
append_same [] (b ∷ t) u e h = ground arith
append_same (a ∷ s) [] u e h = ground arith
append_same (a ∷ s) (b ∷ t) u e h = ground (arith, append_same s t u)

picture_name-apart : (jid jid' : Text) → picture_name jid ≡ picture_name jid' → slug jid ≡ slug jid'
unfolding picture_name
picture_name-apart jid jid' e = append_same (slug jid) (slug jid') (bytes ".jpg") e (
    ground (
      arith,
      ap length e,
      length-append (slug jid) (bytes ".jpg"),
      length-append (slug jid') (bytes ".jpg"),
    ))

picture_name-same : (jid jid' : Text) → slug jid ≡ slug jid' → picture_name jid ≡ picture_name jid'
unfolding picture_name
picture_name-same jid jid' e = rw e refl

-- After a put on a disk that takes and gives files, the cache has the picture for every JID with the same
-- name of its file until it is older than the time to live, and for any other JID what it had.
pub get_picture-put_picture :
    (w w' : World) (jid content jid' : Text) (ttl : ℕ) (files : Dict Picture)
    → w.disk_takes ≡ true
    → w'.disk_gives ≡ true
    → get_picture w' jid' ttl (put_picture w jid content files) ≡ (
        if text_eq (slug jid) (slug jid')
        then (if is_older ttl w'.now w.now then none else some content)
        else get_picture w' jid' ttl files)
unfolding get_picture put_picture
get_picture-put_picture w w' jid content jid' ttl files t g = ground (
  arith,
  lookup-insert (picture_name jid) (picture_name jid')
      (record { written = w.now; content = content }) files,
  text_eq_iff (slug jid) (slug jid'),
  text_eq_iff (picture_name jid) (picture_name jid'),
  picture_name-apart jid jid',
  picture_name-same jid jid',
)

refetched-image :
    (w : World) (chat : Text) (jid : Jid) (files : Dict Picture) (content : Text)
    → (refetched w chat jid files).0 ≡ image content
    → (refetched w chat jid files).1 ≡ put_picture w chat content files
refetched-image w chat jid files content = elim (Bool-cases (is_empty (avatar_url w.client jid))) [
  | inl e ↦ rw e (λ h. absurd (ground arith))
  | inr e ↦ rw e (fetched-image (fetch_picture w (avatar_url w.client jid)))
]
  where
    fetched-image :
        (a : Answer Text)
        → (fetched w chat a files).0 ≡ image content
        → (fetched w chat a files).1 ≡ put_picture w chat content files
    fetched-image (err e) h = absurd (ground arith)
    fetched-image (ok []) h = absurd (ground arith)
    fetched-image (ok (c ∷ cs)) h = ground arith

get_picture-again :
    (w w' : World) (chat content : Text) (files : Dict Picture)
    → w.disk_takes ≡ true
    → w'.disk_gives ≡ true
    → is_older day w'.now w.now ≡ false
    → get_picture w' chat day (put_picture w chat content files) ≡ some content
get_picture-again w w' chat content files t g o =
    ground (
      arith,
      get_picture-put_picture w w' chat content chat day files t g,
      text_eq_refl (slug chat),
    )

avatar-hit :
    (w : World) (chat content : Text) (jid : Jid) (files : Dict Picture)
    → is_empty chat ≡ false
    → w.parse_jid chat ≡ ok jid
    → get_picture w chat day files ≡ some content
    → avatar w chat files ≡ (image content, files)
unfolding avatar
avatar-hit w chat content jid files n p h = rw (n, avatar) (rw p (rw h refl))

avatar-miss :
    (w : World) (chat : Text) (jid : Jid) (files : Dict Picture)
    → is_empty chat ≡ false
    → w.parse_jid chat ≡ ok jid
    → get_picture w chat day files ≡ none
    → avatar w chat files ≡ refetched w chat jid files
unfolding avatar
avatar-miss w chat jid files n p h = rw (n, avatar) (rw p (rw h refl))

-- A picture that a request had to fetch, on a disk that takes and gives files, is answered to every request
-- for that chat within a day after, whatever the client and the network answer by then, and the cache stays
-- as it is.
pub avatar_again :
    (w w' : World) (chat content : Text) (jid : Jid) (files : Dict Picture)
    → w.disk_takes ≡ true
    → w'.disk_gives ≡ true
    → is_empty chat ≡ false
    → w.parse_jid chat ≡ ok jid
    → w'.parse_jid chat ≡ ok jid
    → get_picture w chat day files ≡ none
    → (avatar w chat files).0 ≡ image content
    → is_older day w'.now w.now ≡ false
    → avatar w' chat (avatar w chat files).1 ≡ (image content, (avatar w chat files).1)
avatar_again w w' chat content jid files t g n p p' miss shown o =
    let fetch = avatar-miss w chat jid files n p miss in
    rw fetch (
      rw (refetched-image w chat jid files content (cc)) (
        avatar-hit w' chat content jid (put_picture w chat content files) n p'
          (get_picture-again w w' chat content files t g o)))
