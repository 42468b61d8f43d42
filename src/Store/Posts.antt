-- ===== src/Store/Posts.antt =====
-- server-go/store.go: the status updates of a history sync, which arrive in any order.
use what_is_it.Prelude.{
  ℤ, Text, text_eq, text_eq_iff, is_empty, List, [], ◌∷◌, some, false, ◌≡◌, inl, inr, arith,
  Bool-cases, Option-cases, All, lookup, lookup-insert, ltb_ℤ, ltb_ℤ-neg_trans, ltb_ℤ-asym,
}
use what_is_it.Wire.{StatusEntry}
use what_is_it.Store.{HistoryStore, has_newer, add_status_if_newer}

-- The posts of a sync, one after the other.
unfoldable pub add_posts : List StatusEntry → HistoryStore → HistoryStore
add_posts [] s = s
add_posts (e ∷ es) s = add_posts es (add_status_if_newer e s)

-- The store has an update of the sender that is not older than the time.
abbrev pub HasPost : Text → ℤ → HistoryStore → Type 0
HasPost sender time s =
    (cur : StatusEntry) × (lookup sender s.statuses ≡ some cur) × (ltb_ℤ cur.time time ≡ false)

ltb_ℤ-irrefl : (a : ℤ) → ltb_ℤ a a ≡ false
ltb_ℤ-irrefl a = ground arith

-- A newer update replaces one, and an older one does not.
add_status_if_newer-HasPost :
    (e : StatusEntry) (sender : Text) (time : ℤ) (s : HistoryStore)
    → HasPost sender time s
    → HasPost sender time (add_status_if_newer e s)
unfolding add_status_if_newer has_newer
add_status_if_newer-HasPost e sender time s (cur, h, n) =
    elim (Bool-cases (text_eq e.sender sender)) [
      | inl same ↦ elim (Bool-cases (ltb_ℤ cur.time e.time)) [
        | inl newer ↦ elim (Bool-cases (is_empty e.sender)) [
          | inl b ↦ rw b (cur, h, n)
          | inr b ↦ (
            e,
            ground (arith, text_eq_iff e.sender sender, lookup-insert e.sender sender e s.statuses),
            ltb_ℤ-neg_trans time cur.time e.time n (ltb_ℤ-asym cur.time e.time newer),
          )
        ]
        | inr older ↦ (
          cur,
          ground (arith, text_eq_iff e.sender sender, lookup-insert e.sender sender e s.statuses),
          n,
        )
      ]
      | inr other ↦ (cur, ground (arith, lookup-insert e.sender sender e s.statuses), n)
    ]

arrived-HasPost :
    (e : StatusEntry) (s : HistoryStore)
    → is_empty e.sender ≡ false
    → HasPost e.sender e.time (add_status_if_newer e s)
unfolding add_status_if_newer has_newer
arrived-HasPost e s b = elim (Option-cases (lookup e.sender s.statuses)) [
  | inl h ↦ (
    e,
    ground (arith, text_eq_iff e.sender e.sender, lookup-insert e.sender e.sender e s.statuses),
    ltb_ℤ-irrefl e.time,
  )
  | inr (cur, h) ↦ elim (Bool-cases (ltb_ℤ cur.time e.time)) [
    | inl newer ↦ (
      e,
      ground (arith, text_eq_iff e.sender e.sender, lookup-insert e.sender e.sender e s.statuses),
      ltb_ℤ-irrefl e.time,
    )
    | inr older ↦ (cur, ground arith, older)
  ]
]

add_posts-HasPost :
    (es : List StatusEntry) (sender : Text) (time : ℤ) (s : HistoryStore)
    → HasPost sender time s
    → HasPost sender time (add_posts es s)
unfolding add_posts
add_posts-HasPost [] sender time s h = h
add_posts-HasPost (e ∷ es) sender time s h =
    add_posts-HasPost es sender time (add_status_if_newer e s)
      (add_status_if_newer-HasPost e sender time s h)

-- After the posts of a sync, in whatever order they come, the update that the store has of each
-- sender is not older than any of its posts (posts without a sender aside), nor than the one it had before.
pub add_posts-newest :
    (es : List StatusEntry) (s : HistoryStore)
    → All (λ e. is_empty e.sender ≡ false → HasPost e.sender e.time (add_posts es s)) es
      × ((sender : Text) (cur : StatusEntry)
          → lookup sender s.statuses ≡ some cur
          → HasPost sender cur.time (add_posts es s))
unfolding add_posts
add_posts-newest [] s = (tt, λ sender cur h. (cur, h, ltb_ℤ-irrefl cur.time))
add_posts-newest (e ∷ es) s = (
  (
    (λ b. add_posts-HasPost es e.sender e.time (add_status_if_newer e s) (arrived-HasPost e s b)),
    (add_posts-newest es (add_status_if_newer e s)).0,
  ),
  λ sender cur h. add_posts-HasPost (e ∷ es) sender cur.time s (cur, h, ltb_ℤ-irrefl cur.time),
)
