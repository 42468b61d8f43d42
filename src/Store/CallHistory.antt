-- ===== src/Store/CallHistory.antt =====
-- server-go/store.go, `AddCall` and `MarkCallAnswered`: what is found of a call afterwards.
use mathlib.Core.Option
use what_is_it.Prelude.{
  ◌-◌, ltb, Text, text_eq_refl, is_empty, List, [], ◌∷◌, ◌++◌, Option, some, Bool, true, false, ◌≡◌,
  ap, ◌∙◌, inl, inr, arith, Bool-cases, Option-cases, All, All-drop, length, length-append, drop,
  drop-append, keep_last, find_first, find_first-none, find_first-update_first_self,
  update_first-found, update_first-absent,
}
use what_is_it.Wire.{CallRecord}
use what_is_it.Store.{
  HistoryStore, max_calls, call_has_id, add_call_to, add_call, mark_call_answered,
}

abbrev pub find_call : Text → HistoryStore → Option CallRecord
find_call id s = find_first (call_has_id id) s.calls

find_first-last {ℓ} :
    {A : Type ℓ} (test : A → Bool) (xs : List A) (y : A)
    → All (λ x. test x ≡ false) xs
    → test y ≡ true
    → find_first test (xs ++ y ∷ []) ≡ some y
unfolding find_first
find_first-last test [] y h e = rw e
find_first-last test (x ∷ xs) y h e = rw h.0 (find_first-last test xs y h.1 e)

-- A bounded slice keeps at least the element that was appended.
find_first-keep_last :
    (test : CallRecord → Bool) (xs : List CallRecord) (y : CallRecord)
    → All (λ x. test x ≡ false) xs
    → test y ≡ true
    → find_first test (keep_last max_calls (xs ++ y ∷ [])) ≡ some y
unfolding keep_last
find_first-keep_last test xs y h e = elim (Bool-cases (ltb max_calls (length (xs ++ y ∷ [])))) [
  | inl cut ↦
      rw
        (
          cut,
          drop-append (length (xs ++ y ∷ []) - max_calls) xs (y ∷ [])
              (omega (arith, length-append xs (y ∷ []))),
        )
        (find_first-last test (drop (length (xs ++ y ∷ []) - max_calls) xs) y
          (All-drop (λ x. test x ≡ false) (length (xs ++ y ∷ []) - max_calls) xs h) e)
  | inr all ↦ rw all (find_first-last test xs y h e)
]

find_first-add_call_to :
    (rec : CallRecord) (calls : List CallRecord)
    → find_first (call_has_id rec.id) (add_call_to rec calls) ≡ some rec
unfolding add_call_to
find_first-add_call_to rec calls = elim (Option-cases (find_first (call_has_id rec.id) calls)) [
  | inl e ↦
      rw
        (update_first-absent (call_has_id rec.id) (λ _. rec) calls
          (find_first-none (call_has_id rec.id) calls e))
        (find_first-keep_last (call_has_id rec.id) calls rec
          (find_first-none (call_has_id rec.id) calls e) (text_eq_refl rec.id))
  | inr (old, e) ↦
      let (new, u) = update_first-found (call_has_id rec.id) (λ _. rec) calls e in
      rw u (
        rw u at (
          find_first-update_first_self (call_has_id rec.id) (λ _. rec) (λ x _. text_eq_refl rec.id)
            calls)
        ∙ ap (Option.map (λ _. rec)) e)
]

-- A recorded call is found under its id with what was recorded last, also when the history is full.
pub find_call-add_call :
    (rec : CallRecord) (s : HistoryStore)
    → is_empty rec.id ≡ false
    → find_call rec.id (add_call rec s) ≡ some rec
unfolding add_call
find_call-add_call rec s h = rw h (find_first-add_call_to rec s.calls)

-- Answering a recorded call clears its missed flag and nothing else of it.
pub find_call-mark_call_answered :
    (id : Text) (rec : CallRecord) (s : HistoryStore)
    → find_call id s ≡ some rec
    → find_call id (mark_call_answered id s) ≡ some (record rec { missed = false })
unfolding mark_call_answered
find_call-mark_call_answered id rec s e =
    let (new, u) =
      update_first-found (call_has_id id) (λ c. record c { missed = false }) s.calls e in
    rw (u, mark_call_answered)
      (rw u at (
          find_first-update_first_self (call_has_id id) (λ c. record c { missed = false })
            (λ x h. h) s.calls)
        ∙ ap (Option.map (λ (c : CallRecord). record c { missed = false })) e)
