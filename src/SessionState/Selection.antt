-- ===== src/SessionState/Selection.antt =====
-- The names in the selection of tools (src-tauri/src/core/state/session.rs).
use mosaic_desktop.Prelude.{
  ◌≡◌, inl, inr, refl, ap, sym, ◌∙◌, subst, Bool, true, false, ◌||◌, List, [], ◌∷◌, ◌++◌, String,
  str_eq, eq_iff, any, any-append, Bool-cases,
}
use mosaic_desktop.SessionState.{
  SessionState, StringSet, insert_set, extend, empty_set, or_nil, push_unseen,
  merge_mcp_tool_selection,
}

abbrev has : List String → String → Bool
has xs y = any (str_eq y) xs

-- No name stands twice.
unfoldable pub IsUnique : List String → Type 0
IsUnique [] = Unit
IsUnique (x ∷ xs) = (has xs x ≡ false) × IsUnique xs

str_eq_comm : (x y : String) → str_eq x y ≡ str_eq y x
str_eq_comm x y = elim (Bool-cases (str_eq x y)) [
  | inl same ↦ same ∙ sym ((eq_iff y x).1 (sym ((eq_iff x y).0 same)))
  | inr other ↦ elim (Bool-cases (str_eq y x)) [
    | inl same ↦ let back : str_eq x y ≡ true = (eq_iff x y).1 (sym ((eq_iff y x).0 same)) in cc
    | inr other' ↦ other ∙ sym other'
  ]
]

snoc-IsUnique :
    (xs : List String) (y : String) → has xs y ≡ false → IsUnique xs → IsUnique (xs ++ y ∷ [])
unfolding IsUnique
snoc-IsUnique [] y h u = (refl, tt)
snoc-IsUnique (x ∷ xs) y h u = elim (Bool-cases (str_eq y x)) [
  | inl same ↦ let twice : has (x ∷ xs) y ≡ true = rw same refl in cc
  | inr other ↦
      let behind : has xs y ≡ false = subst (λ b. (b || has xs y) ≡ false) other h in
      (
        rw (any-append (str_eq x) xs (y ∷ []), u.0, str_eq_comm x y, other) refl,
        snoc-IsUnique xs y behind u.1,
      )
]

-- The set of the names that were seen is that of the names that are selected.
Seen : StringSet → List String → Type 0
Seen seen xs = (y : String) → seen y ≡ has xs y

or_swap : (a b c : Bool) → ((a || b) || c) ≡ (b || (a || c))
or_swap true true c = refl
or_swap true false c = refl
or_swap false b c = refl

or_false : (a : Bool) → (a || false) ≡ a
or_false true = refl
or_false false = refl

last_true : (a : Bool) → true ≡ (a || true)
last_true true = refl
last_true false = refl

extend_lem : (s : StringSet) (xs : List String) (y : String) → extend s xs y ≡ (s y || has xs y)
extend_lem s [] y = sym (or_false (s y))
extend_lem s (x ∷ xs) y =
    extend_lem (insert_set s x) xs y
    ∙ ap (λ b. (b || s y) || has xs y) (str_eq_comm x y)
    ∙ or_swap (str_eq y x) (s y) (has xs y)

Seen-insert_set :
    (seen : StringSet) (xs : List String) (name : String)
    → Seen seen xs
    → (seen name ≡ true → Seen (insert_set seen name) xs)
      × (Seen (insert_set seen name) (xs ++ name ∷ []))
unfolding Seen
Seen-insert_set seen xs name h = (old, added)
  where
    old : seen name ≡ true → (y : String) → insert_set seen name y ≡ has xs y
    old known y = elim (Bool-cases (str_eq name y)) [
      | inl same ↦ rw same (sym known ∙ h name ∙ ap (has xs) ((eq_iff name y).0 same))
      | inr other ↦ rw other (h y)
    ]

    added : (y : String) → insert_set seen name y ≡ has (xs ++ name ∷ []) y
    added y = elim (Bool-cases (str_eq name y)) [
      | inl same ↦
          rw (any-append (str_eq y) xs (name ∷ []), same, str_eq_comm y name, same)
            (last_true (has xs y))
      | inr other ↦
          rw (any-append (str_eq y) xs (name ∷ []), other, str_eq_comm y name, other)
            (h y ∙ sym (or_false (has xs y)))
    ]

push_unseen-IsUnique :
    (merged : List String) (seen : StringSet) (names : List String)
    → Seen seen merged
    → IsUnique merged
    → IsUnique (push_unseen merged seen names)
unfolding push_unseen Seen
push_unseen-IsUnique merged seen [] h u = u
push_unseen-IsUnique merged seen (name ∷ names) h u = elim (Bool-cases (seen name)) [
  | inl known ↦ rw known (
      push_unseen-IsUnique merged (insert_set seen name) names
        ((Seen-insert_set seen merged name h).0 known) u)
  | inr new ↦ rw new (
      push_unseen-IsUnique (merged ++ name ∷ []) (insert_set seen name) names
        (Seen-insert_set seen merged name h).1 (snoc-IsUnique merged name (sym (h name) ∙ new) u))
]

-- Merging names into a selection without repetitions gives one without repetitions, whatever names
-- are given.
merge_mcp_tool_selection-IsUnique :
    (st : SessionState) (names : List String)
    → IsUnique (or_nil st.active_mcp_tool_selection)
    → IsUnique (merge_mcp_tool_selection st names).1
      × (or_nil (merge_mcp_tool_selection st names).0.active_mcp_tool_selection
          ≡ (merge_mcp_tool_selection st names).1)
unfolding merge_mcp_tool_selection Seen
merge_mcp_tool_selection-IsUnique st [] u = (u, refl)
merge_mcp_tool_selection-IsUnique st (name ∷ names) u =
    let old = or_nil st.active_mcp_tool_selection in
    (
      push_unseen-IsUnique old (extend empty_set old) (name ∷ names) (extend_lem empty_set old) u,
      refl,
    )
