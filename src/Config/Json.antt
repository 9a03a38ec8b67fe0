-- ===== src/Config/Json.antt =====
-- `merge_json` of src-tauri/src/config/layer_stack.rs, on values of the crate `serde_json`: a scalar or
-- an array, which is never looked into, is a text, and a map the list of its entries.
use mosaic_desktop.Prelude.{
  ◌≡◌, refl, ap, Bool, true, false, ◌&&◌, Option, none, some, String, str_eq, Bool-cases,
  if◌then◌else◌, inl, inr, sym, ◌∙◌, eq_iff, subst,
}

mutual
  pub data Json : Type 0 where
    null : Json
    value : String → Json
    object : Fields → Json

  pub data Fields : Type 0 where
    empty : Fields
    field : String → Json → Fields → Fields

abbrev pub is_object : Json → Bool
is_object null = false
is_object (value s) = false
is_object (object fs) = true

abbrev pub is_null : Json → Bool
is_null null = true
is_null (value s) = false
is_null (object fs) = false

unfoldable pub lookup : String → Fields → Option Json
lookup k empty = none
lookup k (field k' v fs) = let rest = lookup k fs in if str_eq k k' then some v else rest

-- `insert`: the value of a key that is there, or a new entry.
unfoldable pub insert : String → Json → Fields → Fields
insert k v empty = field k v empty
insert k v (field k' v' fs) =
    let rest = insert k v fs in if str_eq k k' then field k' v fs else field k' v' rest

-- `entry(key).or_insert(Value::Null)`
abbrev pub or_null : Option Json → Json
or_null none = null
or_null (some v) = v

unfoldable mutual
  pub merge_json : Json → Json → Json
  merge_json (object bs) (object fs) = object (merge_fields bs fs)
  merge_json null (object fs) = object fs
  merge_json (value s) (object fs) = object fs
  merge_json base null = base
  merge_json base (value s) = value s

  -- The loop over the entries of the overlay.
  pub merge_fields : Fields → Fields → Fields
  merge_fields bs empty = bs
  merge_fields bs (field k v fs) =
      let merged = merge_json (or_null (lookup k bs)) v in
      let entry = if is_object v && is_object (or_null (lookup k bs)) then merged else v in
      merge_fields (if is_null v then bs else insert k entry bs) fs

-- No key stands twice.
abbrev pub IsMap : Fields → Type 0
IsMap empty = Unit
IsMap (field k v fs) = (lookup k fs ≡ none) × IsMap fs

-- The value at a key, from those of the base and of the overlay.
abbrev pub merged_at : Option Json → Option Json → Option Json
merged_at b none = b
merged_at b (some null) = b
merged_at b (some (value s)) = some (value s)
merged_at b (some (object fs)) = some (merge_json (or_null b) (object fs))

lookup-insert :
    (k k' : String) (v : Json) (fs : Fields)
    → lookup k (insert k' v fs) ≡ (if str_eq k k' then some v else lookup k fs)
unfolding lookup insert
lookup-insert k k' v empty = refl
lookup-insert k k' v (field j w fs) = elim (Bool-cases (str_eq k' j)) [
  | inl here ↦
      let same : k' ≡ j = (eq_iff k' j).0 here in
      elim (Bool-cases (str_eq k j)) [
        | inl found ↦
            let at : str_eq k k' ≡ true = subst (λ i. str_eq k i ≡ true) (sym same) found in
            rw (here, found, at) refl
        | inr other ↦
            let apart : str_eq k k' ≡ false = subst (λ i. str_eq k i ≡ false) (sym same) other in
            rw (here, other, apart) refl
      ]
  | inr there ↦ elim (Bool-cases (str_eq k j)) [
    | inl found ↦
        let apart : str_eq k k' ≡ false = not_both found there in rw (there, found, apart) refl
    | inr other ↦ rw (there, other) (lookup-insert k k' v fs)
  ]
]
  where
    not_both : str_eq k j ≡ true → str_eq k' j ≡ false → str_eq k k' ≡ false
    not_both found there = elim (Bool-cases (str_eq k k')) [
      | inl same ↦
          let both : str_eq k' j ≡ true =
            (eq_iff k' j).1 (sym ((eq_iff k k').0 same) ∙ (eq_iff k j).0 found) in
          cc
      | inr apart ↦ apart
    ]

-- Merging maps, key by key: a key that the overlay lacks, or has as null, keeps its value; a scalar or
-- an array of the overlay replaces it; and an object is merged with the object that was there.
-- Assumed: the overlay has no key twice.
pub lookup-merge_fields :
    (k : String) (fs bs : Fields)
    → IsMap fs
    → lookup k (merge_fields bs fs) ≡ merged_at (lookup k bs) (lookup k fs)
unfolding lookup merge_json
lookup-merge_fields k empty bs h = refl
lookup-merge_fields k (field j v fs) bs h = elim (Bool-cases (str_eq k j)) [
  | inl here ↦
      let same : k ≡ j = (eq_iff k j).0 here in
      let last : lookup k fs ≡ none = subst (λ i. lookup i fs ≡ none) (sym same) h.0 in
      lookup-merge_fields k fs _ h.1 ∙ rw (last, here) (at_key v here same)
  | inr other ↦
      lookup-merge_fields k fs _ h.1
      ∙ rw other (ap (λ b. merged_at b (lookup k fs)) (elsewhere v other))
]
  where
    entry_of : Json → Json
    entry_of v =
        if is_object v && is_object (or_null (lookup j bs))
        then merge_json (or_null (lookup j bs)) v
        else v

    elsewhere :
        (v : Json)
        → str_eq k j ≡ false
        → lookup k (if is_null v then bs else insert j (entry_of v) bs) ≡ lookup k bs
    elsewhere null other = refl
    elsewhere (value s) other = lookup-insert k j _ bs ∙ rw other refl
    elsewhere (object gs) other = lookup-insert k j _ bs ∙ rw other refl

    merged_object :
        (b : Json) (gs : Fields)
        → (if is_object b then merge_json b (object gs) else object gs) ≡ merge_json b (object gs)
    merged_object null gs = refl
    merged_object (value s) gs = refl
    merged_object (object bs) gs = refl

    at_key :
        (v : Json)
        → str_eq k j ≡ true
        → k ≡ j
        → lookup k (if is_null v then bs else insert j (entry_of v) bs)
          ≡ merged_at (lookup k bs) (some v)
    at_key null here same = refl
    at_key (value s) here same = lookup-insert k j _ bs ∙ rw here refl
    at_key (object gs) here same =
        lookup-insert k j _ bs
        ∙ rw here (
            ap some (
              merged_object (or_null (lookup j bs)) gs
              ∙ ap (λ i. merge_json (or_null (lookup i bs)) (object gs)) (sym same)))
