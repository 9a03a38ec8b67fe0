-- ===== src/ContextManager/History/Pending.antt =====
-- The items that the last count of the API does not cover yet.
use mosaic_desktop.Prelude.{
  ℕ, suc, ◌+◌, ◌≤◌, ◌≡◌, refl, ap, true, false, List, [], ◌∷◌, ◌++◌, drop, arith, All, Bool-cases,
  inl, inr, ◌*◌, ◌<◌,
}
use mosaic_desktop.Protocol.Items.{ResponseInputItem}
use mosaic_desktop.ContextManager.History.{
  is_model_generated, pending_start, items_after_last_model_item, estimate_item_bytes,
  ContextManager,
}

-- No item of the list was generated by the model.
abbrev NoneGenerated : List ResponseInputItem → Type 0
NoneGenerated = All (λ i. is_model_generated i ≡ false)

-- `after` is what follows the last generated item of `items`, or all of them.
pub data IsPending (items after : List ResponseInputItem) : Type 0 where
  all_of : NoneGenerated items → after ≡ items → IsPending items after
  behind :
      (before : List ResponseInputItem) (last : ResponseInputItem)
      → is_model_generated last ≡ true
      → NoneGenerated after
      → items ≡ before ++ (last ∷ after)
      → IsPending items after

-- Where `rposition` finds nothing, and where it finds the item with the index `n`.
data Found (xs : List ResponseInputItem) : Type 0 where
  nowhere : pending_start xs ≡ 0 → NoneGenerated xs → Found xs
  here :
      (n : ℕ) (before : List ResponseInputItem) (last : ResponseInputItem)
      → pending_start xs ≡ suc n
      → is_model_generated last ≡ true
      → NoneGenerated (drop (suc n) xs)
      → xs ≡ before ++ (last ∷ drop (suc n) xs)
      → Found xs

find : (xs : List ResponseInputItem) → Found xs
unfolding pending_start
find [] = nowhere refl tt
find (x ∷ xs) = elim (find xs) [
  | nowhere e g ↦ elim (Bool-cases (is_model_generated x)) [
    | inl m ↦ here 0 [] x (rw (e, m)) m g refl
    | inr o ↦ nowhere (rw (e, o)) (o, g)
  ]
  | here n before last e m g split ↦
      here (suc n) (x ∷ before) last (ground arith) m g (ap (λ l. x ∷ l) split)
]

-- The items that `items_after_last_model_item` returns are those behind the last item of the model
-- (an assistant message or a function call), and the whole history where the model has added none.
pub items_after_last_model_item-IsPending :
    (items : List ResponseInputItem) → IsPending items (items_after_last_model_item items)
unfolding items_after_last_model_item
items_after_last_model_item-IsPending items = elim (find items) [
  | nowhere e g ↦ rw e (all_of g refl)
  | here n before last e m g split ↦ rw e (behind before last m g split)
]

-- `n` is the sum of the tokens of the items, and the tokens of each are its bytes divided by four,
-- rounded up.
abbrev pub AreTokens : List ResponseInputItem → ℕ → Type 0
AreTokens [] n = n ≡ 0
AreTokens (x ∷ xs) n =
    (t rest : ℕ) × (n ≡ t + rest)
    × (estimate_item_bytes x ≤ 4 * t)
    × (4 * t < estimate_item_bytes x + 4)
    × AreTokens xs rest
