-- ===== src/ThreadHistory/Upserts.antt =====
-- Upserts of items by their identifiers (src-tauri/src/core/thread_history.rs).
use mosaic_desktop.Prelude.{
  ℕ, suc, ◌≡◌, inl, inr, refl, ap, sym, ◌∙◌, subst, Bool, true, false, Option, none, some, String,
  List, [], ◌∷◌, ◌++◌, map, any, Bool-cases, if◌then◌else◌, text_eq, text_eq_iff,
}
use mosaic_desktop.Protocol.Items.{Utf8}
use mosaic_desktop.Protocol.TurnItems.{TurnItem, id_of}
use mosaic_desktop.ThreadHistory.{
  PendingTurn, ThreadHistoryBuilder, upsert_turn_item, on_ensured, turn_or_new,
  upsert_item_in_current_turn,
}

abbrev pub has_id : Utf8 → List TurnItem → Bool
has_id id items = any (λ x. text_eq (id_of x) id) items

-- A later item of the same identifier takes the place of an earlier one.
upsert-upsert :
    (items : List TurnItem) (x y : TurnItem)
    → id_of x ≡ id_of y
    → upsert_turn_item (upsert_turn_item items x) y ≡ upsert_turn_item items y
unfolding upsert_turn_item
upsert-upsert [] x y h = rw ((text_eq_iff (id_of x) (id_of y)).1 h) refl
upsert-upsert (z ∷ zs) x y h = elim (Bool-cases (text_eq (id_of z) (id_of x))) [
  | inl this ↦
      let same : text_eq (id_of z) (id_of y) ≡ true =
        subst (λ i. text_eq (id_of z) i ≡ true) h this in
      rw (this, same, (text_eq_iff (id_of x) (id_of y)).1 h) refl
  | inr other ↦
      let same : text_eq (id_of z) (id_of y) ≡ false =
        subst (λ i. text_eq (id_of z) i ≡ false) h other in
      rw (other, same) (ap (λ l. z ∷ l) (upsert-upsert zs x y h))
]

-- The items keep their identifiers and their order; a new identifier comes last.
upsert-ids :
    (items : List TurnItem) (x : TurnItem)
    → map id_of (upsert_turn_item items x)
      ≡ (if has_id (id_of x) items then map id_of items else map id_of items ++ id_of x ∷ [])
unfolding upsert_turn_item
upsert-ids [] x = refl
upsert-ids (z ∷ zs) x = elim (Bool-cases (text_eq (id_of z) (id_of x))) [
  | inl this ↦ rw this (ap (λ i. i ∷ map id_of zs) (sym ((text_eq_iff (id_of z) (id_of x)).0 this)))
  | inr other ↦ elim (Bool-cases (has_id (id_of x) zs)) [
    | inl known ↦ rw (other, known) (ap (λ l. id_of z ∷ l) (upsert-ids zs x ∙ rw known refl))
    | inr new ↦ rw (other, new) (ap (λ l. id_of z ∷ l) (upsert-ids zs x ∙ rw new refl))
  ]
]

-- The items of the current turn, with those of a turn that is opened for them.
abbrev pub current_items : Option PendingTurn → List TurnItem
current_items none = []
current_items (some t) = t.items

-- Upserting an item and then a newer one with the same identifier, as the begin and the end of a call
-- do, leaves the builder as upserting the newer one alone does; and the items of the current turn keep
-- their identifiers in their order, with a new identifier at the end only where it was not there.
pub upsert_current-upsert_current :
    (now_v7 : ℕ → String) (x y : TurnItem) (b : ThreadHistoryBuilder)
    → id_of x ≡ id_of y
    → (upsert_item_in_current_turn now_v7 y (upsert_item_in_current_turn now_v7 x b)
        ≡ upsert_item_in_current_turn now_v7 y b)
      × (map id_of (current_items (upsert_item_in_current_turn now_v7 y b).current_turn) ≡ (
          if has_id (id_of y) (current_items b.current_turn)
          then map id_of (current_items b.current_turn)
          else map id_of (current_items b.current_turn) ++ id_of y ∷ []))
unfolding upsert_item_in_current_turn on_ensured
upsert_current-upsert_current now_v7 x y b h = at_turn b.current_turn
  where
    at_turn :
        (o : Option PendingTurn)
        → let c : ThreadHistoryBuilder = record b { current_turn = o } in
          (upsert_item_in_current_turn now_v7 y (upsert_item_in_current_turn now_v7 x c)
            ≡ upsert_item_in_current_turn now_v7 y c)
          × (map id_of (current_items (upsert_item_in_current_turn now_v7 y c).current_turn) ≡ (
              if has_id (id_of y) (current_items o)
              then map id_of (current_items o)
              else map id_of (current_items o) ++ id_of y ∷ []))
    at_turn none = (
      ap
          (λ items. record b {
            current_turn = some (record (turn_or_new now_v7 b.drawn none) { items = items });
            drawn = suc b.drawn;
          })
          (upsert-upsert [] x y h),
      upsert-ids [] y,
    )
    at_turn (some t) = (
      ap (λ items. record b { current_turn = some (record t { items = items }) })
          (upsert-upsert t.items x y h),
      upsert-ids t.items y,
    )
