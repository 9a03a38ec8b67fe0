-- ===== src/Config/Layers.antt =====
-- src-tauri/src/config/layer_stack.rs: the layers of a configuration, merged by their precedence.
use mosaic_desktop.Prelude.{ℕ, Option, none, some, List, [], ◌∷◌, ◌++◌, String, leb, if◌then◌else◌}
use mosaic_desktop.Config.Json.{Json, merge_json}

pub data ConfigLayer : Type 0 where
  mdm system user project session : ConfigLayer

-- The discriminants, which order the layers.
unfoldable pub precedence : ConfigLayer → ℕ
precedence mdm = 0
precedence system = 10
precedence user = 20
precedence project = 25
precedence session = 30

pub record ConfigLayerStack {ℓ} (C : Type ℓ) : Type ℓ where
  pub layers : List (ConfigLayer × C)

abbrev pub new {ℓ} : {C : Type ℓ} → ConfigLayerStack C
new = record { layers = [] }

unfoldable pub add_layer {ℓ} :
    {C : Type ℓ} → ConfigLayerStack C → ConfigLayer → C → ConfigLayerStack C
add_layer st layer config = record { layers = st.layers ++ (layer, config) ∷ [] }

-- `sort_by_key`, which is stable, by insertion.
unfoldable pub insert {ℓ} :
    {C : Type ℓ} → (ConfigLayer × C) → List (ConfigLayer × C) → List (ConfigLayer × C)
insert x [] = x ∷ []
insert x (y ∷ ys) =
    let rest = insert x ys in if leb (precedence x.0) (precedence y.0) then x ∷ y ∷ ys else y ∷ rest

unfoldable pub sorted {ℓ} : {C : Type ℓ} → List (ConfigLayer × C) → List (ConfigLayer × C)
sorted [] = []
sorted (x ∷ xs) = insert x (sorted xs)

-- `serde_json::to_value` and `from_value` of a configuration, its `Default`, and its profiles, of
-- which each is a value.
module _ {ℓ} {C : Type ℓ} (to_value : C → Json) (from_value : Json → Option C) (default_config : C)
    (profile_of : C → String → Option Json) where
  unfoldable pub merge_layers : Json → List (ConfigLayer × C) → Json
  merge_layers base [] = base
  merge_layers base (x ∷ xs) = merge_layers (merge_json base (to_value x.1)) xs

  abbrev or_config : C → Option C → C
  or_config c none = c
  or_config c (some c') = c'

  -- `ConfigLayerStack::merge`
  unfoldable pub merge : ConfigLayerStack C → C
  merge st =
      or_config default_config
        (from_value (merge_layers (to_value default_config) (sorted st.layers)))

  abbrev with_profile : C → Option Json → C
  with_profile base none = base
  with_profile base (some profile) =
      or_config base (from_value (merge_json (to_value base) profile))

  unfoldable pub resolve_with_profile : ConfigLayerStack C → String → C
  resolve_with_profile st profile_name =
      with_profile (merge st) (profile_of (merge st) profile_name)
