-- ===== src/Config/Tests.antt =====
-- Unit tests of the settings, and the theorem on constrained values at a concrete one.
use mosaic_desktop.Prelude.{ℕ, String, some, none, ◌≡◌, refl, ◌==◌, [], ◌∷◌, codes}
use mosaic_desktop.Protocol.Utf8.{decimal, digits}
use mosaic_desktop.Config.Constraint.{Constrained, unknown, invalid_value, err, allow_only, set}
use mosaic_desktop.Config.Json
use mosaic_desktop.Config.Json.{Json, value, object, field, empty, lookup, merge_json}
use mosaic_desktop.Config.Layers
use mosaic_desktop.Config.Layers.{session, mdm, ConfigLayerStack}
use mosaic_desktop.Config.Values.{IsValid, Outcome, set_each, set_each-Outcome, allow_only-IsValid}

abbrev five : Constrained ℕ
five = allow_only ◌==◌ decimal 5

rejected : (set five 6).1 ≡ err (invalid_value "<unknown>" (codes "6") (codes "[5]") unknown)
unfolding set allow_only decimal digits
rejected = refl

set_each-Outcome_example :
    IsValid (set_each five (5 ∷ 6 ∷ [])) × Outcome (set_each five (5 ∷ 6 ∷ [])) 7
set_each-Outcome_example =
    set_each-Outcome five (5 ∷ 6 ∷ []) 7 (allow_only-IsValid ◌==◌ decimal 5 refl)

-- The unit test `session_overrides_mdm`, with the values as configurations.
abbrev model : String → Json
model s = object (field "model" (value s) empty)

abbrev stack : ConfigLayerStack Json
stack = record { layers = (session, model "session-model") ∷ (mdm, model "mdm-model") ∷ [] }

session_overrides_mdm :
    Layers.merge (λ c. c) some (object empty) (λ c name. none) stack ≡ model "session-model"
unfolding Layers.merge Layers.merge_layers Layers.sorted Layers.insert Layers.precedence merge_json
    lookup Json.insert
session_overrides_mdm = refl
