-- ===== src/Config/Values.antt =====
-- The values that a constrained setting has (src-tauri/src/config/constraint.rs).
use mosaic_desktop.Prelude.{◌≡◌, ◌⊎◌, inl, inr, refl, Bool, true, List, [], ◌∷◌}
use mosaic_desktop.Protocol.Items.{Utf8}
use mosaic_desktop.Config.Constraint.{
  ConstraintError, ConstraintResult, Verdict, ok, err, Constrained, new, normalized, allow_any,
  allow_only, normal, set,
}

module _ {ℓ} {T : Type ℓ} where
  -- The validator accepts the value.
  unfoldable pub IsValid : Constrained T → Type 0
  IsValid c = c.validator c.value ≡ ok tt

  -- Setting each of the values in turn, whatever the results.
  abbrev pub set_each : Constrained T → List T → Constrained T
  set_each c [] = c
  set_each c (v ∷ vs) = set_each (set c v).0 vs

  -- What `set` returns: the validator's error and the value as it was, or the new value.
  abbrev pub Outcome : Constrained T → T → Type ℓ
  Outcome c v =
      ((e : ConstraintError) × (c.validator (normal c.normalizer v) ≡ err e)
        × (set c v ≡ (c, err e)))
      ⊎ (((set c v).1 ≡ ok tt) × ((set c v).0.value ≡ normal c.normalizer v))

  set-cases :
      (c : Constrained T) (v : T) (r : Verdict)
      → c.validator (normal c.normalizer v) ≡ r
      → Outcome c v × (IsValid c → IsValid (set c v).0)
  unfolding set IsValid
  set-cases c v (ok tt) h = rw h (inr (refl, refl), λ valid. h)
  set-cases c v (err e) h = rw h (inl (e, refl, refl), λ valid. valid)

  set_each-IsValid : (c : Constrained T) (vs : List T) → IsValid c → IsValid (set_each c vs)
  set_each-IsValid c [] h = h
  set_each-IsValid c (v ∷ vs) h = set_each-IsValid (set c v).0 vs ((set-cases c v _ refl).1 h)

  -- From a value that the validator accepts, and after whatever values were set, refused or not, the
  -- value is one that it accepts; and setting another either returns the validator's error for the
  -- normalized candidate and changes nothing, or makes the normalized candidate the value.
  pub set_each-Outcome :
      (c : Constrained T) (vs : List T) (v : T)
      → IsValid c
      → IsValid (set_each c vs) × Outcome (set_each c vs) v
  set_each-Outcome c vs v h = (set_each-IsValid c vs h, (set-cases (set_each c vs) v _ refl).0)

  -- What the constructors return, where it is a value, is one that the validator accepts.
  abbrev IsValidResult : ConstraintResult (Constrained T) → Type 0
  IsValidResult (ok c) = IsValid c
  IsValidResult (err e) = Unit

  new-IsValidResult : (v : T) (validator : T → Verdict) → IsValidResult (new v validator)
  unfolding new IsValid
  new-IsValidResult v validator = of_verdict (validator v) refl
    where
      of_verdict : (r : Verdict) → validator v ≡ r → IsValidResult (new v validator)
      of_verdict (ok u) h = rw h h
      of_verdict (err e) h = rw h tt

  normalized-IsValidResult : (v : T) (normalizer : T → T) → IsValidResult (normalized v normalizer)
  unfolding normalized IsValid
  normalized-IsValidResult v normalizer = refl

  allow_any-IsValid : (v : T) → IsValid (allow_any v)
  unfolding allow_any IsValid
  allow_any-IsValid v = refl

  pub allow_only-IsValid :
      (eq : T → T → Bool) (debug : T → Utf8) (v : T)
      → eq v v ≡ true
      → IsValid (allow_only eq debug v)
  unfolding allow_only IsValid
  allow_only-IsValid eq debug v h = rw h refl
