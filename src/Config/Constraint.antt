-- ===== src/Config/Constraint.antt =====
-- src-tauri/src/config/constraint.rs: a value that only accepted values replace.
use mosaic_desktop.Prelude.{Bool, Option, none, some, String, codes, ◌++◌, if◌then◌else◌}
use mosaic_desktop.Protocol.Items.{Utf8}

-- A path is its text.
pub data RequirementSource : Type 0 where
  unknown cloud_requirements : RequirementSource
  system_requirements_toml : Utf8 → RequirementSource

-- The fields of `invalid_value`: its field's name, the candidate, what is allowed and its source.
pub data ConstraintError : Type 0 where
  invalid_value : String → Utf8 → Utf8 → RequirementSource → ConstraintError
  empty_field : String → ConstraintError
  exec_policy_parse : RequirementSource → String → ConstraintError

pub data ConstraintResult {ℓ} (A : Type ℓ) : Type ℓ where
  ok : A → ConstraintResult A
  err : ConstraintError → ConstraintResult A

-- `ConstraintResult<()>`
abbrev pub Verdict : Type 0
Verdict = ConstraintResult {0} Unit

pub record Constrained {ℓ} (T : Type ℓ) : Type ℓ where
  pub value : T
  pub validator : T → Verdict
  pub normalizer : Option (T → T)

module _ {ℓ} {T : Type ℓ} where
  abbrev accepted : Verdict → Constrained T → ConstraintResult (Constrained T)
  accepted (ok u) c = ok c
  accepted (err e) c = err e

  unfoldable pub new : T → (T → Verdict) → ConstraintResult (Constrained T)
  new initial_value validator =
      accepted (validator initial_value)
        (record { value = initial_value; validator = validator; normalizer = none })

  unfoldable pub normalized : T → (T → T) → ConstraintResult (Constrained T)
  normalized initial_value normalizer = ok (record {
    value = normalizer initial_value;
    validator = λ v. ok tt;
    normalizer = some normalizer;
  })

  unfoldable pub allow_any : T → Constrained T
  allow_any initial_value = record {
    value = initial_value;
    validator = λ v. ok tt;
    normalizer = none;
  }

  -- `eq` is the type's `PartialEq` and `debug` its `Debug`.
  unfoldable pub allow_only : (T → T → Bool) → (T → Utf8) → T → Constrained T
  allow_only eq debug only_value = record {
    value = only_value;
    validator = λ candidate.
        if eq candidate only_value
        then ok tt
        else err (
            invalid_value "<unknown>" (debug candidate) (codes "[" ++ debug only_value ++ codes "]")
              unknown);
    normalizer = none;
  }

  unfoldable pub can_set : Constrained T → T → Verdict
  can_set c candidate = c.validator candidate

  abbrev pub normal : Option (T → T) → T → T
  normal none v = v
  normal (some normalizer) v = normalizer v

  abbrev assign : Verdict → Constrained T → T → Constrained T × Verdict
  assign (ok u) c v = (record c { value = v }, ok tt)
  assign (err e) c v = (c, err e)

  unfoldable pub set : Constrained T → T → Constrained T × Verdict
  set c v = let v' = normal c.normalizer v in assign (c.validator v') c v'
