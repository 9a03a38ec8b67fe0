-- ===== src/ExecPolicy/Policy.antt =====
-- `Policy` and `Evaluation` of src-tauri/src/execpolicy/mod.rs. A `HashMap` is the function from a
-- key to its value. The network rules of a policy are a list that `Network` works on.
pub mod Added
pub mod Check
pub mod Edit
pub mod Merge
use mosaic_desktop.Prelude.{
  Bool, true, false, not, Option, none, some, List, [], ◌∷◌, ◌++◌, map, String, str_eq, any, ltb,
  if◌then◌else◌,
}
use mosaic_desktop.ExecPolicy.Rule.{
  Result, ok, err, invalid_pattern, Decision, prompt, rank, single, RuleMatch, prefix_rule_match,
  heuristics_rule_match, decision, with_resolved_program, PrefixRule, rule_matches,
}
use mosaic_desktop.ExecPolicy.RuleMap.{or_nil, MultiMap, Paths}
use mosaic_desktop.ExecPolicy.Network.{NetworkRule}

abbrev pub HostExecutables : Type 0
HostExecutables = String → Option (List String)

pub record Policy (mm : MultiMap) : Type 0 where
  pub rules_by_program : mm.Map
  pub network_rules : List NetworkRule
  pub host_executables_by_name : HostExecutables

pub record Evaluation : Type 0 where
  pub decision_of : Decision
  pub matched_rules : List RuleMatch

abbrev pub is_empty {ℓ} : {A : Type ℓ} → List A → Bool
is_empty [] = true
is_empty (x ∷ xs) = false

-- `.filter(|m| !m.is_empty())`
abbrev non_empty : Option (List RuleMatch) → Option (List RuleMatch)
non_empty none = none
non_empty (some []) = none
non_empty (some (m ∷ ms)) = some (m ∷ ms)

-- The derived `max` of two decisions; the later one wins a tie, which is the same decision.
abbrev pub max_decision : Decision → Decision → Decision
max_decision a b = if ltb (rank b) (rank a) then a else b

-- `.max()`
unfoldable pub max_of : List RuleMatch → Option Decision
max_of [] = none
max_of (m ∷ ms) = elim (max_of ms) [
  | none ↦ some (decision m)
  | some d ↦ some (max_decision (decision m) d)
]

unfoldable pub from_matches : List RuleMatch → Evaluation
from_matches ms = record {
  decision_of = elim (max_of ms) [ none ↦ prompt | some d ↦ d ];
  matched_rules = ms;
}

abbrev pub is_rule_match : RuleMatch → Bool
is_rule_match (prefix_rule_match matched_prefix d resolved justification) = true
is_rule_match (heuristics_rule_match command d) = false

unfoldable pub is_match : Evaluation → Bool
is_match e = any is_rule_match e.matched_rules

-- `rules.iter().filter_map(|r| r.matches(cmd))`
unfoldable pub matches_of : List PrefixRule → List String → List RuleMatch
matches_of [] cmd = []
matches_of (r ∷ rs) cmd =
    let rest = matches_of rs cmd in elim (rule_matches r cmd) [ none ↦ rest | some m ↦ m ∷ rest ]

module _ (mm : MultiMap) (os : Paths) where
  unfoldable pub match_exact_rules : Policy mm → List String → Option (List RuleMatch)
  match_exact_rules p [] = none
  match_exact_rules p (first ∷ rest) =
      some (matches_of (or_nil (mm.get_vec p.rules_by_program first)) (first ∷ rest))

  -- The part of `match_host_executable_rules` behind the look-ups.
  resolved_matches : List PrefixRule → String → String → List String → List RuleMatch
  resolved_matches rules program basename rest =
      map (λ m. with_resolved_program m program) (matches_of rules (basename ∷ rest))

  allowed_path : Policy mm → String → String → Bool
  allowed_path p basename program = elim (p.host_executables_by_name basename) [
    | none ↦ true
    | some paths ↦ any (λ path. os.path_eq path program) paths
  ]

  host_rules : Policy mm → String → List String → String → List RuleMatch
  host_rules p program rest basename = elim (mm.get_vec p.rules_by_program basename) [
    | none ↦ []
    | some rules ↦
        if allowed_path p basename program then resolved_matches rules program basename rest else []
  ]

  pub match_host_executable_rules : Policy mm → List String → List RuleMatch
  match_host_executable_rules p [] = []
  match_host_executable_rules p (first ∷ rest) =
      if os.is_absolute first
      then elim (os.file_stem first) [
        | none ↦ []
        | some basename ↦ host_rules p first rest basename
      ]
      else []

  abbrev host_option : Policy mm → List String → Bool → Option (List RuleMatch)
  host_option p cmd true = non_empty (some (match_host_executable_rules p cmd))
  host_option p cmd false = none

  -- The rule matches, before the heuristics.
  unfoldable pub matched : Policy mm → List String → Bool → List RuleMatch
  matched p cmd resolve_host_executables = elim (non_empty (match_exact_rules p cmd)) [
    | some ms ↦ ms
    | none ↦ or_nil (host_option p cmd resolve_host_executables)
  ]

  unfoldable pub matches_for_command_with_options :
      Policy mm → List String → Option (List String → Decision) → Bool → List RuleMatch
  matches_for_command_with_options p cmd heuristics_fallback resolve_host_executables =
      let ms = matched p cmd resolve_host_executables in
      if is_empty ms
      then elim heuristics_fallback [
        | none ↦ ms
        | some fallback ↦ heuristics_rule_match cmd (fallback cmd) ∷ []
      ]
      else ms

  unfoldable pub check_with_options :
      Policy mm → List String → (List String → Decision) → Bool → Evaluation
  check_with_options p cmd heuristics_fallback resolve_host_executables =
      from_matches
        (matches_for_command_with_options p cmd (some heuristics_fallback) resolve_host_executables)

  unfoldable pub check : Policy mm → List String → (List String → Decision) → Evaluation
  check p cmd heuristics_fallback = check_with_options p cmd heuristics_fallback false

  -- The `flat_map` of `check_multiple`.
  pub matches_of_commands :
      Policy mm → List (List String) → (List String → Decision) → List RuleMatch
  matches_of_commands p [] heuristics_fallback = []
  matches_of_commands p (cmd ∷ cmds) heuristics_fallback =
      matches_for_command_with_options p cmd (some heuristics_fallback) false
      ++ matches_of_commands p cmds heuristics_fallback

  pub check_multiple : Policy mm → List (List String) → (List String → Decision) → Evaluation
  check_multiple p cmds heuristics_fallback =
      from_matches (matches_of_commands p cmds heuristics_fallback)

module _ (mm : MultiMap) where
  -- `Policy::empty`
  pub empty_policy : Policy mm
  empty_policy = record {
    rules_by_program = mm.empty;
    network_rules = [];
    host_executables_by_name = λ name. none;
  }

  unfoldable pub add_prefix_rule : Policy mm → List String → Decision → Result (Policy mm)
  add_prefix_rule p [] d = err (invalid_pattern "prefix cannot be empty")
  add_prefix_rule p (first ∷ rest) d = ok (record p {
    rules_by_program = mm.insert p.rules_by_program first (record {
      pattern_of = record { first = first; rest = map single rest };
      decision_of = d;
      justification = none;
    });
  })

  pub set_host_executable_paths : Policy mm → String → List String → Policy mm
  set_host_executable_paths p name paths = record p {
    host_executables_by_name =
        λ j. if str_eq name j then some paths else p.host_executables_by_name j;
  }

  -- The two loops of `merge_overlay` over the overlay's rules.
  pub insert_all : mm.Map → String → List PrefixRule → mm.Map
  insert_all m program [] = m
  insert_all m program (r ∷ rs) = insert_all (mm.insert m program r) program rs

  pub insert_entries : mm.Map → List (String × List PrefixRule) → mm.Map
  insert_entries m [] = m
  insert_entries m ((program, rules) ∷ entries) =
      insert_entries (insert_all m program rules) entries

  pub merge_overlay : Policy mm → Policy mm → Policy mm
  merge_overlay p overlay = record {
    rules_by_program = insert_entries p.rules_by_program (mm.iter_all overlay.rules_by_program);
    network_rules = p.network_rules ++ overlay.network_rules;
    host_executables_by_name = λ name. elim (overlay.host_executables_by_name name) [
      | some paths ↦ some paths
      | none ↦ p.host_executables_by_name name
    ];
  }
