-- ===== src/ExecPolicy/Tests.antt =====
-- Runs of the policy over a multimap as a list of pairs, and the theorems at concrete commands.
use mosaic_desktop.Prelude.{
  ◌≤◌, ◌≡◌, refl, ap, sym, ◌⊎◌, ◌↔◌, true, false, Option, none, some, List, [], ◌∷◌, ◌++◌, map,
  append-nil, append_assoc, String, str_eq, eq_iff, arith, if◌then◌else◌,
}
use mosaic_desktop.ExecPolicy.Rule.{
  ok, Decision, allow, prompt, forbidden, rank, single, PrefixRule, matches_prefix, token_matches,
  rest_matches, rule_matches, prefix_rule_match, parse_protocol, as_policy_string, https,
}
use mosaic_desktop.ExecPolicy.Rule.Matching.{
  Covers, rule_matches_iff, parse_protocol-as_policy_string,
}
use mosaic_desktop.ExecPolicy.RuleMap.{or_nil, values_of, MultiMap, Paths}
use mosaic_desktop.ExecPolicy.Policy
use mosaic_desktop.ExecPolicy.Policy.{
  Policy, from_matches, is_match, check, add_prefix_rule, merge_overlay, empty_policy,
}
use mosaic_desktop.ExecPolicy.Policy.Check.{
  IsStrictest, from_matches-IsStrictest, CheckCases, exact_matches,
}
use mosaic_desktop.ExecPolicy.Policy.Added.{
  Addition, matches_of_additions, add_each, check-add_each,
}
use mosaic_desktop.ExecPolicy.Policy.Edit.{check-add_prefix_rule, check-add_prefix_rule_ne}
use mosaic_desktop.ExecPolicy.Policy.Merge.{exact_matches-merge_overlay, check-merge_overlay}

abbrev Pairs : Type 0
Pairs = List (String × PrefixRule)

abbrev values : String → Pairs → List PrefixRule
values k [] = []
values k ((j, v) ∷ m) = (if str_eq j k then v ∷ [] else []) ++ values k m

abbrev some_values : List PrefixRule → Option (List PrefixRule)
some_values [] = none
some_values (v ∷ vs) = some (v ∷ vs)

or_nil-some_values : (vs : List PrefixRule) → or_nil (some_values vs) ≡ vs
or_nil-some_values [] = refl
or_nil-some_values (v ∷ vs) = refl

values-insert :
    (m : Pairs) (k j : String) (v : PrefixRule)
    → values j (m ++ (k, v) ∷ []) ≡ values j m ++ (if str_eq k j then v ∷ [] else [])
values-insert [] k j v = append-nil _
values-insert ((i, w) ∷ m) k j v =
    rw (values-insert m k j v)
      (sym (append_assoc (if str_eq i j then w ∷ [] else []) (values j m) _))

abbrev entries : Pairs → List (String × List PrefixRule)
entries [] = []
entries ((k, v) ∷ m) = (k, v ∷ []) ∷ entries m

values_of-entries : (m : Pairs) (k : String) → values_of k (entries m) ≡ values k m
values_of-entries [] k = refl
values_of-entries ((j, v) ∷ m) k = rw (values_of-entries m k)

get_vec-insert_pairs :
    (m : Pairs) (k j : String) (v : PrefixRule)
    → or_nil (some_values (values j (m ++ (k, v) ∷ [])))
      ≡ or_nil (some_values (values j m)) ++ (if str_eq k j then v ∷ [] else [])
get_vec-insert_pairs m k j v =
    rw (or_nil-some_values (values j (m ++ (k, v) ∷ [])), or_nil-some_values (values j m))
      (values-insert m k j v)

iter_all-pairs :
    (m : Pairs) (k : String) → values_of k (entries m) ≡ or_nil (some_values (values k m))
iter_all-pairs m k = rw (or_nil-some_values (values k m)) (values_of-entries m k)

-- The assumptions on `multimap` can be met.
abbrev pairs : MultiMap
pairs = record {
  Map = Pairs;
  empty = [];
  insert = λ m k v. m ++ (k, v) ∷ [];
  get_vec = λ m k. some_values (values k m);
  iter_all = entries;
  get_vec-empty = λ k. refl;
  get_vec-insert = get_vec-insert_pairs;
  iter_all-get_vec = iter_all-pairs;
}

abbrev unix : Paths
unix = record { is_absolute = λ p. false; file_stem = λ p. none; path_eq = str_eq }

abbrev rule_for : String → List String → Decision → PrefixRule
rule_for first rest d = record {
  pattern_of = record { first = first; rest = map single rest };
  decision_of = d;
  justification = none;
}

abbrev git_status : List String
git_status = "git" ∷ "status" ∷ []

abbrev base : Policy pairs
base = record {
  rules_by_program = ("git", rule_for "git" ("status" ∷ []) allow) ∷ [];
  network_rules = [];
  host_executables_by_name = λ name. none;
}

abbrev strict : Policy pairs
strict = record {
  rules_by_program =
      ("git", rule_for "git" ("status" ∷ []) allow) ∷ ("git", rule_for "git" [] forbidden) ∷ [];
  network_rules = [];
  host_executables_by_name = λ name. none;
}

abbrev ask : List String → Decision
ask cmd = prompt

allows_git_status : is_match (check pairs unix base git_status ask) ≡ true
unfolding is_match check Policy.check_with_options Policy.matches_for_command_with_options
    Policy.matched Policy.match_exact_rules Policy.matches_of rule_matches matches_prefix
    rest_matches token_matches from_matches
allows_git_status = refl

git_status_matches :
    matches_prefix
      (record { first = "git"; rest = single "status" ∷ [] })
      ("git" ∷ "status" ∷ "-s" ∷ [])
    ≡ some git_status
unfolding matches_prefix rest_matches token_matches
git_status_matches = refl

added : add_prefix_rule pairs base ("git" ∷ []) forbidden ≡ ok strict
unfolding add_prefix_rule
added = refl

rule_matches_iff_example :
    (rule_matches (rule_for "git" [] allow) git_status
      ≡ some (prefix_rule_match ("git" ∷ []) allow none none))
    ↔ (Covers (record { first = "git"; rest = [] }) ("git" ∷ [])
        × (extra : List String) × (git_status ≡ ("git" ∷ []) ++ extra))
rule_matches_iff_example = rule_matches_iff (rule_for "git" [] allow) git_status ("git" ∷ [])

from_matches-IsStrictest_example :
    ((exact_matches pairs unix strict git_status ≡ [])
      × ((from_matches (exact_matches pairs unix strict git_status)).decision_of ≡ prompt))
    ⊎ IsStrictest
        (from_matches (exact_matches pairs unix strict git_status)).decision_of
        (exact_matches pairs unix strict git_status)
from_matches-IsStrictest_example =
    from_matches-IsStrictest (exact_matches pairs unix strict git_status)

abbrev additions : List Addition
additions =
    record { first = "git"; rest = "status" ∷ []; decided = allow }
    ∷ record { first = "ls"; rest = []; decided = prompt }
    ∷ record { first = "git"; rest = []; decided = forbidden }
    ∷ []

two_matches :
    matches_of_additions additions git_status
    ≡ prefix_rule_match git_status allow none none
      ∷ prefix_rule_match ("git" ∷ []) forbidden none none
      ∷ []
two_matches = refl

check-add_each_example :
    (q : Policy pairs) × (add_each pairs unix (empty_policy pairs) additions ≡ ok q)
    × CheckCases pairs unix q git_status ask
        (matches_of_additions additions git_status)
        (check pairs unix q git_status ask)
check-add_each_example = check-add_each pairs unix additions git_status ask

check-add_prefix_rule_example :
    rank forbidden ≤ rank (check pairs unix strict ("git" ∷ "push" ∷ []) ask).decision_of
check-add_prefix_rule_example =
    check-add_prefix_rule pairs unix base strict "git" [] ("push" ∷ []) forbidden ask added

starts_with_git : ¬ ((extra : List String) × ("ls" ∷ [] ≡ "git" ∷ [] ++ extra))
starts_with_git (extra, e) = ground (arith, eq_iff "ls" "git", ap (λ l. head_or l) e)
  where
    head_or : List String → String
    head_or [] = ""
    head_or (x ∷ xs) = x

check-add_prefix_rule_ne_example :
    check pairs unix strict ("ls" ∷ []) ask ≡ check pairs unix base ("ls" ∷ []) ask
check-add_prefix_rule_ne_example =
    check-add_prefix_rule_ne pairs unix base strict "git" [] ("ls" ∷ []) forbidden ask added
      starts_with_git

exact_matches-merge_overlay_example :
    exact_matches pairs unix (merge_overlay pairs base strict) git_status
    ≡ exact_matches pairs unix base git_status ++ exact_matches pairs unix strict git_status
exact_matches-merge_overlay_example = exact_matches-merge_overlay pairs unix base strict git_status

check-merge_overlay_example :
    rank (check pairs unix base git_status ask).decision_of
    ≤ rank (check pairs unix (merge_overlay pairs base strict) git_status ask).decision_of
check-merge_overlay_example =
    check-merge_overlay pairs unix base strict git_status ask allows_git_status

parse_protocol-as_policy_string_example : parse_protocol (as_policy_string https) ≡ ok https
parse_protocol-as_policy_string_example = parse_protocol-as_policy_string https
