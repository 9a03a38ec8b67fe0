-- ===== src/ExecPolicy/Policy/Added.antt =====
-- What a policy that is built by adding prefixes decides, from the list of the additions.
use mosaic_desktop.Prelude.{
  ◌≡◌, refl, inl, inr, ap, ap₂, ◌∙◌, sym, true, false, Bool, ◌&&◌, none, List, [], ◌∷◌, ◌++◌,
  String, str_eq, eq_iff, arith, if◌then◌else◌, Bool-cases, Option-cases, append-nil, append_assoc,
  subst,
}
use mosaic_desktop.ExecPolicy.Rule.{
  Result, ok, err, Decision, RuleMatch, prefix_rule_match, rule_matches, matches_prefix,
}
use mosaic_desktop.ExecPolicy.Rule.Matching.{matches_prefix_sound, matches_prefix_complete}
use mosaic_desktop.ExecPolicy.RuleMap.{MultiMap, Paths}
use mosaic_desktop.ExecPolicy.Policy.{
  Policy, check, add_prefix_rule, empty_policy, match_exact_rules, matches_of,
}
use mosaic_desktop.ExecPolicy.Policy.Check.{exact_matches, CheckCases, check_cases}
use mosaic_desktop.ExecPolicy.Policy.Edit.{
  match_list, prefix_rule, exact-add_prefix_rule, AcceptsAll-map-single, eq_of-AcceptsAll,
}

-- The words of a prefix that is added, and its decision.
pub record Addition : Type 0 where
  pub first : String
  pub rest : List String
  pub decided : Decision

abbrev words : Addition → List String
words a = a.first ∷ a.rest

-- The command begins with the words.
abbrev begins_with : List String → List String → Bool
begins_with [] cmd = true
begins_with (w ∷ ws) [] = false
begins_with (w ∷ ws) (c ∷ cs) = str_eq w c && begins_with ws cs

-- Of every prefix that the command begins with, in the order of the additions, the match.
abbrev pub matches_of_additions : List Addition → List String → List RuleMatch
matches_of_additions [] cmd = []
matches_of_additions (a ∷ added) cmd =
    (if begins_with (words a) cmd then prefix_rule_match (words a) a.decided none none ∷ [] else [])
    ++ matches_of_additions added cmd

begins_with-append : (ws extra : List String) → begins_with ws (ws ++ extra) ≡ true
begins_with-append [] extra = refl
begins_with-append (w ∷ ws) extra =
    let same = (eq_iff w w).1 refl in rw same (begins_with-append ws extra)

split_begins_with :
    (ws cmd : List String) → begins_with ws cmd ≡ true → (extra : List String) × (cmd ≡ ws ++ extra)
split_begins_with [] cmd h = (cmd, refl)
split_begins_with (w ∷ ws) [] h = cc
split_begins_with (w ∷ ws) (c ∷ cs) h =
    let both : (str_eq w c ≡ true) × (begins_with ws cs ≡ true) = ground arith in
    let (extra, e) = split_begins_with ws cs both.1 in
    (extra, ap₂ ◌∷◌ (sym ((eq_iff w c).0 both.0)) e)

-- A rule for words alone matches the commands that begin with them.
rule_matches-begins_with :
    (a : Addition) (cmd : List String)
    → match_list (rule_matches (prefix_rule a.first a.rest a.decided) cmd) ≡ (
        if begins_with (words a) cmd
        then prefix_rule_match (words a) a.decided none none ∷ []
        else [])
unfolding rule_matches prefix_rule
rule_matches-begins_with a cmd =
    let r = prefix_rule a.first a.rest a.decided in
    elim (Bool-cases (begins_with (words a) cmd)) [
      | inl e ↦
          let (extra, split) = split_begins_with (words a) cmd e in
          let found =
            matches_prefix_complete r.pattern_of (words a) extra
              (refl, AcceptsAll-map-single a.rest) in
          rw (split, begins_with-append (words a) extra, found, rule_matches)
      | inr e ↦ elim (Option-cases (matches_prefix r.pattern_of cmd)) [
        | inl nothing ↦ rw (e, nothing, rule_matches)
        | inr (ws, found) ↦
            let (covers, extra, split) = matches_prefix_sound r.pattern_of cmd ws found in
            let same = eq_of-AcceptsAll (words a) ws covers in
            let begins : begins_with (words a) cmd ≡ true =
              rw (split, ← same) (begins_with-append (words a) extra) in
            cc
      ]
    ]

module _ (mm : MultiMap) (os : Paths) where
  -- `add_prefix_rule` for each of them, in their order.
  abbrev pub add_each : Policy mm → List Addition → Result (Policy mm)
  add_each p [] = ok p
  add_each p (a ∷ added) = elim (add_prefix_rule mm p (words a) a.decided) [
    | err e ↦ err e
    | ok q ↦ add_each q added
  ]

  add_prefix_rule-ok :
      (p : Policy mm) (a : Addition)
      → (q : Policy mm) × (add_prefix_rule mm p (words a) a.decided ≡ ok q)
  unfolding add_prefix_rule
  add_prefix_rule-ok p a = (_, refl)

  exact-add_each :
      (p : Policy mm) (added : List Addition) (cmd : List String)
      → (q : Policy mm) × (add_each p added ≡ ok q)
        × (exact_matches mm os q cmd ≡ exact_matches mm os p cmd ++ matches_of_additions added cmd)
  exact-add_each p [] cmd = (p, refl, sym (append-nil _))
  exact-add_each p (a ∷ added) cmd =
      let next = add_prefix_rule-ok p a in
      let (q, done, later) = exact-add_each next.0 added cmd in
      let now =
        exact-add_prefix_rule mm os p next.0 a.first a.rest a.decided cmd next.1
        ∙ ap (λ l. exact_matches mm os p cmd ++ l) (rule_matches-begins_with a cmd) in
      (
        q,
        rw (add_each, next.1) done,
        later
            ∙ ap (λ l. l ++ matches_of_additions added cmd) now
            ∙ append_assoc (exact_matches mm os p cmd) _ (matches_of_additions added cmd),
      )

  exact-empty_policy : (cmd : List String) → exact_matches mm os (empty_policy mm) cmd ≡ []
  unfolding match_exact_rules matches_of empty_policy
  exact-empty_policy [] = refl
  exact-empty_policy (c ∷ cs) = rw (mm.get_vec-empty c)

  -- A policy into which prefixes are added one after the other, each of at least one word, is built
  -- without an error. If a command begins with none of the prefixes, the heuristics' decision is that
  -- of `check`, which is no match; otherwise `check` is a match, its matches are the prefixes that
  -- the command begins with, all of them and with their decisions, in the order in which they were
  -- added, and its decision is the strictest of theirs.
  pub check-add_each :
      (added : List Addition) (cmd : List String) (f : List String → Decision)
      → (q : Policy mm) × (add_each (empty_policy mm) added ≡ ok q)
        × CheckCases mm os q cmd f (matches_of_additions added cmd) (check mm os q cmd f)
  check-add_each added cmd f =
      let (q, done, exact) = exact-add_each (empty_policy mm) added cmd in
      let matches =
        exact ∙ ap (λ l. l ++ matches_of_additions added cmd) (exact-empty_policy cmd) in
      (
        q,
        done,
        subst (λ ms. CheckCases mm os q cmd f ms (check mm os q cmd f)) matches
            (check_cases mm os q cmd f),
      )
