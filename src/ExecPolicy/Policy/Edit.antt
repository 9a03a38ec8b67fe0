-- ===== src/ExecPolicy/Policy/Edit.antt =====
-- What adding a rule changes about the decisions of a policy.
use mosaic_desktop.Prelude.{
  ℕ, ◌≤◌, ◌≡◌, ◌≢◌, refl, ap, ap₂, ◌∙◌, sym, inl, inr, true, false, Option, none, some, List, [],
  ◌∷◌, ◌++◌, map, length, append-nil, String, str_eq, eq_iff, arith, All, Any, Bool-cases,
  Option-cases, Any-append_right,
}
use mosaic_desktop.ExecPolicy.Rule.{
  ok, Decision, rank, single, RuleMatch, prefix_rule_match, decision, PrefixRule, rule_matches,
  matches_prefix,
}
use mosaic_desktop.ExecPolicy.Rule.Matching.{
  AcceptsAll, matches_prefix_sound, matches_prefix_complete,
}
use mosaic_desktop.ExecPolicy.RuleMap.{or_nil, MultiMap, Paths}
use mosaic_desktop.ExecPolicy.Policy.{
  Policy, is_match, from_matches, matches_of, match_exact_rules, check, add_prefix_rule,
}
use mosaic_desktop.ExecPolicy.Policy.Check.{
  from_matches-IsStrictest, exact_matches, or_heuristics, check-from_matches,
}

abbrev pub match_list : Option RuleMatch → List RuleMatch
match_list none = []
match_list (some m) = m ∷ []

pub matches_of-append :
    (rs qs : List PrefixRule) (cmd : List String)
    → matches_of (rs ++ qs) cmd ≡ matches_of rs cmd ++ matches_of qs cmd
unfolding matches_of
matches_of-append [] qs cmd = refl
matches_of-append (r ∷ rs) qs cmd = elim (Option-cases (rule_matches r cmd)) [
  | inl e ↦ rw (e, matches_of) (matches_of-append rs qs cmd)
  | inr (m, e) ↦ rw (e, matches_of) (ap (λ l. m ∷ l) (matches_of-append rs qs cmd))
]

matches_of_one :
    (r : PrefixRule) (cmd : List String) → matches_of (r ∷ []) cmd ≡ match_list (rule_matches r cmd)
unfolding matches_of
matches_of_one r cmd = elim (Option-cases (rule_matches r cmd)) [
  | inl e ↦ rw (e, matches_of)
  | inr (m, e) ↦ rw (e, matches_of)
]

-- A rule for another first word matches nothing of the command.
not-rule_matches :
    (r : PrefixRule) (c : String) (cs : List String)
    → str_eq r.pattern_of.first c ≡ false
    → rule_matches r (c ∷ cs) ≡ none
unfolding rule_matches matches_prefix
not-rule_matches r c cs h = ground (arith, eq_iff r.pattern_of.first c, eq_iff c r.pattern_of.first)

unfoldable pub prefix_rule : String → List String → Decision → PrefixRule
prefix_rule first rest d = record {
  pattern_of = record { first = first; rest = map single rest };
  decision_of = d;
  justification = none;
}

pub AcceptsAll-map-single : (ts : List String) → AcceptsAll (map single ts) ts
AcceptsAll-map-single [] = tt
AcceptsAll-map-single (t ∷ ts) = (refl, AcceptsAll-map-single ts)

pub eq_of-AcceptsAll : (ts ws : List String) → AcceptsAll (map single ts) ws → ts ≡ ws
eq_of-AcceptsAll [] [] h = refl
eq_of-AcceptsAll [] (w ∷ ws) h = absurd h
eq_of-AcceptsAll (t ∷ ts) [] h = absurd h
eq_of-AcceptsAll (t ∷ ts) (w ∷ ws) h = ap₂ ◌∷◌ h.0 (eq_of-AcceptsAll ts ws h.1)

module _ (mm : MultiMap) (os : Paths) where
  -- The matches of the rules after one `insert`: the new rule comes last.
  exact-insert :
      (p q : Policy mm) (r : PrefixRule) (cmd : List String)
      → q.rules_by_program ≡ mm.insert p.rules_by_program r.pattern_of.first r
      → cmd ≢ []
      → exact_matches mm os q cmd ≡ exact_matches mm os p cmd ++ match_list (rule_matches r cmd)
  unfolding match_exact_rules
  exact-insert p q r [] e h = absurd (h refl)
  exact-insert p q r (c ∷ cs) e h =
      let key = r.pattern_of.first in
      let old = or_nil (mm.get_vec p.rules_by_program c) in
      rw (e, mm.get_vec-insert p.rules_by_program key c r)
        (elim (Bool-cases (str_eq key c)) [
          | inl same ↦ rw same (
              matches_of-append old (r ∷ []) (c ∷ cs)
              ∙ ap (λ l. matches_of old (c ∷ cs) ++ l) (matches_of_one r (c ∷ cs)))
          | inr other ↦
              rw (other, append-nil old, not-rule_matches r c cs other) (sym (append-nil _))
        ])

  pub exact-add_prefix_rule :
      (p q : Policy mm) (first : String) (rest : List String) (d : Decision) (cmd : List String)
      → add_prefix_rule mm p (first ∷ rest) d ≡ ok q
      → exact_matches mm os q cmd
        ≡ exact_matches mm os p cmd ++ match_list (rule_matches (prefix_rule first rest d) cmd)
  unfolding add_prefix_rule match_exact_rules prefix_rule rule_matches matches_prefix
  exact-add_prefix_rule p q first rest d [] h = refl
  exact-add_prefix_rule p q first rest d (c ∷ cs) h =
      exact-insert p q (prefix_rule first rest d) (c ∷ cs) (ground arith) (λ e. cc)

rank_of_Any :
    (k : ℕ) (d : Decision) (ms : List RuleMatch)
    → All (λ m. rank (decision m) ≤ k) ms
    → Any (λ m. decision m ≡ d) ms
    → rank d ≤ k
rank_of_Any k d [] all h = absurd h
rank_of_Any k d (m ∷ ms) all (inl e) = rw (← e) all.0
rank_of_Any k d (m ∷ ms) all (inr h) = rank_of_Any k d ms all.1 h

module _ (mm : MultiMap) (os : Paths) where
  -- A decision of a matching rule bounds the decision of the check.
  pub rank-le-check :
      (p : Policy mm) (cmd : List String) (f : List String → Decision) (d : Decision)
      → Any (λ m. decision m ≡ d) (exact_matches mm os p cmd)
      → rank d ≤ rank (check mm os p cmd f).decision_of
  rank-le-check p cmd f d h =
      rw (check-from_matches mm os p cmd f) (split (exact_matches mm os p cmd) h)
    where
      split :
          (ms : List RuleMatch)
          → Any (λ m. decision m ≡ d) ms
          → rank d ≤ rank (from_matches (or_heuristics mm os ms cmd f)).decision_of
      split [] h = absurd h
      split (m ∷ ms) h = elim (from_matches-IsStrictest (m ∷ ms)) [
        | inl e ↦ absurd (omega (arith, ap length e.0))
        | inr s ↦ rank_of_Any _ d (m ∷ ms) s.above h
      ]

  -- The decision of a check that found a rule is that of one of its matches.
  pub check-Any :
      (p : Policy mm) (cmd : List String) (f : List String → Decision)
      → is_match (check mm os p cmd f) ≡ true
      → Any (λ m. decision m ≡ (check mm os p cmd f).decision_of) (exact_matches mm os p cmd)
  unfolding is_match from_matches
  check-Any p cmd f h =
      let e = check-from_matches mm os p cmd f in
      rw e (split (exact_matches mm os p cmd) (rw e at h))
    where
      split :
          (ms : List RuleMatch)
          → is_match (from_matches (or_heuristics mm os ms cmd f)) ≡ true
          → Any (λ m. decision m ≡ (from_matches (or_heuristics mm os ms cmd f)).decision_of) ms
      split [] h = cc
      split (m ∷ ms) h = elim (from_matches-IsStrictest (m ∷ ms)) [
        | inl e ↦ absurd (omega (arith, ap length e.0))
        | inr s ↦ s.attained
      ]

  -- After `add_prefix_rule(first :: rest, d)` every command that begins with these words gets a
  -- decision that is at least as strict as `d`.
  pub check-add_prefix_rule :
      (p q : Policy mm) (first : String) (rest extra : List String) (d : Decision)
      (f : List String → Decision)
      → add_prefix_rule mm p (first ∷ rest) d ≡ ok q
      → rank d ≤ rank (check mm os q (first ∷ rest ++ extra) f).decision_of
  unfolding rule_matches decision prefix_rule
  check-add_prefix_rule p q first rest extra d f h =
      let cmd = first ∷ rest ++ extra in
      let found : rule_matches (prefix_rule first rest d) cmd
          ≡ some (prefix_rule_match (first ∷ rest) d none none) =
        rw (
          rule_matches,
          matches_prefix_complete (prefix_rule first rest d).pattern_of (first ∷ rest) extra
              (refl, AcceptsAll-map-single rest),
        ) in
      rank-le-check q cmd f d (
        rw (exact-add_prefix_rule mm os p q first rest d cmd h, found)
          (Any-append_right (λ m. decision m ≡ d) (exact_matches mm os p cmd) _ (inl refl)))

  -- `add_prefix_rule(first :: rest, _)` leaves what `check` returns for every other command as it was.
  pub check-add_prefix_rule_ne :
      (p q : Policy mm) (first : String) (rest cmd : List String) (d : Decision)
      (f : List String → Decision)
      → add_prefix_rule mm p (first ∷ rest) d ≡ ok q
      → ¬ ((extra : List String) × (cmd ≡ first ∷ rest ++ extra))
      → check mm os q cmd f ≡ check mm os p cmd f
  unfolding rule_matches prefix_rule
  check-add_prefix_rule_ne p q first rest cmd d f h other =
      let r = prefix_rule first rest d in
      let nothing : rule_matches r cmd ≡ none =
        elim (Option-cases (matches_prefix r.pattern_of cmd)) [
          | inl e ↦ rw (e, rule_matches)
          | inr (words, e) ↦
              (let (covers, extra, split) = matches_prefix_sound r.pattern_of cmd words e in
                absurd (
                  other (
                    extra,
                    split
                        ∙ ap (λ l. l ++ extra) (sym (eq_of-AcceptsAll (first ∷ rest) words covers)),
                  )))
        ] in
      let same : exact_matches mm os q cmd ≡ exact_matches mm os p cmd =
        exact-add_prefix_rule mm os p q first rest d cmd h ∙ rw nothing (append-nil _) in
      check-from_matches mm os q cmd f
      ∙ ap (λ ms. from_matches (or_heuristics mm os ms cmd f)) same
      ∙ sym (check-from_matches mm os p cmd f)
