-- ===== src/ExecPolicy/Policy/Check.antt =====
-- What a policy decides: the strictest of the matches, rules before heuristics.
use mosaic_desktop.Prelude.{
  length, ℕ, ◌≤◌, ◌≡◌, refl, ap, sym, subst, inl, inr, ◌⊎◌, true, false, Option, none, some, List,
  [], ◌∷◌, String, arith, All, Any, ltb, if◌then◌else◌, Bool-cases,
}
use mosaic_desktop.ExecPolicy.Rule.{
  Decision, prompt, rank, RuleMatch, heuristics_rule_match, decision, PrefixRule, rule_matches,
}
use mosaic_desktop.ExecPolicy.RuleMap.{or_nil, MultiMap, Paths}
use mosaic_desktop.ExecPolicy.Policy.{
  Policy, is_empty, Evaluation, max_decision, max_of, from_matches, is_match, is_rule_match,
  matches_of, match_exact_rules, matched, matches_for_command_with_options, check_with_options,
  check,
}

-- `d` is the strictest decision of the matches.
pub record IsStrictest (d : Decision) (ms : List RuleMatch) : Type 0 where
  pub above : All (λ m. rank (decision m) ≤ rank d) ms
  pub attained : Any (λ m. decision m ≡ d) ms

All-le_trans :
    (a b : ℕ) (ms : List RuleMatch)
    → a ≤ b
    → All (λ m. rank (decision m) ≤ a) ms
    → All (λ m. rank (decision m) ≤ b) ms
All-le_trans a b [] h all = tt
All-le_trans a b (m ∷ ms) h all = (omega arith, All-le_trans a b ms h all.1)

max_decision_left : (a b : Decision) → rank a ≤ rank (max_decision a b)
max_decision_left a b = ground arith

max_decision_right : (a b : Decision) → rank b ≤ rank (max_decision a b)
max_decision_right a b = ground arith

attained_max :
    (m : RuleMatch) (ms : List RuleMatch) (d : Decision)
    → Any (λ n. decision n ≡ d) ms
    → Any (λ n. decision n ≡ max_decision (decision m) d) (m ∷ ms)
attained_max m ms d h = elim (Bool-cases (ltb (rank d) (rank (decision m)))) [
  | inl e ↦ rw e (inl refl)
  | inr e ↦
      let same : max_decision (decision m) d ≡ d = rw e in
      inr (subst (λ k. Any (λ n. decision n ≡ k) ms) (sym same) h)
]

max_of-IsStrictest :
    (m : RuleMatch) (ms : List RuleMatch)
    → (d : Decision) × (max_of (m ∷ ms) ≡ some d) × IsStrictest d (m ∷ ms)
unfolding max_of
max_of-IsStrictest m [] =
    (decision m, refl, record { above = (omega arith, tt); attained = inl refl })
max_of-IsStrictest m (n ∷ ns) =
    let ih = max_of-IsStrictest n ns in
    let d : Decision = max_decision (decision m) ih.0 in
    (
      d,
      rw (ih.1, max_of),
      record {
        above = (
          max_decision_left (decision m) ih.0,
          All-le_trans (rank ih.0) (rank d) (n ∷ ns) (max_decision_right (decision m) ih.0)
              ih.2.above,
        );
        attained = attained_max m (n ∷ ns) ih.0 ih.2.attained;
      },
    )

-- The decision of an evaluation is the strictest of its matches (`forbidden` before `prompt` before
-- `allow`), and one of them has it; with no match at all it is `prompt`.
pub from_matches-IsStrictest :
    (ms : List RuleMatch)
    → ((ms ≡ []) × ((from_matches ms).decision_of ≡ prompt))
      ⊎ IsStrictest (from_matches ms).decision_of ms
unfolding from_matches
from_matches-IsStrictest [] = inl (refl, unfold max_of in refl)
from_matches-IsStrictest (m ∷ ms) =
    let found = max_of-IsStrictest m ms in rw (found.1, from_matches) (inr found.2)

module _ (mm : MultiMap) (os : Paths) where
  -- The matches of the rules listed for the command's first word.
  abbrev pub exact_matches : Policy mm → List String → List RuleMatch
  exact_matches p cmd = or_nil (match_exact_rules mm os p cmd)

  matched-exact :
      (p : Policy mm) (cmd : List String) → matched mm os p cmd false ≡ exact_matches p cmd
  unfolding matched
  matched-exact p cmd = split (match_exact_rules mm os p cmd) refl
    where
      split :
          (o : Option (List RuleMatch))
          → match_exact_rules mm os p cmd ≡ o
          → matched mm os p cmd false ≡ or_nil o
      split none e = rw (e, matched)
      split (some []) e = rw (e, matched)
      split (some (m ∷ ms)) e = rw (e, matched)

  -- Without a rule match the heuristics decide; with one they are not asked.
  abbrev pub or_heuristics :
      List RuleMatch → List String → (List String → Decision) → List RuleMatch
  or_heuristics [] cmd fallback = heuristics_rule_match cmd (fallback cmd) ∷ []
  or_heuristics (m ∷ ms) cmd fallback = m ∷ ms

  matches-or_heuristics :
      (p : Policy mm) (cmd : List String) (f : List String → Decision)
      → matches_for_command_with_options mm os p cmd (some f) false
        ≡ or_heuristics (exact_matches p cmd) cmd f
  unfolding matches_for_command_with_options
  matches-or_heuristics p cmd f =
      rw (matches_for_command_with_options, matched-exact p cmd) (split (exact_matches p cmd))
    where
      split :
          (ms : List RuleMatch)
          → (if is_empty ms then heuristics_rule_match cmd (f cmd) ∷ [] else ms)
            ≡ or_heuristics ms cmd f
      split [] = refl
      split (m ∷ ms) = refl

  pub check-from_matches :
      (p : Policy mm) (cmd : List String) (f : List String → Decision)
      → check mm os p cmd f ≡ from_matches (or_heuristics (exact_matches p cmd) cmd f)
  unfolding check check_with_options
  check-from_matches p cmd f = ap from_matches (matches-or_heuristics p cmd f)

any-matches_of :
    (rs : List PrefixRule) (cmd : List String) (m : RuleMatch) (ms : List RuleMatch)
    → matches_of rs cmd ≡ m ∷ ms
    → is_rule_match m ≡ true
unfolding matches_of rule_matches
any-matches_of [] cmd m ms h = cc
any-matches_of (r ∷ rs) cmd m ms h = ground (arith, any-matches_of rs cmd m ms)

exact-is_rule_match :
    (mm : MultiMap) (os : Paths) (p : Policy mm) (cmd : List String) (m : RuleMatch)
    (ms : List RuleMatch)
    → exact_matches mm os p cmd ≡ m ∷ ms
    → is_rule_match m ≡ true
unfolding match_exact_rules
exact-is_rule_match mm os p [] m ms h = cc
exact-is_rule_match mm os p (c ∷ cs) m ms h =
    any-matches_of (or_nil (mm.get_vec p.rules_by_program c)) (c ∷ cs) m ms h

module _ (mm : MultiMap) (os : Paths) (p : Policy mm) (cmd : List String)
    (f : List String → Decision) where
  -- What `check` returns, by the matches of the rules.
  abbrev pub CheckCases : List RuleMatch → Evaluation → Type 0
  CheckCases ms e =
      ((ms ≡ [])
        × (e ≡ record {
          decision_of = f cmd;
          matched_rules = heuristics_rule_match cmd (f cmd) ∷ [];
        })
        × (is_match e ≡ false))
      ⊎ ((e.matched_rules ≡ ms) × (is_match e ≡ true) × IsStrictest e.decision_of ms)

  -- `check` asks the heuristics exactly where no rule matches the command: then their decision is
  -- the decision, and the evaluation is no match. Otherwise its matches are those of the rules, it
  -- is a match, and its decision is the strictest of them.
  pub check_cases : CheckCases (exact_matches mm os p cmd) (check mm os p cmd f)
  unfolding is_match from_matches max_of decision
  check_cases = rw (check-from_matches mm os p cmd f) (split (exact_matches mm os p cmd) refl)
    where
      split :
          (ms : List RuleMatch)
          → exact_matches mm os p cmd ≡ ms
          → CheckCases ms (from_matches (or_heuristics mm os ms cmd f))
      split [] e = inl (refl, refl, refl)
      split (m ∷ ms) e =
          let strict : IsStrictest (from_matches (m ∷ ms)).decision_of (m ∷ ms) =
            elim (from_matches-IsStrictest (m ∷ ms)) [
              | inl none_left ↦ absurd (omega (arith, ap length none_left.0))
              | inr s ↦ s
            ] in
          inr (refl, rw (exact-is_rule_match mm os p cmd m ms e), strict)
