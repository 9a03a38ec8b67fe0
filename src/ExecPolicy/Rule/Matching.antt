-- ===== src/ExecPolicy/Rule/Matching.antt =====
-- `matches_prefix` decides whether a command begins with words that a pattern accepts.
use mosaic_desktop.Prelude.{
  suc, ◌+◌, ◌≡◌, refl, ap, sym, ◌∙◌, subst, ◌↔◌, ◌⊎◌, inl, inr, true, false, none, some, List, [],
  ◌∷◌, ◌++◌, String, str_eq, eq_iff, length, take, any, ltb, arith, Bool-cases, length-append, drop,
  take-append-drop,
}
use mosaic_desktop.ExecPolicy.Rule.{
  ok, PatternToken, single, alts, token_matches, PrefixPattern, rest_matches, matches_prefix,
  PrefixRule, prefix_rule_match, rule_matches, NetworkRuleProtocol, http, https, socks5_tcp,
  socks5_udp, parse_protocol, as_policy_string,
}

-- One of the alternatives is the token.
abbrev pub IsOneOf : List String → String → Type 0
IsOneOf [] token = ⊥
IsOneOf (a ∷ as') token = (a ≡ token) ⊎ IsOneOf as' token

-- What a pattern token stands for.
abbrev pub Accepts : PatternToken → String → Type 0
Accepts (single expected) token = expected ≡ token
Accepts (alts options) token = IsOneOf options token

-- Word by word, and as many words as tokens.
abbrev pub AcceptsAll : List PatternToken → List String → Type 0
AcceptsAll [] [] = Unit
AcceptsAll [] (t ∷ ts) = ⊥
AcceptsAll (p ∷ ps) [] = ⊥
AcceptsAll (p ∷ ps) (t ∷ ts) = Accepts p t × AcceptsAll ps ts

-- `words` are as the pattern says.
abbrev pub Covers : PrefixPattern → List String → Type 0
Covers p words = AcceptsAll (single p.first ∷ p.rest) words

any-IsOneOf : (as' : List String) (t : String) → any (λ a. str_eq a t) as' ≡ true → IsOneOf as' t
any-IsOneOf [] t h = cc
any-IsOneOf (a ∷ as') t h = elim (Bool-cases (str_eq a t)) [
  | inl e ↦ inl ((eq_iff a t).0 e)
  | inr e ↦ inr (any-IsOneOf as' t (ground arith))
]

IsOneOf-any : (as' : List String) (t : String) → IsOneOf as' t → any (λ a. str_eq a t) as' ≡ true
IsOneOf-any [] t h = absurd h
IsOneOf-any (a ∷ as') t (inl e) = rw ((eq_iff a t).1 e)
IsOneOf-any (a ∷ as') t (inr m) = ground (arith, IsOneOf-any as' t m)

token_matches-Accepts : (p : PatternToken) (t : String) → token_matches p t ≡ true → Accepts p t
unfolding token_matches
token_matches-Accepts (single e) t h = (eq_iff e t).0 h
token_matches-Accepts (alts options) t h = any-IsOneOf options t h

Accepts-token_matches : (p : PatternToken) (t : String) → Accepts p t → token_matches p t ≡ true
unfolding token_matches
Accepts-token_matches (single e) t h = (eq_iff e t).1 h
Accepts-token_matches (alts options) t h = IsOneOf-any options t h

rest_matches-AcceptsAll :
    (ps : List PatternToken) (cs : List String)
    → rest_matches ps cs ≡ true
    → AcceptsAll ps (take (length ps) cs)
unfolding rest_matches
rest_matches-AcceptsAll [] cs h = tt
rest_matches-AcceptsAll (p ∷ ps) [] h = cc
rest_matches-AcceptsAll (p ∷ ps) (c ∷ cs) h =
    (token_matches-Accepts p c (ground arith), rest_matches-AcceptsAll ps cs (ground arith))

AcceptsAll-rest_matches :
    (ps : List PatternToken) (words extra : List String)
    → AcceptsAll ps words
    → rest_matches ps (words ++ extra) ≡ true
unfolding rest_matches
AcceptsAll-rest_matches [] words extra h = refl
AcceptsAll-rest_matches (p ∷ ps) [] extra h = absurd h
AcceptsAll-rest_matches (p ∷ ps) (w ∷ ws) extra h =
    rw (Accepts-token_matches p w h.0) (AcceptsAll-rest_matches ps ws extra h.1)

length-AcceptsAll :
    (ps : List PatternToken) (words : List String) → AcceptsAll ps words → length words ≡ length ps
length-AcceptsAll [] [] h = refl
length-AcceptsAll [] (w ∷ ws) h = absurd h
length-AcceptsAll (p ∷ ps) [] h = absurd h
length-AcceptsAll (p ∷ ps) (w ∷ ws) h = ap suc (length-AcceptsAll ps ws h.1)

take-length-append {ℓ} : {A : Type ℓ} (xs ys : List A) → take (length xs) (xs ++ ys) ≡ xs
take-length-append [] ys = refl
take-length-append (x ∷ xs) ys = ap (λ l. x ∷ l) (take-length-append xs ys)

-- A pattern matches a command exactly where the command is some words that the pattern covers,
-- followed by any others; those words are what `matches_prefix` returns.
pub matches_prefix_sound :
    (p : PrefixPattern) (cmd words : List String)
    → matches_prefix p cmd ≡ some words
    → Covers p words × (extra : List String) × (cmd ≡ words ++ extra)
unfolding matches_prefix
matches_prefix_sound p [] words h = cc
matches_prefix_sound p (c ∷ cs) words h =
    let found : (str_eq c p.first ≡ true)
        × (rest_matches p.rest cs ≡ true)
        × (take (length p.rest + 1) (c ∷ cs) ≡ words) =
      ground arith in
    let n : length p.rest + 1 ≡ suc (length p.rest) = omega arith in
    let words_are : c ∷ take (length p.rest) cs ≡ words =
      ap (λ k. take k (c ∷ cs)) (sym n) ∙ found.2 in
    (
      subst (Covers p) words_are
          (sym ((eq_iff c p.first).0 found.0), rest_matches-AcceptsAll p.rest cs found.1),
      drop (length p.rest) cs,
      rw (← words_are) (ap (λ l. c ∷ l) (sym (take-append-drop (length p.rest) cs))),
    )

pub matches_prefix_complete :
    (p : PrefixPattern) (words extra : List String)
    → Covers p words
    → matches_prefix p (words ++ extra) ≡ some words
unfolding matches_prefix
matches_prefix_complete p [] extra h = absurd h
matches_prefix_complete p (w ∷ ws) extra h =
    let len = length-AcceptsAll p.rest ws h.1 in
    let first : str_eq w p.first ≡ true = (eq_iff w p.first).1 (sym h.0) in
    let rest = AcceptsAll-rest_matches p.rest ws extra h.1 in
    let all = length-append ws extra in
    let n : length p.rest + 1 ≡ length (w ∷ ws) = omega arith in
    let long : ltb (suc (length (ws ++ extra))) (length p.rest + 1) ≡ false = ground (arith, all) in
    rw (long, first, rest, n) (ap some (take-length-append (w ∷ ws) extra))

-- A rule matches a command exactly where the command begins with words that its pattern covers:
-- then the match names those words, with the rule's decision and justification.
pub rule_matches_iff :
    (r : PrefixRule) (cmd words : List String)
    → (rule_matches r cmd ≡ some (prefix_rule_match words r.decision_of none r.justification))
      ↔ (Covers r.pattern_of words × (extra : List String) × (cmd ≡ words ++ extra))
unfolding rule_matches
rule_matches_iff r cmd words = (
  λ h. matches_prefix_sound r.pattern_of cmd words (ground arith),
  λ c. rw (c.2, rule_matches, matches_prefix_complete r.pattern_of words c.1 c.0),
)

-- The four protocols are read back from the strings that they are written as.
pub parse_protocol-as_policy_string :
    (p : NetworkRuleProtocol) → parse_protocol (as_policy_string p) ≡ ok p
unfolding parse_protocol as_policy_string
parse_protocol-as_policy_string http = refl
parse_protocol-as_policy_string https = refl
parse_protocol-as_policy_string socks5_tcp = refl
parse_protocol-as_policy_string socks5_udp = refl
