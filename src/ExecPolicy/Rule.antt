-- ===== src/ExecPolicy/Rule.antt =====
-- src-tauri/src/execpolicy/prefix_rule.rs: decisions, patterns of command prefixes and rules.
-- `PrefixRule` is the only implementation of the trait `Rule`, so a `RuleRef` is a `PrefixRule`.
pub mod Matching
use mosaic_desktop.Prelude.{
  ℕ, suc, ◌+◌, Bool, true, false, ◌&&◌, not, ◌||◌, Option, none, some, List, [], ◌∷◌, String,
  str_eq, length, take, any, ltb, if◌then◌else◌,
}

-- error.rs, the errors that the modelled functions return.
pub data Error : Type 0 where
  invalid_decision invalid_pattern invalid_rule : String → Error

pub data Result {ℓ} (A : Type ℓ) : Type ℓ where
  ok : A → Result A
  err : Error → Result A

pub data Decision : Type 0 where
  allow prompt forbidden : Decision

-- The derived order of the enum: `Allow < Prompt < Forbidden`.
abbrev pub rank : Decision → ℕ
rank allow = 0
rank prompt = 1
rank forbidden = 2

-- `Decision::parse`
pub parse_decision : String → Result Decision
parse_decision raw =
    if str_eq raw "allow"
    then ok allow
    else if str_eq raw "prompt"
    then ok prompt
    else if str_eq raw "forbidden"
    then ok forbidden
    else err (invalid_decision raw)

pub data PatternToken : Type 0 where
  single : String → PatternToken
  alts : List String → PatternToken

-- `PatternToken::matches`
unfoldable pub token_matches : PatternToken → String → Bool
token_matches (single expected) token = str_eq expected token
token_matches (alts alternatives) token = any (λ alt. str_eq alt token) alternatives

-- `PatternToken::alternatives`
pub alternatives : PatternToken → List String
alternatives (single expected) = expected ∷ []
alternatives (alts options) = options

pub record PrefixPattern : Type 0 where
  pub first : String
  pub rest : List PatternToken

-- The loop of `matches_prefix` over the pattern's other tokens; the caller has checked the length.
unfoldable pub rest_matches : List PatternToken → List String → Bool
rest_matches [] cmd = true
rest_matches (p ∷ ps) [] = false
rest_matches (p ∷ ps) (c ∷ cs) = token_matches p c && rest_matches ps cs

unfoldable pub matches_prefix : PrefixPattern → List String → Option (List String)
matches_prefix p [] = none
matches_prefix p (c ∷ cs) =
    let pattern_length = length p.rest + 1 in
    if ltb (length (c ∷ cs)) pattern_length || not (str_eq c p.first)
    then none
    else if rest_matches p.rest cs
    then some (take pattern_length (c ∷ cs))
    else none

-- Paths are compared and stored, never taken apart here.
pub data RuleMatch : Type 0 where
  prefix_rule_match : List String → Decision → Option String → Option String → RuleMatch
  heuristics_rule_match : List String → Decision → RuleMatch

-- `RuleMatch::decision`
unfoldable pub decision : RuleMatch → Decision
decision (prefix_rule_match matched_prefix d resolved justification) = d
decision (heuristics_rule_match command d) = d

unfoldable pub with_resolved_program : RuleMatch → String → RuleMatch
with_resolved_program (prefix_rule_match matched_prefix d _ justification) resolved =
    prefix_rule_match matched_prefix d (some resolved) justification
with_resolved_program (heuristics_rule_match command d) resolved = heuristics_rule_match command d

pub record PrefixRule : Type 0 where
  pub pattern_of : PrefixPattern
  pub decision_of : Decision
  pub justification : Option String

-- `Rule::matches` of `PrefixRule`
unfoldable pub rule_matches : PrefixRule → List String → Option RuleMatch
rule_matches r cmd = elim (matches_prefix r.pattern_of cmd) [
  | none ↦ none
  | some matched_prefix ↦ some (prefix_rule_match matched_prefix r.decision_of none r.justification)
]

pub data NetworkRuleProtocol : Type 0 where
  http https socks5_tcp socks5_udp : NetworkRuleProtocol

-- `NetworkRuleProtocol::parse`; the error carries its message's variable part.
pub parse_protocol : String → Result NetworkRuleProtocol
parse_protocol raw =
    if str_eq raw "http"
    then ok http
    else if str_eq raw "https" || (str_eq raw "https_connect" || str_eq raw "http-connect")
    then ok https
    else if str_eq raw "socks5_tcp"
    then ok socks5_tcp
    else if str_eq raw "socks5_udp"
    then ok socks5_udp
    else err (invalid_rule raw)

pub as_policy_string : NetworkRuleProtocol → String
as_policy_string http = "http"
as_policy_string https = "https"
as_policy_string socks5_tcp = "socks5_tcp"
as_policy_string socks5_udp = "socks5_udp"
