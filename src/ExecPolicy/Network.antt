-- ===== src/ExecPolicy/Network.antt =====
-- src-tauri/src/execpolicy/network_rule.rs, and `add_network_rule` and `compiled_network_domains` of
-- mod.rs. A host is the list of its characters.
pub mod Domains
pub mod Host
mod Tests
use mosaic_desktop.Prelude.{
  ℕ, suc, ◌+◌, Bool, true, false, not, ◌&&◌, ◌||◌, Option, none, some, List, [], ◌∷◌, ◌++◌, map,
  String, Text, codes, text_eq, starts_with, trim, trim_end_matches, is_whitespace, any, all,
  retain, leb, ◌==◌, if◌then◌else◌,
}
use mosaic_desktop.ExecPolicy.Rule.{
  Result, ok, err, invalid_rule, Decision, allow, prompt, forbidden, NetworkRuleProtocol,
}

pub record NetworkRule : Type 0 where
  pub host : Text
  pub protocol : NetworkRuleProtocol
  pub decision_of : Decision
  pub justification : Option Text

abbrev pub is_empty : Text → Bool
is_empty [] = true
is_empty (c ∷ s) = false

-- `s.contains(pat)`
contains_str : Text → Text → Bool
contains_str [] pat = starts_with [] pat
contains_str (c ∷ s) pat = starts_with (c ∷ s) pat || contains_str s pat

-- `s.contains(c)`
abbrev pub contains_char : Text → ℕ → Bool
contains_char s c = any (λ d. d == c) s

-- `s.matches(c).count()`
count_char : Text → ℕ → ℕ
count_char [] c = 0
count_char (d ∷ s) c = let n = count_char s c in if d == c then suc n else n

-- `s.split_once(c)` and `s.rsplit_once(c)`
abbrev pub before : ℕ → Option (Text × Text) → Option (Text × Text)
before d none = none
before d (some (a, b)) = some (d ∷ a, b)

pub split_once : ℕ → Text → Option (Text × Text)
split_once c [] = none
split_once c (d ∷ s) = let rest = before d (split_once c s) in if d == c then some ([], s) else rest

pub rsplit_once : ℕ → Text → Option (Text × Text)
rsplit_once c [] = none
rsplit_once c (d ∷ s) = elim (rsplit_once c s) [
  | some (a, b) ↦ some (d ∷ a, b)
  | none ↦ if d == c then some ([], s) else none
]

is_ascii_digit : ℕ → Bool
is_ascii_digit c = leb b'0' c && leb c b'9'

pub to_ascii_lowercase : ℕ → ℕ
to_ascii_lowercase c = if leb b'A' c && leb c b'Z' then c + 32 else c

is_port : Text → Bool
is_port port = not (is_empty port) && all is_ascii_digit port

-- The suffix behind a bracketed literal: nothing, or a port.
suffix_ok : Text → Bool
suffix_ok [] = true
suffix_ok (c ∷ s) = (c == b':') && is_port s

-- `if let Some((inside, rest)) = stripped.split_once(']')`
strip_brackets : Option (Text × Text) → Result Text
strip_brackets none = err (invalid_rule "network_rule host has an invalid bracketed IPv6 literal")
strip_brackets (some (inside, rest)) =
    if suffix_ok rest
    then ok inside
    else err (invalid_rule "network_rule host contains an unsupported suffix")

-- `if let Some((candidate, port)) = host.rsplit_once(':')`
strip_port : Text → Option (Text × Text) → Text
strip_port host none = host
strip_port host (some (candidate, port)) =
    if not (is_empty candidate) && is_port port then candidate else host

-- The branches on `[` and on a single `:`.
unwrap_host : Text → Result Text
unwrap_host [] = ok []
unwrap_host (c ∷ s) =
    if c == b'['
    then strip_brackets (split_once b']' s)
    else if count_char (c ∷ s) b':' == 1
    then ok (strip_port (c ∷ s) (rsplit_once b':' (c ∷ s)))
    else ok (c ∷ s)

-- The tests at the end.
validate : Text → Result Text
validate normalized =
    if is_empty normalized
    then err (invalid_rule "network_rule host cannot be empty")
    else if contains_char normalized b'*'
    then err (invalid_rule "network_rule host must be a specific host; wildcards are not allowed")
    else if any is_whitespace normalized
    then err (invalid_rule "network_rule host cannot contain whitespace")
    else ok normalized

lower_host : Text → Text
lower_host host = map to_ascii_lowercase (trim (trim_end_matches (λ c. c == b'.') host))

has_scheme_or_path : Text → Bool
has_scheme_or_path host =
    contains_str host (codes "://")
    || (contains_char host b'/' || (contains_char host b'?' || contains_char host b'#'))

pub normalize_network_rule_host : Text → Result Text
normalize_network_rule_host raw =
    let host = trim raw in
    if is_empty host
    then err (invalid_rule "network_rule host cannot be empty")
    else if has_scheme_or_path host
    then err
        (invalid_rule "network_rule host must be a hostname or IP literal (without scheme or path)")
    else elim (unwrap_host host) [ err e ↦ err e | ok inner ↦ validate (lower_host inner) ]

-- `if let Some(raw) = justification.as_deref()`
blank_justification : Option Text → Bool
blank_justification none = false
blank_justification (some raw) = is_empty (trim raw)

-- `add_network_rule`, on the list of the policy's network rules.
pub add_network_rule :
    List NetworkRule
    → Text
    → NetworkRuleProtocol
    → Decision
    → Option Text
    → Result (List NetworkRule)
add_network_rule rules host protocol d justification = elim (normalize_network_rule_host host) [
  | err e ↦ err e
  | ok normalized ↦
      if blank_justification justification
      then err (invalid_rule "justification cannot be empty")
      else ok (
          rules
          ++ record {
            host = normalized;
            protocol = protocol;
            decision_of = d;
            justification = justification;
          }
            ∷ [])
]

-- `entries.retain(|e| e != host)`
pub remove_domain : List Text → Text → List Text
remove_domain entries host = retain (λ e. not (text_eq e host)) entries

pub upsert_domain : List Text → Text → List Text
upsert_domain entries host = remove_domain entries host ++ host ∷ []

-- One round of the loop of `compiled_network_domains`.
pub apply_rule : List Text × List Text → NetworkRule → List Text × List Text
apply_rule (allowed, denied) rule = elim rule.decision_of [
  | allow ↦ (upsert_domain allowed rule.host, remove_domain denied rule.host)
  | forbidden ↦ (remove_domain allowed rule.host, upsert_domain denied rule.host)
  | prompt ↦ (allowed, denied)
]

pub compile_from : List Text × List Text → List NetworkRule → List Text × List Text
compile_from domains [] = domains
compile_from domains (rule ∷ rules) = compile_from (apply_rule domains rule) rules

pub compiled_network_domains : List NetworkRule → List Text × List Text
compiled_network_domains = compile_from ([], [])
