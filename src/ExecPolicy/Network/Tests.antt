-- ===== src/ExecPolicy/Network/Tests.antt =====
-- Runs of the network rules, and their theorems at concrete hosts.
use mosaic_desktop.Prelude.{
  ◌≡◌, ◌≢◌, refl, ◌&&◌, false, none, [], ◌∷◌, codes, trim, is_whitespace, any,
}
use mosaic_desktop.ExecPolicy.Rule.{ok, Decision, allow, forbidden, https}
use mosaic_desktop.ExecPolicy.Network.{
  NetworkRule, contains_str, rsplit_once, count_char, is_ascii_digit, is_port, strip_port,
  unwrap_host, validate, lower_host, to_ascii_lowercase, has_scheme_or_path,
  normalize_network_rule_host, compiled_network_domains,
}
use mosaic_desktop.ExecPolicy.Network.Host.{forbidden_char, normalize_network_rule_host_lem}
use mosaic_desktop.ExecPolicy.Network.Domains.{
  lists, last_decision, is_allow, is_forbidden, compiled_network_domains_lem,
}

host_kept : normalize_network_rule_host (codes " API.GitHub.com:443 ") ≡ ok (codes "api.github.com")
unfolding normalize_network_rule_host trim contains_str has_scheme_or_path unwrap_host count_char
    strip_port rsplit_once is_port is_ascii_digit lower_host to_ascii_lowercase validate
    is_whitespace
host_kept = refl

normalize_network_rule_host_lem_example :
    (codes "api.github.com" ≢ []) × (any forbidden_char (codes "api.github.com") ≡ false)
normalize_network_rule_host_lem_example =
    normalize_network_rule_host_lem (codes " API.GitHub.com:443 ") (codes "api.github.com")
      host_kept

abbrev rule : Decision → NetworkRule
rule d = record { host = codes "a.b"; protocol = https; decision_of = d; justification = none }

compiled_network_domains_lem_example :
    let rules = rule allow ∷ rule forbidden ∷ [] in
    let (allowed, denied) = compiled_network_domains rules in
    (lists (codes "a.b") allowed ≡ is_allow (last_decision (codes "a.b") rules) false)
    × (lists (codes "a.b") denied ≡ is_forbidden (last_decision (codes "a.b") rules) false)
    × ((lists (codes "a.b") allowed && lists (codes "a.b") denied) ≡ false)
compiled_network_domains_lem_example =
    compiled_network_domains_lem (codes "a.b") (rule allow ∷ rule forbidden ∷ [])
