-- ===== src/ExecPolicy/Network/Domains.antt =====
-- The compiled lists of domains follow, for each host, the last rule that allows or forbids it.
use mosaic_desktop.Prelude.{
  ◌≡◌, refl, Bool, true, false, ◌&&◌, ◌||◌, Option, none, some, List, [], ◌∷◌, ◌++◌, Text, text_eq,
  text_eq_iff, any, arith, if◌then◌else◌,
}
use mosaic_desktop.ExecPolicy.Rule.{Decision, allow, prompt, forbidden}
use mosaic_desktop.ExecPolicy.Network.{
  NetworkRule, remove_domain, upsert_domain, apply_rule, compile_from, compiled_network_domains,
}

-- `host` is listed.
abbrev pub lists : Text → List Text → Bool
lists host = any (λ e. text_eq e host)

abbrev pub settled : Decision → Option Decision
settled allow = some allow
settled prompt = none
settled forbidden = some forbidden

-- What the last rule for `host` that is no prompt decides.
pub last_decision : Text → List NetworkRule → Option Decision
last_decision host [] = none
last_decision host (r ∷ rs) = elim (last_decision host rs) [
  | some d ↦ some d
  | none ↦ if text_eq r.host host then settled r.decision_of else none
]

abbrev pub is_allow : Option Decision → Bool → Bool
is_allow none before = before
is_allow (some allow) before = true
is_allow (some prompt) before = false
is_allow (some forbidden) before = false

abbrev pub is_forbidden : Option Decision → Bool → Bool
is_forbidden none before = before
is_forbidden (some allow) before = false
is_forbidden (some prompt) before = false
is_forbidden (some forbidden) before = true

lists-remove_domain :
    (h host : Text) (es : List Text)
    → lists h (remove_domain es host) ≡ (if text_eq host h then false else lists h es)
unfolding remove_domain
lists-remove_domain h host [] = ground arith
lists-remove_domain h host (e ∷ es) =
    ground (
      arith,
      lists-remove_domain h host es,
      text_eq_iff e host,
      text_eq_iff host h,
      text_eq_iff e h,
    )

lists-append : (h : Text) (xs ys : List Text) → lists h (xs ++ ys) ≡ lists h xs || lists h ys
lists-append h [] ys = refl
lists-append h (x ∷ xs) ys = ground (arith, lists-append h xs ys)

lists-upsert_domain :
    (h host : Text) (es : List Text)
    → lists h (upsert_domain es host) ≡ (if text_eq host h then true else lists h es)
unfolding upsert_domain
lists-upsert_domain h host es =
    ground
      (arith, lists-append h (remove_domain es host) (host ∷ []), lists-remove_domain h host es)

lists-apply_rule :
    (h : Text) (ds : List Text × List Text) (r : NetworkRule)
    → let d = (if text_eq r.host h then settled r.decision_of else none) in
      (lists h (apply_rule ds r).0 ≡ is_allow d (lists h ds.0))
      × (lists h (apply_rule ds r).1 ≡ is_forbidden d (lists h ds.1))
unfolding apply_rule
lists-apply_rule h (allowed, denied) r = ground (
  arith,
  lists-upsert_domain h r.host allowed,
  lists-upsert_domain h r.host denied,
  lists-remove_domain h r.host allowed,
  lists-remove_domain h r.host denied,
)

lists-compile_from :
    (h : Text) (ds : List Text × List Text) (rs : List NetworkRule)
    → (lists h (compile_from ds rs).0 ≡ is_allow (last_decision h rs) (lists h ds.0))
      × (lists h (compile_from ds rs).1 ≡ is_forbidden (last_decision h rs) (lists h ds.1))
unfolding compile_from last_decision
lists-compile_from h ds [] = (refl, refl)
lists-compile_from h ds (r ∷ rs) =
    ground (arith, lists-compile_from h (apply_rule ds r) rs, lists-apply_rule h ds r)

-- A host is listed as allowed exactly where the last rule for it that is no prompt allows it, and as
-- denied exactly where that rule forbids it; no host is listed as both.
pub compiled_network_domains_lem :
    (h : Text) (rules : List NetworkRule)
    → let (allowed, denied) = compiled_network_domains rules in
      (lists h allowed ≡ is_allow (last_decision h rules) false)
      × (lists h denied ≡ is_forbidden (last_decision h rules) false)
      × ((lists h allowed && lists h denied) ≡ false)
unfolding compiled_network_domains
compiled_network_domains_lem h rules =
    let found = lists-compile_from h ([], []) rules in (found.0, found.1, ground (arith, found))
