-- ===== src/ExecPolicy/Network/Host.antt =====
-- What `normalize_network_rule_host` accepts, it returns in a form that a host may have.
use mosaic_desktop.Prelude.{
  ℕ, ◌≡◌, ◌≢◌, refl, ap, Bool, false, ◌&&◌, ◌||◌, some, [], ◌∷◌, map, Text, trim, trim_start,
  trim_start_matches, trim_end_matches, cons_unless_blank, is_whitespace, any, arith, leb, ◌==◌,
  Bool-cases, inl, inr, Option-cases,
}
use mosaic_desktop.ExecPolicy.Rule.{Result, ok, err}
use mosaic_desktop.ExecPolicy.Network.{
  is_empty, contains_char, split_once, rsplit_once, to_ascii_lowercase, strip_brackets, strip_port,
  unwrap_host, validate, lower_host, has_scheme_or_path, normalize_network_rule_host,
}

-- A character of a host: no separator of schemes and paths, no wildcard, no space, no capital.
abbrev pub forbidden_char : ℕ → Bool
forbidden_char c =
    (c == b'/')
    || (c == b'?')
    || (c == b'#')
    || (c == b'*')
    || is_whitespace c
    || (leb b'A' c && leb c b'Z')

-- The characters that the scheme test refuses.
abbrev separator : ℕ → Bool
separator c = (c == b'/') || ((c == b'?') || (c == b'#'))

abbrev Clean : Text → Type 0
Clean s = any separator s ≡ false

Clean-trim_start_matches : (p : ℕ → Bool) (s : Text) → Clean s → Clean (trim_start_matches p s)
Clean-trim_start_matches p [] h = h
Clean-trim_start_matches p (c ∷ s) h = ground (arith, Clean-trim_start_matches p s)

Clean-cons_unless_blank :
    (p : ℕ → Bool) (c : ℕ) (s : Text)
    → separator c ≡ false
    → Clean s
    → Clean (cons_unless_blank p c s)
Clean-cons_unless_blank p c [] h k = ground arith
Clean-cons_unless_blank p c (d ∷ s) h k = ground arith

Clean-trim_end_matches : (p : ℕ → Bool) (s : Text) → Clean s → Clean (trim_end_matches p s)
Clean-trim_end_matches p [] h = h
Clean-trim_end_matches p (c ∷ s) h =
    Clean-cons_unless_blank p c (trim_end_matches p s) (ground arith)
      (Clean-trim_end_matches p s (ground arith))

Clean-trim : (s : Text) → Clean s → Clean (trim s)
unfolding trim
Clean-trim s h =
    Clean-trim_end_matches is_whitespace (trim_start s) (Clean-trim_start_matches is_whitespace s h)

Clean-split_once : (c : ℕ) (s a b : Text) → Clean s → split_once c s ≡ some (a, b) → Clean a
unfolding split_once
Clean-split_once c [] a b h e = cc
Clean-split_once c (d ∷ s) a b h e = elim (Bool-cases (d == c)) [
  | inl here ↦ ground arith
  | inr later ↦ elim (Option-cases (split_once c s)) [
    | inl n ↦ ground arith
    | inr (ab, n) ↦ ground (arith, Clean-split_once c s ab.0 ab.1)
  ]
]

Clean-rsplit_once : (c : ℕ) (s a b : Text) → Clean s → rsplit_once c s ≡ some (a, b) → Clean a
unfolding rsplit_once
Clean-rsplit_once c [] a b h e = cc
Clean-rsplit_once c (d ∷ s) a b h e = elim (Option-cases (rsplit_once c s)) [
  | inl n ↦ ground arith
  | inr (ab, n) ↦ ground (arith, Clean-rsplit_once c s ab.0 ab.1)
]

Clean-unwrap_host : (s inner : Text) → Clean s → unwrap_host s ≡ ok inner → Clean inner
unfolding unwrap_host
Clean-unwrap_host [] inner h e = ground arith
Clean-unwrap_host (c ∷ s) inner h e = elim (Bool-cases (c == b'[')) [
  | inl bracket ↦ elim (Option-cases (split_once b']' s)) [
    | inl n ↦ unfold strip_brackets in ground arith
    | inr (ab, n) ↦ unfold strip_brackets in ground (arith, Clean-split_once b']' s ab.0 ab.1)
  ]
  | inr plain ↦ elim (Option-cases (rsplit_once b':' (c ∷ s))) [
    | inl n ↦ unfold strip_port in ground arith
    | inr (ab, n) ↦ unfold strip_port in ground (arith, Clean-rsplit_once b':' (c ∷ s) ab.0 ab.1)
  ]
]

abbrev upper : ℕ → Bool
upper c = leb b'A' c && leb c b'Z'

lower_char :
    (c : ℕ)
    → (separator (to_ascii_lowercase c) ≡ separator c) × (upper (to_ascii_lowercase c) ≡ false)
unfolding to_ascii_lowercase
lower_char c = ground arith

Clean-map_lower :
    (s : Text)
    → Clean s
    → Clean (map to_ascii_lowercase s) × (any upper (map to_ascii_lowercase s) ≡ false)
Clean-map_lower [] h = (refl, refl)
Clean-map_lower (c ∷ s) h = ground (arith, lower_char c, Clean-map_lower s)

Clean-lower_host : (s : Text) → Clean s → Clean (lower_host s) × (any upper (lower_host s) ≡ false)
unfolding lower_host
Clean-lower_host s h =
    Clean-map_lower _ (Clean-trim _ (Clean-trim_end_matches (λ c. c == b'.') s h))

Clean-host : (s : Text) → has_scheme_or_path s ≡ false → Clean s
unfolding has_scheme_or_path
Clean-host s h = go s (ground arith) (ground arith) (ground arith)
  where
    go :
        (t : Text)
        → contains_char t b'/' ≡ false
        → contains_char t b'?' ≡ false
        → contains_char t b'#' ≡ false
        → Clean t
    go [] a b c = refl
    go (d ∷ t) a b c = ground (arith, go t)

no_forbidden_char :
    (s : Text)
    → Clean s
    → any upper s ≡ false
    → contains_char s b'*' ≡ false
    → any is_whitespace s ≡ false
    → any forbidden_char s ≡ false
no_forbidden_char [] a b c d = refl
no_forbidden_char (x ∷ s) a b c d = ground (arith, no_forbidden_char s)

validate_lem :
    (s host : Text)
    → validate s ≡ ok host
    → (host ≡ s)
      × (is_empty host ≡ false)
      × (contains_char host b'*' ≡ false)
      × (any is_whitespace host ≡ false)
unfolding validate
validate_lem s host h = ground arith

-- The tests that a host has passed, and what was validated.
normalize_steps :
    (raw host : Text)
    → normalize_network_rule_host raw ≡ ok host
    → (inner : Text) × (has_scheme_or_path (trim raw) ≡ false)
      × (unwrap_host (trim raw) ≡ ok inner)
      × (validate (lower_host inner) ≡ ok host)
unfolding normalize_network_rule_host
normalize_steps raw host h = split (unwrap_host (trim raw)) refl
  where
    split :
        (r : Result Text)
        → unwrap_host (trim raw) ≡ r
        → (inner : Text) × (has_scheme_or_path (trim raw) ≡ false)
          × (unwrap_host (trim raw) ≡ ok inner)
          × (validate (lower_host inner) ≡ ok host)
    split (err e) u = ground arith
    split (ok inner) u = (inner, ground arith, u, ground arith)

-- A host that `normalize_network_rule_host` returns is not empty, and has none of `/ ? # *`, no
-- whitespace and no ASCII capital.
pub normalize_network_rule_host_lem :
    (raw host : Text)
    → normalize_network_rule_host raw ≡ ok host
    → (host ≢ []) × (any forbidden_char host ≡ false)
normalize_network_rule_host_lem raw host h =
    let (inner, scheme, unwrapped, validated) = normalize_steps raw host h in
    let lowered =
      Clean-lower_host inner
        (Clean-unwrap_host (trim raw) inner (Clean-host (trim raw) scheme) unwrapped) in
    let passed = validate_lem (lower_host inner) host validated in
    (
      λ e. cc (passed.1, ap is_empty e),
      no_forbidden_char host (rw passed.0 lowered.0) (rw passed.0 lowered.1) passed.2 passed.3,
    )
