-- ===== src/ExecPolicy/Policy/Merge.antt =====
-- What merging an overlay changes about the decisions of a policy.
use mosaic_desktop.Prelude.{
  ◌≤◌, ◌≡◌, refl, sym, inl, inr, true, List, [], ◌∷◌, ◌++◌, append-nil, append_assoc, String,
  str_eq, if◌then◌else◌, Bool-cases, Any-append_left, Any-append_right,
}
use mosaic_desktop.ExecPolicy.Rule.{Decision, rank, decision, PrefixRule}
use mosaic_desktop.ExecPolicy.RuleMap.{or_nil, values_of, MultiMap, Paths}
use mosaic_desktop.ExecPolicy.Policy.{
  Policy, is_match, match_exact_rules, check, insert_all, insert_entries, merge_overlay,
}
use mosaic_desktop.ExecPolicy.Policy.Check.{exact_matches}
use mosaic_desktop.ExecPolicy.Policy.Edit.{matches_of-append, rank-le-check, check-Any}

module _ (mm : MultiMap) (os : Paths) where
  get_vec-insert_all :
      (m : mm.Map) (k j : String) (rs : List PrefixRule)
      → or_nil (mm.get_vec (insert_all mm m k rs) j)
        ≡ or_nil (mm.get_vec m j) ++ (if str_eq k j then rs else [])
  unfolding insert_all
  get_vec-insert_all m k j [] = elim (Bool-cases (str_eq k j)) [
    | inl e ↦ rw e (sym (append-nil _))
    | inr e ↦ rw e (sym (append-nil _))
  ]
  get_vec-insert_all m k j (r ∷ rs) =
      let old = or_nil (mm.get_vec m j) in
      rw (get_vec-insert_all (mm.insert m k r) k j rs, mm.get_vec-insert m k j r)
        (elim (Bool-cases (str_eq k j)) [
          | inl e ↦ rw e (append_assoc old (r ∷ []) rs)
          | inr e ↦ rw e (append-nil (old ++ []))
        ])

  get_vec-insert_entries :
      (m : mm.Map) (entries : List (String × List PrefixRule)) (j : String)
      → or_nil (mm.get_vec (insert_entries mm m entries) j)
        ≡ or_nil (mm.get_vec m j) ++ values_of j entries
  unfolding insert_entries
  get_vec-insert_entries m [] j = sym (append-nil _)
  get_vec-insert_entries m ((k, rs) ∷ entries) j =
      rw (get_vec-insert_entries (insert_all mm m k rs) entries j, get_vec-insert_all m k j rs)
        (append_assoc (or_nil (mm.get_vec m j)) (if str_eq k j then rs else [])
          (values_of j entries))

  -- The rules of a merged policy match a command as those of the base and then those of the overlay.
  pub exact_matches-merge_overlay :
      (p overlay : Policy mm) (cmd : List String)
      → exact_matches mm os (merge_overlay mm p overlay) cmd
        ≡ exact_matches mm os p cmd ++ exact_matches mm os overlay cmd
  unfolding merge_overlay match_exact_rules
  exact_matches-merge_overlay p overlay [] = refl
  exact_matches-merge_overlay p overlay (c ∷ cs) =
      rw
        (
          get_vec-insert_entries p.rules_by_program (mm.iter_all overlay.rules_by_program) c,
          mm.iter_all-get_vec overlay.rules_by_program c,
        )
        (matches_of-append (or_nil (mm.get_vec p.rules_by_program c))
          (or_nil (mm.get_vec overlay.rules_by_program c)) (c ∷ cs))

  -- Merging loosens nothing: where a rule of the base matched a command, the merged policy's decision
  -- on it is at least as strict as the base's, whatever the overlay.
  pub check-merge_overlay :
      (p overlay : Policy mm) (cmd : List String) (f : List String → Decision)
      → is_match (check mm os p cmd f) ≡ true
      → rank (check mm os p cmd f).decision_of
        ≤ rank (check mm os (merge_overlay mm p overlay) cmd f).decision_of
  check-merge_overlay p overlay cmd f h =
      let d = (check mm os p cmd f).decision_of in
      rank-le-check mm os (merge_overlay mm p overlay) cmd f d (
        rw (exact_matches-merge_overlay p overlay cmd) (
          Any-append_left (λ m. decision m ≡ d) (exact_matches mm os p cmd) _
            (check-Any mm os p cmd f h)))

  -- Nor does an overlay's rule lose its force in the merged policy.
  pub check-merge_overlay_over :
      (p overlay : Policy mm) (cmd : List String) (f : List String → Decision)
      → is_match (check mm os overlay cmd f) ≡ true
      → rank (check mm os overlay cmd f).decision_of
        ≤ rank (check mm os (merge_overlay mm p overlay) cmd f).decision_of
  check-merge_overlay_over p overlay cmd f h =
      let d = (check mm os overlay cmd f).decision_of in
      rank-le-check mm os (merge_overlay mm p overlay) cmd f d (
        rw (exact_matches-merge_overlay p overlay cmd) (
          Any-append_right (λ m. decision m ≡ d) (exact_matches mm os p cmd) _
            (check-Any mm os overlay cmd f h)))
