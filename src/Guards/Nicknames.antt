-- ===== src/Guards/Nicknames.antt =====
-- The nicknames that the pool gives out.
use mosaic_desktop.Prelude.{
  ◌+◌, ◌≡◌, ◌⊎◌, refl, ap, ◌∙◌, subst, inl, inr, true, false, not, Option, none, some, List, [],
  ◌∷◌, String, str_eq, eq_iff, Bool-cases, Option-cases, retain, All,
}
use mosaic_desktop.Guards.{
  ActiveAgents, contains, insert, use_nickname, reset_pool, choose_again, choose_free,
  reserve_agent_nickname,
}

-- A name that is not used goes in front of the used ones.
insert_fresh :
    (a : ActiveAgents) (s : String)
    → contains a.used_agent_nicknames s ≡ false
    → record a { used_agent_nicknames = insert a.used_agent_nicknames s }
      ≡ record a { used_agent_nicknames = s ∷ a.used_agent_nicknames }
unfolding insert
insert_fresh a s h = rw h

contains-cons :
    (x : String) (xs : List String) (s : String) → contains xs s ≡ true → contains (x ∷ xs) s ≡ true
unfolding contains
contains-cons x xs s h = elim (Bool-cases (str_eq x s)) [
  | inl here ↦ rw here refl
  | inr later ↦ rw later h
]

-- A name that is kept is one of the names, and not used.
contains-retain :
    (used xs : List String) (s : String)
    → contains (retain (λ m. not (contains used m)) xs) s ≡ true
    → (contains xs s ≡ true) × (contains used s ≡ false)
unfolding contains
contains-retain used [] s h = cc
contains-retain used (x ∷ xs) s h = elim (Bool-cases (contains used x)) [
  | inl known ↦
      let (known', unused) = contains-retain used xs s (rw known at h) in
      (contains-cons x xs s known', unused)
  | inr fresh ↦ elim (Bool-cases (str_eq x s)) [
    | inl here ↦ (rw here refl, subst (λ n. contains used n ≡ false) ((eq_iff x s).0 here) fresh)
    | inr later ↦
        let (known', unused) = contains-retain used xs s (rw (fresh, later, contains) at h) in
        (contains-cons x xs s known', unused)
  ]
]

retain-nil :
    (used xs : List String)
    → retain (λ m. not (contains used m)) xs ≡ []
    → All (λ m. contains used m ≡ true) xs
retain-nil used [] h = tt
retain-nil used (x ∷ xs) h = elim (Bool-cases (contains used x)) [
  | inl known ↦ (known, retain-nil used xs (rw known at h))
  | inr fresh ↦ let absurd = rw fresh at h in cc
]

-- What a nickname given out for a list of names is, and the agents behind it: one of the names that
-- was not in use, now in use too, or, where every name was in use, one of them that alone is in use
-- in the pool that is reset, with the reset counted.
pub Gives : ActiveAgents → List String → String → ActiveAgents → Type 0
Gives a names nickname a' =
    (contains names nickname ≡ true)
    × (((contains a.used_agent_nicknames nickname ≡ false)
          × (a' ≡ record a { used_agent_nicknames = nickname ∷ a.used_agent_nicknames }))
        ⊎ (All (λ m. contains a.used_agent_nicknames m ≡ true) names
            × (a' ≡ record a {
              used_agent_nicknames = nickname ∷ [];
              nickname_reset_count = a.nickname_reset_count + 1;
            })))

module _ (choose : List String → Option String)
    (choose_some : (n : String) (names : List String)
      → (m : String) × (choose (n ∷ names) ≡ some m))
    (choose_from : (names : List String) (m : String)
      → choose names ≡ some m
      → contains names m ≡ true) where
  choose_nil : choose [] ≡ none
  unfolding contains
  choose_nil = elim (Option-cases (choose [])) [
    | inl nothing ↦ nothing
    | inr (m, e) ↦ let absurd = choose_from [] m e in cc
  ]

  Given : ActiveAgents → List String → Option (String × ActiveAgents) → Type 0
  Given a names o =
      (nickname : String) × (a' : ActiveAgents) × (o ≡ some (nickname, a'))
      × Gives a names nickname a'

  Given-choose_free :
      (a : ActiveAgents) (n : String) (names free : List String)
      → retain (λ m. not (contains a.used_agent_nicknames m)) (n ∷ names) ≡ free
      → Given a (n ∷ names) (choose_free choose a (n ∷ names) (choose free))
  unfolding Given Gives choose_free choose_again use_nickname reset_pool contains
  Given-choose_free a n names [] e =
      let (m, chosen) = choose_some n names in
      rw (choose_nil, chosen)
        (
          m,
          _,
          refl,
          (
            choose_from (n ∷ names) m chosen,
            inr (
              retain-nil a.used_agent_nicknames (n ∷ names) e,
              insert_fresh (reset_pool a) m refl,
            ),
          ),
        )
  Given-choose_free a n names (f ∷ free) e =
      let (m, chosen) = choose_some f free in
      let (known, unused) =
        contains-retain a.used_agent_nicknames (n ∷ names) m
          (ap (λ xs. contains xs m) e ∙ choose_from (f ∷ free) m chosen) in
      rw chosen (m, _, refl, (known, inl (unused, insert_fresh a m unused)))

  -- Without a preferred name and for any names at all, `reserve_agent_nickname` gives a nickname
  -- that is one of the names. Either it was not in use, and is added to the names in use; or every
  -- name was in use, and the pool is reset: then the nickname is the only one in use, and the reset
  -- is counted. Nothing else of the agents changes. Assumed: the random choice returns only members
  -- of its list, and one for every list that is not empty.
  pub reserve_agent_nickname_lem :
      (a : ActiveAgents) (n : String) (names : List String)
      → (nickname : String) × (a' : ActiveAgents) × (reserve_agent_nickname choose a
            (n ∷ names)
            none
          ≡ some (nickname, a'))
        × Gives a (n ∷ names) nickname a'
  unfolding reserve_agent_nickname Given
  reserve_agent_nickname_lem a n names =
      Given-choose_free a n names
        (retain (λ m. not (contains a.used_agent_nicknames m)) (n ∷ names)) refl
