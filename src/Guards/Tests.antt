-- ===== src/Guards/Tests.antt =====
-- A run of the guards: one agent commits its slot while another is refused.
use mosaic_desktop.Prelude.{
  ◌≡◌, refl, true, false, String, eq_iff, ap, Option, none, some, List, [], ◌∷◌, arith,
}
use mosaic_desktop.Guards.{
  Guards, new, reserve_spawn_slot, commit_with_agent_nickname, fresh_reservation,
  try_increment_spawned, contains, ActiveAgents, reserve_agent_nickname,
}
use mosaic_desktop.Guards.Nicknames.{Gives, reserve_agent_nickname_lem}
use mosaic_desktop.Guards.Slots.{
  Reachable, starts, steps, reserves, commits, IsCounted, Reachable-IsCounted,
}

abbrev one_reserved : Guards
one_reserved = record new { total_count = 1 }

abbrev committed : Guards
committed = (commit_with_agent_nickname fresh_reservation one_reserved "t" (some "Ada")).1

reserved_one : reserve_spawn_slot new (some 1) ≡ some (fresh_reservation, one_reserved)
unfolding reserve_spawn_slot try_increment_spawned new
reserved_one = refl

refused : reserve_spawn_slot one_reserved (some 1) ≡ none
unfolding reserve_spawn_slot try_increment_spawned new
refused = refl

not_registered : contains new.active_agents.threads_set "t" ≡ false
unfolding contains new
not_registered = refl

reached : Reachable 1 (record { guards = committed; reserved = 0; releasing = 0 })
reached =
    steps (steps starts (reserves reserved_one))
      (commits {g = one_reserved} fresh_reservation "t" (some "Ada") not_registered)

Reachable-IsCounted_example :
    IsCounted 1 (record { guards = committed; reserved = 0; releasing = 0 })
Reachable-IsCounted_example = Reachable-IsCounted 1 (omega arith) reached

-- A choice that always takes the first name.
first_of : List String → Option String
first_of [] = none
first_of (n ∷ names) = some n

first_of-some : (n : String) (names : List String) → (m : String) × (first_of (n ∷ names) ≡ some m)
unfolding first_of
first_of-some n names = (n, refl)

first_of-contains :
    (names : List String) (m : String) → first_of names ≡ some m → contains names m ≡ true
unfolding first_of contains
first_of-contains [] m h = cc
first_of-contains (n ∷ names) m h =
    let same = (eq_iff n m).1 (ap (λ o. elim o [ none ↦ n | some k ↦ k ]) h) in rw same refl

abbrev ada_used : ActiveAgents
ada_used = record new.active_agents { used_agent_nicknames = "Ada" ∷ [] }

reserve_agent_nickname_lem_example :
    (nickname : String) × (a' : ActiveAgents) × (reserve_agent_nickname first_of ada_used
        ("Ada" ∷ "Bob" ∷ [])
        none
      ≡ some (nickname, a'))
    × Gives ada_used ("Ada" ∷ "Bob" ∷ []) nickname a'
reserve_agent_nickname_lem_example =
    reserve_agent_nickname_lem first_of first_of-some first_of-contains ada_used "Ada" ("Bob" ∷ [])
