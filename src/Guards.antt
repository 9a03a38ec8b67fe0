-- ===== src/Guards.antt =====
-- src-tauri/src/core/agent/guards.rs: slots for sub-agents and the pool of their nicknames. A method
-- returns the new guards. `choose` is the random choice of the crate `rand`: none for no names.
pub mod Slots
pub mod Nicknames
mod Tests
use mosaic_desktop.Prelude.{
  ℕ, ◌+◌, Bool, true, false, ◌||◌, not, Option, none, some, List, [], ◌∷◌, String, str_eq,
  if◌then◌else◌, leb, add_usize, sub_usize, retain,
}

-- A `HashSet` is the list of its elements, each once; a `HashMap` is a function.
pub record ActiveAgents : Type 0 where
  pub threads_set : List String
  pub thread_agent_nicknames : String → Option String
  pub used_agent_nicknames : List String
  pub nickname_reset_count : ℕ

pub record Guards : Type 0 where
  pub active_agents : ActiveAgents
  pub total_count : ℕ

pub record SpawnReservation : Type 0 where
  pub active : Bool
  pub reserved_agent_nickname : Option String

unfoldable pub contains : List String → String → Bool
contains [] s = false
contains (x ∷ xs) s = str_eq x s || contains xs s

unfoldable pub insert : List String → String → List String
insert xs s = if contains xs s then xs else s ∷ xs

-- `remove`, of the one occurrence.
unfoldable pub remove : List String → String → List String
remove [] s = []
remove (x ∷ xs) s = let rest = remove xs s in if str_eq x s then xs else x ∷ rest

unfoldable pub new : Guards
new = record {
  active_agents = record {
    threads_set = [];
    thread_agent_nicknames = λ id. none;
    used_agent_nicknames = [];
    nickname_reset_count = 0;
  };
  total_count = 0;
}

-- The turn of the loop of `try_increment_spawned` that returns: `none` is `false`, and the exchange
-- that succeeds finds the count that was compared.
unfoldable pub try_increment_spawned : Guards → ℕ → Option Guards
try_increment_spawned g max_threads =
    if leb max_threads g.total_count
    then none
    else some (record g { total_count = g.total_count + 1 })

abbrev pub fresh_reservation : SpawnReservation
fresh_reservation = record { active = true; reserved_agent_nickname = none }

abbrev pub with_reservation : Guards → SpawnReservation × Guards
with_reservation g = (fresh_reservation, g)

-- `none` is the error "Agent limit reached".
unfoldable pub reserve_spawn_slot : Guards → Option ℕ → Option (SpawnReservation × Guards)
reserve_spawn_slot g (some max_threads) = elim (try_increment_spawned g max_threads) [
  | none ↦ none
  | some g' ↦ some (with_reservation g')
]
reserve_spawn_slot g none =
    some (with_reservation (record g { total_count = add_usize g.total_count 1 }))

-- The part of `release_spawned_thread` under the lock.
unfoldable pub forget_thread : ActiveAgents → String → ActiveAgents
forget_thread a thread_id = record a {
  threads_set = remove a.threads_set thread_id;
  thread_agent_nicknames = λ id. if str_eq thread_id id then none else a.thread_agent_nicknames id;
}

-- `total_count.fetch_sub(1)`
unfoldable pub free_slot : Guards → Guards
free_slot g = record g { total_count = sub_usize g.total_count 1 }

-- The two atomic parts, between which another agent may run.
unfoldable pub release_spawned_thread : Guards → String → Guards
release_spawned_thread g thread_id =
    let g' = record g { active_agents = forget_thread g.active_agents thread_id } in
    if contains g.active_agents.threads_set thread_id then free_slot g' else g'

unfoldable pub name_thread : ActiveAgents → String → Option String → ActiveAgents
name_thread a thread_id none = a
name_thread a thread_id (some nickname) = record a {
  used_agent_nicknames = insert a.used_agent_nicknames nickname;
  thread_agent_nicknames =
      λ id. if str_eq thread_id id then some nickname else a.thread_agent_nicknames id;
}

unfoldable pub register_spawned_thread : Guards → String → Option String → Guards
register_spawned_thread g thread_id agent_nickname = record g {
  active_agents =
      name_thread
        (record g.active_agents { threads_set = insert g.active_agents.threads_set thread_id })
        thread_id agent_nickname;
}

-- The name that is taken, after it is added to the used ones.
unfoldable pub use_nickname : ActiveAgents → String → String × ActiveAgents
use_nickname a nickname =
    (nickname, record a { used_agent_nicknames = insert a.used_agent_nicknames nickname })

unfoldable pub reset_pool : ActiveAgents → ActiveAgents
reset_pool a = record a {
  used_agent_nicknames = [];
  nickname_reset_count = a.nickname_reset_count + 1;
}

module _ (choose : List String → Option String) where
  -- The choice where no name is free: from all of them, with the pool reset.
  unfoldable pub choose_again : ActiveAgents → Option String → Option (String × ActiveAgents)
  choose_again a none = none
  choose_again a (some nickname) = some (use_nickname (reset_pool a) nickname)

  unfoldable pub choose_free :
      ActiveAgents → List String → Option String → Option (String × ActiveAgents)
  choose_free a names (some nickname) = some (use_nickname a nickname)
  choose_free a names none = choose_again a (choose names)

  unfoldable pub reserve_agent_nickname :
      ActiveAgents → List String → Option String → Option (String × ActiveAgents)
  reserve_agent_nickname a names (some preferred) = some (use_nickname a preferred)
  reserve_agent_nickname a [] none = none
  reserve_agent_nickname a (n ∷ names) none =
      choose_free a (n ∷ names)
        (choose (retain (λ m. not (contains a.used_agent_nicknames m)) (n ∷ names)))

  -- The nickname, the reservation that keeps it and the guards, of the result on the agents.
  unfoldable pub keep_nickname :
      SpawnReservation
      → Guards
      → Option (String × ActiveAgents)
      → Option (String × SpawnReservation × Guards)
  keep_nickname r g none = none
  keep_nickname r g (some (nickname, a)) = some (
    nickname,
    record r { reserved_agent_nickname = some nickname },
    record g { active_agents = a },
  )

  unfoldable pub reserve_agent_nickname_with_preference :
      SpawnReservation
      → Guards
      → List String
      → Option String
      → Option (String × SpawnReservation × Guards)
  reserve_agent_nickname_with_preference r g names preferred =
      keep_nickname r g (reserve_agent_nickname g.active_agents names preferred)

-- `take().or(agent_nickname)`
unfoldable pub taken_nickname : SpawnReservation → Option String → Option String
taken_nickname r agent_nickname = elim (r.reserved_agent_nickname) [
  | none ↦ agent_nickname
  | some nickname ↦ some nickname
]

-- The reservation is inactive afterwards, so that its drop changes nothing.
unfoldable pub commit_with_agent_nickname :
    SpawnReservation → Guards → String → Option String → SpawnReservation × Guards
commit_with_agent_nickname r g thread_id agent_nickname = (
  record { active = false; reserved_agent_nickname = none },
  register_spawned_thread g thread_id (taken_nickname r agent_nickname),
)

-- `Drop for SpawnReservation`
unfoldable pub drop_reservation : SpawnReservation → Guards → Guards
drop_reservation r g = if r.active then free_slot g else g
