-- ===== src/Guards/Slots.antt =====
-- Slots under any order of the steps of many agents: the count, and its limit.
use mosaic_desktop.Prelude.{
  ℕ, suc, ◌+◌, ◌≤◌, ◌<◌, ◌^◌, ◌≡◌, refl, ap, sym, ◌∙◌, subst, inl, inr, true, false, Option, none,
  some, List, [], ◌∷◌, String, str_eq, length, arith, Bool-cases, leb_false→lt, leb,
}
use mosaic_desktop.Guards.{
  Guards, ActiveAgents, SpawnReservation, new, contains, insert, remove, try_increment_spawned,
  reserve_spawn_slot, free_slot, register_spawned_thread, name_thread, forget_thread,
  commit_with_agent_nickname, drop_reservation, taken_nickname,
}

-- The guards, the reservations that are neither committed nor dropped, and the releases that have
-- removed their thread and not yet freed its slot.
pub record Session : Type 0 where
  pub guards : Guards
  pub reserved : ℕ
  pub releasing : ℕ

-- One step of some agent under a limit. A thread is committed under an id that is not registered,
-- as the ids that are drawn for new threads are.
pub data Step (limit : ℕ) : Session → Session → Type 0 where
  reserves :
      {g g' : Guards} {n m : ℕ} {r : SpawnReservation}
      → reserve_spawn_slot g (some limit) ≡ some (r, g')
      → Step limit
          (record { guards = g; reserved = n; releasing = m })
          (record { guards = g'; reserved = suc n; releasing = m })
  drops :
      {g : Guards} {n m : ℕ} (r : SpawnReservation)
      → r.active ≡ true
      → Step limit
          (record { guards = g; reserved = suc n; releasing = m })
          (record { guards = drop_reservation r g; reserved = n; releasing = m })
  commits :
      {g : Guards} {n m : ℕ} (r : SpawnReservation) (id : String) (nickname : Option String)
      → contains g.active_agents.threads_set id ≡ false
      → Step limit
          (record { guards = g; reserved = suc n; releasing = m })
          (record {
            guards = (commit_with_agent_nickname r g id nickname).1;
            reserved = n;
            releasing = m;
          })
  forgets :
      {g : Guards} {n m : ℕ} (id : String)
      → contains g.active_agents.threads_set id ≡ true
      → Step limit
          (record { guards = g; reserved = n; releasing = m })
          (record {
            guards = record g { active_agents = forget_thread g.active_agents id };
            reserved = n;
            releasing = suc m;
          })
  frees :
      {g : Guards} {n m : ℕ}
      → Step limit
          (record { guards = g; reserved = n; releasing = suc m })
          (record { guards = free_slot g; reserved = n; releasing = m })

pub data Reachable (limit : ℕ) : Session → Type 0 where
  starts : Reachable limit (record { guards = new; reserved = 0; releasing = 0 })
  steps : {s t : Session} → Reachable limit s → Step limit s t → Reachable limit t

-- The count is that of the reservations, the threads and the releases under way, and within the limit.
abbrev pub IsCounted : ℕ → Session → Type 0
IsCounted limit s =
    (s.guards.total_count ≡ s.reserved + s.releasing + length s.guards.active_agents.threads_set)
    × (s.guards.total_count ≤ limit)

length-remove :
    (xs : List String) (s : String) → contains xs s ≡ true → length xs ≡ suc (length (remove xs s))
unfolding contains remove
length-remove [] s h = cc
length-remove (x ∷ xs) s h = elim (Bool-cases (str_eq x s)) [
  | inl here ↦ rw here refl
  | inr later ↦ rw later (ap suc (length-remove xs s (rw later at h)))
]

insert_fresh : (xs : List String) (s : String) → contains xs s ≡ false → insert xs s ≡ s ∷ xs
unfolding insert
insert_fresh xs s h = rw h refl

threads-name_thread :
    (a : ActiveAgents) (id : String) (o : Option String)
    → (name_thread a id o).threads_set ≡ a.threads_set
unfolding name_thread
threads-name_thread a id none = refl
threads-name_thread a id (some nickname) = refl

module _ (limit : ℕ) (machine : limit < 2 ^ 64) where
  free_slot-IsCounted :
      (g : Guards) (n m : ℕ)
      → g.total_count ≡ suc (n + m + length g.active_agents.threads_set)
      → g.total_count ≤ limit
      → IsCounted limit (record { guards = free_slot g; reserved = n; releasing = m })
  unfolding free_slot
  free_slot-IsCounted g n m count bound = (ground arith, ground arith)

  Step-IsCounted : {s t : Session} → IsCounted limit s → Step limit s t → IsCounted limit t
  unfolding reserve_spawn_slot try_increment_spawned drop_reservation commit_with_agent_nickname
      register_spawned_thread insert forget_thread
  Step-IsCounted (count, bound) (reserves {g = g} {g' = g'} {n = n} {m = m} e) =
      elim (Bool-cases (leb limit g.total_count)) [
        | inl full ↦ let absurd = rw (full, reserve_spawn_slot, try_increment_spawned) at e in cc
        | inr room ↦
            let same =
              ap (λ o. elim o [ none ↦ g | some (r, g'') ↦ g'' ])
                (rw (room, reserve_spawn_slot, try_increment_spawned) at e) in
            let lt = leb_false→lt _ _ room in
            subst (λ h. IsCounted limit (record { guards = h; reserved = suc n; releasing = m }))
              same (omega (arith, count), omega (arith, lt))
      ]
  Step-IsCounted (count, bound) (drops {g = g} {n = n} {m = m} r active) =
      rw active (free_slot-IsCounted g n m (omega (arith, count)) bound)
  Step-IsCounted (count, bound) (commits {g = g} {n = n} {m = m} r id nickname fresh) =
      let nickname' = taken_nickname r nickname in
      let registered = record g.active_agents {
        threads_set = insert g.active_agents.threads_set id;
      } in
      let same =
        threads-name_thread registered id nickname'
        ∙ insert_fresh g.active_agents.threads_set id fresh in
      (count ∙ (omega arith) ∙ ap (λ xs. n + m + length xs) (sym same), bound)
  Step-IsCounted (count, bound) (forgets {g = g} {n = n} {m = m} id known) =
      let len = length-remove g.active_agents.threads_set id known in
      (omega (arith, count, len), bound)
  Step-IsCounted (count, bound) (frees {g = g} {n = n} {m = m}) =
      free_slot-IsCounted g n m (omega (arith, count)) bound

  -- Whatever the order in which agents reserve, drop, commit and release slots under a limit below
  -- 2^64, the count is the number of reservations, of registered threads and of releases that are
  -- still to free their slot, and it is never over the limit. Assumed: a thread is committed under
  -- an id that is not registered.
  pub Reachable-IsCounted : {s : Session} → Reachable limit s → IsCounted limit s
  unfolding new
  Reachable-IsCounted starts = (omega arith, omega arith)
  Reachable-IsCounted (steps before step) = Step-IsCounted (Reachable-IsCounted before) step
