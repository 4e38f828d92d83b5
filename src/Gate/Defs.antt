-- ===== src/Gate/Defs.antt =====
-- backend/catalog_maintenance_gate.py: the gate between destructive maintenance and the producers
-- of catalog work. The globals are the fields of `Gate`; each function under the condition's lock is
-- one function here, and `thread` is what `threading.get_ident()` returns.
use gallery.Base.{
  ℕ, Bool, true, false, not, ◌&&◌, ◌||◌, Option, none, some, List, [], ◌∷◌, ◌==◌, if◌then◌else◌,
}
use gallery.Base.Int.{ℤ, pos, ◌+ℤ◌, ◌-ℤ◌, eqb_ℤ}

pub record Gate : Type 0 where
  pub active : Bool  -- _MAINTENANCE_ACTIVE
  pub owner : Option ℕ  -- _MAINTENANCE_OWNER
  pub producers : ℤ  -- _ACTIVE_PRODUCERS
  pub stacks : ℕ → List Bool  -- _ACQUISITIONS.stack of each thread, newest first

abbrev pub idle : Gate
idle = record { active = false; owner = none; producers = pos 0; stacks = λ thread. [] }

abbrev pub update {ℓ} : {A : Type ℓ} → (ℕ → A) → ℕ → A → ℕ → A
update f i a j = if i == j then a else f j

abbrev is_owner : ℕ → Option ℕ → Bool
is_owner thread none = false
is_owner thread (some o) = thread == o

owner_bypass : Gate → ℕ → Bool
owner_bypass g thread = g.active && is_owner thread g.owner

-- The entry of `maintenance_gate`; `none` is MaintenanceGateBusy.
unfoldable pub enter_maintenance : Gate → ℕ → Option Gate
enter_maintenance g thread =
    if g.active || not (eqb_ℤ g.producers (pos 0))
    then none
    else some (record g { active = true; owner = some thread })

-- Its `finally` block.
unfoldable pub leave_maintenance : Gate → Gate
leave_maintenance g = record g { active = false; owner = none }

-- A section that does not bypass the gate counts.
count_in : Bool → ℤ → ℤ
count_in bypass n = if bypass then n else n +ℤ pos 1

-- The count is Python's int, which can pass below 0.
count_out : Bool → ℤ → ℤ
count_out bypass n = if bypass then n else n -ℤ pos 1

unfoldable pub try_acquire : Gate → ℕ → Bool × Gate
unfolding owner_bypass count_in
try_acquire g thread =
    let bypass = owner_bypass g thread in
    if g.active && not bypass then (false, g) else (
      true,
      record g {
        producers = count_in bypass g.producers;
        stacks = update g.stacks thread (bypass ∷ g.stacks thread);
      },
    )

pop_release : Gate → ℕ → List Bool → Option Gate
unfolding count_out
pop_release g thread [] = none
pop_release g thread (bypass ∷ rest) =
    some
      (record g { producers = count_out bypass g.producers; stacks = update g.stacks thread rest })

-- `none` is the RuntimeError of a release without an acquisition.
unfoldable pub release : Gate → ℕ → Option Gate
unfolding pop_release
release g thread = pop_release g thread (g.stacks thread)

-- The entry of `producer_gate`: `none` while the thread waits, else the local `owner_bypass` and
-- the gate.
unfoldable pub enter_producer : Gate → ℕ → Option (Bool × Gate)
unfolding owner_bypass count_in
enter_producer g thread =
    let bypass = owner_bypass g thread in
    if g.active && not bypass
    then none
    else some (bypass, record g { producers = count_in bypass g.producers })

-- Its `finally` block.
unfoldable pub leave_producer : Bool → Gate → Gate
unfolding count_out
leave_producer bypass g = record g { producers = count_out bypass g.producers }
