-- ===== src/Gate/Sections.antt =====
-- Threads that open and close gated sections, in any interleaving. The callers hold each section in a
-- `with` or `try ... finally` block, so a thread closes its newest section first. A thread that waits,
-- is refused or gets MaintenanceGateBusy takes no step.
use gallery.Base.{ℕ, ◌≡◌, Bool, true, Option, none, some, List, [], ◌∷◌, ◌==◌, if◌then◌else◌}
use gallery.Gate.Defs.{
  Gate, idle, enter_maintenance, leave_maintenance, try_acquire, release, enter_producer,
  leave_producer,
}

pub data Section : Type 0 where
  maintenance : Section  -- inside `with maintenance_gate()`
  acquired : Section  -- between try_acquire_maintenance_gate and release_maintenance_gate
  producer : Bool → Section  -- inside `with producer_gate()`, with its local owner_bypass

abbrev pub Open : Type 0
Open = ℕ × Section

pub record State : Type 0 where
  pub gate : Gate
  pub opened : List Open  -- the open sections of all threads, newest first

unfoldable pub newest : ℕ → List Open → Option Section
newest thread [] = none
newest thread ((t, section) ∷ rest) = if t == thread then some section else newest thread rest

unfoldable pub close : ℕ → List Open → List Open
close thread [] = []
close thread ((t, section) ∷ rest) =
    let kept = close thread rest in if t == thread then rest else (t, section) ∷ kept

abbrev pub start : State
start = record { gate = idle; opened = [] }

-- What a thread runs at the end of a section: the `finally` block of its context manager, or
-- release_maintenance_gate.
unfoldable pub leave_section : Section → Gate → ℕ → Option Gate
leave_section maintenance g thread = some (leave_maintenance g)
leave_section acquired g thread = release g thread
leave_section (producer bypass) g thread = some (leave_producer bypass g)

pub data Step (s : State) : State → Type 0 where
  enter :
      (t : ℕ) (g : Gate)
      → enter_maintenance s.gate t ≡ some g
      → Step s (record { gate = g; opened = (t, maintenance) ∷ s.opened })
  leave :
      (t : ℕ)
      → newest t s.opened ≡ some maintenance
      → Step s (record { gate = leave_maintenance s.gate; opened = close t s.opened })
  acquire :
      (t : ℕ) (g : Gate)
      → try_acquire s.gate t ≡ (true, g)
      → Step s (record { gate = g; opened = (t, acquired) ∷ s.opened })
  give_back :
      (t : ℕ) (g : Gate)
      → newest t s.opened ≡ some acquired
      → release s.gate t ≡ some g
      → Step s (record { gate = g; opened = close t s.opened })
  produce :
      (t : ℕ) (bypass : Bool) (g : Gate)
      → enter_producer s.gate t ≡ some (bypass, g)
      → Step s (record { gate = g; opened = (t, producer bypass) ∷ s.opened })
  settle :
      (t : ℕ) (bypass : Bool)
      → newest t s.opened ≡ some (producer bypass)
      → Step s (record { gate = leave_producer bypass s.gate; opened = close t s.opened })

pub data Reach (s : State) : State → Type 0 where
  here : Reach s s
  next : {t u : State} → Reach s t → Step t u → Reach s u
