-- ===== src/Gate/Scenarios.antt =====
-- The gate in a few short histories: thread 1 rebuilds the catalog and produces under its own gate,
-- thread 2 produces.
use gallery.Base.{
  ◌≡◌, ◌≢◌, ◌↔◌, length, refl, true, false, none, some, [], ◌∷◌, inl, inr, ◌==◌, if◌then◌else◌,
}
use gallery.Base.Int.{pos, ◌+ℤ◌}
use gallery.Gate.Defs.{Gate, enter_maintenance, try_acquire, enter_producer}
use gallery.Gate.Sections.{
  maintenance, acquired, producer, State, newest, close, leave_section, start, enter, acquire,
  produce, Reach, here, next,
}
use gallery.Gate.Shape.{OwnedBy}
use gallery.Gate.Progress.{
  HeldByOther, maintenance_exclusive, enter_maintenance_iff, producer_refused_iff, leave_balanced,
  gate_drains,
}

abbrev held_gate : Gate
held_gate = record { active = true; owner = some 1; producers = pos 0; stacks = λ t. [] }

abbrev held : State
held = record { gate = held_gate; opened = (1, producer true) ∷ (1, maintenance) ∷ [] }

held_reached : Reach start held
unfolding enter_maintenance enter_producer ◌+ℤ◌
held_reached = next (next here (enter 1 _ refl)) (produce 1 true _ refl)

abbrev shared_gate : Gate
shared_gate = record {
  active = false;
  owner = none;
  producers = pos 1;
  stacks = λ t. if 2 == t then false ∷ [] else [];
}

abbrev shared : State
shared = record { gate = shared_gate; opened = (2, acquired) ∷ [] }

shared_reached : Reach start shared
unfolding try_acquire ◌+ℤ◌
shared_reached = next here (acquire 2 _ refl)

two_newest : newest 2 shared.opened ≡ some acquired
unfolding newest
two_newest = refl

maintenance_exclusive_example :
    (held.gate.active ≡ true)
    × (held.gate.owner ≡ some 1)
    × OwnedBy 1 held.opened
    × (held.gate.producers ≡ pos 0)
maintenance_exclusive_example = maintenance_exclusive 1 held_reached (inr (inl refl))

enter_maintenance_iff_example : (enter_maintenance shared.gate 1 ≢ none) ↔ (shared.opened ≡ [])
enter_maintenance_iff_example = enter_maintenance_iff 1 shared_reached

producer_refused_iff_example :
    ((enter_producer held.gate 2 ≡ none) ↔ HeldByOther 2 held.opened)
    × (((try_acquire held.gate 2).0 ≡ false) ↔ HeldByOther 2 held.opened)
producer_refused_iff_example = producer_refused_iff 2 held_reached

leave_balanced_example :
    (g : Gate) × (leave_section acquired shared.gate 2 ≡ some g)
    × (g.producers ≡ pos (if g.active then 0 else length (close 2 shared.opened)))
leave_balanced_example = leave_balanced 2 acquired shared_reached two_newest

gate_drains_example :
    (u : State) × Reach held u
    × (u.opened ≡ [])
    × (u.gate.active ≡ false)
    × (u.gate.producers ≡ pos 0)
gate_drains_example = gate_drains held_reached
