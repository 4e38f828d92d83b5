-- ===== src/Gate/Progress.antt =====
-- What the gate promises its callers, in every reachable state.
use gallery.Base.{
  ℕ, if◌then◌else◌, length, ◌≡◌, ◌≢◌, refl, true, false, none, some, List, [], ◌∷◌, arith, inl, inr,
  ◌↔◌, Has, Option-cases,
}
use gallery.Base.Int.{pos}
use gallery.Gate.Defs.{Gate, enter_maintenance, try_acquire, release, enter_producer}
use gallery.Gate.Sections.{
  Section, maintenance, acquired, producer, Open, State, newest, close, start, Step, leave,
  leave_section, give_back, settle, Reach, here, next,
}
use gallery.Gate.Shape.{AllShared, OwnedBy, quiet, busy, Inv, stack_of-close}
use gallery.Gate.Exclusion.{shared-empty, Reach-Inv}

shared-maintenance : (o : ℕ) (l : List Open) → AllShared l → ¬ Has (o, maintenance) l
shared-maintenance o [] h m = elim m [ ]
shared-maintenance o ((u, maintenance) ∷ l) h m = elim h [ ]
shared-maintenance o ((u, acquired) ∷ l) h m = ground (arith, shared-maintenance o l h)
shared-maintenance o ((u, producer b) ∷ l) h m = ground (arith, shared-maintenance o l h.1)

owned-maintenance : (o p : ℕ) (l : List Open) → OwnedBy p l → Has (o, maintenance) l → p ≡ o
owned-maintenance o p [] h m = elim m [ ]
owned-maintenance o p ((u, maintenance) ∷ l) h m = ground arith
owned-maintenance o p ((u, acquired) ∷ l) h m = ground (arith, owned-maintenance o p l h.1)
owned-maintenance o p ((u, producer b) ∷ l) h m = ground (arith, owned-maintenance o p l h.2)

-- While a thread is inside `maintenance_gate`, in any interleaving, the gate is active and owned by that
-- thread, its maintenance section is the only one and the oldest, every other open section is its own
-- and bypasses the gate, and no producer is counted.
pub maintenance_exclusive :
    {s : State} (o : ℕ)
    → Reach start s
    → Has (o, maintenance) s.opened
    → (s.gate.active ≡ true)
      × (s.gate.owner ≡ some o)
      × OwnedBy o s.opened
      × (s.gate.producers ≡ pos 0)
maintenance_exclusive {s} o r m = elim (Reach-Inv r).mode [
  | quiet a sh n ↦ absurd (shared-maintenance o s.opened sh m)
  | busy p a w sh n ↦ let e = owned-maintenance o p s.opened sh m in (a, rw e at w, rw e at sh, n)
]

-- In every reachable state the gate can be entered for maintenance exactly when no section is open in
-- any thread.
pub enter_maintenance_iff :
    {s : State} (t : ℕ) → Reach start s → (enter_maintenance s.gate t ≢ none) ↔ (s.opened ≡ [])
unfolding enter_maintenance
enter_maintenance_iff {s} t r = elim (Reach-Inv r).mode [
  | quiet a sh n ↦ (λ h. shared-empty s.opened (ground arith), λ e p. ground arith)
  | busy o a w sh n ↦ (λ h. absurd (h (ground arith)), λ e. absurd (rw e at sh))
]

shared-not-owned : (o : ℕ) (l : List Open) → AllShared l → ¬ OwnedBy o l
shared-not-owned o [] h w = w
shared-not-owned o ((u, maintenance) ∷ l) h w = h
shared-not-owned o ((u, acquired) ∷ l) h w = shared-not-owned o l h w.1
shared-not-owned o ((u, producer b) ∷ l) h w = shared-not-owned o l h.1 w.2

owner_unique : (o p : ℕ) (l : List Open) → OwnedBy o l → OwnedBy p l → o ≡ p
owner_unique o p [] h w = elim h [ ]
owner_unique o p ((u, maintenance) ∷ l) h w = ground arith
owner_unique o p ((u, acquired) ∷ l) h w = ground arith
owner_unique o p ((u, producer b) ∷ l) h w = ground arith

abbrev pub HeldByOther : ℕ → List Open → Type 0
HeldByOther t l = (o : ℕ) × (t ≢ o) × OwnedBy o l

-- In every reachable state a thread waits in `producer_gate`, and gets False from
-- `try_acquire_maintenance_gate`, exactly when another thread holds the gate for maintenance.
pub producer_refused_iff :
    {s : State} (t : ℕ)
    → Reach start s
    → ((enter_producer s.gate t ≡ none) ↔ HeldByOther t s.opened)
      × (((try_acquire s.gate t).0 ≡ false) ↔ HeldByOther t s.opened)
unfolding enter_producer try_acquire
producer_refused_iff {s} t r = elim (Reach-Inv r).mode [
  | quiet a sh n ↦ (
    (λ e. ground arith, λ h. absurd (shared-not-owned h.0 s.opened sh h.2)),
    (λ e. ground arith, λ h. absurd (shared-not-owned h.0 s.opened sh h.2)),
  )
  | busy o a w sh n ↦ (
    (λ e. (o, ground arith, sh), λ h. ground (arith, owner_unique o h.0 s.opened sh h.2)),
    (λ e. (o, ground arith, sh), λ h. ground (arith, owner_unique o h.0 s.opened sh h.2)),
  )
]

release_found :
    {s : State} (t : ℕ)
    → Reach start s
    → newest t s.opened ≡ some acquired
    → (g : Gate) × (release s.gate t ≡ some g)
release_found {s} t r e = elim (Option-cases (release s.gate t)) [
  | inl stuck ↦ absurd (not_stuck stuck)
  | inr found ↦ found
]
  where
    not_stuck : release s.gate t ≢ none
    not_stuck = elim (Reach-Inv r).mode [
      | quiet a sh n ↦
          unfold release in
          ground
            (arith, (Reach-Inv r).stacks t, stack_of-close s.gate.active t t s.opened acquired e)
      | busy o a w sh n ↦
          unfold release in
          ground
            (arith, (Reach-Inv r).stacks t, stack_of-close s.gate.active t t s.opened acquired e)
    ]

-- The count of a reachable state: every open section, or nothing under maintenance.
producers_counted :
    {s : State}
    → Reach start s
    → s.gate.producers ≡ pos (if s.gate.active then 0 else length s.opened)
producers_counted {s} r = elim (Reach-Inv r).mode [
  | quiet a sh n ↦ rw a n
  | busy o a w sh n ↦ rw a n
]

-- In every reachable state a thread can leave its newest section: the release of one that
-- `try_acquire_maintenance_gate` opened finds its acquisition. Afterwards the count of producers, an
-- integer, is the number of the sections that are still open, and 0 while maintenance goes on.
pub leave_balanced :
    {s : State} (t : ℕ) (x : Section)
    → Reach start s
    → newest t s.opened ≡ some x
    → (g : Gate) × (leave_section x s.gate t ≡ some g)
      × (g.producers ≡ pos (if g.active then 0 else length (close t s.opened)))
unfolding leave_section
leave_balanced {s} t maintenance r e = (_, refl, producers_counted (next r (leave t e)))
leave_balanced {s} t acquired r e =
    let (g, freed) = release_found t r e in
    (g, freed, producers_counted (next r (give_back t g e freed)))
leave_balanced {s} t (producer b) r e = (_, refl, producers_counted (next r (settle t b e)))

Reach-trans : {s t u : State} → Reach s t → Reach t u → Reach s u
Reach-trans r here = r
Reach-trans r (next q st) = next (Reach-trans r q) st

newest_head : (t : ℕ) (x : Section) (l : List Open) → newest t ((t, x) ∷ l) ≡ some x
unfolding newest
newest_head t x l = ground arith

close_head : (t : ℕ) (x : Section) (l : List Open) → close t ((t, x) ∷ l) ≡ l
unfolding close
close_head t x l = ground arith

-- The newest section of all can be closed by its thread.
close_newest :
    {s : State} (t : ℕ) (x : Section) (l : List Open)
    → Reach start s
    → s.opened ≡ (t, x) ∷ l
    → (u : State) × Step s u × (u.opened ≡ l)
close_newest {s} t maintenance l r e =
    (_, leave t (rw e (newest_head t maintenance l)), rw e (close_head t maintenance l))
close_newest {s} t acquired l r e =
    let top : newest t s.opened ≡ some acquired = rw e (newest_head t acquired l) in
    let (g, freed) = release_found t r top in
    (_, give_back t g top freed, rw e (close_head t acquired l))
close_newest {s} t (producer b) l r e =
    (_, settle t b (rw e (newest_head t (producer b) l)), rw e (close_head t (producer b) l))

closed_is_quiet :
    (u : State) → Inv u → u.opened ≡ [] → (u.gate.active ≡ false) × (u.gate.producers ≡ pos 0)
closed_is_quiet u inv e = elim inv.mode [
  | quiet a sh n ↦ ground arith
  | busy o a w sh n ↦ absurd (rw e at sh)
]

drain :
    (l : List Open) {s : State}
    → Reach start s
    → s.opened ≡ l
    → (u : State) × Reach s u × (u.opened ≡ [])
drain [] {s} r e = (s, here, e)
drain ((t, x) ∷ l) {s} r e =
    let (u, st, rest) = close_newest t x l r e in
    let (v, more, done) = drain l (next r st) rest in (v, Reach-trans (next here st) more, done)

-- No deadlock: from every reachable state the threads that hold sections can close them all, and then
-- no section is open, the gate is inactive and nothing is counted.
pub gate_drains :
    {s : State}
    → Reach start s
    → (u : State) × Reach s u
      × (u.opened ≡ [])
      × (u.gate.active ≡ false)
      × (u.gate.producers ≡ pos 0)
gate_drains {s} r =
    let (u, more, done) = drain s.opened r refl in
    let quiet_end = closed_is_quiet u (Reach-Inv (Reach-trans r more)) done in
    (u, more, done, quiet_end.0, quiet_end.1)
