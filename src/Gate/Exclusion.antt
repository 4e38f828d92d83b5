-- ===== src/Gate/Exclusion.antt =====
-- What every interleaving of gated sections keeps.
use gallery.Base.{ℕ, ◌≡◌, refl, Bool, true, false, some, List, [], ◌∷◌, arith, length}
use gallery.Base.Int.{◌+ℤ◌, ◌-ℤ◌}
use gallery.Gate.Defs.{
  Gate, enter_maintenance, leave_maintenance, try_acquire, release, enter_producer, leave_producer,
}
use gallery.Gate.Sections.{
  maintenance, acquired, producer, Open, State, newest, close, start, Step, enter, leave, acquire,
  give_back, produce, settle, Reach, here, next,
}
use gallery.Gate.Shape.{
  quiet, busy, stack_of, Inv, AllShared-close, length-close, owned-close, stack_of-close,
  shared-newest,
}

pub shared-empty : (l : List Open) → length l ≡ 0 → l ≡ []
shared-empty [] h = refl
shared-empty (x ∷ l) h = ground arith

start-Inv : Inv start
unfolding stack_of
start-Inv = record { mode = quiet refl tt refl; stacks = λ t. refl }

module _ {s : State} (inv : Inv s) (t : ℕ) where
  enter-Inv :
      (g : Gate)
      → enter_maintenance s.gate t ≡ some g
      → Inv (record { gate = g; opened = (t, maintenance) ∷ s.opened })
  unfolding enter_maintenance stack_of ◌+ℤ◌ ◌-ℤ◌
  enter-Inv g e = elim inv.mode [
    | quiet a sh n ↦
        let none_open = shared-empty s.opened (ground arith) in
        record {
          mode = busy t (ground arith) (ground arith) (refl, none_open) (ground arith);
          stacks = λ u. ground (arith, inv.stacks u);
        }
    | busy o a w sh n ↦ ground arith
  ]

  leave-Inv :
      newest t s.opened ≡ some maintenance
      → Inv (record { gate = leave_maintenance s.gate; opened = close t s.opened })
  unfolding leave_maintenance stack_of ◌+ℤ◌ ◌-ℤ◌
  leave-Inv e = elim inv.mode [
    | quiet a sh n ↦ absurd (shared-newest t s.opened maintenance sh e)
    | busy o a w sh n ↦
        let none_left = owned-close o t s.opened maintenance sh e in
        record {
          mode = quiet refl (rw none_left tt) (ground arith);
          stacks =
              λ u. ground (arith, inv.stacks u, stack_of-close true t u s.opened maintenance e);
        }
  ]

  give_back-Inv :
      (g : Gate)
      → newest t s.opened ≡ some acquired
      → release s.gate t ≡ some g
      → Inv (record { gate = g; opened = close t s.opened })
  unfolding release ◌+ℤ◌ ◌-ℤ◌
  give_back-Inv g e r = elim inv.mode [
    | quiet a sh n ↦ record {
      mode = quiet (ground (arith, inv.stacks t)) (AllShared-close t s.opened sh) (
          ground (
            arith,
            inv.stacks t,
            stack_of-close false t t s.opened acquired e,
            length-close t s.opened acquired e,
          ));
      stacks = λ u. ground (
        arith,
        inv.stacks u,
        inv.stacks t,
        stack_of-close false t t s.opened acquired e,
        stack_of-close false t u s.opened acquired e,
      );
    }
    | busy o a w sh n ↦ record {
      mode =
          busy o (ground arith) (ground arith) (owned-close o t s.opened acquired sh e)
            (ground (arith, inv.stacks t, stack_of-close true t t s.opened acquired e));
      stacks = λ u. ground (
        arith,
        inv.stacks u,
        inv.stacks t,
        stack_of-close true t t s.opened acquired e,
        stack_of-close true t u s.opened acquired e,
      );
    }
  ]

  settle-Inv :
      (bypass : Bool)
      → newest t s.opened ≡ some (producer bypass)
      → Inv (record { gate = leave_producer bypass s.gate; opened = close t s.opened })
  unfolding leave_producer ◌+ℤ◌ ◌-ℤ◌
  settle-Inv bypass e = elim inv.mode [
    | quiet a sh n ↦ record {
      mode = quiet (ground arith) (AllShared-close t s.opened sh) (
          ground (
            arith,
            shared-newest t s.opened (producer bypass) sh e,
            length-close t s.opened (producer bypass) e,
          ));
      stacks = λ u.
          ground
            (arith, inv.stacks u, stack_of-close s.gate.active t u s.opened (producer bypass) e);
    }
    | busy o a w sh n ↦
        let kept = owned-close o t s.opened (producer bypass) sh e in
        record {
          mode = busy o (ground arith) (ground arith) kept.1 (ground arith);
          stacks = λ u.
              ground (
                arith,
                inv.stacks u,
                stack_of-close s.gate.active t u s.opened (producer bypass) e,
              );
        }
  ]

  acquire-Inv :
      (g : Gate)
      → try_acquire s.gate t ≡ (true, g)
      → Inv (record { gate = g; opened = (t, acquired) ∷ s.opened })
  unfolding try_acquire stack_of ◌+ℤ◌ ◌-ℤ◌
  acquire-Inv g e = elim inv.mode [
    | quiet a sh n ↦ record {
      mode = quiet (ground arith) sh (ground arith);
      stacks = λ u. ground (arith, inv.stacks u);
    }
    | busy o a w sh n ↦ record {
      mode = busy o (ground arith) (ground arith) (ground arith) (ground arith);
      stacks = λ u. ground (arith, inv.stacks u);
    }
  ]

  produce-Inv :
      (bypass : Bool) (g : Gate)
      → enter_producer s.gate t ≡ some (bypass, g)
      → Inv (record { gate = g; opened = (t, producer bypass) ∷ s.opened })
  unfolding enter_producer stack_of ◌+ℤ◌ ◌-ℤ◌
  produce-Inv bypass g e = elim inv.mode [
    | quiet a sh n ↦ record {
      mode = quiet (ground arith) (ground arith) (ground arith);
      stacks = λ u. ground (arith, inv.stacks u);
    }
    | busy o a w sh n ↦ record {
      mode = busy o (ground arith) (ground arith) (ground arith) (ground arith);
      stacks = λ u. ground (arith, inv.stacks u);
    }
  ]

Step-Inv : {s u : State} → Step s u → Inv s → Inv u
Step-Inv (enter t g e) inv = enter-Inv inv t g e
Step-Inv (leave t e) inv = leave-Inv inv t e
Step-Inv (acquire t g e) inv = acquire-Inv inv t g e
Step-Inv (give_back t g e r) inv = give_back-Inv inv t g e r
Step-Inv (produce t b g e) inv = produce-Inv inv t b g e
Step-Inv (settle t b e) inv = settle-Inv inv t b e

pub Reach-Inv : {s : State} → Reach start s → Inv s
Reach-Inv here = start-Inv
Reach-Inv (next r st) = Step-Inv st (Reach-Inv r)
