-- ===== src/Gate/Shape.antt =====
-- The two shapes of the open sections, and what closing one does to them.
use gallery.Base.{
  ℕ, suc, ◌≡◌, Bool, true, false, some, List, [], ◌∷◌, ◌==◌, if◌then◌else◌, arith, length,
}
use gallery.Base.Int.{pos}
use gallery.Gate.Defs.{Gate}
use gallery.Gate.Sections.{Section, maintenance, acquired, producer, Open, State, newest, close}

-- Every open section counts as a producer.
abbrev pub AllShared : List Open → Type 0
AllShared [] = Unit
AllShared ((t, maintenance) ∷ rest) = ⊥
AllShared ((t, acquired) ∷ rest) = AllShared rest
AllShared ((t, producer bypass) ∷ rest) = (bypass ≡ false) × AllShared rest

-- One maintenance section, the oldest, and above it only sections of its own thread that bypass.
abbrev pub OwnedBy : ℕ → List Open → Type 0
OwnedBy o [] = ⊥
OwnedBy o ((t, maintenance) ∷ rest) = (t ≡ o) × (rest ≡ [])
OwnedBy o ((t, acquired) ∷ rest) = (t ≡ o) × OwnedBy o rest
OwnedBy o ((t, producer bypass) ∷ rest) = (t ≡ o) × (bypass ≡ true) × OwnedBy o rest

pub data Mode (g : Gate) (opened : List Open) : Type 0 where
  quiet : g.active ≡ false → AllShared opened → g.producers ≡ pos (length opened) → Mode g opened
  busy :
      (o : ℕ)
      → g.active ≡ true
      → g.owner ≡ some o
      → OwnedBy o opened
      → g.producers ≡ pos 0
      → Mode g opened

-- The acquisition stack of a thread.
unfoldable pub stack_of : Bool → ℕ → List Open → List Bool
stack_of b t [] = []
stack_of b t ((u, acquired) ∷ rest) =
    let below = stack_of b t rest in if u == t then b ∷ below else below
stack_of b t ((u, maintenance) ∷ rest) = stack_of b t rest
stack_of b t ((u, producer bypass) ∷ rest) = stack_of b t rest

pub record Inv (s : State) : Type 0 where
  pub mode : Mode s.gate s.opened
  pub stacks : (t : ℕ) → s.gate.stacks t ≡ stack_of s.gate.active t s.opened

pub AllShared-close : (t : ℕ) (l : List Open) → AllShared l → AllShared (close t l)
unfolding close
AllShared-close t [] h = tt
AllShared-close t ((u, maintenance) ∷ l) h = elim h [ ]
AllShared-close t ((u, acquired) ∷ l) h = ground (arith, AllShared-close t l h)
AllShared-close t ((u, producer b) ∷ l) h = ground (arith, AllShared-close t l h.1)

pub length-close :
    (t : ℕ) (l : List Open) (x : Section)
    → newest t l ≡ some x
    → length l ≡ suc (length (close t l))
unfolding close newest
length-close t [] x h = ground arith
length-close t ((u, y) ∷ l) x h = ground (arith, length-close t l x)

owned-thread : (o t : ℕ) (l : List Open) (x : Section) → OwnedBy o l → newest t l ≡ some x → t ≡ o
unfolding newest
owned-thread o t [] x w h = elim w [ ]
owned-thread o t ((u, maintenance) ∷ l) x w h = ground arith
owned-thread o t ((u, acquired) ∷ l) x w h = ground (arith, owned-thread o t l x w.1)
owned-thread o t ((u, producer b) ∷ l) x w h = ground (arith, owned-thread o t l x w.2)

-- The newest section of a thread, when all count.
abbrev Counts : Section → Type 0
Counts maintenance = ⊥
Counts acquired = Unit
Counts (producer bypass) = bypass ≡ false

pub shared-newest :
    (t : ℕ) (l : List Open) (x : Section) → AllShared l → newest t l ≡ some x → Counts x
unfolding newest
shared-newest t [] x h e = ground arith
shared-newest t ((u, maintenance) ∷ l) x h e = elim h [ ]
shared-newest t ((u, acquired) ∷ l) x h e = ground (arith, shared-newest t l x h)
shared-newest t ((u, producer b) ∷ l) x h e = ground (arith, shared-newest t l x h.1)

-- Under an owner: its maintenance section closes last, and its other sections bypass.
abbrev Leaves : ℕ → Section → List Open → Type 0
Leaves o maintenance l = l ≡ []
Leaves o acquired l = OwnedBy o l
Leaves o (producer bypass) l = (bypass ≡ true) × OwnedBy o l

pub owned-close :
    (o t : ℕ) (l : List Open) (x : Section)
    → OwnedBy o l
    → newest t l ≡ some x
    → Leaves o x (close t l)
unfolding close newest
owned-close o t [] x w h = elim w [ ]
owned-close o t ((u, maintenance) ∷ l) x w h = ground arith
owned-close o t ((u, acquired) ∷ l) x w h = ground (arith, owned-thread o t l x w.1)
owned-close o t ((u, producer b) ∷ l) x w h = ground (arith, owned-thread o t l x w.2)

-- Only the newest section of the closing thread leaves the stack of acquisitions.
abbrev pub pushed : Section → Bool → List Bool → List Bool
pushed acquired b below = b ∷ below
pushed _ b below = below

pub stack_of-close :
    (b : Bool) (t u : ℕ) (l : List Open) (x : Section)
    → newest t l ≡ some x
    → stack_of b u l
      ≡ (if t == u then pushed x b (stack_of b u (close t l)) else stack_of b u (close t l))
unfolding close newest stack_of
stack_of-close b t u [] x h = ground arith
stack_of-close b t u ((v, maintenance) ∷ l) x h = ground (arith, stack_of-close b t u l x)
stack_of-close b t u ((v, acquired) ∷ l) x h = ground (arith, stack_of-close b t u l x)
stack_of-close b t u ((v, producer c) ∷ l) x h = ground (arith, stack_of-close b t u l x)
