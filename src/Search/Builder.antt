-- ===== src/Search/Builder.antt =====
-- _ConditionBuilder, and the pieces from which the handlers write a condition.
use Prim.Native.String.{String}
use gallery.Base.{ℕ, ◌+◌, List, [], ◌∷◌, ◌++◌}
use gallery.Search.Values.{Value}

-- A condition is the text of the source's format string, with the placeholders `:p0`, `:p1` and so on
-- kept apart. No value of a user can stand in the text.
pub data Piece : Type 0 where
  sql : String → Piece
  param : ℕ → Piece

abbrev pub Condition : Type 0
Condition = List Piece

-- The parameter p0, p1, ... is known by its number.
pub record Builder : Type 0 where
  pub conditions : List Condition
  pub params : List (ℕ × Value)
  pub param_idx : ℕ

unfoldable pub next_param : Value → Builder → Piece × Builder
next_param v b = (
  param b.param_idx,
  record b { param_idx = b.param_idx + 1; params = b.params ++ (b.param_idx, v) ∷ [] },
)

-- A part of a condition: it may bind values.
abbrev pub Fragment : Type 0
Fragment = Builder → Condition × Builder

unfoldable pub lit : String → Fragment
lit s b = (sql s ∷ [], b)

unfoldable pub bound : Value → Fragment
bound v b = ((next_param v b).0 ∷ [], (next_param v b).1)

infixr 66 ◌⊕◌
unfoldable pub ◌⊕◌ : Fragment → Fragment → Fragment
◌⊕◌ f g b = ((f b).0 ++ (g (f b).1).0, (g (f b).1).1)

-- A separator's join over one fragment for each value.
unfoldable pub join_each {ℓ} : {A : Type ℓ} → String → (A → Fragment) → List A → Fragment
join_each sep f [] b = ([], b)
join_each sep f (x ∷ []) b = f x b
join_each sep f (x ∷ y ∷ xs) b = (f x ⊕ lit sep ⊕ join_each sep f (y ∷ xs)) b

-- conditions.append of a condition that is written now.
unfoldable pub add : Fragment → Builder → Builder
add f b = let r = f b in record r.1 { conditions = r.1.conditions ++ r.0 ∷ [] }
