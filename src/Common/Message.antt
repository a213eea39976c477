-- ===== src/Common/Message.antt =====
-- The texts that the program composes by f-strings, kept as their pieces.
use Prim.Native.Nat.{ℕ}
use Prim.Native.String.{String}
use mathlib.Core.List.{List, [], ◌∷◌}

-- `lit` is text of the source or an interpolated text, `repr` is `{x!r}`, `num` is an interpolated number
pub data Piece : Type 0 where
  lit repr : String → Piece
  num : ℕ → Piece
  -- `{ref!r}` of a git ref, by its code points
  ref : List ℕ → Piece

abbrev pub Message : Type 0
Message = List Piece

abbrev pub say : String → Message
say s = lit s ∷ []
