-- ===== src/Prelude/ParseTree.antt =====
-- The parse trees of the parser generator pest: a pair of a rule and the text that it matched, with the
-- pairs inside.
use Prim.Native.String.{String}

mutual
  pub data Pair (R : Type 0) : Type 0 where
    pair : (rule : R) → (text : String) → (inner : Pairs R) → Pair R

  pub data Pairs (R : Type 0) : Type 0 where
    nil : Pairs R
    cons : Pair R → Pairs R → Pairs R

abbrev pub as_str : {R : Type 0} → Pair R → String
as_str (pair rule text inner) = text
