-- ===== src/Inventory/Precedence.antt =====
-- What an expression of -k and -m means when it is printed from a tree (matches_keyword and
-- matches_marker of crates/rpytest-core/src/inventory/nodes.rs).
use rpytest.Common.{◌≡◌, ◌∙◌, ap, String, Bool, not, ◌&&◌, ◌||◌}
use rpytest.Inventory.Expressions.{Form, form_of, matches_expression}
use rpytest.Inventory.Fuel.{value, matches_expression-form}
use rpytest.Inventory.Printed.{
  Clause, word, word_or, Expression, clause, clause_and, negated, text_of, IsProper, trim-text,
}

-- The meaning of a tree.
module _ (leaf : String → Bool) where
  abbrev pub clause_value : Clause → Bool
  clause_value (word w) = leaf w
  clause_value (word_or w c) = leaf w || clause_value c

  abbrev pub meaning : Expression → Bool
  meaning (clause c) = clause_value c
  meaning (clause_and c e) = clause_value c && meaning e
  meaning (negated e) = not (meaning e)

  read_text :
      (e : Expression) (form : Form)
      → IsProper e
      → form_of (text_of e) ≡ form
      → matches_expression leaf (text_of e) ≡ value leaf (matches_expression leaf) form
  read_text e form h f =
      matches_expression-form leaf (text_of e)
      ∙ ap (λ t. value leaf (matches_expression leaf) (form_of t)) (trim-text e h)
      ∙ ap (value leaf (matches_expression leaf)) f
