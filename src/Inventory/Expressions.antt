-- ===== src/Inventory/Expressions.antt =====
-- The expressions of -k and -m (matches_keyword and matches_marker of
-- crates/rpytest-core/src/inventory/nodes.rs): the two methods differ only in what a plain word means.
-- The recursion goes to parts of the text, so as much fuel as the text has characters is enough.
use rpytest.Common.{
  ℕ, zero, suc, String, Bool, false, not, ◌&&◌, ◌||◌, Option, none, some, if◌then◌else◌,
}
use rpytest.Common.Text.{has_prefix, trim, split_once, drop_text, chars}

-- How a trimmed expression is read.
pub data Form : Type 0 where
  negation plain : String → Form
  conjunction disjunction : String → String → Form

abbrev pub disjunction_or : String → Option (String × String) → Form
disjunction_or e (some (l, r)) = disjunction l r
disjunction_or e none = plain e

abbrev pub conjunction_or : String → Option (String × String) → Form
conjunction_or e (some (l, r)) = conjunction l r
conjunction_or e none = disjunction_or e (split_once " or " e)

unfoldable pub form_of : String → Form
unfolding has_prefix split_once
form_of e =
    if has_prefix e "not "
    then negation (drop_text 4 e)
    else conjunction_or e (split_once " and " e)

unfoldable pub matches : (String → Bool) → ℕ → String → Bool
unfolding form_of trim
matches leaf zero expr = false
matches leaf (suc fuel) expr = elim (form_of (trim expr)) [
  | negation rest ↦ not (matches leaf fuel rest)
  | conjunction left right ↦ matches leaf fuel left && matches leaf fuel right
  | disjunction left right ↦ matches leaf fuel left || matches leaf fuel right
  | plain word ↦ leaf word
]

unfoldable pub matches_expression : (String → Bool) → String → Bool
unfolding matches
matches_expression leaf expr = matches leaf (suc (chars expr)) expr
