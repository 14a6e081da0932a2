-- ===== src/Inventory.antt =====
-- crates/rpytest-core/src/inventory/nodes.rs: a test with its metadata. Unicode lower case and the
-- f64 rate of failure are arguments; the expressions of -k and -m are read in the child Expressions.
pub mod Expressions
pub mod Fuel
pub mod Splitting
pub mod Printed
pub mod Precedence
pub mod Store
pub mod Storage
pub mod Laws
pub mod Reload
pub mod Saving
pub mod Invariant
mod Format
pub mod Memory
mod Examples
use rpytest.Common.{
  ℕ, ◌+◌, ◌-◌, ◌/◌, String, str_eq, Bool, true, false, not, ◌&&◌, ◌||◌, leb, List, [], ◌∷◌, ◌++◌,
  any, length, Option, none, some, if◌then◌else◌, add_u32, add_u64, mul_u64,
}
use rpytest.Common.Text.{
  has_part, has_prefix, before_last, behind_last, after_last, split_colons, strip_suffix,
}
use rpytest.Inventory.Expressions.{matches_expression}

pub data TestNodeKind : Type 0 where
  function method class module_kind : TestNodeKind

pub record TestNode : Type 0 where
  pub node_id : String
  pub kind : TestNodeKind
  pub file_path : String
  pub lineno : Option ℕ
  pub name : String
  pub class_name : Option String
  pub markers : List String
  pub keywords : List String
  pub parameters : Option String
  pub avg_duration_ms : Option ℕ
  pub run_count : ℕ
  pub fail_count : ℕ
  pub xfail : Bool
  pub skip : Bool

abbrev pub or_text : String → Option String → String
or_text s none = s
or_text s (some t) = t

-- The id up to its last '['.
abbrev pub base_of : String → String
base_of node_id = or_text node_id (before_last 91 node_id)

unfoldable pub extract_name : String → String
unfolding before_last after_last
extract_name node_id = or_text (base_of node_id) (after_last (base_of node_id))

-- The last but one of three parts or more.
abbrev pub class_of : List String → Option String
class_of (a ∷ b ∷ c ∷ []) = some b
class_of (a ∷ b ∷ c ∷ d ∷ parts) = class_of (b ∷ c ∷ d ∷ parts)
class_of _ = none

unfoldable pub extract_class : String → Option String
unfolding before_last split_colons
extract_class node_id = class_of (split_colons (base_of node_id))

abbrev pub kind_of : Option String → TestNodeKind
kind_of none = function
kind_of (some c) = method

unfoldable pub new : String → String → TestNode
unfolding extract_name extract_class
new node_id file_path = record {
  node_id = node_id;
  kind = kind_of (extract_class node_id);
  file_path = file_path;
  lineno = none;
  name = extract_name node_id;
  class_name = extract_class node_id;
  markers = [];
  keywords = [];
  parameters = none;
  avg_duration_ms = none;
  run_count = 0;
  fail_count = 0;
  xfail = false;
  skip = false;
}

abbrev pub contains : List String → String → Bool
contains ts t = any (λ u. str_eq u t) ts

unfoldable pub has_marker : TestNode → String → Bool
has_marker node marker = contains node.markers marker

unfoldable pub add_marker : String → TestNode → TestNode
add_marker marker node = if contains node.markers marker then node else record node {
  markers = node.markers ++ marker ∷ [];
  skip = str_eq marker "skip" || (str_eq marker "skipif" || node.skip);
  xfail = str_eq marker "xfail" || node.xfail;
}

abbrev pub push : Option String → List String
push none = []
push (some t) = t ∷ []

-- The file's name without its directory, if it ends in ".py" without that.
unfoldable pub stem_of : String → Option String
unfolding behind_last strip_suffix
stem_of file_path = strip_suffix (or_text file_path (behind_last 47 file_path)) ".py"

unfoldable pub build_keywords : TestNode → TestNode
unfolding stem_of
build_keywords node = record node {
  keywords =
      node.name
      ∷ (push node.class_name
          ++ (push (stem_of node.file_path) ++ (node.markers ++ push node.parameters)));
}

-- `lower` is `to_lowercase`.
abbrev pub keyword_leaf : (String → String) → TestNode → String → Bool
keyword_leaf lower node expr =
    any (λ k. has_part (lower k) (lower expr)) node.keywords
    || has_part (lower node.node_id) (lower expr)

unfoldable pub matches_keyword : (String → String) → TestNode → String → Bool
unfolding matches_expression
matches_keyword lower node expr = matches_expression (keyword_leaf lower node) expr

unfoldable pub matches_marker : TestNode → String → Bool
unfolding matches_expression has_marker
matches_marker node expr = matches_expression (has_marker node) expr

abbrev pub or_zero : Option ℕ → ℕ
or_zero none = 0
or_zero (some n) = n

-- `none` is the division by a count that has wrapped to 0, which panics.
unfoldable pub record_duration : ℕ → TestNode → Option TestNode
record_duration duration_ms node =
    let run_count = add_u32 node.run_count 1 in
    if leb run_count 0
    then none
    else some (record node {
      run_count = run_count;
      avg_duration_ms = some (
          add_u64 (mul_u64 (or_zero node.avg_duration_ms) (run_count - 1)) duration_ms / run_count);
    })

unfoldable pub record_failure : TestNode → TestNode
record_failure node = record node { fail_count = add_u32 node.fail_count 1 }

-- The f64 `fail_count / run_count * 100.0`, of counts with runs, is an argument; 0 is the bits of 0.0.
unfoldable pub failure_rate : (ℕ → ℕ → ℕ) → TestNode → ℕ
failure_rate percent node =
    if leb node.run_count 0 then 0 else percent node.fail_count node.run_count
