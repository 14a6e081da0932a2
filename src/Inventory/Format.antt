-- ===== src/Inventory/Format.antt =====
-- A byte format for the tests of the inventory: it stands for rmp_serde in examples, which show that
-- what is asked of rmp_serde can hold.
use Prim.Native.Char.{Char, char, code, IsScalar, IsLt}
use Prim.Native.Nat.{compare, Ordering}
use rpytest.Common.{
  ℕ, zero, suc, ◌≡◌, refl, ap, String, Bool, true, false, List, [], ◌∷◌, Option, none, some,
}
use rpytest.Inventory.{TestNode, TestNodeKind, function, method, class, module_kind}
use rpytest.Inventory.Store.{InventoryMeta}

abbrev Bytes : Type 0
Bytes = List ℕ

-- A way to write a value before the rest, and to read it back.
pub record Format (A : Type 0) : Type 0 where
  pub write : A → Bytes → Bytes
  pub read : Bytes → Option (A × Bytes)
  pub read-write : (a : A) (rest : Bytes) → read (write a rest) ≡ some (a, rest)

abbrev read_ℕ : Bytes → Option (ℕ × Bytes)
read_ℕ [] = none
read_ℕ (n ∷ rest) = some (n, rest)

abbrev numbers : Format ℕ
numbers = record { write = λ n rest. n ∷ rest; read = read_ℕ; read-write = λ n rest. refl }

abbrev then_read : {A C : Type 0} → Option (A × Bytes) → (A → Bytes → Option C) → Option C
then_read none f = none
then_read (some (a, rest)) f = f a rest

module _ {A B : Type 0} (f : Format A) (g : Format B) where
  abbrev pairs : Format (A × B)
  pairs = record {
    write = λ p rest. f.write p.0 (g.write p.1 rest);
    read = λ bytes.
        then_read (f.read bytes)
          (λ a more. then_read (g.read more) (λ b rest. some ((a, b), rest)));
    read-write = λ p rest. rw (f.read-write p.0 (g.write p.1 rest), g.read-write p.1 rest) refl;
  }

-- A type whose values are written as those of another.
module _ {A B : Type 0} (f : Format B) (to : A → B) (from : B → Option A)
    (back : (a : A) → from (to a) ≡ some a) where
  abbrev read_as : Option A → Bytes → Option (A × Bytes)
  read_as none rest = none
  read_as (some a) rest = some (a, rest)

  abbrev as_other : Format A
  as_other = record {
    write = λ a rest. f.write (to a) rest;
    read = λ bytes. then_read (f.read bytes) (λ b rest. read_as (from b) rest);
    read-write = λ a rest. rw (f.read-write (to a) rest, back a) refl;
  }

-- Whether a number is a character's, by its three comparisons.
abbrev Both : Ordering → Ordering → Type 0
Both Ordering.lt o = IsLt o
Both Ordering.eq o = ⊥
Both Ordering.gt o = ⊥

abbrev Scalar : Ordering → Ordering → Ordering → Type 0
Scalar Ordering.lt o p = Unit
Scalar Ordering.eq o p = Both o p
Scalar Ordering.gt o p = Both o p

abbrev is_both : (o p : Ordering) → Option (Both o p)
is_both Ordering.lt Ordering.lt = some tt
is_both Ordering.lt Ordering.eq = none
is_both Ordering.lt Ordering.gt = none
is_both Ordering.eq p = none
is_both Ordering.gt p = none

abbrev is_scalar : (o p q : Ordering) → Option (Scalar o p q)
is_scalar Ordering.lt p q = some tt
is_scalar Ordering.eq p q = is_both p q
is_scalar Ordering.gt p q = is_both p q

is_both-some : (o p : Ordering) (h : Both o p) → is_both o p ≡ some h
is_both-some Ordering.lt Ordering.lt h = refl
is_both-some Ordering.lt Ordering.eq h = absurd h
is_both-some Ordering.lt Ordering.gt h = absurd h
is_both-some Ordering.eq p h = absurd h
is_both-some Ordering.gt p h = absurd h

is_scalar-some : (o p q : Ordering) (h : Scalar o p q) → is_scalar o p q ≡ some h
is_scalar-some Ordering.lt p q h = refl
is_scalar-some Ordering.eq p q h = is_both-some p q h
is_scalar-some Ordering.gt p q h = is_both-some p q h

abbrev char_if : (n : ℕ) → Option (IsScalar n) → Option Char
char_if n none = none
char_if n (some h) = some (char n h)

abbrev read_char : ℕ → Option Char
read_char n = char_if n (is_scalar (compare n 55_296) (compare 57_343 n) (compare n 1_114_112))

read_char-code : (c : Char) → read_char (code c) ≡ some c
read_char-code (char n h) = ap (char_if n) (is_scalar-some _ _ _ h)

abbrev cons_char : Option Char → Option (String × Bytes) → Option (String × Bytes)
cons_char (some c) (some (s, rest)) = some (String.◌∷◌ c s, rest)
cons_char (some c) none = none
cons_char none r = none

-- Each character behind a 1, and a 0 at the end.
write_text : String → Bytes → Bytes
write_text String.[] rest = 0 ∷ rest
write_text (String.◌∷◌ c s) rest = 1 ∷ code c ∷ write_text s rest

read_text : Bytes → Option (String × Bytes)
read_text [] = none
read_text (zero ∷ rest) = some (String.[], rest)
read_text (suc k ∷ []) = none
read_text (suc k ∷ n ∷ rest) = cons_char (read_char n) (read_text rest)

read_text-write_text : (s : String) (rest : Bytes) → read_text (write_text s rest) ≡ some (s, rest)
unfolding read_text write_text
read_text-write_text String.[] rest = refl
read_text-write_text (String.◌∷◌ c s) rest = cc (read_char-code c, read_text-write_text s rest)

abbrev texts : Format String
texts = record { write = write_text; read = read_text; read-write = read_text-write_text }

module _ {A : Type 0} (f : Format A) where
  abbrev write_option : Option A → Bytes → Bytes
  write_option none rest = 0 ∷ rest
  write_option (some a) rest = 1 ∷ f.write a rest

  abbrev read_option : Bytes → Option (Option A × Bytes)
  read_option [] = none
  read_option (zero ∷ rest) = some (none, rest)
  read_option (suc k ∷ rest) = then_read (f.read rest) (λ a more. some (some a, more))

  read_option-write_option :
      (o : Option A) (rest : Bytes) → read_option (write_option o rest) ≡ some (o, rest)
  read_option-write_option none rest = refl
  read_option-write_option (some a) rest = rw (f.read-write a rest) refl

  abbrev options : Format (Option A)
  options = record {
    write = write_option;
    read = read_option;
    read-write = read_option-write_option;
  }

  abbrev count_items : List A → ℕ
  count_items [] = 0
  count_items (a ∷ xs) = suc (count_items xs)

  abbrev write_items : List A → Bytes → Bytes
  write_items [] rest = rest
  write_items (a ∷ xs) rest = f.write a (write_items xs rest)

  abbrev read_items : ℕ → Bytes → Option (List A × Bytes)
  read_items zero bytes = some ([], bytes)
  read_items (suc n) bytes =
      then_read (f.read bytes)
        (λ a more. then_read (read_items n more) (λ xs rest. some (a ∷ xs, rest)))

  read_items-write_items :
      (xs : List A) (rest : Bytes)
      → read_items (count_items xs) (write_items xs rest) ≡ some (xs, rest)
  read_items-write_items [] rest = refl
  read_items-write_items (a ∷ xs) rest =
      rw (f.read-write a (write_items xs rest), read_items-write_items xs rest) refl

  abbrev read_list : Bytes → Option (List A × Bytes)
  read_list [] = none
  read_list (n ∷ rest) = read_items n rest

  abbrev lists : Format (List A)
  lists = record {
    write = λ xs rest. count_items xs ∷ write_items xs rest;
    read = read_list;
    read-write = read_items-write_items;
  }

abbrev kind_code : TestNodeKind → ℕ
kind_code function = 0
kind_code method = 1
kind_code class = 2
kind_code module_kind = 3

abbrev kind_of_code : ℕ → Option TestNodeKind
kind_of_code zero = some function
kind_of_code (suc zero) = some method
kind_of_code (suc (suc zero)) = some class
kind_of_code _ = some module_kind

kinds_back : (k : TestNodeKind) → kind_of_code (kind_code k) ≡ some k
kinds_back function = refl
kinds_back method = refl
kinds_back class = refl
kinds_back module_kind = refl

abbrev flag_code : Bool → ℕ
flag_code false = 0
flag_code true = 1

abbrev flag_of_code : ℕ → Option Bool
flag_of_code zero = some false
flag_of_code _ = some true

flags_back : (b : Bool) → flag_of_code (flag_code b) ≡ some b
flags_back true = refl
flags_back false = refl

abbrev kinds : Format TestNodeKind
kinds = as_other numbers kind_code kind_of_code kinds_back

abbrev flags : Format Bool
flags = as_other numbers flag_code flag_of_code flags_back

abbrev NodeFields : Type 0
NodeFields =
    (String × (String × (Option ℕ × (String × Option String))))
    × ((List String × (List String × (Option String × Option ℕ)))
        × (TestNodeKind × (ℕ × (ℕ × (Bool × Bool)))))

abbrev fields : TestNode → NodeFields
fields n = (
  (n.node_id, (n.file_path, (n.lineno, (n.name, n.class_name)))),
  (
    (n.markers, (n.keywords, (n.parameters, n.avg_duration_ms))),
    (n.kind, (n.run_count, (n.fail_count, (n.xfail, n.skip)))),
  ),
)

abbrev node_of_fields : NodeFields → Option TestNode
node_of_fields ((i, (p, (l, (m, c)))), ((ms, (ks, (ps, d))), (k, (r, (f, (x, s)))))) = some record {
  node_id = i;
  kind = k;
  file_path = p;
  lineno = l;
  name = m;
  class_name = c;
  markers = ms;
  keywords = ks;
  parameters = ps;
  avg_duration_ms = d;
  run_count = r;
  fail_count = f;
  xfail = x;
  skip = s;
}

nodes_back : (n : TestNode) → node_of_fields (fields n) ≡ some n
nodes_back n = refl

pub nodes : Format TestNode
nodes =
    as_other
      (pairs (pairs texts (pairs texts (pairs (options numbers) (pairs texts (options texts))))) (
        pairs (pairs (lists texts) (pairs (lists texts) (pairs (options texts) (options numbers))))
          (pairs kinds (pairs numbers (pairs numbers (pairs flags flags))))))
      fields node_of_fields nodes_back

abbrev MetaFields : Type 0
MetaFields = String × (ℕ × (ℕ × ℕ))

abbrev meta_fields : InventoryMeta → MetaFields
meta_fields m = (m.hash, (m.collected_at, (m.node_count, m.version)))

abbrev meta_of_fields : MetaFields → Option InventoryMeta
meta_of_fields (h, (c, (n, v))) =
    some record { hash = h; collected_at = c; node_count = n; version = v }

metas_back : (m : InventoryMeta) → meta_of_fields (meta_fields m) ≡ some m
metas_back m = refl

pub metas : Format InventoryMeta
metas =
    as_other (pairs texts (pairs numbers (pairs numbers numbers))) meta_fields meta_of_fields
      metas_back
