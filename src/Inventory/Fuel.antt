-- ===== src/Inventory/Fuel.antt =====
-- The reading of expressions goes by the equation of the source (matches_keyword and matches_marker
-- of crates/rpytest-core/src/inventory/nodes.rs), since its fuel does not run out.
use Prim.Native.Char.{Char}
use rpytest.Common.{
  ℕ, zero, suc, ◌≤◌, ◌<◌, ◌≡◌, refl, sym, ◌∙◌, ap, String, Bool, true, false, not, ◌&&◌, ◌||◌,
  Option, none, some, if◌then◌else◌, arith, Bool-cases, inl, inr,
}
use rpytest.Common.Text.{has_prefix, trim, split_once, drop_text, chars, trim_start, trim_end}
use rpytest.Inventory.Expressions.{
  Form, negation, plain, conjunction, disjunction, form_of, matches, matches_expression,
  disjunction_or, conjunction_or,
}

chars-trim_start : (s : String) → chars (trim_start s) ≤ chars s
unfolding trim_start
chars-trim_start String.[] = omega arith
chars-trim_start (String.◌∷◌ c s) = ground (arith, chars-trim_start s)

chars-trim_end : (s : String) → chars (trim_end s) ≤ chars s
unfolding trim_end
chars-trim_end String.[] = omega arith
chars-trim_end (String.◌∷◌ c s) = ground (arith, chars-trim_end s)

chars-trim : (s : String) → chars (trim s) ≤ chars s
unfolding trim
chars-trim s = omega (arith, chars-trim_end (trim_start s), chars-trim_start s)

chars-drop_text : (n : ℕ) (s : String) → chars (drop_text n s) ≤ chars s
chars-drop_text zero s = omega arith
chars-drop_text (suc n) String.[] = omega arith
chars-drop_text (suc n) (String.◌∷◌ c s) = omega (arith, chars-drop_text n s)

-- The parts of a form are shorter than a number.
abbrev AreShorter : ℕ → Option (String × String) → Type 0
AreShorter n none = Unit
AreShorter n (some (l, r)) = (chars l < n) × (chars r < n)

AreShorter-if :
    (n : ℕ) (b : Bool) (o r : Option (String × String))
    → AreShorter n o
    → AreShorter n r
    → AreShorter n (if b then o else r)
AreShorter-if n true o r h k = h
AreShorter-if n false o r h k = k

AreShorter-cons :
    (n : ℕ) (c : Char) (o : Option (String × String))
    → AreShorter n o
    → AreShorter (suc n) (elim o [ some (l, r) ↦ some (String.◌∷◌ c l, r) | none ↦ none ])
AreShorter-cons n c none h = tt
AreShorter-cons n c (some (l, r)) h = (omega (arith, h.0), omega (arith, h.1))

first_shorter :
    (part s : String) (c : Char)
    → 0 < chars part
    → chars (drop_text (chars part) (String.◌∷◌ c s)) < suc (chars s)
first_shorter String.[] s c h = absurd (omega (arith, h))
first_shorter (String.◌∷◌ d part) s c h = omega (arith, chars-drop_text (chars part) s)

split_once_shorter : (part s : String) → 0 < chars part → AreShorter (chars s) (split_once part s)
unfolding split_once
split_once_shorter part String.[] h = tt
split_once_shorter part (String.◌∷◌ c s) h =
    AreShorter-if (suc (chars s)) (has_prefix (String.◌∷◌ c s) part) _ _
      (omega arith, first_shorter part s c h)
      (AreShorter-cons (chars s) c (split_once part s) (split_once_shorter part s h))

-- The texts of a form are shorter than the expression.
abbrev IsSmaller : ℕ → Form → Type 0
IsSmaller n (negation rest) = chars rest < n
IsSmaller n (conjunction l r) = (chars l < n) × (chars r < n)
IsSmaller n (disjunction l r) = (chars l < n) × (chars r < n)
IsSmaller n (plain word) = Unit

negation_smaller : (e : String) → has_prefix e "not " ≡ true → chars (drop_text 4 e) < chars e
unfolding has_prefix
negation_smaller String.[] h = absurd (cc h)
negation_smaller (String.◌∷◌ c e) h = omega (arith, chars-drop_text 3 e)

disjunction-IsSmaller :
    (n : ℕ) (e : String) (o : Option (String × String))
    → AreShorter n o
    → IsSmaller n (disjunction_or e o)
disjunction-IsSmaller n e none h = tt
disjunction-IsSmaller n e (some (l, r)) h = h

conjunction-IsSmaller :
    (n : ℕ) (e : String) (o : Option (String × String))
    → AreShorter n o
    → IsSmaller n (disjunction_or e (split_once " or " e))
    → IsSmaller n (conjunction_or e o)
conjunction-IsSmaller n e none h k = k
conjunction-IsSmaller n e (some (l, r)) h k = h

form_of-IsSmaller : (e : String) → IsSmaller (chars e) (form_of e)
unfolding form_of
form_of-IsSmaller e = elim (Bool-cases (has_prefix e "not ")) [
  | inl h ↦ rw h (negation_smaller e h)
  | inr h ↦ rw h (
      conjunction-IsSmaller (chars e) e (split_once " and " e)
        (split_once_shorter " and " e (omega arith))
        (disjunction-IsSmaller (chars e) e (split_once " or " e)
          (split_once_shorter " or " e (omega arith))))
]

module _ (leaf : String → Bool) where
  -- The value of a form, by the values of its parts.
  abbrev pub value : (String → Bool) → Form → Bool
  value of_part (negation rest) = not (of_part rest)
  value of_part (conjunction l r) = of_part l && of_part r
  value of_part (disjunction l r) = of_part l || of_part r
  value of_part (plain word) = leaf word

  value_same :
      (f g : String → Bool) (n : ℕ) (form : Form)
      → IsSmaller n form
      → ((e : String) → chars e < n → f e ≡ g e)
      → value f form ≡ value g form
  value_same f g n (negation rest) h k = ap not (k rest h)
  value_same f g n (conjunction l r) h k = cc (k l h.0, k r h.1)
  value_same f g n (disjunction l r) h k = cc (k l h.0, k r h.1)
  value_same f g n (plain word) h k = refl

  matches_form :
      (fuel : ℕ) (e : String)
      → matches leaf (suc fuel) e ≡ value (matches leaf fuel) (form_of (trim e))
  unfolding matches
  matches_form fuel e = by_form (form_of (trim e))
    where
      by_form :
          (form : Form)
          → elim form [
            | negation rest ↦ not (matches leaf fuel rest)
            | conjunction left right ↦ matches leaf fuel left && matches leaf fuel right
            | disjunction left right ↦ matches leaf fuel left || matches leaf fuel right
            | plain word ↦ leaf word
          ]
            ≡ value (matches leaf fuel) form
      by_form (negation rest) = refl
      by_form (conjunction l r) = refl
      by_form (disjunction l r) = refl
      by_form (plain word) = refl

  IsSmaller-le : (m n : ℕ) (form : Form) → m ≤ n → IsSmaller m form → IsSmaller n form
  IsSmaller-le m n (negation rest) le h = omega (arith, le, h)
  IsSmaller-le m n (conjunction l r) le h = (omega (arith, le, h.0), omega (arith, le, h.1))
  IsSmaller-le m n (disjunction l r) le h = (omega (arith, le, h.0), omega (arith, le, h.1))
  IsSmaller-le m n (plain word) le h = tt

  trim-IsSmaller : (e : String) → IsSmaller (chars e) (form_of (trim e))
  trim-IsSmaller e =
      IsSmaller-le (chars (trim e)) (chars e) _ (chars-trim e) (form_of-IsSmaller (trim e))

  -- More fuel than the expression has characters gives one result.
  enough_fuel :
      (m n : ℕ) (e : String) → chars e < m → chars e < n → matches leaf m e ≡ matches leaf n e
  enough_fuel zero n e h k = absurd (omega (arith, h))
  enough_fuel (suc m) zero e h k = absurd (omega (arith, k))
  enough_fuel (suc m) (suc n) e h k =
      matches_form m e
      ∙ value_same (matches leaf m) (matches leaf n) (chars e) (form_of (trim e)) (trim-IsSmaller e)
          (λ e' l. enough_fuel m n e' (omega (arith, l, h)) (omega (arith, l, k)))
      ∙ sym (matches_form n e)

  -- An expression is worth what its form makes of the values of its parts, which are read in the same
  -- way, from any text: so the reading ends for each text, and no part is read short.
  pub matches_expression-form :
      (e : String) → matches_expression leaf e ≡ value (matches_expression leaf) (form_of (trim e))
  unfolding matches_expression
  matches_expression-form e =
      matches_form (chars e) e
      ∙ value_same (matches leaf (chars e)) (λ t. matches leaf (suc (chars t)) t) (chars e)
          (form_of (trim e)) (trim-IsSmaller e)
          (λ t l. enough_fuel (chars e) (suc (chars t)) t l (omega arith))
