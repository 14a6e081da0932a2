-- ===== src/Inventory/Splitting.antt =====
-- Where `split_once` finds a keyword between words, as the reading of expressions needs it
-- (crates/rpytest-core/src/inventory/nodes.rs).
use Prim.Native.Char.{code}
use text.Mathlib.TextEquality.{Char-path}
use rpytest.Common.{
  ℕ, ◌==◌, ◌≡◌, ◌≢◌, refl, sym, ◌∙◌, ap, String, true, false, Option, none, some, arith, Bool-cases,
  inl, inr,
}
use rpytest.Common.Text.{has_prefix, split_once, is_whitespace}
use rpytest.Common.TextLaws.{AllChars, IsInk, behind}

-- A text that ends, or goes on with a space.
abbrev pub Stops : String → Type 0
Stops String.[] = Unit
Stops (String.◌∷◌ c t) = code c ≡ 32

ink_no_space : (c : ℕ) → IsInk c → c ≡ 32 → ⊥
ink_no_space c i e = true≢false (sym (ap is_whitespace e) ∙ i)
  where
    true≢false : true ≢ false
    true≢false e = cc e

-- A word with a space behind it is the first word of a text only if it is.
has_prefix-word :
    (w t k : String)
    → AllChars IsInk w
    → AllChars IsInk k
    → Stops t
    → has_prefix (behind w t) (behind k " ") ≡ true
    → w ≡ k
unfolding has_prefix
has_prefix-word String.[] t String.[] a b s h = refl
has_prefix-word String.[] String.[] (String.◌∷◌ d k) a b s h = absurd (cc h)
has_prefix-word String.[] (String.◌∷◌ c t) (String.◌∷◌ d k) a b s h =
    let same : code c ≡ code d = ground (arith, h) in
    absurd (ink_no_space (code d) b.0 (sym same ∙ s))
has_prefix-word (String.◌∷◌ c w) t String.[] a b s h =
    absurd (ink_no_space (code c) a.0 (ground (arith, h)))
has_prefix-word (String.◌∷◌ c w) t (String.◌∷◌ d k) a b s h =
    let same : code c ≡ code d = ground (arith, h) in
    let rest : has_prefix (behind w t) (behind k " ") ≡ true = ground (arith, h) in
    ap (String.◌∷◌ c) (has_prefix-word w t k a.1 b.1 s rest)
    ∙ ap (λ e. String.◌∷◌ e k) (Char-path c d same)

pub not_first :
    (w t k : String)
    → AllChars IsInk w
    → AllChars IsInk k
    → Stops t
    → w ≢ k
    → has_prefix (behind w t) (behind k " ") ≡ false
not_first w t k a b s n = elim (Bool-cases (has_prefix (behind w t) (behind k " "))) [
  | inl e ↦ absurd (n (has_prefix-word w t k a b s e))
  | inr e ↦ e
]

abbrev pub pushed : String → Option (String × String) → Option (String × String)
pushed s none = none
pushed s (some (l, r)) = some (behind s l, r)

abbrev pub spaced : String → String
spaced k = behind " " (behind k " ")

pub split_once-word :
    (w t k : String)
    → AllChars IsInk w
    → split_once (spaced k) (behind w t) ≡ pushed w (split_once (spaced k) t)
unfolding split_once has_prefix
split_once-word String.[] t k a = nothing (split_once (spaced k) t)
  where
    nothing : (o : Option (String × String)) → o ≡ pushed "" o
    nothing none = refl
    nothing (some (l, r)) = refl
split_once-word (String.◌∷◌ c w) t k a =
    let differs : (code c == 32) ≡ false = ground (arith, ink_no_space (code c) a.0) in
    rw differs (
      ap (λ o. elim o [ some (l, r) ↦ some (String.◌∷◌ c l, r) | none ↦ none ])
        (split_once-word w t k a.1)
      ∙ push_first (split_once (spaced k) t))
  where
    push_first :
        (o : Option (String × String))
        → elim (pushed w o) [ some (l, r) ↦ some (String.◌∷◌ c l, r) | none ↦ none ]
          ≡ pushed (String.◌∷◌ c w) o
    push_first none = refl
    push_first (some (l, r)) = refl

-- A space that no keyword follows is passed over.
pub split_once-space :
    (s k : String)
    → has_prefix s (behind k " ") ≡ false
    → split_once (spaced k) (behind " " s) ≡ pushed " " (split_once (spaced k) s)
unfolding split_once has_prefix
split_once-space s k h = rw h (push_space (split_once (spaced k) s))
  where
    push_space :
        (o : Option (String × String))
        → elim o [ some (l, r) ↦ some (behind " " l, r) | none ↦ none ] ≡ pushed " " o
    push_space none = refl
    push_space (some (l, r)) = refl

pub behind-nil : (s : String) → behind s "" ≡ s
behind-nil String.[] = refl
behind-nil (String.◌∷◌ c s) = ap (String.◌∷◌ c) (behind-nil s)

pub behind_assoc : (s t u : String) → behind (behind s t) u ≡ behind s (behind t u)
behind_assoc String.[] t u = refl
behind_assoc (String.◌∷◌ c s) t u = ap (String.◌∷◌ c) (behind_assoc s t u)
