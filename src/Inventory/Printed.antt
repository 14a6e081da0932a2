-- ===== src/Inventory/Printed.antt =====
-- Expressions of -k and -m as trees, and their texts, for the reading of expressions
-- (crates/rpytest-core/src/inventory/nodes.rs).
use rpytest.Common.{◌≡◌, ◌≢◌, refl, ◌∙◌, ap, String, false}
use rpytest.Common.Text.{trim, trim_start, trim_end, is_empty_text}
use rpytest.Common.TextLaws.{AllChars, IsInk, behind}

-- Words with `or` between them.
pub data Clause : Type 0 where
  word : String → Clause
  word_or : String → Clause → Clause

-- Clauses with `and` between them, and `not` before the rest of the expression.
pub data Expression : Type 0 where
  clause : Clause → Expression
  clause_and : Clause → Expression → Expression
  negated : Expression → Expression

-- The text of a clause, and what stands behind it.
abbrev pub clause_text : Clause → String → String
clause_text (word w) t = behind w t
clause_text (word_or w c) t = behind w (behind " or " (clause_text c t))

abbrev pub text_of : Expression → String
text_of (clause c) = clause_text c ""
text_of (clause_and c e) = clause_text c (behind " and " (text_of e))
text_of (negated e) = behind "not " (text_of e)

-- A text without white space that is none of the three keywords.
abbrev pub IsWord : String → Type 0
IsWord w = AllChars IsInk w × (w ≢ "") × (w ≢ "and") × (w ≢ "or") × (w ≢ "not")

abbrev pub HasWords : Clause → Type 0
HasWords (word w) = IsWord w
HasWords (word_or w c) = IsWord w × HasWords c

abbrev pub IsProper : Expression → Type 0
IsProper (clause c) = HasWords c
IsProper (clause_and c e) = HasWords c × IsProper e
IsProper (negated e) = IsProper e

trim_end-word : (w t : String) → AllChars IsInk w → trim_end (behind w t) ≡ behind w (trim_end t)
unfolding trim_end
trim_end-word String.[] t a = refl
trim_end-word (String.◌∷◌ c w) t a = rw a.0 (ap (String.◌∷◌ c) (trim_end-word w t a.1))

word_not_empty : (w t : String) → w ≢ "" → is_empty_text (behind w t) ≡ false
word_not_empty String.[] t n = absurd (n refl)
word_not_empty (String.◌∷◌ c w) t n = refl

clause_not_empty : (c : Clause) (t : String) → HasWords c → is_empty_text (clause_text c t) ≡ false
clause_not_empty (word w) t h = word_not_empty w t h.1
clause_not_empty (word_or w c) t h = word_not_empty w (behind " or " (clause_text c t)) h.0.1

text_not_empty : (e : Expression) → IsProper e → is_empty_text (text_of e) ≡ false
text_not_empty (clause c) h = clause_not_empty c "" h
text_not_empty (clause_and c e) h = clause_not_empty c (behind " and " (text_of e)) h.0
text_not_empty (negated e) h = refl

-- A text that is trimmed stays so behind a keyword.
trim_end-and :
    (s : String)
    → is_empty_text s ≡ false
    → trim_end s ≡ s
    → trim_end (behind " and " s) ≡ behind " and " s
unfolding trim_end
trim_end-and s n e = rw (e, n) refl

trim_end-or :
    (s : String)
    → is_empty_text s ≡ false
    → trim_end s ≡ s
    → trim_end (behind " or " s) ≡ behind " or " s
unfolding trim_end
trim_end-or s n e = rw (e, n) refl

trim_end-not :
    (s : String)
    → is_empty_text s ≡ false
    → trim_end s ≡ s
    → trim_end (behind "not " s) ≡ behind "not " s
unfolding trim_end
trim_end-not s n e = rw (e, n) refl

trim_end-clause :
    (c : Clause) (t : String)
    → HasWords c
    → trim_end t ≡ t
    → trim_end (clause_text c t) ≡ clause_text c t
trim_end-clause (word w) t h e = trim_end-word w t h.0 ∙ ap (behind w) e
trim_end-clause (word_or w c) t h e =
    trim_end-word w (behind " or " (clause_text c t)) h.0.0
    ∙ ap (behind w)
        (trim_end-or (clause_text c t) (clause_not_empty c t h.1) (trim_end-clause c t h.1 e))

trim_end-text : (e : Expression) → IsProper e → trim_end (text_of e) ≡ text_of e
trim_end-text (clause c) h = trim_end-clause c "" h (unfold trim_end in refl)
trim_end-text (clause_and c e) h =
    trim_end-clause c (behind " and " (text_of e)) h.0
      (trim_end-and (text_of e) (text_not_empty e h.1) (trim_end-text e h.1))
trim_end-text (negated e) h = trim_end-not (text_of e) (text_not_empty e h) (trim_end-text e h)

trim_start-word : (w t : String) → AllChars IsInk w → w ≢ "" → trim_start (behind w t) ≡ behind w t
unfolding trim_start
trim_start-word String.[] t a n = absurd (n refl)
trim_start-word (String.◌∷◌ c w) t a n = rw a.0 refl

trim_start-clause :
    (c : Clause) (t : String) → HasWords c → trim_start (clause_text c t) ≡ clause_text c t
trim_start-clause (word w) t h = trim_start-word w t h.0 h.1
trim_start-clause (word_or w c) t h =
    trim_start-word w (behind " or " (clause_text c t)) h.0.0 h.0.1

trim_start-text : (e : Expression) → IsProper e → trim_start (text_of e) ≡ text_of e
trim_start-text (clause c) h = trim_start-clause c "" h
trim_start-text (clause_and c e) h = trim_start-clause c (behind " and " (text_of e)) h.0
trim_start-text (negated e) h = unfold trim_start in refl

pub trim-text : (e : Expression) → IsProper e → trim (text_of e) ≡ text_of e
unfolding trim
trim-text e h = ap trim_end (trim_start-text e h) ∙ trim_end-text e h
