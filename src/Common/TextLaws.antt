-- ===== src/Common/TextLaws.antt =====
-- Laws of the texts' operations: joined texts, words and lines.
use Prim.Native.Char.{Char, code}
use Prim.Native.Nat.{ℕ}
use Prim.Native.String.{String, ◌++◌}
use Prim.Native.String.append
use mathlib.Core.Path.{◌≡◌, refl, ap, ◌∙◌}
use mathlib.Core.Bool.{false, true}
use mathlib.Core.List.{◌∷◌}
use native.Mathlib.Omega.{arith}
use text.Mathlib.Text.{◌==◌ as str_eq}
use text.Mathlib.TextEquality.{eq_iff}
use rpytest.Common.Tests.{◌==◌}
use rpytest.Common.Text.{is_whitespace, keep_word, words_from, lines_from, strip_return}

-- A text of such characters only.
abbrev pub AllChars : (ℕ → Type 0) → String → Type 0
AllChars P String.[] = Unit
AllChars P (String.◌∷◌ c s) = P (code c) × AllChars P s

abbrev pub IsInk : ℕ → Type 0
IsInk c = is_whitespace c ≡ false

abbrev pub IsInLine : ℕ → Type 0
IsInLine c = (c == 10 ≡ false) × (c == 13 ≡ false)

code-IsInLine : (c : ℕ) → IsInk c → IsInLine c
code-IsInLine c h = (ground arith, ground arith)

pub append_chars :
    (P : ℕ → Type 0) (s t : String) → AllChars P s → AllChars P t → AllChars P (s ++ t)
append_chars P String.[] t a b = rw append.nil b
append_chars P (String.◌∷◌ c s) t a b = rw append.cons (a.0, append_chars P s t a.1 b)

pub char_append : (c : Char) (t : String) → String.◌∷◌ c String.[] ++ t ≡ String.◌∷◌ c t
char_append c t = append.cons c "" t ∙ ap (String.◌∷◌ c) (append.nil t)

pub strip_return-in_line : (s : String) → AllChars IsInLine s → strip_return s ≡ s
unfolding strip_return
strip_return-in_line String.[] a = refl
strip_return-in_line (String.◌∷◌ c String.[]) a = rw a.0.1 refl
strip_return-in_line (String.◌∷◌ c (String.◌∷◌ d s)) a =
    ap (String.◌∷◌ c) (strip_return-in_line (String.◌∷◌ d s) a.1)

pub lines_from-line :
    (s t : String)
    → AllChars IsInLine s
    → lines_from (s ++ ("\n" ++ t)) ≡ (s, (lines_from t).0 ∷ (lines_from t).1)
unfolding lines_from
lines_from-line String.[] t a = rw (append.nil, char_append) refl
lines_from-line (String.◌∷◌ c s) t a = rw append.cons (rw (lines_from-line s t a.1, a.0.0) refl)

pub words_from-word :
    (s t : String)
    → AllChars IsInk s
    → words_from (s ++ t) ≡ (s ++ (words_from t).0, (words_from t).1)
unfolding words_from
words_from-word String.[] t a = rw (append.nil t, append.nil (words_from t).0) refl
words_from-word (String.◌∷◌ c s) t a =
    rw (append.cons c s t, append.cons c s (words_from t).0, words_from-word s t a.1, a.0) refl

pub ink-IsInLine : (s : String) → AllChars IsInk s → AllChars IsInLine s
ink-IsInLine String.[] a = tt
ink-IsInLine (String.◌∷◌ c s) a = (code-IsInLine (code c) a.0, ink-IsInLine s a.1)

pub words_from-space :
    (t : String) → words_from (" " ++ t) ≡ ("", keep_word (words_from t).0 (words_from t).1)
unfolding words_from
words_from-space t = rw char_append refl

-- `++` that computes at the characters of its first text.
abbrev pub behind : String → String → String
behind String.[] t = t
behind (String.◌∷◌ c s) t = String.◌∷◌ c (behind s t)

pub append_behind : (s t : String) → s ++ t ≡ behind s t
append_behind String.[] t = append.nil t
append_behind (String.◌∷◌ c s) t = append.cons c s t ∙ ap (String.◌∷◌ c) (append_behind s t)

pub same_text : (s t : String) → str_eq s t ≡ true → s ≡ t
same_text s t e = ground (arith, eq_iff s t, e)
