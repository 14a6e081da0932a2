-- ===== src/Common/Text.antt =====
-- What the program uses of Rust's `str`: lines, words, prefixes and the places of a part. A text is
-- walked by its characters.
use Prim.Native.Nat.{ℕ, zero, suc, ◌-◌, ◌/◌, ◌%◌}
use Prim.Native.Char.{Char, code}
use Prim.Native.String.{String, len, slice, find, ◌++◌}
use mathlib.Core.Bool.{Bool, true, false, ◌&&◌, ◌||◌}
use mathlib.Core.Option.{Option, none, some}
use mathlib.Core.List.{List, [], ◌∷◌}
use rpytest.Common.Tests.{leb, ◌==◌, if◌then◌else◌}

-- `char::is_whitespace`
abbrev pub is_whitespace : ℕ → Bool
is_whitespace c =
    (leb 9 c && leb c 13)
    || (c == 32
        || (c == 133
            || (c == 160
                || (c == 5760
                    || ((leb 8192 c && leb c 8202)
                        || (c == 8232
                            || (c == 8233 || (c == 8239 || (c == 8287 || c == 12288)))))))))

abbrev pub is_empty_text : String → Bool
is_empty_text String.[] = true
is_empty_text (String.◌∷◌ c s) = false

abbrev pub keep_word : String → List String → List String
keep_word String.[] ws = ws
keep_word (String.◌∷◌ c w) ws = String.◌∷◌ c w ∷ ws

-- The first word, empty if the text begins with white space, and the words after it.
abbrev break_word : Bool → Char → String × List String → String × List String
break_word true c (w, ws) = (String.[], keep_word w ws)
break_word false c (w, ws) = (String.◌∷◌ c w, ws)

unfoldable pub words_from : String → String × List String
words_from String.[] = (String.[], [])
words_from (String.◌∷◌ c s) = break_word (is_whitespace (code c)) c (words_from s)

-- `split_whitespace`
unfoldable pub split_whitespace : String → List String
unfolding words_from
split_whitespace s = let (w, ws) = words_from s in keep_word w ws

abbrev break_line : Bool → Char → String × List String → String × List String
break_line true c (l, ls) = (String.[], l ∷ ls)
break_line false c (l, ls) = (String.◌∷◌ c l, ls)

unfoldable pub lines_from : String → String × List String
lines_from String.[] = (String.[], [])
lines_from (String.◌∷◌ c s) = break_line (code c == 10) c (lines_from s)

-- A carriage return right before the line feed is not of the line.
unfoldable pub strip_return : String → String
strip_return String.[] = String.[]
strip_return (String.◌∷◌ c String.[]) = if code c == 13 then String.[] else String.◌∷◌ c String.[]
strip_return (String.◌∷◌ c (String.◌∷◌ d s)) = String.◌∷◌ c (strip_return (String.◌∷◌ d s))

abbrev last_line : String → List String
last_line String.[] = []
last_line (String.◌∷◌ c l) = String.◌∷◌ c l ∷ []

-- No line stands behind a last line feed.
unfoldable pub line_list : String → List String → List String
unfolding strip_return
line_list l [] = last_line l
line_list l (m ∷ ls) = strip_return l ∷ line_list m ls

-- `str::lines`
unfoldable pub lines : String → List String
unfolding lines_from line_list
lines s = let (l, ls) = lines_from s in line_list l ls

-- `str::contains`
abbrev pub has_part : String → String → Bool
has_part s t = leb (find s t) (len s)

-- `str::starts_with`
unfoldable pub has_prefix : String → String → Bool
has_prefix s String.[] = true
has_prefix String.[] (String.◌∷◌ d t) = false
has_prefix (String.◌∷◌ c s) (String.◌∷◌ d t) = let rest = has_prefix s t in code c == code d && rest

-- `str::ends_with`
unfoldable pub has_suffix : String → String → Bool
has_suffix s t = leb (len t) (len s) && has_prefix (slice s (len s - len t) (len s)) t

-- What stands behind the text's first character.
abbrev pub behind_first : String → String
behind_first String.[] = String.[]
behind_first (String.◌∷◌ c s) = s

-- What stands behind the first and behind the last "::", if there is one.
unfoldable pub after_first : String → Option String
unfolding has_prefix
after_first String.[] = none
after_first (String.◌∷◌ c s) =
    let later = after_first s in
    if has_prefix (String.◌∷◌ c s) "::" then some (behind_first s) else later

unfoldable pub after_last : String → Option String
unfolding has_prefix
after_last String.[] = none
after_last (String.◌∷◌ c s) = elim (after_last s) [
  | some r ↦ some r
  | none ↦ if has_prefix (String.◌∷◌ c s) "::" then some (behind_first s) else none
]

abbrev digit : ℕ → String
digit d =
    if d == 0
    then "0"
    else if d == 1
    then "1"
    else if d == 2
    then "2"
    else if d == 3
    then "3"
    else if d == 4
    then "4"
    else if d == 5
    then "5"
    else if d == 6
    then "6"
    else if d == 7
    then "7"
    else if d == 8
    then "8"
    else "9"

-- The digits of a number; `fuel` is more than the number, so it does not run out.
unfoldable pub digits : ℕ → ℕ → String → String
digits zero n rest = rest
digits (suc fuel) n rest =
    let more = digits fuel (n / 10) (digit (n % 10) ++ rest) in
    if leb n 9 then digit n ++ rest else more

-- `to_string` of a whole number
unfoldable pub decimal : ℕ → String
unfolding digits
decimal n = digits (suc n) n ""

-- `join` of a list of texts
unfoldable pub join : String → List String → String
join sep [] = ""
join sep (t ∷ []) = t
join sep (t ∷ u ∷ ts) = t ++ (sep ++ join sep (u ∷ ts))

-- `trim` of white space at both ends
unfoldable pub trim_start : String → String
trim_start String.[] = String.[]
trim_start (String.◌∷◌ c s) =
    let rest = trim_start s in if is_whitespace (code c) then rest else String.◌∷◌ c s

unfoldable pub trim_end : String → String
trim_end String.[] = String.[]
trim_end (String.◌∷◌ c s) =
    let rest = trim_end s in
    if is_whitespace (code c) && is_empty_text rest then String.[] else String.◌∷◌ c rest

unfoldable pub trim : String → String
unfolding trim_start trim_end
trim s = trim_end (trim_start s)

-- The number of characters, by which recursion on a text is measured.
abbrev pub chars : String → ℕ
chars String.[] = 0
chars (String.◌∷◌ c s) = suc (chars s)

abbrev pub drop_text : ℕ → String → String
drop_text zero s = s
drop_text (suc n) String.[] = String.[]
drop_text (suc n) (String.◌∷◌ c s) = drop_text n s

-- `split_once`, for a part that is not empty
unfoldable pub split_once : String → String → Option (String × String)
unfolding has_prefix
split_once part String.[] = none
split_once part (String.◌∷◌ c s) =
    let rest = split_once part s in
    if has_prefix (String.◌∷◌ c s) part
    then some (String.[], drop_text (chars part) (String.◌∷◌ c s))
    else elim rest [ some (l, r) ↦ some (String.◌∷◌ c l, r) | none ↦ none ]

-- What stands before and behind the last of a character, if there is one.
unfoldable pub before_last : ℕ → String → Option String
before_last code_point String.[] = none
before_last code_point (String.◌∷◌ c s) = elim (before_last code_point s) [
  | some l ↦ some (String.◌∷◌ c l)
  | none ↦ if code c == code_point then some String.[] else none
]

unfoldable pub behind_last : ℕ → String → Option String
behind_last code_point String.[] = none
behind_last code_point (String.◌∷◌ c s) = elim (behind_last code_point s) [
  | some r ↦ some r
  | none ↦ if code c == code_point then some s else none
]

-- `split("::")`: the first part and the others. The flag is set within a separator.
unfoldable pub split_from : Bool → String → String × List String
unfolding has_prefix
split_from within String.[] = (String.[], [])
split_from true (String.◌∷◌ c s) = split_from false s
split_from false (String.◌∷◌ c s) = elim (has_prefix (String.◌∷◌ c s) "::") [
  | true ↦ let (part, parts) = split_from true s in (String.[], part ∷ parts)
  | false ↦ let (part, parts) = split_from false s in (String.◌∷◌ c part, parts)
]

unfoldable pub split_colons : String → List String
unfolding split_from
split_colons s = let (part, parts) = split_from false s in part ∷ parts

-- `strip_suffix`
unfoldable pub strip_suffix : String → String → Option String
unfolding has_suffix
strip_suffix s t = if has_suffix s t then some (slice s 0 (len s - len t)) else none
