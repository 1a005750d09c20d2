-- ===== src/Prelude/Text.antt =====
-- `str` of the standard library on the codes of the characters: white space, words, lines and
-- prefixes.
pub mod Splitting
pub mod Finding
pub mod Lines
pub mod Trimming
use mathlib.Core.Bool.{Bool, true, false, ◌||◌, ◌&&◌}
use mathlib.Core.Option.{Option, none, some}
use mathlib.Core.List.{List, [], ◌∷◌, ◌++◌}
use Prim.Native.Nat.{ℕ}
use Prim.Native.Char.{code}
use Prim.Native.String.{String}
use duende.Prelude.Tests.{leb, ◌==◌, if◌then◌else◌}

-- The Unicode property White_Space.
unfoldable pub is_whitespace : ℕ → Bool
is_whitespace c =
    (leb 9 c && leb c 13)
    || (c == 32)
    || (c == 133)
    || (c == 160)
    || (c == 5760)
    || (leb 8192 c && leb c 8202)
    || (c == 8232)
    || (c == 8233)
    || (c == 8239)
    || (c == 8287)
    || (c == 12288)

-- A word that is not empty is an item.
abbrev pub put_word : List ℕ → List (List ℕ) → List (List ℕ)
put_word [] words = words
put_word (c ∷ cs) words = (c ∷ cs) ∷ words

-- The words of a text whose first word begins with `begun`.
unfoldable pub split_from : List ℕ → List ℕ → List (List ℕ)
split_from begun [] = put_word begun []
split_from begun (c ∷ cs) =
    let fresh = split_from [] cs in
    let longer = split_from (begun ++ (c ∷ [])) cs in
    if is_whitespace c then put_word begun fresh else longer

unfoldable pub split_whitespace : List ℕ → List (List ℕ)
unfolding split_from
split_whitespace text = split_from [] text

-- The words with one space between them.
unfoldable pub unwords : List (List ℕ) → List ℕ
unwords [] = []
unwords (w ∷ []) = w
unwords (w ∷ v ∷ ws) = w ++ (32 ∷ unwords (v ∷ ws))

unfoldable pub trim_start : List ℕ → List ℕ
trim_start [] = []
trim_start (c ∷ cs) = let rest = trim_start cs in if is_whitespace c then rest else c ∷ cs

-- A suffix of white space is dropped.
unfoldable pub trim_end : List ℕ → List ℕ
trim_end [] = []
trim_end (c ∷ cs) = elim (trim_end cs) [
  | [] ↦ if is_whitespace c then [] else c ∷ []
  | d ∷ ds ↦ c ∷ d ∷ ds
]

abbrev pub trim : List ℕ → List ℕ
trim text = trim_end (trim_start text)

unfoldable pub strip_prefix : List ℕ → List ℕ → Option (List ℕ)
strip_prefix [] text = some text
strip_prefix (p ∷ ps) [] = none
strip_prefix (p ∷ ps) (c ∷ cs) = let rest = strip_prefix ps cs in if p == c then rest else none

-- A line without the carriage return before its end (13 is '\r').
unfoldable pub chomp : List ℕ → List ℕ
chomp [] = []
chomp (c ∷ []) = if c == 13 then [] else c ∷ []
chomp (c ∷ d ∷ cs) = c ∷ chomp (d ∷ cs)

-- `lines`: each ends in a line feed (10), but the last need not.
unfoldable pub lines_from : List ℕ → List ℕ → List (List ℕ)
lines_from begun [] = put_word begun []
lines_from begun (c ∷ cs) =
    let fresh = lines_from [] cs in
    let longer = lines_from (begun ++ (c ∷ [])) cs in
    if c == 10 then chomp begun ∷ fresh else longer

-- `rfind` of a character, and the text behind it.
unfoldable pub after_last : ℕ → List ℕ → Option (List ℕ)
after_last c [] = none
after_last c (x ∷ xs) = elim (after_last c xs) [
  | some rest ↦ some rest
  | none ↦ if x == c then some xs else none
]

-- The text of a literal.
abbrev pub chars : String → List ℕ
chars String.[] = []
chars (String.◌∷◌ letter text) = code letter ∷ chars text

-- `Path::join` with a name that is no absolute path (47 is '/').
unfoldable pub join : List ℕ → List ℕ → List ℕ
join [] name = name
join (c ∷ []) name = if c == 47 then c ∷ name else c ∷ 47 ∷ name
join (c ∷ d ∷ cs) name = c ∷ join (d ∷ cs) name

-- `find` of a text that is not empty: what stands behind its first occurrence.
unfoldable pub find_after : List ℕ → List ℕ → Option (List ℕ)
unfolding strip_prefix
find_after pattern [] = none
find_after pattern (c ∷ cs) = elim (strip_prefix pattern (c ∷ cs)) [
  | some rest ↦ some rest
  | none ↦ find_after pattern cs
]

unfoldable pub contains : List ℕ → List ℕ → Bool
unfolding find_after
contains pattern text = elim (find_after pattern text) [ some rest ↦ true | none ↦ false ]

abbrev pub take_while : (ℕ → Bool) → List ℕ → List ℕ
take_while p [] = []
take_while p (c ∷ cs) = let rest = take_while p cs in if p c then c ∷ rest else []

-- `==` of texts.
abbrev pub same_text : List ℕ → List ℕ → Bool
same_text [] [] = true
same_text (x ∷ xs) (y ∷ ys) = (x == y) && same_text xs ys
same_text _ _ = false

unfoldable pub strip_suffix : List ℕ → List ℕ → Option (List ℕ)
strip_suffix suffix [] = if same_text suffix [] then some [] else none
strip_suffix suffix (c ∷ cs) =
    let rest : Option (List ℕ) = elim (strip_suffix suffix cs) [
      | none ↦ none
      | some front ↦ some (c ∷ front)
    ] in
    if same_text (c ∷ cs) suffix then some [] else rest
