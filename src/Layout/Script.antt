-- ===== src/Layout/Script.antt =====
-- peony-layout/src/script.rs: the sections of a linker script and their patterns. A text is its bytes.
pub mod Glob
use peony.Base.{
  ℕ, zero, suc, ◌+◌, Bool, true, false, not, ◌&&◌, ◌||◌, List, [], ◌∷◌, Option, none, some, ◌==◌,
  leb, ltb, if◌then◌else◌, length, drop,
}
use peony.Base.Bytes.{Bytes, bytes_eq, starts_with}

pub record ScriptOutputSection : Type 0 where
  pub name : Bytes
  pub patterns : List Bytes

pub record ScriptLayout : Type 0 where
  pub output_sections : List ScriptOutputSection
  pub keep_patterns : List Bytes

-- `str::from_utf8(bytes).is_ok()`: how many bytes of a character are to come, and the range of the next.
abbrev between : ℕ → ℕ → ℕ → Bool
between lo hi b = leb lo b && leb b hi

unfoldable utf8_next : ℕ × ℕ × ℕ → ℕ → Option (ℕ × ℕ × ℕ)
utf8_next (suc n, lo, hi) b = if between lo hi b then some (n, 0x80, 0xbf) else none
utf8_next (zero, lo, hi) b =
    if ltb b 0x80
    then some (0, 0x80, 0xbf)
    else if between 0xc2 0xdf b
    then some (1, 0x80, 0xbf)
    else if b == 0xe0
    then some (2, 0xa0, 0xbf)
    else if b == 0xed
    then some (2, 0x80, 0x9f)
    else if between 0xe1 0xef b
    then some (2, 0x80, 0xbf)
    else if b == 0xf0
    then some (3, 0x90, 0xbf)
    else if between 0xf1 0xf3 b
    then some (3, 0x80, 0xbf)
    else if b == 0xf4
    then some (3, 0x80, 0x8f)
    else none

unfoldable utf8_from : ℕ × ℕ × ℕ → Bytes → Bool
utf8_from (zero, lo, hi) [] = true
utf8_from (suc n, lo, hi) [] = false
utf8_from state (b ∷ bytes) = elim (utf8_next state b) [
  | none ↦ false
  | some next ↦ utf8_from next bytes
]

unfoldable pub is_utf8 : Bytes → Bool
unfolding utf8_from utf8_next
is_utf8 bytes = utf8_from (0, 0x80, 0xbf) bytes

-- `str::find` with a text.
unfoldable pub find : Bytes → Bytes → Option ℕ
find part [] = if bytes_eq part [] then some 0 else none
find part (b ∷ bytes) =
    if starts_with (b ∷ bytes) part
    then some 0
    else elim (find part bytes) [ none ↦ none | some i ↦ some (suc i) ]

-- `str::split('*')`: never empty.
unfoldable pub split : Bytes → Bytes × List Bytes
split [] = ([], [])
split (b ∷ bytes) =
    let (part, parts) = split bytes in if b == 42 then ([], part ∷ parts) else (b ∷ part, parts)

unfoldable pub ends_with : Bytes → Bytes → Bool
ends_with [] part = bytes_eq [] part
ends_with (b ∷ bytes) part = bytes_eq (b ∷ bytes) part || ends_with bytes part

-- The loop over the parts after the first: what is left of the name and the last part that is not empty.
unfoldable pub match_parts : Bytes → Bytes → List Bytes → Option (Bytes × Bytes)
match_parts rest last_non_empty [] = some (rest, last_non_empty)
match_parts rest last_non_empty ([] ∷ parts) = match_parts rest last_non_empty parts
match_parts rest last_non_empty ((b ∷ part) ∷ parts) = elim (find (b ∷ part) rest) [
  | none ↦ none
  | some pos ↦ match_parts (drop (pos + length (b ∷ part)) rest) (b ∷ part) parts
]

-- What is left of the name after the first part.
unfoldable pub match_first : Bool → Bytes → Bytes → Option Bytes
match_first anchored_start [] name = some name
match_first true (b ∷ part) name =
    if starts_with name (b ∷ part) then some (drop (length (b ∷ part)) name) else none
match_first false (b ∷ part) name = elim (find (b ∷ part) name) [
  | none ↦ none
  | some pos ↦ some (drop (pos + length (b ∷ part)) name)
]

abbrev pub star : Bytes
star = 42 ∷ []

abbrev pub is_empty : Bytes → Bool
is_empty [] = true
is_empty (b ∷ bytes) = false

unfoldable pub script_pattern_matches : Bytes → Bytes → Bool
script_pattern_matches pattern_text name =
    let (part, parts) = split pattern_text in
    let anchored_start = not (starts_with pattern_text star) in
    let anchored_end = not (ends_with pattern_text star) in
    if bytes_eq pattern_text star then true else elim (match_first anchored_start part name) [
      | none ↦ false
      | some rest ↦ elim (match_parts rest [] parts) [
        | none ↦ false
        | some (left, last_non_empty) ↦
            not anchored_end || (ends_with pattern_text last_non_empty && is_empty left)
      ]
    ]

unfoldable pub any_matches : List Bytes → Bytes → Bool
any_matches [] name = false
any_matches (pat ∷ patterns) name = script_pattern_matches pat name || any_matches patterns name

unfoldable pub find_output : List ScriptOutputSection → Bytes → Option Bytes
find_output [] name = none
find_output (out ∷ outs) name =
    if any_matches out.patterns name then some out.name else find_output outs name

unfoldable pub output_for_input : ScriptLayout → Bytes → Option Bytes
output_for_input script input_name =
    if is_utf8 input_name then find_output script.output_sections input_name else none

unfoldable pub position_of : ℕ → List ScriptOutputSection → Bytes → Option ℕ
position_of i [] name = none
position_of i (out ∷ outs) name =
    if bytes_eq out.name name then some i else position_of (i + 1) outs name

abbrev pub order_of : ScriptLayout → Bytes → Option ℕ
order_of script name = position_of 0 script.output_sections name

unfoldable pub keeps_input : ScriptLayout → Bytes → Bool
keeps_input script input_name = is_utf8 input_name && any_matches script.keep_patterns input_name
