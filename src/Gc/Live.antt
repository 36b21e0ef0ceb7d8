-- ===== src/Gc/Live.antt =====
-- peony-layout/src/gc/live.rs: the set of live sections, a bit for each section index of an object.
pub mod Laws
pub mod Free
pub mod Start
use peony.Base.{
  ℕ, zero, suc, ◌+◌, ◌-◌, ◌*◌, ◌/◌, ◌%◌, Bool, true, false, List, [], ◌∷◌, ◌++◌, map, Option, none,
  some, ◌>>=◌, max, ◌==◌, if◌then◌else◌, length, get_elem?, set, replicate, is_some,
}
use peony.Object.{InputObject, InputSection}
use peony.Gc.Bits.{bit, set_bit, clear_bit}

pub record LiveSections : Type 0 where
  pub words_by_object : List (List ℕ)
  pub len : ℕ

-- `max().unwrap_or(0)` of the section indices.
abbrev pub max_section_index : List InputSection → ℕ
max_section_index [] = 0
max_section_index (sec ∷ secs) = max sec.index (max_section_index secs)

abbrev pub object_words : InputObject → List ℕ
object_words obj = replicate (max_section_index obj.sections / 64 + 1) 0

unfoldable pub new : List InputObject → LiveSections
new objects = record { words_by_object = map object_words objects; len = 0 }

-- The word that holds the bit of a key.
unfoldable pub word_of : LiveSections → ℕ × ℕ → Option ℕ
word_of live (object_id, section_index) =
    get_elem? live.words_by_object object_id >>= λ words. get_elem? words (section_index / 64)

-- A write through the two `get_mut`s.
unfoldable pub with_word : LiveSections → ℕ × ℕ → ℕ → ℕ → LiveSections
with_word live (object_id, section_index) word len =
    elim (get_elem? live.words_by_object object_id) [
      | none ↦ live
      | some words ↦ record {
        words_by_object = set live.words_by_object object_id (set words (section_index / 64) word);
        len = len;
      }
    ]

unfoldable pub insert : LiveSections → ℕ × ℕ → Bool × LiveSections
insert live key = elim (word_of live key) [
  | none ↦ (false, live)
  | some word ↦
      if bit word (key.1 % 64)
      then (false, live)
      else (true, with_word live key (set_bit word (key.1 % 64)) (live.len + 1))
]

unfoldable pub remove : LiveSections → ℕ × ℕ → Bool × LiveSections
remove live key = elim (word_of live key) [
  | none ↦ (false, live)
  | some word ↦
      if bit word (key.1 % 64)
      then (true, with_word live key (clear_bit word (key.1 % 64)) (live.len - 1))
      else (false, live)
]

unfoldable pub contains : LiveSections → ℕ × ℕ → Bool
contains live key = elim (word_of live key) [ none ↦ false | some word ↦ bit word (key.1 % 64) ]

unfoldable pub is_empty : LiveSections → Bool
is_empty live = live.len == 0
