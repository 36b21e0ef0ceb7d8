-- ===== src/Examples/Patterns.antt =====
-- Runs of the patterns of a linker script (peony-layout/src/script.rs).
use peony.Base.{◌≡◌, refl, true, false, inl, ◌↔◌}
use peony.Base.Bytes.{Bytes, codes, starts_with, bytes_eq}
use peony.Layout.Script.{
  find, split, ends_with, match_parts, match_first, script_pattern_matches, star,
}
use peony.Layout.Script.Glob.{Glob, script_pattern_matches-Glob}
use peony.Layout.Script.Glob.Exact.{script_pattern_matches-Glob_iff}

abbrev hot_text : Bytes
hot_text = codes ".text.hot"

abbrev any_hot : Bytes
any_hot = codes ".t*.h*t"

abbrev any_text : Bytes
any_text = codes ".text*"

any_hot-matches : script_pattern_matches any_hot hot_text ≡ true
unfolding script_pattern_matches match_first match_parts find split ends_with starts_with bytes_eq
any_hot-matches = refl

-- The last part is taken where it is found first, so that the end of the name is not reached.
short_match : script_pattern_matches (codes "*a") (codes "aa") ≡ false
unfolding script_pattern_matches match_first match_parts find split ends_with starts_with bytes_eq
short_match = refl

script_pattern_matches-Glob_example : Glob any_hot hot_text
script_pattern_matches-Glob_example = script_pattern_matches-Glob any_hot hot_text any_hot-matches

any_text-ends : ends_with any_text star ≡ true
unfolding ends_with bytes_eq
any_text-ends = refl

script_pattern_matches-Glob_iff_example :
    (script_pattern_matches any_text hot_text ≡ true) ↔ Glob any_text hot_text
script_pattern_matches-Glob_iff_example =
    script_pattern_matches-Glob_iff any_text hot_text (inl any_text-ends)
