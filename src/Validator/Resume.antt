-- ===== src/Validator/Resume.antt =====
-- validator/resume.py: the sources that `--resume-from` accepts. `none` is a ValueError.
pub mod Parsing
use subnet.Base.{
  ℕ, zero, suc, Bool, true, false, ◌&&◌, Option, none, some, List, [], ◌∷◌, if◌then◌else◌, ◌==◌,
  nat_eq, string_eq, String, length, last,
}
use subnet.Base.Text.{codes, is_lower_hex}
use Prim.Native.Char.{code}

pub data ResumeSource : Type 0 where
  sha_source path_source : String → ResumeSource

-- `raw.partition(":")` without the separator, if there is one.
unfoldable pub partition : String → Option (String × String)
partition String.[] = none
partition (String.◌∷◌ c s) =
    let rest = partition s in
    if code c == b':'
    then some (String.[], s)
    else elim rest [ none ↦ none | some (scheme, tail) ↦ some (String.◌∷◌ c scheme, tail) ]

-- `_HEX40.match`: forty lower-case hex digits; Python's `$` also matches before a last newline.
unfoldable pub hex_then_end : ℕ → List ℕ → Bool
hex_then_end zero [] = true
hex_then_end zero (c ∷ cs) = (c == 10) && (length cs == 0)
hex_then_end (suc n) [] = false
hex_then_end (suc n) (c ∷ cs) = is_lower_hex c && hex_then_end n cs

abbrev pub is_hex40 : String → Bool
is_hex40 s = hex_then_end 40 (codes s)

unfoldable pub parse_resume_source : String → Option ResumeSource
unfolding partition hex_then_end
parse_resume_source raw = elim (partition raw) [
  | none ↦ none
  | some (scheme, rest) ↦
      if scheme == "sha"
      then (if is_hex40 rest then some (sha_source rest) else none)
      else if scheme == "path"
      then (if rest == "" then none else some (path_source rest))
      else none
]
