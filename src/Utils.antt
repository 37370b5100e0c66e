-- ===== src/Utils.antt =====
-- src/common/utils.ts: a boolean in a text of the environment. (Sleeping and the text that is logged of
-- an error are left out.)
pub mod Spelling
mod Tests
use Prim.Native.Char.{code}
use Prim.Native.String.{◌++◌}
use nodejs_pro_task.Base.{
  ℕ, ◌+◌, ◌-◌, String, Bool, true, false, ◌&&◌, ◌||◌, Option, none, some, List, [], ◌∷◌, map, leb,
  ◌==◌, if◌then◌else◌,
}
use nodejs_pro_task.Errors.{plain, Result, ok, err}
use nodejs_pro_task.Http.Correlation.{is_space}

-- The numbers of a text's characters.
abbrev pub codes : String → List ℕ
codes String.[] = []
codes (String.◌∷◌ c s) = code c ∷ codes s

-- `toLowerCase` on ASCII: of the other characters none has a letter of the words below as its small
-- letter.
unfoldable pub to_lower : ℕ → ℕ
to_lower c = if leb b'A' c && leb c b'Z' then c + 32 else c

abbrev pub trim_start : List ℕ → List ℕ
trim_start [] = []
trim_start (c ∷ s) = if is_space c then trim_start s else c ∷ s

abbrev pub cons_visible : ℕ → List ℕ → List ℕ
cons_visible c [] = if is_space c then [] else c ∷ []
cons_visible c (d ∷ s) = c ∷ d ∷ s

abbrev pub trim_end : List ℕ → List ℕ
trim_end [] = []
trim_end (c ∷ s) = cons_visible c (trim_end s)

unfoldable pub trim : List ℕ → List ℕ
trim s = trim_end (trim_start s)

abbrev pub same : List ℕ → List ℕ → Bool
same [] [] = true
same (a ∷ s) (b ∷ t) = (a == b) && same s t
same _ _ = false

-- `Set.prototype.has`
abbrev pub has : List String → List ℕ → Bool
has [] s = false
has (w ∷ ws) s = same s (codes w) || has ws s

abbrev pub truthy_booleans : List String
truthy_booleans = "true" ∷ "yes" ∷ "y" ∷ []

abbrev pub falsy_booleans : List String
falsy_booleans = "false" ∷ "no" ∷ "n" ∷ []

abbrev pub valid_booleans : List String
valid_booleans = "true" ∷ "yes" ∷ "y" ∷ "false" ∷ "no" ∷ "n" ∷ []

-- A `Set` in a template is the text `[object Set]`.
unfoldable pub parse_boolean : String → Result Bool
unfolding trim
parse_boolean value =
    let prepared = map to_lower (trim (codes value)) in
    if has valid_booleans prepared
    then ok (has truthy_booleans prepared)
    else err (plain ("Invalid boolean value '" ++ value ++ "', allowed values: [object Set]"))
