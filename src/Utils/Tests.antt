-- ===== src/Utils/Tests.antt =====
-- Booleans in texts.
use nodejs_pro_task.Base.{◌≡◌, refl, true, false, [], ◌∷◌}
use nodejs_pro_task.Errors.{ok, err, plain}
use nodejs_pro_task.Utils.{parse_boolean, to_lower, falsy_booleans}
use nodejs_pro_task.Utils.Spelling.{Spells, parse_boolean-Spells}

reads_yes : parse_boolean "  YeS " ≡ ok true
unfolding parse_boolean to_lower
reads_yes = refl

refuses_on :
    parse_boolean "on" ≡ err (plain "Invalid boolean value 'on', allowed values: [object Set]")
unfolding parse_boolean to_lower
refuses_on = refl

no_is_false : Spells falsy_booleans " No"
unfolding to_lower
no_is_false = record {
  before = 32 ∷ [];
  word = 78 ∷ 111 ∷ [];
  after = [];
  spaces_before = refl;
  spaces_after = refl;
  is_word = refl;
  made_of = refl;
}

parse_boolean-Spells_example :
    (Spells falsy_booleans " No" → parse_boolean " No" ≡ ok false)
    × (parse_boolean " No" ≡ ok false → Spells falsy_booleans " No")
parse_boolean-Spells_example = parse_boolean-Spells " No" false
