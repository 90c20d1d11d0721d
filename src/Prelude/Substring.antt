-- ===== src/Prelude/Substring.antt =====
-- Python's `sub in s`, `len(s)` and `s.replace(sub, by)` on texts.
use Prim.Native.Nat.{ℕ, zero, suc, ◌+◌, ◌-◌}
use Prim.Native.String.{String, ◌++◌}
use mathlib.Core.Bool.{Bool, ◌||◌}
use package.text.Mathlib.Text.{starts_with}
use tandem_interface_ai.Prelude.Tests.{if◌then◌else◌}

unfoldable pub contains : String → String → Bool
contains String.[] sub = starts_with String.[] sub
contains (String.◌∷◌ c s) sub = starts_with (String.◌∷◌ c s) sub || contains s sub

unfoldable pub char_count : String → ℕ
char_count String.[] = 0
char_count (String.◌∷◌ c s) = char_count s + 1

-- The text after `skip` characters, with each occurrence of `sub` replaced from left to right.
unfoldable pub replace_from : String → String → ℕ → String → String
replace_from sub by skip String.[] = String.[]
replace_from sub by (suc skip) (String.◌∷◌ c s) = replace_from sub by skip s
replace_from sub by zero (String.◌∷◌ c s) =
    let after = replace_from sub by (char_count sub - 1) s in
    let next = replace_from sub by zero s in
    if starts_with (String.◌∷◌ c s) sub then by ++ after else String.◌∷◌ c next

-- For a `sub` that is not empty.
unfoldable pub replace : String → String → String → String
unfolding replace_from
replace sub by s = replace_from sub by 0 s
