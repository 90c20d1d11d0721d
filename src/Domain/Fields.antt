-- ===== src/Domain/Fields.antt =====
-- Inputs and responses (`Dict[str, Any]`), by what the program reads of their values.
use tandem_interface_ai.Prelude.{
  String, Bool, not, Option, none, some, List, [], ◌∷◌, is_some, if◌then◌else◌,
}
use tandem_interface_ai.Prelude.Eq.{◌==◌, string_eq}
use tandem_interface_ai.Domain.Money.{MoneyInput, Decimal, other}

-- Of a dynamic value, what the program reads: its text (`str(v)`), whether it is true, and what it is
-- as an amount.
pub record Dynamic : Type 0 where
  pub shown : String
  pub truthy : Bool
  pub money : MoneyInput

abbrev pub Fields : Type 0
Fields = List (String × Dynamic)

-- `d.get(name)`
unfoldable pub get : String → Fields → Option Dynamic
get name [] = none
get name ((n, v) ∷ rest) = if n == name then some v else get name rest

-- `str(d.get(name, ""))`
abbrev pub shown_or_empty : Option Dynamic → String
shown_or_empty none = ""
shown_or_empty (some v) = v.shown

unfoldable pub text_of : String → Fields → String
text_of name d = shown_or_empty (get name d)

-- `v or ...`: a value that is there and true.
abbrev pub if_true : Option Dynamic → Option Dynamic
if_true none = none
if_true (some v) = if v.truthy then some v else none

-- `str(d.get(name, default))`
abbrev pub shown_or : String → Option Dynamic → String
shown_or default none = default
shown_or default (some v) = v.shown

-- `d[name] = v`: in its place, or last.
unfoldable pub set : String → Dynamic → Fields → Fields
set name v [] = (name, v) ∷ []
set name v ((n, x) ∷ rest) = if n == name then (n, v) ∷ rest else (n, x) ∷ set name v rest

-- `d.setdefault(name, v)`
unfoldable pub set_default : String → Dynamic → Fields → Fields
set_default name v d = if is_some (get name d) then d else set name v d

-- A text as a value; the last argument is what `Decimal` reads from it.
abbrev pub text_value : String → Option Decimal → Dynamic
text_value s number = record { shown = s; truthy = not (s == ""); money = other number }
