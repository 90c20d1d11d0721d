-- ===== src/Domain/Values.antt =====
-- The dynamic values of event payloads and details (`Dict[str, Any]`), by what their JSON text
-- prints: instants are microseconds since an epoch in UTC, amounts are whole cents.
use tandem_interface_ai.Prelude.{ℕ, String, Bool, Option, none, some, if◌then◌else◌}
use tandem_interface_ai.Prelude.Eq.{◌==◌, string_eq}
use tandem_interface_ai.Prelude.Int.{ℤ}

mutual
  pub data Value : Type 0 where
    null : Value
    boolean : Bool → Value
    text : String → Value
    int : ℕ → Value
    amount : ℤ → Value
    instant : ℕ → Value
    object : Dict → Value

  -- A dictionary with text keys, in insertion order.
  pub data Dict : Type 0 where
    end : Dict
    entry : String → Value → Dict → Dict

-- `None` prints as `null`.
abbrev pub optional_text : Option String → Value
optional_text none = null
optional_text (some s) = text s

abbrev pub optional_amount : Option ℤ → Value
optional_amount none = null
optional_amount (some a) = amount a

-- `payload.get(k)`
unfoldable pub get : String → Dict → Option Value
get k end = none
get k (entry j v d) = if j == k then some v else get k d
