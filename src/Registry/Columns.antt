-- ===== src/Registry/Columns.antt =====
-- `checkManifestColumns` of src/lib/registry/manifest-columns.ts: whether the row of `agents` can
-- hold what a manifest says.
use aitp_control_plane.Prelude.{ℕ, Bool, Option, none, some, String, if◌then◌else◌}
use aitp_control_plane.Json.{Json, null, num, str, arr, obj, Items, nil, cons, Fields, member}
use aitp_control_plane.Validate.{ColumnProblem, check_column_string, has_nul}

-- What the service does with the number `expires_at`, by its text: whether it is zero, whether it
-- lies in the years 1 to 9999, whether the time is less than five minutes after `now`, and the time
-- in milliseconds. `is_well_formed` is the test for a lone surrogate.
pub record Readings : Type 0 where
  pub is_zero : String → Bool
  pub in_years : String → Bool
  pub is_soon : ℕ → String → Bool
  pub millis : String → ℕ
  pub is_well_formed : String → Bool

pub data ManifestProblem : Type 0 where
  not_an_object aid_not_a_string display_name_not_a_string endpoint_not_a_string endpoint_has_nul
        caps_not_strings cap_has_nul cap_ill_formed expires_at_out_of_range :
      ManifestProblem
  aid_column : ColumnProblem → ManifestProblem
  display_name_column : ColumnProblem → ManifestProblem

abbrev aid_max : ℕ
aid_max = 512

abbrev display_name_max : ℕ
display_name_max = 256

-- `a ?? b`: `null` counts as absent.
abbrev pub given : Option Json → Option Json
given (some null) = none
given v = v

abbrev pub display_name_of : Fields → Json → Json
display_name_of m aid = elim (given (member "display_name" m)) [ none ↦ aid | some v ↦ v ]

abbrev first_of : Option ManifestProblem → Option ManifestProblem → Option ManifestProblem
first_of (some p) later = some p
first_of none later = later

abbrev in_column : (ColumnProblem → ManifestProblem) → Option ColumnProblem → Option ManifestProblem
in_column name none = none
in_column name (some p) = some (name p)

abbrev display_name_problem : Json → Option ManifestProblem
display_name_problem (str s) =
    in_column display_name_column (check_column_string s display_name_max none 0)
display_name_problem _ = some display_name_not_a_string

abbrev endpoint_problem : Option Json → Option ManifestProblem
endpoint_problem (some (str s)) = if has_nul s then some endpoint_has_nul else none
endpoint_problem _ = some endpoint_not_a_string

abbrev cap_problem : Readings → Json → Option ManifestProblem
cap_problem r (str s) =
    if has_nul s then some cap_has_nul else if r.is_well_formed s then none else some cap_ill_formed
cap_problem r _ = some caps_not_strings

unfoldable pub cap_problems : Readings → Items → Option ManifestProblem
cap_problems r nil = none
cap_problems r (cons v vs) = first_of (cap_problem r v) (cap_problems r vs)

abbrev caps_problem : Readings → Option Json → Option ManifestProblem
caps_problem r none = none
caps_problem r (some (arr caps)) = cap_problems r caps
caps_problem r (some _) = some caps_not_strings

abbrev expires_problem : Readings → Option Json → Option ManifestProblem
expires_problem r none = none
expires_problem r (some (num t)) =
    if r.is_zero t then none else if r.in_years t then none else some expires_at_out_of_range
expires_problem r (some _) = some expires_at_out_of_range

-- The checks after that of the aid, which is a text.
abbrev rest_problem : Readings → Fields → String → Option ManifestProblem
rest_problem r m aid = first_of (in_column aid_column (check_column_string aid aid_max none 0)) (
    first_of (display_name_problem (display_name_of m (str aid))) (
      first_of (endpoint_problem (member "handshake_endpoint" m)) (
        first_of (caps_problem r (given (member "offered_capabilities" m)))
          (expires_problem r (given (member "expires_at" m))))))

abbrev pub aid_problem : Readings → Fields → Option Json → Option ManifestProblem
aid_problem r m (some (str aid)) = rest_problem r m aid
aid_problem r m _ = some aid_not_a_string

unfoldable pub check_manifest_columns : Readings → Json → Option ManifestProblem
check_manifest_columns r (obj m) = aid_problem r m (member "aid" m)
check_manifest_columns r _ = some not_an_object
