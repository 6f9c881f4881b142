-- ===== src/Validate.antt =====
-- The checks of values in src/lib/http/validate.ts.
use Prim.Native.Char.{code}
use aitp_control_plane.Prelude.{
  ℕ, suc, Bool, true, false, Option, none, some, String, ◌&&◌, ◌||◌, not, ◌==◌, leb, ltb,
  if◌then◌else◌, zero, str_eq,
}
use aitp_control_plane.Json.{Json, str}
use aitp_control_plane.Uuid.{Uuid, digit, read_jti, read_shape, uuid_shape}

unfoldable pub has_upper : String → Bool
has_upper String.[] = false
has_upper (String.◌∷◌ c s) = (leb b'A' (code c) && leb (code c) b'F') || has_upper s

abbrev pub only_v4 : Option Uuid → Option Uuid
only_v4 none = none
only_v4 (some u) = if digit 12 u == 4 then some u else none

-- JTI_V4_RE is JTI_UUID_RE for version 4 and without upper case.
unfoldable pub read_v4 : String → Option Uuid
read_v4 s = if has_upper s then none else only_v4 (read_jti s)

unfoldable pub count_chars : String → ℕ
count_chars String.[] = 0
count_chars (String.◌∷◌ c s) = suc (count_chars s)

unfoldable pub has_nul : String → Bool
has_nul String.[] = false
has_nul (String.◌∷◌ c s) = code c == 0 || has_nul s

-- Why a column cannot hold a text.
pub data ColumnProblem : Type 0 where
  nul_character too_many_characters too_many_bytes : ColumnProblem

-- `maxBytes`, where there is one, with the length of the text in UTF-8.
abbrev over_bytes : Option ℕ → ℕ → Option ColumnProblem
over_bytes none size = none
over_bytes (some max) size = if ltb max size then some too_many_bytes else none

unfoldable pub check_column_string : String → ℕ → Option ℕ → ℕ → Option ColumnProblem
check_column_string value max max_bytes byte_length =
    if has_nul value
    then some nul_character
    else if ltb max (count_chars value)
    then some too_many_characters
    else over_bytes max_bytes byte_length

unfoldable pub check_query_param : Option String → Bool
check_query_param none = true
check_query_param (some value) = not (has_nul value)

abbrev is_some {ℓ} : {A : Type ℓ} → Option A → Bool
is_some none = false
is_some (some x) = true

-- ANY_UUID_RE
unfoldable pub is_uuid : Json → Bool
is_uuid (str s) = is_some (read_shape uuid_shape s)
is_uuid _ = false

-- A thrown value: its `code`, where that is a string, and its `cause`.
pub data Thrown : Type 0 where
  not_an_object : Thrown
  error : (code : Option String) (cause : Thrown) → Thrown

abbrev is_code : String → Option String → Bool
is_code wanted none = false
is_code wanted (some c) = str_eq wanted c

-- The loop, for the remaining rounds.
unfoldable pub has_unique_code : ℕ → Thrown → Bool
has_unique_code zero e = false
has_unique_code (suc n) not_an_object = false
has_unique_code (suc n) (error c cause) =
    let rest = has_unique_code n cause in if is_code "23505" c then true else rest

unfoldable pub is_unique_violation : Thrown → Bool
is_unique_violation e = has_unique_code 5 e
