-- ===== src/Revocations.antt =====
-- The body of POST /api/revocation/entries (src/app/api/revocation/entries/route.ts), with the
-- patterns of src/lib/http/validate.ts and src/lib/api-keys.ts that it is checked with.
pub mod Entries
pub mod Bodies
pub mod Laws
mod Tests
use Prim.Native.Char.{Char, code}
use Prim.Native.String
use aitp_control_plane.Prelude.{
  ℕ, suc, Bool, true, false, Option, none, some, String, List, [], ◌∷◌, ◌&&◌, ◌||◌, not, ◌==◌, leb,
  length, map, str_eq, is_some, or_else, if◌then◌else◌,
}
use aitp_control_plane.Prelude.Tables.{select_where, find_where}
use aitp_control_plane.Json.{Json, null, str, Fields, end, field, member}
use aitp_control_plane.Uuid.{Uuid, uuid_eq, digit, read_jti}
use aitp_control_plane.Validate.{count_chars, has_nul, read_v4}
use aitp_control_plane.Audit.Canonical.{utf16}
use aitp_control_plane.Tcts.Read.{or_option}

-- The status and the code of a refusal, or what a check found.
pub data Checked {ℓ} (A : Type ℓ) : Type ℓ where
  refused : ℕ → String → Checked A
  found : A → Checked A

-- Milliseconds after the epoch, or before it.
pub data Instant : Type 0 where
  after_epoch before_epoch : ℕ → Instant

-- `new Date(text).getTime()`, `none` for NaN; `toISOString` of an instant; and of the clock's.
pub record Clock : Type 0 where
  pub get_time : String → Option Instant
  pub to_iso_string : Instant → String
  pub now : String

abbrev is_aid_char : ℕ → Bool
is_aid_char c =
    (leb b'A' c && leb c b'Z')
    || (leb b'a' c && leb c b'z')
    || (leb b'0' c && leb c b'9')
    || c == b':'
    || c == b'.'
    || c == b'_'
    || c == b'-'

unfoldable pub all_aid_chars : String → Bool
all_aid_chars String.[] = true
all_aid_chars (String.◌∷◌ c s) = is_aid_char (code c) && all_aid_chars s

-- AID_RE
unfoldable pub is_aid : String → Bool
is_aid (String.◌∷◌ a (String.◌∷◌ i (String.◌∷◌ d (String.◌∷◌ colon s)))) =
    code a == b'a'
    && code i == b'i'
    && code d == b'd'
    && code colon == b':'
    && leb 1 (count_chars s)
    && leb (count_chars s) 500
    && all_aid_chars s
is_aid _ = false

-- `v !== undefined && v !== null`
abbrev pub given : Option Json → Option Json
given (some null) = none
given v = v

abbrev pub reason_of : Option Json → Checked (Option String)
reason_of none = found none
reason_of (some (str s)) =
    if not (leb (length (utf16 s)) 500)
    then refused 400 "BODY_INVALID"
    else if has_nul s
    then refused 400 "BODY_INVALID"
    else found (some s)
reason_of (some v) = refused 400 "BODY_INVALID"

abbrev pub iss_of : Option Json → Checked (Option String)
iss_of none = found none
iss_of (some (str s)) = if is_aid s then found (some s) else refused 400 "ISS_INVALID"
iss_of (some v) = refused 400 "ISS_INVALID"

abbrev in_range : Instant → Bool
in_range (after_epoch ms) = leb ms 253402300799999
in_range (before_epoch ms) = false

abbrev dated : Clock → Option Instant → Checked String
dated c none = refused 400 "BODY_INVALID"
dated c (some i) = if in_range i then found (c.to_iso_string i) else refused 400 "BODY_INVALID"

abbrev pub revoked_at_of : Clock → Option Json → Checked String
revoked_at_of c (some (str s)) = dated c (c.get_time s)
revoked_at_of c v = found c.now

abbrev pub with_text : String → Option Uuid → Checked (String × Uuid)
with_text s none = refused 400 "JTI_INVALID"
with_text s (some u) = found (s, u)

abbrev pub jti_of : Option Json → Checked (String × Uuid)
jti_of (some (str s)) = with_text s (read_v4 s)
jti_of v = refused 400 "JTI_INVALID"

pub record Draft : Type 0 where
  pub text : String
  pub jti : Uuid
  pub reason : Option String
  pub iss : Option String
  pub revoked_at : String

-- The first refusal, in the order of the checks, or the draft.
abbrev pub draft_of :
    Checked (String × Uuid)
    → Checked (Option String)
    → Checked (Option String)
    → Checked String
    → Checked Draft
draft_of (refused status code) reason iss at = refused status code
draft_of (found jti) (refused status code) iss at = refused status code
draft_of (found jti) (found reason) (refused status code) at = refused status code
draft_of (found jti) (found reason) (found iss) (refused status code) = refused status code
draft_of (found (text, jti)) (found reason) (found iss) (found at) =
    found (record { text = text; jti = jti; reason = reason; iss = iss; revoked_at = at })

unfoldable pub read_draft : Clock → Fields → Checked Draft
read_draft c body =
    draft_of (jti_of (member "jti" body)) (reason_of (given (member "reason" body)))
      (iss_of (given (member "iss" body))) (revoked_at_of c (member "revokedAt" body))
