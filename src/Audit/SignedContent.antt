-- ===== src/Audit/SignedContent.antt =====
-- Content keys of signed artifacts, src/lib/audit/signed-content.ts.
use Prim.Native.Char.{Char, code}
use Prim.Native.String
use aitp_control_plane.Prelude.{
  ℕ, Bool, true, false, Option, none, some, String, List, [], ◌∷◌, ◌&&◌, ◌||◌, not, ◌==◌, leb,
  str_eq, if◌then◌else◌,
}
use aitp_control_plane.Json.{Json, str, obj, Fields, member, object_at}

-- `s.split('.')`: never empty.
abbrev pub push_char : Char → List String → List String
push_char c [] = String.◌∷◌ c String.[] ∷ []
push_char c (part ∷ parts) = String.◌∷◌ c part ∷ parts

unfoldable pub split_dots : String → List String
split_dots String.[] = String.[] ∷ []
split_dots (String.◌∷◌ c s) =
    let parts = split_dots s in if code c == b'.' then String.[] ∷ parts else push_char c parts

-- `[A-Za-z0-9_-]`
abbrev pub is_b64url : ℕ → Bool
is_b64url c =
    (leb b'A' c && leb c b'Z')
    || (leb b'a' c && leb c b'z')
    || (leb b'0' c && leb c b'9')
    || c == b'_'
    || c == b'-'

unfoldable pub all_b64url : String → Bool
all_b64url String.[] = true
all_b64url (String.◌∷◌ c s) = is_b64url (code c) && all_b64url s

abbrev pub is_segment : String → Bool
is_segment p = not (str_eq p "") && all_b64url p

abbrev pub is_string : Option Json → Bool
is_string (some (str s)) = true
is_string _ = false

-- A header is an object, not an array, with a string `alg`.
abbrev pub is_header : Option Json → Bool
is_header (some (obj fs)) = is_string (member "alg" fs)
is_header _ = false

abbrev pub signing_input : (String → Option Json) → List String → Option String
signing_input decode (header ∷ payload ∷ signature ∷ []) =
    if is_segment header && is_segment payload && is_segment signature && is_header (decode header)
    then some (String.◌++◌ header (String.◌++◌ "." payload))
    else none
signing_input decode _ = none

-- `decode` is `JSON.parse(Buffer.from(seg, 'base64url').toString('utf8'))`, `none` when that throws.
unfoldable pub jws_signing_input : (String → Option Json) → String → Option String
jws_signing_input decode s = signing_input decode (split_dots s)

abbrev pub is_some_object : Option Fields → Bool
is_some_object (some fs) = true
is_some_object none = false

-- `isEnvelopeSignature`
unfoldable pub is_envelope_signature : Fields → String → Bool
is_envelope_signature o key =
    str_eq key "signature"
    && is_string (member "signature" o)
    && (is_some_object (object_at (member "manifest" o))
        || is_some_object (object_at (member "revocation_list" o)))
