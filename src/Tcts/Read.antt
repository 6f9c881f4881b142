-- ===== src/Tcts/Read.antt =====
-- How src/lib/tcts/monitor.ts reads a value that came from JSON.parse: the readers at its head, and
-- what it makes of the two shapes of a reported token.
use aitp_control_plane.Prelude.{ℕ, Option, none, some, String, List, [], ◌∷◌, str_eq, if◌then◌else◌}
use aitp_control_plane.Json.{Json, num, str, arr, Items, nil, cons, Fields, member, object_at}
use aitp_control_plane.Audit.SignedContent.{split_dots}

-- A string that is not empty.
abbrev pub filled_string : Option Json → Option String
filled_string (some (str s)) = if str_eq s "" then none else some s
filled_string _ = none

-- `a ?? b` of two results.
abbrev pub or_option {ℓ} : {A : Type ℓ} → Option A → Option A → Option A
or_option (some a) other = some a
or_option none other = other

unfoldable pub read_string : Fields → List String → Option String
read_string o [] = none
read_string o (k ∷ ks) = or_option (filled_string (member k o)) (read_string o ks)

-- `v.every((s) => typeof s === 'string')`, with the strings.
abbrev push_string : Json → Option (List String) → Option (List String)
push_string (str s) (some ss) = some (s ∷ ss)
push_string (str s) none = none
push_string _ ss = none

unfoldable pub strings : Items → Option (List String)
strings nil = some []
strings (cons v vs) = push_string v (strings vs)

abbrev pub string_array : Option Json → Option (List String)
string_array (some (arr xs)) = strings xs
string_array _ = none

unfoldable pub read_string_array : Fields → List String → List String
read_string_array o [] = []
read_string_array o (k ∷ ks) = elim (string_array (member k o)) [
  | some ss ↦ ss
  | none ↦ read_string_array o ks
]

-- A finite number, as its text.
abbrev pub finite_number : Option Json → Option String
finite_number (some (num n)) = some n
finite_number _ = none

unfoldable pub read_number : Fields → List String → Option String
read_number o [] = none
read_number o (k ∷ ks) = or_option (finite_number (member k o)) (read_number o ks)

-- `readCnf`
abbrev jkt_of : Option Fields → Option String
jkt_of none = none
jkt_of (some cnf) = filled_string (member "jkt" cnf)

abbrev cnf_of : Option Fields → Option String
cnf_of none = none
cnf_of (some binding) = filled_string (member "cnf" binding)

unfoldable pub read_cnf : Fields → Option String
read_cnf claims =
    or_option (jkt_of (object_at (member "cnf" claims))) (
      or_option (filled_string (member "cnf" claims))
        (cnf_of (object_at (member "binding" claims))))

abbrev or_fields : Option Fields → Fields → Fields
or_fields (some fs) raw = fs
or_fields none raw = raw

-- `claimsOf`
unfoldable pub claims_of : Fields → Fields
claims_of raw = or_fields (object_at (member "claims" raw)) raw

-- `wrapperToken`
abbrev token_in : Option Fields → Option String
token_in none = none
token_in (some wrapper) = filled_string (member "token" wrapper)

unfoldable pub wrapper_token : Option Json → Option String
wrapper_token wrapper = token_in (object_at wrapper)

-- What the SDK and Node do: `JSON.parse(Buffer.from(seg, 'base64url').toString('utf8'))`, `none`
-- when that throws; `new Date(secs * 1000).toISOString()` of a number's text, `none` when it is out
-- of the range of a date and throws; and the SHA-1 digest of a text.
pub record Codec : Type 0 where
  pub decode_segment : String → Option Json
  pub epoch_to_iso : String → Option String
  pub sha1 : String → List ℕ

-- `decodeJwsClaims` of a string.
abbrev second_of : List String → Option String
second_of (a ∷ b ∷ rest) = if str_eq b "" then none else some b
second_of _ = none

abbrev decoded : Codec → Option String → Option Fields
decoded c none = none
decoded c (some seg) = object_at (c.decode_segment seg)

unfoldable pub decode_jws_claims : Codec → String → Option Fields
decode_jws_claims c jws = decoded c (second_of (split_dots jws))

abbrev pub as_string : Option Json → Option String
as_string (some (str s)) = some s
as_string _ = none

abbrev claims_in : Codec → Option String → Option Fields
claims_in c none = none
claims_in c (some jws) = decode_jws_claims c jws

abbrev voucher_of : Option Fields → Option String
voucher_of none = none
voucher_of (some hop) = as_string (member "voucher" hop)

-- `chain[0]`, if `chain` is an array that is not empty.
abbrev first_hop : Option Json → Option Json
first_hop (some (arr (cons v vs))) = some v
first_hop _ = none

-- `embeddedVoucher`
unfoldable pub embedded_voucher : Codec → Fields → Option String
embedded_voucher c claims =
    or_option (as_string (member "voucher" claims))
      (voucher_of (claims_in c (as_string (first_hop (member "chain" claims)))))

-- `decodeJwsClaims(embeddedVoucher(claims))`
unfoldable pub voucher_claims : Codec → Fields → Option Fields
voucher_claims c claims = claims_in c (embedded_voucher c claims)
