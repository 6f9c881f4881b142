-- ===== src/Webhooks/Addresses.antt =====
-- `isPrivateIp` of src/lib/webhooks/url-guard.ts. `isIP` of Node is an argument, which is 4, 6 or 0
-- for a text that is no address. A text is read as its codes. The parts of an IPv4 address are
-- decimal digits, as `isIP` and the pattern of a mapped address test before.
use Prim.Native.Char.{code}
use aitp_control_plane.Prelude.{
  ℕ, ◌+◌, ◌-◌, ◌*◌, Bool, true, false, Option, none, some, String, List, [], ◌∷◌, ◌&&◌, ◌||◌, ◌==◌,
  leb, all, length, drop, if◌then◌else◌,
}

-- `toLowerCase` of a text, which is ASCII when it is an address.
abbrev lower : ℕ → ℕ
lower c = if leb b'A' c && leb c b'Z' then c + 32 else c

unfoldable pub codes : String → List ℕ
codes String.[] = []
codes (String.◌∷◌ c s) = lower (code c) ∷ codes s

abbrev push_code : ℕ → List (List ℕ) → List (List ℕ)
push_code c [] = (c ∷ []) ∷ []
push_code c (part ∷ parts) = (c ∷ part) ∷ parts

unfoldable pub split_dots : List ℕ → List (List ℕ)
split_dots [] = [] ∷ []
split_dots (c ∷ cs) =
    let parts = split_dots cs in if c == b'.' then [] ∷ parts else push_code c parts

abbrev is_digit : ℕ → Bool
is_digit c = leb b'0' c && leb c b'9'

-- `Number` of digits.
unfoldable pub decimal_from : ℕ → List ℕ → Option ℕ
decimal_from n [] = some n
decimal_from n (c ∷ cs) =
    let rest = decimal_from (10 * n + (c - b'0')) cs in if is_digit c then rest else none

abbrev push_octet : Option ℕ → Option (List ℕ) → Option (List ℕ)
push_octet (some n) (some ns) = if leb n 255 then some (n ∷ ns) else none
push_octet _ _ = none

unfoldable pub octets : List (List ℕ) → Option (List ℕ)
octets [] = some []
octets (part ∷ parts) = push_octet (decimal_from 0 part) (octets parts)

-- The blocks that are not public, by the first two octets.
unfoldable pub is_special : ℕ → ℕ → Bool
is_special a b =
    a == 0
    || a == 10
    || a == 127
    || (a == 169 && b == 254)
    || (a == 172 && leb 16 b && leb b 31)
    || (a == 192 && b == 168)
    || (a == 100 && leb 64 b && leb b 127)
    || leb 224 a

abbrev pub of_octets : Option (List ℕ) → Bool
of_octets (some (a ∷ b ∷ c ∷ d ∷ [])) = is_special a b
of_octets _ = true

unfoldable pub is_private_ipv4 : List ℕ → Bool
is_private_ipv4 ip = of_octets (octets (split_dots ip))

-- `split('%')[0]`
unfoldable pub without_zone : List ℕ → List ℕ
without_zone [] = []
without_zone (c ∷ cs) = let rest = without_zone cs in if c == b'%' then [] else c ∷ rest

unfoldable pub starts_with : List ℕ → List ℕ → Bool
starts_with [] cs = true
starts_with (p ∷ ps) [] = false
starts_with (p ∷ ps) (c ∷ cs) = (p == c) && starts_with ps cs

abbrev is_part : List ℕ → Bool
is_part part = leb 1 (length part) && leb (length part) 3 && all is_digit part

-- The pattern of a mapped address, after `::ffff:`.
unfoldable pub is_dotted : List ℕ → Bool
is_dotted cs = (length (split_dots cs) == 4) && all is_part (split_dots cs)

abbrev pub is_text : List ℕ → String → Bool
is_text cs s = starts_with (codes s) cs && (length cs == length (codes s))

unfoldable pub is_private_ipv6 : List ℕ → Bool
is_private_ipv6 addr =
    if is_text addr "::1" || is_text addr "::"
    then true
    else if starts_with (codes "::ffff:") addr && is_dotted (drop 7 addr)
    then is_private_ipv4 (drop 7 addr)
    else starts_with (codes "fe80") addr
      || starts_with (codes "fc") addr
      || starts_with (codes "fd") addr
      || starts_with (codes "ff") addr

unfoldable pub is_private_ip : (String → ℕ) → String → Bool
is_private_ip ip_version ip =
    if ip_version ip == 4
    then is_private_ipv4 (codes ip)
    else if ip_version ip == 6
    then is_private_ipv6 (without_zone (codes ip))
    else true
