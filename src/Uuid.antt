-- ===== src/Uuid.antt =====
-- UUIDs as their 32 hexadecimal digits, which is how a `uuid` column compares them: the pattern
-- JTI_UUID_RE of src/lib/http/validate.ts, and the UUIDs made from a digest in
-- src/lib/tcts/monitor.ts and src/lib/audit/event-id.ts.
use Prim.Native.Char.{code}
use aitp_control_plane.Prelude.{
  ℕ, zero, suc, ◌+◌, ◌-◌, ◌*◌, ◌/◌, ◌%◌, ◌≤◌, ◌≡◌, ◌↔◌, Bool, true, false, Option, none, some,
  String, List, [], ◌∷◌, ◌&&◌, ◌==◌, leb, length, if◌then◌else◌, take, arith,
}

abbrev pub Uuid : Type 0
Uuid = List ℕ

unfoldable pub uuid_eq : Uuid → Uuid → Bool
uuid_eq [] [] = true
uuid_eq (x ∷ xs) (y ∷ ys) = (x == y) && uuid_eq xs ys
uuid_eq [] (y ∷ ys) = false
uuid_eq (x ∷ xs) [] = false

pub uuid_eq_iff : (a b : Uuid) → (uuid_eq a b ≡ true) ↔ (a ≡ b)
unfolding uuid_eq
uuid_eq_iff [] [] = ground arith
uuid_eq_iff (x ∷ xs) (y ∷ ys) = ground (arith, uuid_eq_iff xs ys)
uuid_eq_iff (x ∷ xs) [] = ground arith
uuid_eq_iff [] (y ∷ ys) = ground arith

-- `[0-9a-f]` under the flag `i`.
unfoldable pub hex_value : ℕ → Option ℕ
hex_value c =
    if leb b'0' c && leb c b'9'
    then some (c - b'0')
    else if leb b'a' c && leb c b'f'
    then some (c - b'a' + 10)
    else if leb b'A' c && leb c b'F'
    then some (c - b'A' + 10)
    else none

pub data Slot : Type 0 where
  hex dash : Slot

abbrev pub hexes : ℕ → List Slot → List Slot
hexes zero p = p
hexes (suc n) p = hex ∷ hexes n p

-- 8-4-4-4-12
abbrev pub uuid_shape : List Slot
uuid_shape = hexes 8 (dash ∷ hexes 4 (dash ∷ hexes 4 (dash ∷ hexes 4 (dash ∷ hexes 12 []))))

abbrev push_digit : Option ℕ → Option Uuid → Option Uuid
push_digit (some d) (some ds) = some (d ∷ ds)
push_digit (some d) none = none
push_digit none ds = none

unfoldable pub read_shape : List Slot → String → Option Uuid
read_shape [] String.[] = some []
read_shape [] (String.◌∷◌ c s) = none
read_shape (slot ∷ p) String.[] = none
read_shape (hex ∷ p) (String.◌∷◌ c s) = push_digit (hex_value (code c)) (read_shape p s)
read_shape (dash ∷ p) (String.◌∷◌ c s) =
    let later = read_shape p s in if code c == b'-' then later else none

-- The digit in a place, if there is one.
unfoldable pub digit : ℕ → Uuid → ℕ
digit i [] = 0
digit zero (d ∷ ds) = d
digit (suc i) (d ∷ ds) = digit i ds

-- `[1-5]` for the version and `[89ab]` for the variant.
abbrev pub is_jti : Uuid → Bool
is_jti u = leb 1 (digit 12 u) && leb (digit 12 u) 5 && leb 8 (digit 16 u) && leb (digit 16 u) 11

abbrev pub only_jti : Option Uuid → Option Uuid
only_jti none = none
only_jti (some u) = if is_jti u then some u else none

-- JTI_UUID_RE
unfoldable pub read_jti : String → Option Uuid
read_jti s = only_jti (read_shape uuid_shape s)

-- `b[6] = (b[6] & 0x0f) | version << 4` and `b[8] = (b[8] & 0x3f) | 0x80`, byte by byte.
unfoldable pub stamp : ℕ → ℕ → List ℕ → List ℕ
stamp version i [] = []
stamp version i (b ∷ bs) =
    (if i == 6 then b % 16 + 16 * version else if i == 8 then b % 64 + 128 else b)
    ∷ stamp version (suc i) bs

unfoldable pub hex_digits : List ℕ → Uuid
hex_digits [] = []
hex_digits (b ∷ bs) = b / 16 ∷ b % 16 ∷ hex_digits bs

-- The UUID of a version from the first 16 bytes of a digest.
unfoldable pub uuid_from_digest : ℕ → List ℕ → Uuid
uuid_from_digest version digest = hex_digits (stamp version 0 (take 16 digest))

-- A digest of enough bytes gives a UUID of the version and of the variant of RFC 9562, which the
-- pattern accepts for the versions up to 5.
pub uuid_from_digest-is_jti :
    (version : ℕ) (digest : List ℕ)
    → 1 ≤ version
    → version ≤ 5
    → 9 ≤ length digest
    → is_jti (uuid_from_digest version digest) ≡ true
unfolding uuid_from_digest hex_digits stamp digit
uuid_from_digest-is_jti v (a ∷ b ∷ c ∷ d ∷ e ∷ f ∷ g ∷ h ∷ i ∷ rest) low high long =
    ground (arith, low, high)
uuid_from_digest-is_jti v [] low high long = absurd (omega (arith, long))
uuid_from_digest-is_jti v (a ∷ []) low high long = absurd (omega (arith, long))
uuid_from_digest-is_jti v (a ∷ b ∷ []) low high long = absurd (omega (arith, long))
uuid_from_digest-is_jti v (a ∷ b ∷ c ∷ []) low high long = absurd (omega (arith, long))
uuid_from_digest-is_jti v (a ∷ b ∷ c ∷ d ∷ []) low high long = absurd (omega (arith, long))
uuid_from_digest-is_jti v (a ∷ b ∷ c ∷ d ∷ e ∷ []) low high long = absurd (omega (arith, long))
uuid_from_digest-is_jti v (a ∷ b ∷ c ∷ d ∷ e ∷ f ∷ []) low high long = absurd (omega (arith, long))
uuid_from_digest-is_jti v (a ∷ b ∷ c ∷ d ∷ e ∷ f ∷ g ∷ []) low high long =
    absurd (omega (arith, long))
uuid_from_digest-is_jti v (a ∷ b ∷ c ∷ d ∷ e ∷ f ∷ g ∷ h ∷ []) low high long =
    absurd (omega (arith, long))
