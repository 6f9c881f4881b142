-- ===== src/Audit/Canonical.antt =====
-- `canonicalJson` of src/lib/audit/event-id.ts: a loop over a stack of frames, which is run for as
-- many turns as the value's weight. What `JSON.stringify` writes for a string and how a header
-- segment is decoded are parameters.
pub mod Spec
pub mod Turns
pub mod Equivalence
pub mod Order
pub mod Content
use Prim.Native.Char.{Char, code}
use Prim.Native.String
use aitp_control_plane.Prelude.{
  ℕ, zero, suc, ◌+◌, ◌-◌, ◌/◌, ◌%◌, Bool, true, false, Option, none, some, String, List, [], ◌∷◌,
  ◌++◌, ◌&&◌, ◌||◌, not, ◌==◌, ltb, if◌then◌else◌,
}
use aitp_control_plane.Prelude.Tables.{select_where}
use aitp_control_plane.Json.{
  Json, null, bool, num, overflow, str, arr, obj, Items, nil, cons, Fields, end, field, items,
  members,
}
use aitp_control_plane.Audit.SignedContent.{jws_signing_input, is_envelope_signature}

-- A string as JavaScript compares it: its UTF-16 code units.
abbrev unit_pair : ℕ → List ℕ → List ℕ
unit_pair c rest =
    if ltb c 65536
    then c ∷ rest
    else (55296 + (c - 65536) / 1024) ∷ (56320 + (c - 65536) % 1024) ∷ rest

unfoldable pub utf16 : String → List ℕ
utf16 String.[] = []
utf16 (String.◌∷◌ c s) = unit_pair (code c) (utf16 s)

unfoldable pub is_before : List ℕ → List ℕ → Bool
is_before xs [] = false
is_before [] (y ∷ ys) = true
is_before (x ∷ xs) (y ∷ ys) = let later = is_before xs ys in ltb x y || (x == y && later)

module _ {ℓ} {A : Type ℓ} where
  unfoldable pub insert_key : String × A → List (String × A) → List (String × A)
  insert_key (k, a) [] = (k, a) ∷ []
  insert_key (k, a) ((j, b) ∷ rest) =
      let later = insert_key (k, a) rest in
      if is_before (utf16 k) (utf16 j) then (k, a) ∷ (j, b) ∷ rest else (j, b) ∷ later

  -- `keys.sort()`; an object has every key once.
  unfoldable pub sort_keys : List (String × A) → List (String × A)
  sort_keys [] = []
  sort_keys (m ∷ ms) = insert_key m (sort_keys ms)

pub record Printer : Type 0 where
  pub quote : String → String
  pub decode_segment : String → Option Json
  pub signed_content : Bool

pub data Frame : Type 0 where
  lit : String → Frame
  value : Json → Frame

abbrev signing_text : Printer → String → Option String → String
signing_text p s none = p.quote s
signing_text p s (some input) = p.quote (String.◌++◌ "jws-signing-input:" input)

-- What is written for a string.
unfoldable pub string_text : Printer → String → String
string_text p s =
    if p.signed_content then signing_text p s (jws_signing_input p.decode_segment s) else p.quote s

-- `Object.keys(obj).filter(…)`, with the values.
abbrev pub is_kept {ℓ} : {A : Type ℓ} → Printer → Fields → String × A → Bool
is_kept p o (k, a) = not (p.signed_content && is_envelope_signature o k)

abbrev pub separated : Bool → List Frame → List Frame
separated true stack = stack
separated false stack = lit "," ∷ stack

-- The pushes of an array and of an object, with the frame that ends it below them.
unfoldable pub push_items : Bool → List Json → List Frame → List Frame
push_items first [] stack = lit "]" ∷ stack
push_items first (v ∷ vs) stack = separated first (value v ∷ push_items false vs stack)

unfoldable pub push_members : Printer → Bool → List (String × Json) → List Frame → List Frame
push_members p first [] stack = lit "}" ∷ stack
push_members p first ((k, v) ∷ ms) stack =
    separated first (lit (String.◌++◌ (p.quote k) ":") ∷ value v ∷ push_members p false ms stack)

abbrev pub bool_text : Bool → String
bool_text true = "true"
bool_text false = "false"

-- The members in the order in which they are written.
unfoldable pub ordered : Printer → Fields → List (String × Json)
ordered p fs = sort_keys (select_where (is_kept p fs) (members fs))

-- What one turn of the loop writes for a value, and the stack that it leaves.
unfoldable pub turn : Printer → Json → List Frame → String × List Frame
turn p null stack = ("null", stack)
turn p (bool b) stack = (bool_text b, stack)
turn p (num n) stack = (n, stack)
turn p overflow stack = ("null", stack)
turn p (str s) stack = (string_text p s, stack)
turn p (arr xs) stack = ("[", push_items true (items xs) stack)
turn p (obj fs) stack = ("{", push_members p true (ordered p fs) stack)

unfoldable pub loop : ℕ → Printer → String → List Frame → Option String
loop zero p out stack = none
loop (suc n) p out [] = some out
loop (suc n) p out (lit text ∷ stack) = loop n p (String.◌++◌ out text) stack
loop (suc n) p out (value v ∷ stack) =
    let (text, stack') = turn p v stack in loop n p (String.◌++◌ out text) stack'

unfoldable mutual
  pub weight : Json → ℕ
  weight (arr xs) = 2 + weight_items xs
  weight (obj fs) = 2 + weight_fields fs
  weight _ = 1

  pub weight_items : Items → ℕ
  weight_items nil = 0
  weight_items (cons v vs) = 1 + weight v + weight_items vs

  pub weight_fields : Fields → ℕ
  weight_fields end = 0
  weight_fields (field k v fs) = 2 + weight v + weight_fields fs

unfoldable pub canonical_json : Printer → Json → Option String
canonical_json p v = loop (suc (weight v)) p "" (value v ∷ [])
