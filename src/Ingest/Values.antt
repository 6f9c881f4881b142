-- ===== src/Ingest/Values.antt =====
-- `jsonValueProblem` of src/app/api/events/route.ts: a walk over a JSON value with a stack, which is
-- run for as many turns as the value has parts. `String.prototype.isWellFormed` is a parameter.
pub mod Walk
use Prim.Native.String
use aitp_control_plane.Prelude.{
  ℕ, zero, suc, ◌+◌, Bool, true, false, Option, none, some, String, List, [], ◌∷◌, ◌&&◌, ◌||◌, not,
  ltb, if◌then◌else◌,
}
use aitp_control_plane.Json.{
  Json, null, bool, num, overflow, str, arr, obj, Items, nil, cons, Fields, end, field,
}
use aitp_control_plane.Validate

-- MAX_PAYLOAD_DEPTH
abbrev pub max_payload_depth : ℕ
max_payload_depth = 64

pub data ValueProblem : Type 0 where
  too_deep nul_character lone_surrogate : ValueProblem

-- `hasNul` and `hasLoneSurrogate`
pub record Flags : Type 0 where
  pub has_nul : Bool
  pub has_lone_surrogate : Bool

abbrev pub check : (String → Bool) → String → Flags → Flags
check is_well_formed s flags = record {
  has_nul = flags.has_nul || Validate.has_nul s;
  has_lone_surrogate = flags.has_lone_surrogate || not (is_well_formed s);
}

abbrev pub Stack : Type 0
Stack = List (Json × ℕ)

-- The pushes of the elements of an array and of the values of an object, at one depth.
unfoldable pub push_items : ℕ → Items → Stack → Stack
push_items depth nil stack = stack
push_items depth (cons v vs) stack = push_items depth vs ((v, depth) ∷ stack)

unfoldable pub push_values : ℕ → Fields → Stack → Stack
push_values depth end stack = stack
push_values depth (field k v fs) stack = push_values depth fs ((v, depth) ∷ stack)

-- `check(k)` of every key.
unfoldable pub check_keys : (String → Bool) → Fields → Flags → Flags
check_keys is_well_formed end flags = flags
check_keys is_well_formed (field k v fs) flags =
    check_keys is_well_formed fs (check is_well_formed k flags)

-- What one turn makes of a value: nothing when it lies too deep.
abbrev pub visit : (String → Bool) → Json → ℕ → Flags → Stack → Option (Flags × Stack)
visit w (str s) depth flags stack = some (check w s flags, stack)
visit w (arr xs) depth flags stack =
    if ltb max_payload_depth depth then none else some (flags, push_items (depth + 1) xs stack)
visit w (obj fs) depth flags stack =
    if ltb max_payload_depth depth
    then none
    else some (check_keys w fs flags, push_values (depth + 1) fs stack)
visit w _ depth flags stack = some (flags, stack)

-- What the flags come to.
abbrev pub problem_of : Flags → Option ValueProblem
problem_of flags =
    if flags.has_nul
    then some nul_character
    else if flags.has_lone_surrogate
    then some lone_surrogate
    else none

-- `none` when the turns run out.
unfoldable pub walk : ℕ → (String → Bool) → Flags → Stack → Option (Option ValueProblem)
walk zero w flags stack = none
walk (suc n) w flags [] = some (problem_of flags)
walk (suc n) w flags ((v, depth) ∷ stack) = elim (visit w v depth flags stack) [
  | none ↦ some (some too_deep)
  | some (flags', stack') ↦ walk n w flags' stack'
]

unfoldable mutual
  pub parts : Json → ℕ
  parts (arr xs) = 1 + parts_items xs
  parts (obj fs) = 1 + parts_fields fs
  parts _ = 1

  pub parts_items : Items → ℕ
  parts_items nil = 0
  parts_items (cons v vs) = parts v + parts_items vs

  pub parts_fields : Fields → ℕ
  parts_fields end = 0
  parts_fields (field k v fs) = parts v + parts_fields fs

abbrev pub no_flags : Flags
no_flags = record { has_nul = false; has_lone_surrogate = false }

unfoldable pub json_value_problem : (String → Bool) → Json → Option (Option ValueProblem)
json_value_problem w root = walk (suc (parts root)) w no_flags ((root, 1) ∷ [])
