-- ===== src/Gate/Paths.antt =====
-- The path tables of src/proxy.ts and the two public patterns under the agents collection, over
-- the segments of a path.
use Prim.Native.Char.{code}
use Prim.Native.String.{String, [], ◌∷◌}
use mathlib.Core.List.{List}
use aitp_control_plane.Prelude.{
  Bool, true, false, ◌&&◌, ◌||◌, not, str_eq, ◌==◌, any, if◌then◌else◌,
}

abbrev pub includes : List String → String → Bool
includes texts s = any (λ t. str_eq t s) texts

abbrev pub public_paths : List String
public_paths = List.◌∷◌ "/api/health" (
    List.◌∷◌ "/api/readyz" (
      List.◌∷◌ "/api/well-known/aitp-manifest" (
        List.◌∷◌ "/api/registry/enroll"
          (List.◌∷◌ "/api/registry/agents" (List.◌∷◌ "/api/metrics" List.[])))))

abbrev pub rate_limit_exempt_paths : List String
rate_limit_exempt_paths =
    List.◌∷◌ "/api/health" (List.◌∷◌ "/api/readyz" (List.◌∷◌ "/api/metrics" List.[]))

-- The rest of a text after a prefix, if it has that prefix.
pub data Rest : Type 0 where
  mismatch : Rest
  rest : String → Rest

unfoldable pub strip : String → String → Rest
strip [] s = rest s
strip (c ∷ p) [] = mismatch
strip (c ∷ p) (d ∷ s) = let later = strip p s in if code c == code d then later else mismatch

-- `[^/]+$` and `[^/]+\/manifest$`, from the first character of the segment on.
unfoldable pub is_segment : String → Bool
is_segment [] = true
is_segment (c ∷ s) = not (code c == b'/') && is_segment s

unfoldable pub is_segment_then : String → String → Bool
is_segment_then tail [] = str_eq tail ""
is_segment_then tail (c ∷ s) =
    if code c == b'/' then str_eq (c ∷ s) tail else is_segment_then tail s

abbrev pub is_filled : String → Bool
is_filled [] = false
is_filled (c ∷ s) = not (code c == b'/')

abbrev pub is_agent_rest : Rest → Bool
is_agent_rest mismatch = false
is_agent_rest (rest s) = is_filled s && (is_segment s || is_segment_then "/manifest" s)

unfoldable pub is_public_get : String → Bool
is_public_get pathname = is_agent_rest (strip "/api/registry/agents/" pathname)

unfoldable pub is_public_request : String → String → Bool
is_public_request pathname method =
    includes public_paths pathname || (str_eq method "GET" && is_public_get pathname)

-- `pathname.startsWith('/api/')`
abbrev pub is_api_path : String → Bool
is_api_path pathname = elim (strip "/api/" pathname) [ mismatch ↦ false | rest s ↦ true ]
