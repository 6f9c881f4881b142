-- ===== src/TrustAnchors.antt =====
-- Trust anchors: the table `trust_anchors` (src/lib/db/schema.ts), what the routes of
-- src/app/api/trust-anchors and the refresher of src/lib/trust-anchors/jwks-refresher.ts do to it.
-- Times are numbers of milliseconds.
pub mod Fetch
pub mod Cache
pub mod Routes
mod Tests
use aitp_control_plane.Prelude.{
  ℕ, ◌+◌, Bool, true, false, Option, none, some, String, List, [], ◌∷◌, ◌&&◌, ◌||◌, not, ltb, any,
  str_eq, or_else, ◌==◌, if◌then◌else◌,
}
use aitp_control_plane.Prelude.Tables.{update_where, select_where, count_where, find_where}
use aitp_control_plane.Json.{Json}

pub record Anchor : Type 0 where
  pub id : String
  pub namespace : String
  pub issuer_url : String
  pub jwks_url : Option String
  pub jwks_cache : Option Json
  pub jwks_cached_at : Option ℕ
  pub label : Option String
  pub added_by : Option String
  pub created_at : ℕ
  pub updated_at : ℕ

abbrev pub has_id : String → Anchor → Bool
has_id id a = str_eq a.id id

-- `is not distinct from` of two texts.
abbrev pub same_text : Option String → Option String → Bool
same_text none none = true
same_text (some a) (some b) = str_eq a b
same_text none (some b) = false
same_text (some a) none = false

-- The unique index on the namespace and the issuer.
abbrev pub holds : String → String → Anchor → Bool
holds namespace issuer a = str_eq a.namespace namespace && str_eq a.issuer_url issuer

abbrev pub new_anchor :
    String → String → String → Option String → Option String → Option String → ℕ → Anchor
new_anchor id namespace issuer jwks label added_by stored = record {
  id = id;
  namespace = namespace;
  issuer_url = issuer;
  jwks_url = jwks;
  jwks_cache = none;
  jwks_cached_at = none;
  label = label;
  added_by = added_by;
  created_at = stored;
  updated_at = stored;
}

-- The table, and whether the row was inserted: it is not when another holds its namespace and
-- issuer.
unfoldable pub insert_anchor : Anchor → List Anchor → List Anchor × Bool
insert_anchor a anchors =
    if any (holds a.namespace a.issuer_url) anchors then (anchors, false) else (a ∷ anchors, true)

-- `changes`: a field that is absent is left alone.
pub record Changes : Type 0 where
  pub issuer_url : Option String
  pub jwks_url : Option (Option String)
  pub label : Option (Option String)

abbrev pub is_other_issuer : Option String → String → Bool
is_other_issuer none issuer = false
is_other_issuer (some new) issuer = not (str_eq new issuer)

abbrev pub is_other_jwks : Option (Option String) → Option String → Bool
is_other_jwks none jwks = false
is_other_jwks (some new) jwks = not (same_text new jwks)

-- `urlChangedSql`, on the row before the update.
unfoldable pub url_changed : Changes → Anchor → Bool
url_changed c a = is_other_issuer c.issuer_url a.issuer_url || is_other_jwks c.jwks_url a.jwks_url

abbrev pub apply_changes : ℕ → Changes → Anchor → Anchor
apply_changes now c a = record a {
  issuer_url = or_else c.issuer_url a.issuer_url;
  jwks_url = or_else c.jwks_url a.jwks_url;
  label = or_else c.label a.label;
  jwks_cache = if url_changed c a then none else a.jwks_cache;
  jwks_cached_at = if url_changed c a then none else a.jwks_cached_at;
  updated_at = now;
}

pub data Patched : Type 0 where
  not_found already_exists patched : Patched

-- Another row holds the namespace of the row and the new issuer.
abbrev pub clashes : Changes → String → Option Anchor → List Anchor → Bool
clashes c id none anchors = false
clashes c id (some a) anchors =
    any (λ b. not (str_eq b.id id) && holds a.namespace (or_else c.issuer_url a.issuer_url) b)
      anchors

abbrev pub patch_found :
    ℕ → String → Changes → Option Anchor → Bool → List Anchor → List Anchor × Patched
patch_found now id c none clash anchors = (anchors, not_found)
patch_found now id c (some a) true anchors = (anchors, already_exists)
patch_found now id c (some a) false anchors =
    (update_where (has_id id) (apply_changes now c) anchors, patched)

-- The update of `PATCH`.
unfoldable pub patch_anchor : ℕ → String → Changes → List Anchor → List Anchor × Patched
patch_anchor now id c anchors =
    let found = find_where (has_id id) anchors in
    patch_found now id c found (clashes c id found anchors) anchors

unfoldable pub delete_anchor : String → List Anchor → List Anchor × Bool
delete_anchor id anchors =
    (select_where (λ a. not (has_id id a)) anchors, not (count_where (has_id id) anchors == 0))

-- The rows that a pass of `refreshStaleJwks` takes up: the time of the cache is longer ago than
-- `stale_after`.
abbrev is_before : ℕ → ℕ → Option ℕ → Bool
is_before now stale_after none = true
is_before now stale_after (some at) = ltb (at + stale_after) now

unfoldable pub stale_anchors : ℕ → ℕ → List Anchor → List Anchor
stale_anchors now stale_after anchors =
    select_where (λ a. is_before now stale_after a.jwks_cached_at) anchors

-- The row is still the one with the URLs that the keyset was fetched from.
abbrev pub is_unchanged : Anchor → Anchor → Bool
is_unchanged seen a =
    str_eq a.id seen.id && str_eq a.issuer_url seen.issuer_url && same_text a.jwks_url seen.jwks_url

unfoldable pub write_keys : ℕ → Anchor → Json → List Anchor → List Anchor
write_keys now seen keys anchors =
    update_where (is_unchanged seen)
      (λ a. record a { jwks_cache = some keys; jwks_cached_at = some now }) anchors
