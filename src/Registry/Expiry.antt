-- ===== src/Registry/Expiry.antt =====
-- The job that retires agents, src/lib/registry/expiry-job.ts. The version that Postgres reads in a
-- manifest's text is a parameter, and so are the random ids of the events, by the agent.
pub mod Laws
use aitp_control_plane.Prelude.{
  ℕ, Bool, true, false, Option, none, some, String, List, [], ◌∷◌, ◌++◌, ◌&&◌, not, ltb, str_eq,
  map, if◌then◌else◌,
}
use aitp_control_plane.Prelude.Tables.{update_where, select_where}
use aitp_control_plane.Registry.{Agent}

-- SUPPORTED_MANIFEST_VERSION of src/lib/registry/manifest-version.ts.
abbrev pub supported_manifest_version : String
supported_manifest_version = "aitp/0.3"

pub data ExpiryReason : Type 0 where
  manifest_expired manifest_version_unsupported : ExpiryReason

-- What the event `agent.expired` says.
pub record Expired : Type 0 where
  pub aid : String
  pub display_name : String
  pub namespace : String
  pub reason : ExpiryReason

abbrev pub is_active : Agent → Bool
is_active a = str_eq a.status "active"

abbrev pub is_past : ℕ → Option ℕ → Bool
is_past now none = false
is_past now (some at) = ltb at now

abbrev pub is_overdue : ℕ → Agent → Bool
is_overdue now a = is_active a && is_past now a.manifest_expires_at

-- `is distinct from` the supported version.
abbrev pub is_unsupported : Option String → Bool
is_unsupported none = true
is_unsupported (some v) = not (str_eq v supported_manifest_version)

abbrev pub is_outdated : (String → Option String) → Agent → Bool
is_outdated version_of a = is_active a && is_unsupported (version_of a.manifest_json)

abbrev pub expire : Agent → Agent
expire a = record a { status = "expired" }

abbrev pub expired_for : ExpiryReason → Agent → Expired
expired_for reason a = record {
  aid = a.aid;
  display_name = a.display_name;
  namespace = a.namespace;
  reason = reason;
}

-- `update … returning`: the table, and what `emitExpired` tells of the rows.
abbrev pub retire : (Agent → Bool) → ExpiryReason → List Agent → List Agent × List Expired
retire p reason agents =
    (update_where p expire agents, map (expired_for reason) (select_where p agents))

-- The table after both sweeps and the events, in order; their number is what is returned.
unfoldable pub enforce_manifest_expiry :
    (String → Option String) → ℕ → List Agent → List Agent × List Expired
enforce_manifest_expiry version_of now agents =
    let (first, expired) = retire (is_overdue now) manifest_expired agents in
    let (second, unsupported) =
      retire (is_outdated version_of) manifest_version_unsupported first in
    (second, expired ++ unsupported)
