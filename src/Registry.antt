-- ===== src/Registry.antt =====
-- The registry of agents: the tables `agents` and `enrollment_jtis` (src/lib/db/schema.ts) with
-- src/lib/registry/store.ts, src/lib/registry/jti-store.ts and src/lib/registry/register.ts. Times
-- are numbers of milliseconds; `now` is the clock of the service and `stored` that of the database.
pub mod Expiry
pub mod Once
pub mod Registered
pub mod Tokens
pub mod Columns
pub mod Register
mod Tests
use aitp_control_plane.Prelude.{
  ℕ, Bool, true, false, Option, none, some, String, List, [], ◌∷◌, ◌++◌, ◌&&◌, ◌==◌, any, not,
  str_eq, leb, or_else, if◌then◌else◌,
}
use aitp_control_plane.Prelude.Tables.{find_where, update_where, select_where, count_where}

pub record Agent : Type 0 where
  pub aid : String
  pub display_name : String
  pub handshake_endpoint : String
  pub offered_caps : List String
  pub manifest_json : String
  pub manifest_expires_at : Option ℕ
  pub status : String
  pub registered_at : ℕ
  pub last_enrolled_at : Option ℕ
  pub last_seen_at : Option ℕ
  pub org : Option String
  pub cloud : Option String
  pub namespace : String

pub record RegisterInput : Type 0 where
  pub aid : String
  pub display_name : String
  pub handshake_endpoint : String
  pub offered_caps : List String
  pub manifest_json : String
  pub manifest_expires_at : Option ℕ
  pub org : Option String
  pub cloud : Option String
  pub namespace : Option String

abbrev pub is_agent : String → Agent → Bool
is_agent aid a = str_eq a.aid aid

unfoldable pub get_agent : String → List Agent → Option Agent
get_agent aid agents = find_where (is_agent aid) agents

abbrev pub new_agent : ℕ → ℕ → RegisterInput → Agent
new_agent now stored input = record {
  aid = input.aid;
  display_name = input.display_name;
  handshake_endpoint = input.handshake_endpoint;
  offered_caps = input.offered_caps;
  manifest_json = input.manifest_json;
  manifest_expires_at = input.manifest_expires_at;
  status = "active";
  registered_at = stored;
  last_enrolled_at = some now;
  last_seen_at = none;
  org = input.org;
  cloud = input.cloud;
  namespace = or_else input.namespace "default";
}

-- `org` and `cloud` keep their first value.
abbrev pub enroll_again : ℕ → RegisterInput → Agent → Agent
enroll_again now input a = record a {
  display_name = input.display_name;
  handshake_endpoint = input.handshake_endpoint;
  offered_caps = input.offered_caps;
  manifest_json = input.manifest_json;
  manifest_expires_at = input.manifest_expires_at;
  namespace = or_else input.namespace "default";
  status = "active";
  last_enrolled_at = some now;
}

unfoldable pub upsert_agent : ℕ → ℕ → RegisterInput → List Agent → List Agent
upsert_agent now stored input agents =
    if any (is_agent input.aid) agents
    then update_where (is_agent input.aid) (enroll_again now input) agents
    else agents ++ new_agent now stored input ∷ []

-- The table, and whether a row was there.
unfoldable pub deactivate_agent : String → List Agent → List Agent × Bool
deactivate_agent aid agents = (
  update_where (is_agent aid) (λ a. record a { status = "deregistered" }) agents,
  not (count_where (is_agent aid) agents == 0),
)

unfoldable pub touch_last_seen : ℕ → String → List Agent → List Agent
touch_last_seen now aid agents =
    update_where (is_agent aid) (λ a. record a { last_seen_at = some now }) agents

pub record RegistryFilters : Type 0 where
  pub capability : Option String
  pub aid : Option String
  pub display_name : Option String
  pub status : Option String
  pub namespace : Option String

-- A filter that is given and not empty.
abbrev equals : Option String → String → Bool
equals none s = true
equals (some f) s = if str_eq f "" then true else str_eq s f

abbrev offers : Option String → List String → Bool
offers none caps = true
offers (some c) caps = if str_eq c "" then true else any (λ d. str_eq d c) caps

abbrev pub is_current : ℕ → Option ℕ → Bool
is_current now none = true
is_current now (some at) = leb now at

-- The condition of `listAgents`, whose rows come by `registered_at`, a page of them.
unfoldable pub is_listed : ℕ → RegistryFilters → Agent → Bool
is_listed now f a =
    str_eq a.status (or_else f.status "active")
    && is_current now a.manifest_expires_at
    && equals f.aid a.aid
    && equals f.display_name a.display_name
    && equals f.namespace a.namespace
    && offers f.capability a.offered_caps

pub record JtiRow : Type 0 where
  pub jti : String
  pub expires_at : ℕ

pub record Registry : Type 0 where
  pub agents : List Agent
  pub enrollment_jtis : List JtiRow

abbrev pub is_spent : String → Registry → Bool
is_spent jti r = any (λ row. str_eq row.jti jti) r.enrollment_jtis

-- `insert … on conflict do nothing returning jti`; the second part is whether it was inserted.
unfoldable pub consume_enrollment_jti : String → ℕ → Registry → Registry × Bool
consume_enrollment_jti jti expires_at r = if is_spent jti r then (r, false) else (
  record r { enrollment_jtis = record { jti = jti; expires_at = expires_at } ∷ r.enrollment_jtis },
  true,
)

-- One transaction, which a fault of the database would roll back as a whole.
abbrev pub upsert_in : ℕ → ℕ → RegisterInput → Registry × Bool → Registry × Bool
upsert_in now stored input (r, false) = (r, false)
upsert_in now stored input (r, true) =
    (record r { agents = upsert_agent now stored input r.agents }, true)

unfoldable pub register_consuming_jti :
    ℕ → ℕ → String → ℕ → RegisterInput → Registry → Registry × Bool
register_consuming_jti now stored jti expires_at input r =
    upsert_in now stored input (consume_enrollment_jti jti expires_at r)
