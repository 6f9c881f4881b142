-- ===== src/Tcts/Revoke/Replay.antt =====
-- A report that `onEvent` of src/lib/tcts/monitor.ts handles twice in a row.
pub mod Issued
pub mod Updates
use aitp_control_plane.Prelude.{
  ◌≡◌, refl, sym, ap, ◌∙◌, subst, Bool, true, false, Option, none, some, String, List, [], ◌∷◌,
  ◌&&◌, ◌||◌, not, any, map, ℕ, zero, suc, length, str_eq, if◌then◌else◌, arith, Bool-cases, inl,
  inr, All,
}
use aitp_control_plane.Prelude.Tables.{
  find_where, update_where, select_where, update_where-clears, All-update_where,
}
use aitp_control_plane.Json.{Json}
use aitp_control_plane.Uuid.{Uuid, uuid_eq, uuid_eq_iff}
use aitp_control_plane.Tcts.Read.{read_string}
use aitp_control_plane.Tcts.Parse.{
  Parsed, skipped, thrown, parsed, ParsedTct, ParsedDelegation, parse_tct, parse_delegation, jti_of,
}
use aitp_control_plane.Tcts.Observe.{
  VerificationMode, off, warn, strict, verify_observed_tct, verify_observed_delegation,
  gate_observed,
}
use aitp_control_plane.Tcts.Store.{
  TctRow, DelegationRow, Store, Report, Monitor, manifest_of, insert_tct, insert_delegation,
  project_tct, record_tcts, record_issued_tcts, tct_list, issuer_manifests, project_delegation,
  record_delegation,
}
use aitp_control_plane.Tcts.Descend.{is_among, is_below, next_round, rounds, descendants}
use aitp_control_plane.Tcts.Revoke.{
  is_active_tct, is_struck, strike, cascade, revoke_tct, is_active_delegation, strike_explicit,
  revoke_delegation, with_jti, record_revocation, record_delegation_revocation, on_event,
}
use aitp_control_plane.Tcts.Revoke.Replay.Issued.{record_tcts-AreCovered, record_tcts-covered}
use aitp_control_plane.Tcts.Revoke.Replay.Updates.{
  insert_delegation-twice, insert_delegation-agents, revoke_tct-twice, revoke_delegation-twice,
}

with_jti-twice :
    (o : Option Uuid) (f : Uuid → Store → Store) (s : Store)
    → ((jti : Uuid) → f jti (f jti s) ≡ f jti s)
    → with_jti o f (with_jti o f s) ≡ with_jti o f s
with_jti-twice none f s h = refl
with_jti-twice (some jti) f s h = h jti

issuer_manifests-insert :
    (mode : VerificationMode) (aid : String) (d : ParsedDelegation) (s : Store)
    → issuer_manifests mode aid (insert_delegation d s) ≡ issuer_manifests mode aid s
issuer_manifests-insert off aid d s = refl
issuer_manifests-insert warn aid d s =
    ap (λ agents. manifest_of (find_where (λ a. str_eq a.aid aid) agents))
      (insert_delegation-agents d s)
issuer_manifests-insert strict aid d s =
    ap (λ agents. manifest_of (find_where (λ a. str_eq a.aid aid) agents))
      (insert_delegation-agents d s)

abbrev is_passed : Monitor → Report → ParsedDelegation → Store → Bool
is_passed m e d s =
    gate_observed m.mode
      (verify_observed_delegation m.sdk e.payload (issuer_manifests m.mode d.delegator_aid s))

record_delegation-twice :
    (m : Monitor) (e : Report) (s : Store)
    → record_delegation m e (record_delegation m e s) ≡ record_delegation m e s
unfolding record_delegation
record_delegation-twice m e s = go (parse_delegation m.codec e.payload e.ts)
  where
    go :
        (p : Parsed ParsedDelegation)
        → project_delegation m e p (project_delegation m e p s) ≡ project_delegation m e p s
    go skipped = refl
    go thrown = refl
    go (parsed d) = elim (Bool-cases (is_passed m e d s)) [
      | inl passed ↦
          let again : is_passed m e d (insert_delegation d s) ≡ true =
            ap (λ ms. gate_observed m.mode (verify_observed_delegation m.sdk e.payload ms))
              (issuer_manifests-insert m.mode d.delegator_aid d s)
            ∙ passed in
          rw (passed, again) (insert_delegation-twice d s)
      | inr stopped ↦ rw (stopped, stopped) refl
    ]

abbrev branch : Bool → (Store → Store) → (Store → Store) → Store → Store
branch b f g s = if b then f s else g s

branch-twice :
    (b : Bool) (f g : Store → Store) (s : Store)
    → f (f s) ≡ f s
    → g (g s) ≡ g s
    → branch b f g (branch b f g s) ≡ branch b f g s
branch-twice true f g s h k = h
branch-twice false f g s h k = k

-- A report that is handled again at once changes nothing more: the projection is idempotent in
-- every one of its branches, the cascades and the tables of a partly handled list included.
pub on_event-twice :
    (m : Monitor) (e : Report) (s : Store) → on_event m e (on_event m e s) ≡ on_event m e s
unfolding on_event record_issued_tcts record_revocation record_delegation_revocation
on_event-twice m e s =
    let issued =
      record_tcts-covered m e (tct_list e.payload) (record_tcts m e (tct_list e.payload) s)
        (record_tcts-AreCovered m e (tct_list e.payload) s) in
    let delegated = record_delegation-twice m e s in
    let revoked =
      with_jti-twice (jti_of (read_string e.payload ("jti" ∷ []))) (λ jti. revoke_tct jti e.ts) s
        (λ jti. revoke_tct-twice jti e.ts s) in
    let withdrawn =
      with_jti-twice (jti_of (read_string e.payload ("jti" ∷ [])))
        (λ jti. revoke_delegation jti e.ts) s (λ jti. revoke_delegation-twice jti e.ts s) in
    let issue = record_issued_tcts m e in
    let withdraw = record_delegation_revocation e in
    let rest5 = branch (str_eq e.type "delegation.revoked") withdraw (λ x. x) in
    let rest4 = branch (str_eq e.type "delegation.issued") (record_delegation m e) rest5 in
    let rest3 = branch (str_eq e.type "tct.revoked") (record_revocation e) rest4 in
    let rest2 = branch (str_eq e.type "handshake.complete") issue rest3 in
    branch-twice (str_eq e.type "tct.issued") issue rest2 s issued (
      branch-twice (str_eq e.type "handshake.complete") issue rest3 s issued (
        branch-twice (str_eq e.type "tct.revoked") (record_revocation e) rest4 s revoked (
          branch-twice (str_eq e.type "delegation.issued") (record_delegation m e) rest5 s delegated
            (branch-twice (str_eq e.type "delegation.revoked") withdraw (λ x. x) s withdrawn
              refl))))
