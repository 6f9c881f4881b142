-- ===== src/Tcts/Revoke/Trace.antt =====
-- A run of audit events and of the operator's entries through src/lib/tcts/monitor.ts and
-- src/app/api/revocation/entries/route.ts.
use aitp_control_plane.Prelude.{
  ◌≡◌, refl, Bool, true, false, Option, none, some, List, [], ◌∷◌, ◌&&◌, not, any, arith,
  Bool-cases, inl, inr, str_eq,
}
use aitp_control_plane.Json.{Json}
use aitp_control_plane.Uuid.{Uuid, uuid_eq, uuid_eq_iff}
use aitp_control_plane.Tcts.Parse.{
  Parsed, skipped, thrown, parsed, ParsedDelegation, parse_tct, parse_delegation, jti_of,
}
use aitp_control_plane.Tcts.Read.{read_string}
use aitp_control_plane.Tcts.Observe.{gate_observed, verify_observed_tct, verify_observed_delegation}
use aitp_control_plane.Tcts.Store.{
  RevocationEntry, Store, Report, Monitor, issuer_manifests, project_tct, record_tcts,
  record_issued_tcts, project_delegation, record_delegation,
}
use aitp_control_plane.Tcts.Revoke.{
  with_jti, record_revocation, record_delegation_revocation, on_event, insert_entry, add_revocation,
}
use aitp_control_plane.Tcts.Revoke.Sealed.{has_entry, any-update_where, IsSealed, no_exemption}
use aitp_control_plane.Tcts.Revoke.Steps.{revoke_tct-IsSealed, revoke_delegation-IsSealed}
use aitp_control_plane.Tcts.Revoke.Inserts.{
  insert_tct-IsSealed, insert_delegation-IsSealed, comes_late,
}

has_entry-insert :
    (entry : RevocationEntry) (s : Store) (p : Uuid)
    → uuid_eq p entry.jti ≡ false
    → has_entry p (insert_entry entry s) ≡ has_entry p s
unfolding insert_entry
has_entry-insert entry s p off =
    elim (Bool-cases (any (λ e. uuid_eq e.jti entry.jti) s.revocation_entries)) [
      | inl old ↦
          rw old (any-update_where (λ e. uuid_eq e.jti p) _ _ s.revocation_entries (λ e h. refl))
      | inr new ↦ rw new (ground (arith, off, uuid_eq_iff entry.jti p, uuid_eq_iff p entry.jti))
    ]

-- The entry alone opens the seal at its own jti only.
insert_entry-IsSealed :
    (entry : RevocationEntry) (s : Store)
    → IsSealed no_exemption s
    → IsSealed (λ p. uuid_eq p entry.jti) (insert_entry entry s)
unfolding insert_entry
insert_entry-IsSealed entry s h = record {
  tcts_timed = h.tcts_timed;
  delegations_timed = h.delegations_timed;
  sealed = λ r there active free.
      rw (has_entry-insert entry s r.delegation.parent_jti free) (h.sealed r there active refl);
}

add_revocation-IsSealed :
    (entry : RevocationEntry) (s : Store)
    → IsSealed no_exemption s
    → IsSealed no_exemption (add_revocation entry s)
unfolding add_revocation
add_revocation-IsSealed entry s h =
    revoke_tct-IsSealed (λ p. uuid_eq p entry.jti) entry.jti entry.revoked_at (insert_entry entry s)
      (λ p off. off) (insert_entry-IsSealed entry s h)

record_tcts-IsSealed :
    (m : Monitor) (e : Report) (raws : List Json) (s : Store)
    → IsSealed no_exemption s
    → IsSealed no_exemption (record_tcts m e raws s)
unfolding record_tcts
record_tcts-IsSealed m e [] s h = h
record_tcts-IsSealed m e (raw ∷ raws) s h =
    elim (parse_tct m.codec raw e.ts)
      as (λ p. IsSealed no_exemption (project_tct m e raw p (record_tcts m e raws) s)) [
        | thrown ↦ h
        | skipped ↦ record_tcts-IsSealed m e raws s h
        | parsed tct ↦
            record_tcts-IsSealed m e raws _
              (elim (Bool-cases (gate_observed m.mode (verify_observed_tct m.sdk raw tct))) [
                | inl passed ↦ simp passed (insert_tct-IsSealed tct e.session_id s h)
                | inr stopped ↦ simp stopped h
              ])
      ]

-- The event projects a delegation that comes late.
abbrev projects_late : Monitor → Report → Parsed ParsedDelegation → Store → Bool
projects_late m e skipped s = false
projects_late m e thrown s = false
projects_late m e (parsed d) s =
    gate_observed m.mode
      (verify_observed_delegation m.sdk e.payload (issuer_manifests m.mode d.delegator_aid s))
    && comes_late d s

project_delegation-IsSealed :
    (m : Monitor) (e : Report) (p : Parsed ParsedDelegation) (s : Store)
    → projects_late m e p s ≡ false
    → IsSealed no_exemption s
    → IsSealed no_exemption (project_delegation m e p s)
project_delegation-IsSealed m e skipped s in_time h = h
project_delegation-IsSealed m e thrown s in_time h = h
project_delegation-IsSealed m e (parsed d) s in_time h =
    elim (Bool-cases (
      gate_observed m.mode
        (verify_observed_delegation m.sdk e.payload (issuer_manifests m.mode d.delegator_aid s)))) [
          | inl passed ↦ simp passed ((insert_delegation-IsSealed d s h).1 (rw passed at in_time))
          | inr stopped ↦ simp stopped h
        ]

-- A report that reaches the monitor, or an entry that the operator adds.
pub data Step : Type 0 where
  reported : Report → Step
  entered : RevocationEntry → Step

unfoldable pub act : Monitor → Step → Store → Store
act m (reported e) s = on_event m e s
act m (entered entry) s = add_revocation entry s

unfoldable pub act_all : Monitor → List Step → Store → Store
act_all m [] s = s
act_all m (step ∷ steps) s = act_all m steps (act m step s)

unfoldable pub is_in_order : Monitor → Step → Store → Bool
is_in_order m (reported e) s = not (
    str_eq e.type "delegation.issued"
    && projects_late m e (parse_delegation m.codec e.payload e.ts) s)
is_in_order m (entered entry) s = true

-- No report of a run projects a delegation that comes late.
unfoldable pub all_in_order : Monitor → List Step → Store → Bool
all_in_order m [] s = true
all_in_order m (step ∷ steps) s = is_in_order m step s && all_in_order m steps (act m step s)

with_jti-IsSealed :
    (jti : Option Uuid) (f : Uuid → Store → Store) (s : Store)
    → ((u : Uuid) → IsSealed no_exemption (f u s))
    → IsSealed no_exemption s
    → IsSealed no_exemption (with_jti jti f s)
with_jti-IsSealed none f s each h = h
with_jti-IsSealed (some jti) f s each h = each jti

report-IsSealed :
    (m : Monitor) (e : Report) (s : Store)
    → is_in_order m (reported e) s ≡ true
    → IsSealed no_exemption s
    → IsSealed no_exemption (on_event m e s)
unfolding is_in_order on_event record_issued_tcts record_delegation record_revocation
    record_delegation_revocation
report-IsSealed m e s in_order h = elim (Bool-cases (str_eq e.type "tct.issued")) [
  | inl a ↦ simp a (record_tcts-IsSealed m e _ s h)
  | inr a ↦ simp a (elim (Bool-cases (str_eq e.type "handshake.complete")) [
    | inl b ↦ simp b (record_tcts-IsSealed m e _ s h)
    | inr b ↦ simp b (elim (Bool-cases (str_eq e.type "tct.revoked")) [
      | inl c ↦ simp c (
          with_jti-IsSealed (jti_of (read_string e.payload ("jti" ∷ []))) _ s
            (λ jti. revoke_tct-IsSealed no_exemption jti e.ts s (λ p off. refl) h) h)
      | inr c ↦ simp c (elim (Bool-cases (str_eq e.type "delegation.issued")) [
        | inl d ↦ simp d (
            project_delegation-IsSealed m e (parse_delegation m.codec e.payload e.ts) s
              (ground (arith, d, in_order)) h)
        | inr d ↦ simp d (elim (Bool-cases (str_eq e.type "delegation.revoked")) [
          | inl f ↦ simp f (
              with_jti-IsSealed (jti_of (read_string e.payload ("jti" ∷ []))) _ s
                (λ jti. revoke_delegation-IsSealed no_exemption jti e.ts s (λ p off. refl) h) h)
          | inr f ↦ simp f h
        ])
      ])
    ])
  ])
]

act-IsSealed :
    (m : Monitor) (step : Step) (s : Store)
    → is_in_order m step s ≡ true
    → IsSealed no_exemption s
    → IsSealed no_exemption (act m step s)
unfolding act
act-IsSealed m (reported e) s in_order h = report-IsSealed m e s in_order h
act-IsSealed m (entered entry) s in_order h = add_revocation-IsSealed entry s h

-- A run in which no delegation comes late leaves no active delegation under a revoked parent.
pub act_all-IsSealed :
    (m : Monitor) (steps : List Step) (s : Store)
    → IsSealed no_exemption s
    → all_in_order m steps s ≡ true
    → IsSealed no_exemption (act_all m steps s)
unfolding act_all all_in_order
act_all-IsSealed m [] s h in_order = h
act_all-IsSealed m (step ∷ steps) s h in_order =
    act_all-IsSealed m steps (act m step s) (act-IsSealed m step s (ground (arith, in_order)) h)
      (ground (arith, in_order))
