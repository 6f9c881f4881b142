-- ===== src/Sessions/Trace.antt =====
-- The status of a session of src/lib/sessions/monitor.ts over the events that are handled.
use aitp_control_plane.Prelude.{
  ◌≡◌, refl, ap, ◌∙◌, true, false, Option, none, some, String, List, [], ◌∷◌, str_eq, if◌then◌else◌,
  arith, eq_iff, eq_refl, Bool-cases, inl, inr,
}
use aitp_control_plane.Webhooks.Rows.{AuditEvent}
use aitp_control_plane.Sessions.{Session, for_session, project_session, on_event}
use aitp_control_plane.Sessions.Laws.{status_of, names, is_of, turn, status-project_session}

-- An event touches the status of its own session only, and as `turn` says.
status-on_event :
    (now sid : String) (e : AuditEvent) (rows : List Session)
    → str_eq sid "" ≡ false
    → status_of sid (on_event now e rows)
      ≡ (if is_of sid e then turn e (status_of sid rows) else status_of sid rows)
unfolding on_event
status-on_event now sid e rows named = go e.session_id
  where
    go :
        (o : Option String)
        → status_of sid (for_session o (λ k. project_session now k e) rows)
          ≡ (if names sid o then turn e (status_of sid rows) else status_of sid rows)
    go none = refl
    go (some k) = elim (Bool-cases (str_eq k "")) [
      | inl empty ↦
          let other : str_eq k sid ≡ false =
            ground (arith, empty, named, eq_iff k "", eq_iff sid "", eq_iff k sid) in
          rw (empty, other) refl
      | inr filled ↦ rw filled (status-project_session now sid e rows k)
    ]

-- The events that are handled one after the other, each at its time.
unfoldable pub on_events : List (String × AuditEvent) → List Session → List Session
on_events [] rows = rows
on_events ((now, e) ∷ es) rows = on_events es (on_event now e rows)

-- The statuses that the events of one session lead through.
unfoldable pub status_after : String → List (String × AuditEvent) → Option String → Option String
status_after sid [] status = status
status_after sid ((now, e) ∷ es) status =
    status_after sid es (if is_of sid e then turn e status else status)

-- The status of a session follows the events of that session alone, in the order in which they are
-- handled: started by the first start, then the last end, whatever the other sessions do and
-- whatever times the events bear.
pub status-on_events :
    (sid : String) (es : List (String × AuditEvent)) (rows : List Session)
    → str_eq sid "" ≡ false
    → status_of sid (on_events es rows) ≡ status_after sid es (status_of sid rows)
unfolding on_events status_after
status-on_events sid [] rows named = refl
status-on_events sid ((now, e) ∷ es) rows named =
    status-on_events sid es (on_event now e rows) named
    ∙ ap (status_after sid es) (status-on_event now sid e rows named)

-- A completion that is sent again after the failure that followed it makes the failed session
-- complete: the updates are not guarded by the status or by the time of an event.
pub resent_complete :
    (sid now now' now'' status : String) (done failed : AuditEvent) (rows : List Session)
    → str_eq sid "" ≡ false
    → status_of sid rows ≡ some status
    → done.type ≡ "handshake.complete"
    → failed.type ≡ "handshake.failed"
    → done.session_id ≡ some sid
    → failed.session_id ≡ some sid
    → (status_of sid (on_events ((now, done) ∷ (now', failed) ∷ []) rows) ≡ some "failed")
      × (status_of sid (on_events ((now, done) ∷ (now', failed) ∷ (now'', done) ∷ []) rows)
          ≡ some "complete")
unfolding status_after
resent_complete sid now now' now'' status done failed rows named there a b c d =
    let own : str_eq sid sid ≡ true = eq_refl sid in
    (
      status-on_events sid ((now, done) ∷ (now', failed) ∷ []) rows named
          ∙ rw (there, a, b, c, d, own) refl,
      status-on_events sid ((now, done) ∷ (now', failed) ∷ (now'', done) ∷ []) rows named
          ∙ rw (there, a, b, c, d, own) refl,
    )
