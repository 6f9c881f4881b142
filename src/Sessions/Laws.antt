-- ===== src/Sessions/Laws.antt =====
-- The status of a session of src/lib/sessions/monitor.ts after one event.
use mathlib.Core.Option
use aitp_control_plane.Prelude.{
  ◌≡◌, refl, sym, ap, ◌∙◌, Bool, true, false, Option, none, some, String, List, [], ◌∷◌, ◌++◌, any,
  str_eq, if◌then◌else◌, arith, eq_iff, is_some, Bool-cases, inl, inr,
}
use aitp_control_plane.Prelude.Tables.{update_where}
use aitp_control_plane.Webhooks.Rows.{AuditEvent}
use aitp_control_plane.Tcts.Read.{or_option}
use aitp_control_plane.Sessions.{
  Session, is_session, complete, fail, fits_boundary, derive_boundary, started, insert_session,
  project_session,
}

-- The status of a session, none where it has no row.
unfoldable pub status_of : String → List Session → Option String
status_of sid [] = none
status_of sid (s ∷ rows) = if str_eq s.session_id sid then some s.status else status_of sid rows

abbrev pub names : String → Option String → Bool
names sid none = false
names sid (some s) = str_eq s sid

-- Whether an event is one of the session.
abbrev pub is_of : String → AuditEvent → Bool
is_of sid e = names sid e.session_id

-- What an event of a session makes of its status: a start counts for a session without a row, an
-- end for one with a row.
abbrev pub turn : AuditEvent → Option String → Option String
turn e none =
    if str_eq e.type "handshake.started"
    then if fits_boundary (derive_boundary e) then some "started" else none
    else none
turn e (some status) =
    if str_eq e.type "handshake.complete"
    then some "complete"
    else if str_eq e.type "handshake.failed"
    then some "failed"
    else some status

status_known :
    (sid : String) (rows : List Session) → any (is_session sid) rows ≡ is_some (status_of sid rows)
unfolding status_of
status_known sid [] = refl
status_known sid (s ∷ rows) = ground (arith, status_known sid rows)

status-snoc :
    (sid : String) (x : Session) (rows : List Session)
    → status_of sid (rows ++ x ∷ [])
      ≡ or_option (status_of sid rows) (if str_eq x.session_id sid then some x.status else none)
unfolding status_of
status-snoc sid x [] = refl
status-snoc sid x (s ∷ rows) = ground (arith, status-snoc sid x rows)

status-old :
    (sid k v : String) (rows : List Session)
    → any (is_session k) rows ≡ true
    → or_option (status_of sid rows) (if str_eq k sid then some v else none) ≡ status_of sid rows
status-old sid k v rows old = elim (Bool-cases (str_eq k sid)) [
  | inl own ↦
      let e : k ≡ sid = ground (arith, eq_iff k sid) in
      let there : is_some (status_of sid rows) ≡ true =
        sym (ap (λ i. is_some (status_of i rows)) e) ∙ sym (status_known k rows) ∙ old in
      kept (status_of sid rows) (if str_eq k sid then some v else none) there
  | inr other ↦ rw other (none_after (status_of sid rows))
]
  where
    kept : (o p : Option String) → is_some o ≡ true → or_option o p ≡ o
    kept none p h = cc
    kept (some a) p h = refl

    none_after : (o : Option String) → or_option o none ≡ o
    none_after none = refl
    none_after (some a) = refl

status-insert :
    (sid : String) (x : Session) (rows : List Session)
    → status_of sid (insert_session x rows)
      ≡ or_option (status_of sid rows) (if str_eq x.session_id sid then some x.status else none)
unfolding insert_session
status-insert sid x rows = elim (Bool-cases (any (is_session x.session_id) rows)) [
  | inl old ↦ rw old (sym (status-old sid x.session_id x.status rows old))
  | inr new ↦ rw new (status-snoc sid x rows)
]

-- The status after an update of one session's row.
status-update :
    (sid k : String) (f : Session → Session) (v : String) (rows : List Session)
    → ((x : Session) → (f x).session_id ≡ x.session_id)
    → ((x : Session) → (f x).status ≡ v)
    → status_of sid (update_where (is_session k) f rows)
      ≡ (if str_eq k sid then Option.map (λ s. v) (status_of sid rows) else status_of sid rows)
unfolding status_of update_where
status-update sid k f v [] keeps sets = ground arith
status-update sid k f v (x ∷ rows) keeps sets = ground (
  arith,
  eq_iff k sid,
  eq_iff x.session_id k,
  eq_iff x.session_id sid,
  keeps x,
  sets x,
  status-update sid k f v rows keeps sets,
)

-- What `turn` is for the three types of event, and for the others.
module _ (e : AuditEvent) where
  turn_ended :
      (v : String) (b : Bool) (o : Option String)
      → turn e (some v) ≡ some v
      → ((w : String) → turn e (some w) ≡ turn e (some v))
      → turn e none ≡ none
      → (if b then Option.map (λ s. v) o else o) ≡ (if b then turn e o else o)
  turn_ended v false o h same missing = refl
  turn_ended v true none h same missing = sym missing
  turn_ended v true (some w) h same missing = sym h ∙ sym (same w)

  quiet :
      (b : Bool) (o : Option String)
      → turn e none ≡ none
      → ((v : String) → turn e (some v) ≡ some v)
      → o ≡ (if b then turn e o else o)
  quiet true none h k = sym h
  quiet false none h k = refl
  quiet true (some v) h k = sym (k v)
  quiet false (some v) h k = refl

module _ (now : String) (sid : String) (e : AuditEvent) (rows : List Session) where
  status-started :
      (k : String)
      → str_eq e.type "handshake.started" ≡ true
      → status_of sid (
          if fits_boundary (derive_boundary e) then insert_session (started now k e) rows else rows)
        ≡ (if str_eq k sid then turn e (status_of sid rows) else status_of sid rows)
  status-started k start = elim (Bool-cases (fits_boundary (derive_boundary e))) [
    | inl fits ↦ rw fits (
        status-insert sid (started now k e) rows
        ∙ first (status_of sid rows) (str_eq k sid) (ground (arith, fits, start)) other)
    | inr long ↦ rw long (quiet e (str_eq k sid) (status_of sid rows) (ground (arith, long)) other)
  ]
    where
      other : (v : String) → turn e (some v) ≡ some v
      other v =
          let type : e.type ≡ "handshake.started" =
            ground (arith, start, eq_iff e.type "handshake.started") in
          rw type refl

      first :
          (o : Option String) (b : Bool)
          → turn e none ≡ some "started"
          → ((v : String) → turn e (some v) ≡ some v)
          → or_option o (if b then some "started" else none) ≡ (if b then turn e o else o)
      first none true h k = sym h
      first none false h k = refl
      first (some v) true h k = sym (k v)
      first (some v) false h k = refl

  pub status-project_session :
      (k : String)
      → status_of sid (project_session now k e rows)
        ≡ (if str_eq k sid then turn e (status_of sid rows) else status_of sid rows)
  status-project_session k = elim (Bool-cases (str_eq e.type "handshake.started")) [
    | inl start ↦ let run = status-started k start in rw start run
    | inr later ↦ elim (Bool-cases (str_eq e.type "handshake.complete")) [
      | inl done ↦
          let h =
            turn_ended e "complete" (str_eq k sid) (status_of sid rows) (rw done refl)
              (λ w. rw done refl) (rw later refl) in
          rw (later, done)
            (status-update sid k (complete now e) "complete" rows (λ x. refl) (λ x. refl) ∙ h)
      | inr not_done ↦ elim (Bool-cases (str_eq e.type "handshake.failed")) [
        | inl failed ↦
            let h =
              turn_ended e "failed" (str_eq k sid) (status_of sid rows) (rw (not_done, failed) refl)
                (λ w. rw (not_done, failed) refl) (rw later refl) in
            rw (later, not_done, failed)
              (status-update sid k (fail now e) "failed" rows (λ x. refl) (λ x. refl) ∙ h)
        | inr rest ↦
            rw (later, not_done, rest)
              (quiet e (str_eq k sid) (status_of sid rows) (rw later refl)
                (λ v. rw (not_done, rest) refl))
      ]
    ]
  ]
