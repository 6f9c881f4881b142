-- ===== src/Ingest/Handler/Resend.antt =====
-- A batch that is sent again to `POST /api/events` (src/app/api/events/route.ts).
pub mod Timed
use aitp_control_plane.Prelude.{
  ℕ, zero, suc, ◌≡◌, ◌+◌, ◌-◌, refl, sym, ap, ◌∙◌, subst, Bool, true, false, Option, none, some,
  String, List, [], ◌∷◌, ◌++◌, ◌||◌, ◌&&◌, not, if◌then◌else◌, arith, Bool-cases, inl, inr, length,
  ltb, All,
}
use aitp_control_plane.Prelude.Tables.{In, select_where}
use aitp_control_plane.Json.{Json, as_object}
use aitp_control_plane.Uuid.{Uuid}
use aitp_control_plane.Webhooks.Rows.{AuditEvent}
use aitp_control_plane.Ingest.Batch.{
  Runtime, Request, max_batch_events, raw_events, Candidate, candidates, oversized, Sorted,
  sort_items, nothing_sorted, unique_from, has_id,
}
use aitp_control_plane.Ingest.Handler.{
  Plane, Calls, is_inserted, touch_last_seen, fan_out, Ingested, Answer, ok, body_invalid,
  too_many_events, payload_too_large, store_items, store_sorted, distinct_ids, handle_sized,
  handle_events, post_events,
}
use aitp_control_plane.Ingest.Handler.Inserts.{
  ids_of, is_new, fresh, has_id-append, has_id-fresh, In-has_id,
}
use aitp_control_plane.Ingest.Handler.Reported.{
  reported, reported_in, news, sessions_after, tokens_after, sort_items-reported, unique_from-news,
}
use aitp_control_plane.Ingest.Handler.Projected.{
  publish_all, project_events-audit, project_events-deliveries, project_events-dropped,
  project_events-duplicate, project_events-bus, project_events-agents, project_events-sessions,
  project_events-tokens,
}
use aitp_control_plane.Ingest.Handler.Accounting.{store_sorted-fresh}
use aitp_control_plane.Ingest.Handler.Resend.Timed.{
  AreTimed, is_timed, again, candidates_timed, sort_items_timed,
}

-- What a batch that was answered once leads to when it comes again: an accepted one is accounted
-- for as duplicates, without a new event, publication or delivery, and a refused one is refused
-- again. The monitors handle the events of the batch again, and the agents that they name are
-- touched again.
pub record IsDuplicate (calls : Calls) (now : String) (events : List AuditEvent) (a : Ingested)
    (p : Plane) (r : Plane × Answer) : Type 0 where
  pub unstored : r.0.audit_events ≡ p.audit_events
  pub unpublished : r.0.bus ≡ p.bus
  pub undelivered : r.0.deliveries ≡ p.deliveries
  pub sessions : r.0.sessions ≡ sessions_after now events p.sessions
  pub tokens : r.0.tokens ≡ tokens_after calls.monitor events p.tokens
  pub agents : r.0.agents ≡ touch_last_seen now events p.agents
  pub dropped_total : r.0.events_dropped_total ≡ p.events_dropped_total + a.dropped
  pub duplicate_total : r.0.events_duplicate_total ≡ p.events_duplicate_total + a.ingested
  pub answered : r.1 ≡ ok (record a { inserted = 0; duplicates = a.ingested })

abbrev pub IsRepeat : Calls → String → List AuditEvent → Plane × Answer → Plane × Answer → Type 0
IsRepeat calls now events (p, ok a) r = IsDuplicate calls now events a p r
IsRepeat calls now events (p, refusal) r = r ≡ (p, refusal)

select_none :
    (p : AuditEvent → Bool) (es : List AuditEvent)
    → ((e : AuditEvent) → In e es → p e ≡ false)
    → select_where p es ≡ []
unfolding select_where
select_none p [] h = refl
select_none p (e ∷ es) h = rw (h e (inl refl)) (select_none p es (λ x there. h x (inr there)))

not_or : (a b : Bool) → b ≡ true → not (a || (b && not a)) ≡ false
not_or true b h = refl
not_or false true h = refl
not_or false false h = sym h

-- After the insert no event is new.
fresh_again : (rows es : List AuditEvent) → fresh (rows ++ fresh rows es) es ≡ []
fresh_again rows es = select_none (is_new (rows ++ fresh rows es)) es (λ e there.
    ap not (has_id-append e.id rows (fresh rows es))
    ∙ ap (λ b. not (has_id e.id rows || b)) (has_id-fresh rows e.id es)
    ∙ not_or (has_id e.id rows) (has_id e.id es) (In-has_id e es there))

append_nil {ℓ} : {A : Type ℓ} (xs : List A) → xs ++ [] ≡ xs
append_nil [] = refl
append_nil (x ∷ xs) = ap (λ ys. x ∷ ys) (append_nil xs)

-- The answer for the sorted items, with its last two numbers.
abbrev counts : Sorted → ℕ → ℕ → Ingested
counts s inserted duplicates = record {
  ingested = length s.normalized;
  dropped = s.dropped;
  errors = s.errors;
  inserted = inserted;
  duplicates = duplicates;
}

store_items-none :
    (calls : Calls) (now : String) (s : Sorted) (p : Plane) (i d : ℕ)
    → IsDuplicate calls now
        (unique_from [] s.normalized)
        (counts s i d)
        p
        (store_items calls now s (unique_from [] s.normalized) (p.audit_events ++ []) [] p)
unfolding distinct_ids fan_out
store_items-none calls now s p i d =
    let none_picked =
      select_none (is_inserted []) (unique_from [] s.normalized) (λ e there. refl) in
    record {
      unstored =
          project_events-audit calls now [] (unique_from [] s.normalized) _
          ∙ append_nil p.audit_events;
      unpublished =
          project_events-bus calls now [] (unique_from [] s.normalized) _
          ∙ ap (λ es. publish_all es p.bus) none_picked;
      undelivered =
          ap
            (λ ds.
              ds ++ fan_out calls (select_where (is_inserted []) (unique_from [] s.normalized)))
            (project_events-deliveries calls now [] (unique_from [] s.normalized) _)
          ∙ ap (λ es. p.deliveries ++ fan_out calls es) none_picked
          ∙ append_nil p.deliveries;
      sessions = project_events-sessions calls now [] (unique_from [] s.normalized) _;
      tokens = project_events-tokens calls now [] (unique_from [] s.normalized) _;
      agents = project_events-agents calls now [] (unique_from [] s.normalized) _;
      dropped_total = project_events-dropped calls now [] (unique_from [] s.normalized) _;
      duplicate_total =
          project_events-duplicate calls now [] (unique_from [] s.normalized) _
          ∙ ap (λ n. p.events_duplicate_total + n) (omega arith);
      answered = ap (λ n. ok (counts s 0 n)) (omega arith);
    }

store_sorted-known :
    (calls : Calls) (now : String) (s : Sorted) (p : Plane) (i d : ℕ)
    → fresh p.audit_events (unique_from [] s.normalized) ≡ []
    → IsDuplicate calls now
        (unique_from [] s.normalized)
        (counts s i d)
        p
        (store_sorted calls now s p)
store_sorted-known calls now s p i d e =
    subst (IsDuplicate calls now (unique_from [] s.normalized) (counts s i d) p)
      (sym (store_sorted-fresh calls now s p))
      (subst
        (λ new. IsDuplicate calls now (unique_from [] s.normalized) (counts s i d) p (
          store_items calls now s (unique_from [] s.normalized) (p.audit_events ++ new) (ids_of new)
            p))
        (sym e) (store_items-none calls now s p i d))

store_sorted-IsRepeat :
    (calls calls' : Calls) (now now' : String) (s : Sorted) (p : Plane)
    → IsRepeat calls' now'
        (news [] s.normalized)
        (store_sorted calls now s p)
        (store_sorted calls' now' s (store_sorted calls now s p).0)
store_sorted-IsRepeat calls calls' now now' s p =
    let unique = unique_from [] s.normalized in
    let rows : (store_sorted calls now s p).0.audit_events
        ≡ p.audit_events ++ fresh p.audit_events unique =
      ap (λ r. r.0.audit_events) (store_sorted-fresh calls now s p)
      ∙ project_events-audit calls now (ids_of (fresh p.audit_events unique)) unique _ in
    subst
      (λ es.
        IsRepeat calls' now' es (store_sorted calls now s p)
          (store_sorted calls' now' s (store_sorted calls now s p).0))
      (unique_from-news s.normalized)
      (store_sorted-known calls' now' s (store_sorted calls now s p).0 _ _
        (ap (λ rs. fresh rs unique) rows ∙ fresh_again p.audit_events unique))

handle_sized-IsRepeat :
    (run : Runtime) (calls calls' : Calls) (req : Request) (now : String) (random : ℕ → Uuid)
    (vs : List Json) (large : Option (ℕ × String)) (p : Plane)
    → sort_items run req (candidates run req.now 0 vs) nothing_sorted
      ≡ sort_items run (again req now random) (candidates run req.now 0 vs) nothing_sorted
    → IsRepeat calls' now
        (news [] (reported run req 0 vs))
        (handle_sized run calls req (candidates run req.now 0 vs) large p)
        (handle_sized run calls'
          (again req now random)
          (candidates run req.now 0 vs)
          large
          (handle_sized run calls req (candidates run req.now 0 vs) large p).0)
handle_sized-IsRepeat run calls calls' req now random vs (some (size, type)) p e = refl
handle_sized-IsRepeat run calls calls' req now random vs none p e =
    let s = sort_items run req (candidates run req.now 0 vs) nothing_sorted in
    let first = store_sorted calls req.now s p in
    subst
      (λ s'.
        IsRepeat calls' now (news [] (reported run req 0 vs)) first
          (store_sorted calls' now s' first.0))
      e
      (subst (λ es. IsRepeat calls' now (news [] es) first (store_sorted calls' now s first.0))
        (sort_items-reported run req 0 vs nothing_sorted)
        (store_sorted-IsRepeat calls calls' req.now now s p))

handle_events-IsRepeat :
    (run : Runtime) (calls calls' : Calls) (req : Request) (now : String) (random : ℕ → Uuid)
    (es : Option (List Json)) (p : Plane)
    → AreTimed run.ids.dates es
    → IsRepeat calls' now
        (news [] (reported_in run req es))
        (handle_events run calls req es p)
        (handle_events run calls' (again req now random) es (handle_events run calls req es p).0)
handle_events-IsRepeat run calls calls' req now random none p h = refl
handle_events-IsRepeat run calls calls' req now random (some es) p h =
    elim (Bool-cases (ltb max_batch_events (length es))) [
      | inl long ↦ rw long refl
      | inr short ↦
          rw (short, sym (candidates_timed run req.now now 0 es h))
            (handle_sized-IsRepeat run calls calls' req now random es
              (oversized run (candidates run req.now 0 es)) p
              (sort_items_timed run req now random 0 es nothing_sorted h))
    ]

-- A batch whose events all have a time of their own, sent again by the same producer, is answered
-- as duplicates throughout and adds no audit event, publication or delivery, whatever the clock, the
-- random ids, the monitor's settings and the webhooks are by then; a refused one is refused alike.
-- What it does besides is to run the monitors over its events once more, which may repair their
-- tables, to touch the agents and to count what it dropped and the duplicates.
pub post_events-IsRepeat :
    (run : Runtime) (calls calls' : Calls) (req : Request) (now : String) (random : ℕ → Uuid)
    (p : Plane)
    → AreTimed run.ids.dates (raw_events req.body)
    → IsRepeat calls' now
        (news [] (reported_in run req (raw_events req.body)))
        (post_events run calls req p)
        (post_events run calls' (again req now random) (post_events run calls req p).0)
unfolding post_events
post_events-IsRepeat run calls calls' req now random p h =
    handle_events-IsRepeat run calls calls' req now random (raw_events req.body) p h
