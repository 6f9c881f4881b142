-- ===== src/Ingest/Handler/Reported.antt =====
-- What a batch of `POST /api/events` (src/app/api/events/route.ts) reports, read off the list of its
-- items by recursion, and what of it is new to a table.
use aitp_control_plane.Prelude.{
  ℕ, suc, ◌≡◌, refl, sym, ap, ◌∙◌, true, false, Option, none, some, String, List, [], ◌∷◌, ◌++◌,
  ◌||◌, if◌then◌else◌, arith, Bool-cases, inl, inr, or_else, ◌⊎◌,
}
use mathlib.Core.List.{append-nil, append_assoc}
use aitp_control_plane.Prelude.Tables.{select_where}
use aitp_control_plane.Json.{Json, str, arr, obj, Fields, member, as_object}
use aitp_control_plane.Uuid.{Uuid, uuid_eq, uuid_eq_iff}
use aitp_control_plane.Webhooks.Rows.{AuditEvent}
use aitp_control_plane.Audit.EventId.{event_id_for}
use aitp_control_plane.Sessions.{Session}
use aitp_control_plane.Sessions
use aitp_control_plane.Tcts.Store.{Store, Monitor}
use aitp_control_plane.Tcts.Revoke
use aitp_control_plane.Ingest.Normalize.{normalize, type_of, own_payload}
use aitp_control_plane.Ingest.Items.{ItemProblem, item_problem}
use aitp_control_plane.Ingest.Batch.{
  Runtime, Request, candidate_of, push_candidate, candidates, event_id, sort_item, Sorted,
  sort_items, unique_from, has_id,
}
use aitp_control_plane.Ingest.Handler.{report_of}
use aitp_control_plane.Ingest.Handler.Inserts.{fresh, has_id-append}

-- A type that is a text, and a payload that is an object, are kept as they were sent.
abbrev pub sent_type : Option Json → String
sent_type (some (str s)) = s
sent_type _ = "unknown"

abbrev pub sent_payload : Option Json → Json → Json
sent_payload (some (obj fs)) raw = obj fs
sent_payload (some (arr xs)) raw = arr xs
sent_payload _ raw = raw

-- The event that an item is stored as, with the id that its content and its producer give it.
abbrev pub reported_event : Runtime → Request → ℕ → Json → Fields → AuditEvent
reported_event run req i raw fs = record (normalize run.ids.dates req.now raw fs []) {
  id = or_else (event_id_for run.ids fs req.producer_key (req.random i)) (req.random i);
  type = sent_type (member "type" fs);
  payload = sent_payload (member "payload" fs) raw;
}

-- An item that is no object, or that has a problem, is not stored.
abbrev keep_if : Option ItemProblem → AuditEvent → List AuditEvent → List AuditEvent
keep_if none e rest = e ∷ rest
keep_if (some p) e rest = rest

abbrev keep_item : Runtime → Request → ℕ → Json → Option Fields → List AuditEvent → List AuditEvent
keep_item run req i raw none rest = rest
keep_item run req i raw (some fs) rest =
    keep_if (item_problem run.is_well_formed (normalize run.ids.dates req.now raw fs []))
      (reported_event run req i raw fs) rest

unfoldable pub reported : Runtime → Request → ℕ → List Json → List AuditEvent
reported run req i [] = []
reported run req i (v ∷ vs) = keep_item run req i v (as_object v) (reported run req (suc i) vs)

abbrev pub reported_in : Runtime → Request → Option (List Json) → List AuditEvent
reported_in run req none = []
reported_in run req (some vs) = reported run req 0 vs

-- The events whose id neither a row nor an earlier one of them has.
unfoldable pub news : List AuditEvent → List AuditEvent → List AuditEvent
news rows [] = []
news rows (e ∷ es) =
    let known = news rows es in
    let new = news (rows ++ e ∷ []) es in if has_id e.id rows then known else e ∷ new

-- The monitors of sessions and of tokens, over events that are handled at one time.
unfoldable pub sessions_after : String → List AuditEvent → List Session → List Session
sessions_after now [] rows = rows
sessions_after now (e ∷ es) rows = sessions_after now es (Sessions.on_event now e rows)

unfoldable pub tokens_after : Monitor → List AuditEvent → Store → Store
tokens_after m [] s = s
tokens_after m (e ∷ es) s = tokens_after m es (Revoke.on_event m (report_of e) s)

-- What `normalize` keeps.
type_of-sent : (o : Option Json) → type_of o ≡ sent_type o
type_of-sent (some (str s)) = refl
type_of-sent _ = refl

payload_of-sent : (o : Option Json) (raw : Json) → or_else (own_payload o) raw ≡ sent_payload o raw
payload_of-sent (some (obj fs)) raw = refl
payload_of-sent (some (arr xs)) raw = refl
payload_of-sent _ raw = refl

normalize-reported :
    (run : Runtime) (req : Request) (i : ℕ) (raw : Json) (fs : Fields)
    → record (normalize run.ids.dates req.now raw fs []) {
      id = event_id run req (candidate_of run req.now i raw fs);
    }
      ≡ reported_event run req i raw fs
unfolding normalize
normalize-reported run req i raw fs =
    rw (type_of-sent (member "type" fs), payload_of-sent (member "payload" fs) raw) refl

-- The loop over the candidates.
item-reported :
    (run : Runtime) (req : Request) (i : ℕ) (raw : Json) (fs : Fields) (o : Option ItemProblem)
    (s : Sorted) (rest : List AuditEvent)
    → (sort_item run req (candidate_of run req.now i raw fs) o s).normalized ++ rest
      ≡ s.normalized ++ keep_if o (reported_event run req i raw fs) rest
item-reported run req i raw fs none s rest =
    append_assoc s.normalized _ rest
    ∙ ap (λ e. s.normalized ++ e ∷ rest) (normalize-reported run req i raw fs)
item-reported run req i raw fs (some p) s rest = refl

pub sort_items-reported :
    (run : Runtime) (req : Request) (i : ℕ) (vs : List Json) (s : Sorted)
    → (sort_items run req (candidates run req.now i vs) s).normalized
      ≡ s.normalized ++ reported run req i vs
unfolding sort_items candidates reported
sort_items-reported run req i [] s = sym (append-nil s.normalized)
sort_items-reported run req i (v ∷ vs) s =
    go (as_object v) (λ s'. sort_items-reported run req (suc i) vs s')
  where
    go :
        (o : Option Fields)
        → ((s' : Sorted)
            → (sort_items run req (candidates run req.now (suc i) vs) s').normalized
              ≡ s'.normalized ++ reported run req (suc i) vs)
        → (sort_items run req
            (push_candidate run req.now i v o (candidates run req.now (suc i) vs))
            s).normalized
          ≡ s.normalized ++ keep_item run req i v o (reported run req (suc i) vs)
    go none later = later s
    go (some fs) later =
        later (sort_item run req (candidate_of run req.now i v fs) _ s)
        ∙ item-reported run req i v fs _ s (reported run req (suc i) vs)

news_cong :
    (rows rows' es : List AuditEvent)
    → ((id : Uuid) → has_id id rows ≡ has_id id rows')
    → news rows es ≡ news rows' es
unfolding news
news_cong rows rows' [] h = refl
news_cong rows rows' (e ∷ es) h =
    rw
      (
        h e.id,
        news_cong rows rows' es h,
        news_cong (rows ++ e ∷ []) (rows' ++ e ∷ []) es (λ id.
            has_id-append id rows (e ∷ [])
            ∙ ap (λ b. b || has_id id (e ∷ [])) (h id)
            ∙ sym (has_id-append id rows' (e ∷ []))),
      )
      refl

fresh-append :
    (rows us es : List AuditEvent) → fresh rows (us ++ es) ≡ fresh rows us ++ fresh rows es
unfolding select_where
fresh-append rows [] es = refl
fresh-append rows (u ∷ us) es = elim (Bool-cases (has_id u.id rows)) [
  | inl old ↦ rw old (fresh-append rows us es)
  | inr new ↦ rw new (ap (λ xs. u ∷ xs) (fresh-append rows us es))
]

-- An event whose id a row has is not new, and one more row with its id makes no difference.
fresh-old :
    (rows us : List AuditEvent) (e : AuditEvent)
    → has_id e.id rows ≡ true
    → fresh rows (us ++ e ∷ []) ≡ fresh rows us
unfolding select_where
fresh-old rows us e old = fresh-append rows us (e ∷ []) ∙ rw old (append-nil (fresh rows us))

fresh-one :
    (rows us : List AuditEvent) (e : AuditEvent)
    → has_id e.id rows ≡ false
    → fresh rows (us ++ e ∷ []) ≡ fresh rows us ++ e ∷ []
unfolding select_where
fresh-one rows us e new = fresh-append rows us (e ∷ []) ∙ rw new refl

has_id-again :
    (rows us : List AuditEvent) (e : AuditEvent) (id : Uuid)
    → has_id e.id rows ≡ true
    → has_id id (rows ++ us ++ e ∷ []) ≡ has_id id (rows ++ us)
has_id-again rows us e id old =
    has_id-append id (rows ++ us) (e ∷ []) ∙ again (Bool-cases (uuid_eq e.id id))
  where
    again :
        (uuid_eq e.id id ≡ true) ⊎ (uuid_eq e.id id ≡ false)
        → (has_id id (rows ++ us) || has_id id (e ∷ [])) ≡ has_id id (rows ++ us)
    again (inr other) = ground (arith, other)
    again (inl same) =
        let e' : e.id ≡ id = ground (arith, same, uuid_eq_iff e.id id) in
        let there : has_id id rows ≡ true = sym (ap (λ k. has_id k rows) e') ∙ old in
        ground (arith, there, has_id-append id rows us)

-- The events that are left once each, where no row has their id.
pub fresh-unique_from :
    (rows us es : List AuditEvent)
    → fresh rows (unique_from us es) ≡ fresh rows us ++ news (rows ++ us) es
unfolding unique_from news
fresh-unique_from rows us [] = sym (append-nil (fresh rows us))
fresh-unique_from rows us (e ∷ es) = elim (Bool-cases (has_id e.id us)) [
  | inl seen ↦
      let known : has_id e.id (rows ++ us) ≡ true =
        ground (arith, seen, has_id-append e.id rows us) in
      rw (seen, known) (fresh-unique_from rows us es)
  | inr unseen ↦ elim (Bool-cases (has_id e.id rows)) [
    | inl old ↦
        let known : has_id e.id (rows ++ us) ≡ true =
          ground (arith, old, has_id-append e.id rows us) in
        rw (unseen, known)
          (fresh-unique_from rows (us ++ e ∷ []) es
            ∙ ap (λ xs. xs ++ news (rows ++ (us ++ e ∷ [])) es) (fresh-old rows us e old)
            ∙ ap (λ xs. fresh rows us ++ xs)
                (ap (λ xs. news xs es) (sym (append_assoc rows us (e ∷ [])))
                  ∙ news_cong (rows ++ us ++ e ∷ []) (rows ++ us) es
                      (λ id. has_id-again rows us e id old)))
    | inr new ↦
        let unknown : has_id e.id (rows ++ us) ≡ false =
          ground (arith, unseen, new, has_id-append e.id rows us) in
        rw (unseen, unknown)
          (fresh-unique_from rows (us ++ e ∷ []) es
            ∙ ap (λ xs. xs ++ news (rows ++ (us ++ e ∷ [])) es) (fresh-one rows us e new)
            ∙ append_assoc (fresh rows us) (e ∷ []) _
            ∙ ap (λ xs. fresh rows us ++ e ∷ news xs es) (sym (append_assoc rows us (e ∷ []))))
  ]
]

fresh_nothing : (es : List AuditEvent) → fresh [] es ≡ es
unfolding select_where
fresh_nothing [] = refl
fresh_nothing (e ∷ es) = ap (λ xs. e ∷ xs) (fresh_nothing es)

pub unique_from-news : (es : List AuditEvent) → unique_from [] es ≡ news [] es
unfolding select_where
unique_from-news es = sym (fresh_nothing (unique_from [] es)) ∙ fresh-unique_from [] [] es

pub fresh-news : (rows es : List AuditEvent) → fresh rows (unique_from [] es) ≡ news rows es
unfolding select_where
fresh-news rows es = fresh-unique_from rows [] es ∙ ap (λ xs. news xs es) (append-nil rows)
