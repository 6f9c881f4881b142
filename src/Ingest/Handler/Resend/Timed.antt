-- ===== src/Ingest/Handler/Resend/Timed.antt =====
-- The part of `POST /api/events` (src/app/api/events/route.ts) before the store, for events with a
-- time of their own.
use aitp_control_plane.Prelude.{
  ℕ, suc, ◌≡◌, refl, sym, ap, ◌∙◌, Bool, true, Option, none, some, String, List, [], ◌∷◌, ◌++◌,
  is_some, or_else, All,
}
use aitp_control_plane.Json.{Json, Fields, member, as_object}
use aitp_control_plane.Uuid.{Uuid}
use aitp_control_plane.Audit.EventId.{Dates, parse_event_timestamp}
use aitp_control_plane.Audit.EventId.Laws.{event_id_for-SameContent}
use aitp_control_plane.Audit.Canonical.Content.{same}
use aitp_control_plane.Ingest.Items.{ItemProblem}
use aitp_control_plane.Ingest.Normalize.{normalize, normalize_timestamp}
use aitp_control_plane.Ingest.Batch.{
  Runtime, Request, Candidate, candidate_of, push_candidate, candidates, event_id, sort_item,
  Sorted, sort_items,
}

-- An event with a time of its own; an item that is not an object is no event.
abbrev pub is_timed : Dates → Option Fields → Bool
is_timed dates none = true
is_timed dates (some fs) = is_some (parse_event_timestamp dates (member "ts" fs))

abbrev pub AreTimed : Dates → Option (List Json) → Type 0
AreTimed dates none = Unit
AreTimed dates (some es) = All (λ e. is_timed dates (as_object e) ≡ true) es

normalize_timed :
    (dates : Dates) (now now' : String) (raw : Json) (fs : Fields) (id : Uuid)
    → is_some (parse_event_timestamp dates (member "ts" fs)) ≡ true
    → normalize dates now raw fs id ≡ normalize dates now' raw fs id
unfolding normalize normalize_timestamp
normalize_timed dates now now' raw fs id h =
    let ts : or_else (parse_event_timestamp dates (member "ts" fs)) now
        ≡ or_else (parse_event_timestamp dates (member "ts" fs)) now' =
      or_else_some (parse_event_timestamp dates (member "ts" fs)) now now' h in
    rw ts refl
  where
    or_else_some : (o : Option String) (a b : String) → is_some o ≡ true → or_else o a ≡ or_else o b
    or_else_some none a b h = cc
    or_else_some (some c) a b h = refl

push_candidate_timed :
    (run : Runtime) (now now' : String) (i : ℕ) (e : Json) (o : Option Fields)
    (rest rest' : List Candidate)
    → is_timed run.ids.dates o ≡ true
    → rest ≡ rest'
    → push_candidate run now i e o rest ≡ push_candidate run now' i e o rest'
push_candidate_timed run now now' i e none rest rest' timed later = later
push_candidate_timed run now now' i e (some fs) rest rest' timed later =
    rw (normalize_timed run.ids.dates now now' e fs [] timed, later) refl

-- The candidates of timed events do not depend on the clock.
pub candidates_timed :
    (run : Runtime) (now now' : String) (i : ℕ) (es : List Json)
    → All (λ e. is_timed run.ids.dates (as_object e) ≡ true) es
    → candidates run now i es ≡ candidates run now' i es
unfolding candidates
candidates_timed run now now' i [] h = refl
candidates_timed run now now' i (e ∷ es) (timed, h) =
    push_candidate_timed run now now' i e (as_object e) (candidates run now (suc i) es)
      (candidates run now' (suc i) es) timed (candidates_timed run now now' (suc i) es h)

-- A request once more, at another time and with other random ids.
abbrev pub again : Request → String → (ℕ → Uuid) → Request
again req now random = record req { now = now; random = random }

module _ (run : Runtime) (req : Request) (now : String) (random : ℕ → Uuid) where
  event_id_timed :
      (c : Candidate)
      → is_some (parse_event_timestamp run.ids.dates (member "ts" c.fields)) ≡ true
      → event_id run req c ≡ event_id run (again req now random) c
  event_id_timed c h =
      let (agree, written) =
        event_id_for-SameContent run.ids c.fields c.fields req.producer_key (req.random c.index)
          (random c.index) same h h in
      rw (written, sym agree ∙ written) refl

  sort_item_timed :
      (c : Candidate) (o : Option ItemProblem) (s : Sorted)
      → is_some (parse_event_timestamp run.ids.dates (member "ts" c.fields)) ≡ true
      → sort_item run req c o s ≡ sort_item run (again req now random) c o s
  sort_item_timed c none s timed =
      ap (λ id. record s { normalized = s.normalized ++ record c.event { id = id } ∷ [] })
        (event_id_timed c timed)
  sort_item_timed c (some p) s timed = refl

  sort_candidate_timed :
      (i : ℕ) (e : Json) (o : Option Fields) (rest : List Candidate)
      → is_timed run.ids.dates o ≡ true
      → ((s : Sorted) → sort_items run req rest s ≡ sort_items run (again req now random) rest s)
      → (s : Sorted)
      → sort_items run req (push_candidate run req.now i e o rest) s
        ≡ sort_items run (again req now random) (push_candidate run req.now i e o rest) s
  unfolding sort_items
  sort_candidate_timed i e none rest timed later s = later s
  sort_candidate_timed i e (some fs) rest timed later s =
      let c = candidate_of run req.now i e fs in
      later (sort_item run req c c.problem s)
      ∙ ap (sort_items run (again req now random) rest) (sort_item_timed c c.problem s timed)

  pub sort_items_timed :
      (i : ℕ) (es : List Json) (s : Sorted)
      → All (λ e. is_timed run.ids.dates (as_object e) ≡ true) es
      → sort_items run req (candidates run req.now i es) s
        ≡ sort_items run (again req now random) (candidates run req.now i es) s
  unfolding candidates sort_items
  sort_items_timed i [] s h = refl
  sort_items_timed i (e ∷ es) s (timed, h) =
      sort_candidate_timed i e (as_object e) (candidates run req.now (suc i) es) timed
        (λ s'. sort_items_timed (suc i) es s' h) s
