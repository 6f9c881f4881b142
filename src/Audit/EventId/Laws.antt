-- ===== src/Audit/EventId/Laws.antt =====
-- Which events src/lib/audit/event-id.ts gives one id.
use aitp_control_plane.Prelude.{◌≡◌, Option, none, some, true, String, is_some, ap, ◌∙◌, sym, refl}
use mathlib.Core.Option
use aitp_control_plane.Json.{obj, Fields, member}
use aitp_control_plane.Uuid.{Uuid}
use aitp_control_plane.Audit.Canonical.{canonical_json}
use aitp_control_plane.Audit.Canonical.Spec.{canonical}
use aitp_control_plane.Audit.Canonical.Content.{SameContent, canonical_json-SameContent}
use aitp_control_plane.Audit.EventId.{
  Ids, signed_printer, content_id, id_at, parse_event_timestamp, event_id_for,
}

timed :
    (ids : Ids) (raw : Fields) (producer_key : Option String) (random : Uuid)
    → is_some (parse_event_timestamp ids.dates (member "ts" raw)) ≡ true
    → event_id_for ids raw producer_key random
      ≡ Option.map (content_id ids producer_key) (canonical_json (signed_printer ids) (obj raw))
unfolding event_id_for
timed ids raw producer_key random h =
    elim (parse_event_timestamp ids.dates (member "ts" raw))
        as (λ ts.
          is_some ts ≡ true
          → id_at ids raw producer_key random ts
            ≡ Option.map (content_id ids producer_key)
                (canonical_json (signed_printer ids) (obj raw))) [
                  | none ↦ λ k. cc
                  | some ts ↦ λ k. refl
                ]
      h

-- Two events with a time whose content is the same get one id, whatever `randomUUID` returns.
pub event_id_for-SameContent :
    (ids : Ids) (fs gs : Fields) (producer_key : Option String) (random random' : Uuid)
    → SameContent (signed_printer ids) (obj fs) (obj gs)
    → is_some (parse_event_timestamp ids.dates (member "ts" fs)) ≡ true
    → is_some (parse_event_timestamp ids.dates (member "ts" gs)) ≡ true
    → (event_id_for ids fs producer_key random ≡ event_id_for ids gs producer_key random')
      × (event_id_for ids fs producer_key random
          ≡ some (content_id ids producer_key (canonical (signed_printer ids) (obj fs))))
event_id_for-SameContent ids fs gs producer_key random random' r a b =
    let (written, agree) = canonical_json-SameContent (signed_printer ids) (obj fs) (obj gs) r in
    let e = timed ids fs producer_key random a in
    let e' = timed ids gs producer_key random' b in
    (
      e ∙ ap (Option.map (content_id ids producer_key)) (sym agree) ∙ sym e',
      e ∙ ap (Option.map (content_id ids producer_key)) written,
    )
