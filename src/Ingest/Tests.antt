-- ===== src/Ingest/Tests.antt =====
-- The theorems on the ingestion of events at a concrete batch.
use aitp_control_plane.Prelude.{◌≡◌, refl, true, none, some, [], ◌∷◌}
use aitp_control_plane.Json.{null, num, str, arr, obj, nil, cons, Fields, end, field, member, items}
use aitp_control_plane.Audit.EventId.{from_zero, parse_event_timestamp, in_storable_range}
use aitp_control_plane.Tcts.Observe.{off}
use aitp_control_plane.Webhooks.Samples.{crypto, hook_row, event}
use aitp_control_plane.Ingest.Values.{json_value_problem}
use aitp_control_plane.Ingest.Values.Walk.{value_problem, json_value_problem-value_problem}
use aitp_control_plane.Ingest.Batch.{Runtime, Request, raw_events}
use aitp_control_plane.Ingest.Handler.{Plane, Calls, post_events}
use aitp_control_plane.Ingest.Handler.Reported.{reported_in, news}
use aitp_control_plane.Ingest.Handler.Resend.{IsRepeat, post_events-IsRepeat}
use aitp_control_plane.Ingest.Handler.Resend.Timed.{again}

abbrev run : Runtime
run = record {
  ids = record {
    dates = record {
      of_text = λ s. some (record { utc_full_year = from_zero 2026; iso_string = s });
      is_below_1e12 = λ n. true;
      of_millis = λ n. none;
      of_seconds = λ n. none;
    };
    quote = λ s. s;
    decode_segment = λ s. none;
    sha256 = λ s. 1 ∷ 2 ∷ 3 ∷ 4 ∷ 5 ∷ 6 ∷ 7 ∷ 8 ∷ 9 ∷ 10 ∷ 11 ∷ 12 ∷ 13 ∷ 14 ∷ 15 ∷ 16 ∷ [];
  };
  is_well_formed = λ s. true;
  stringify_length = λ v. 2;
}

abbrev report : Fields
report = field "ts" (str "t") (field "type" (str "tct.revoked") (field "payload" (obj end) end))

abbrev unstorable : Fields
unstorable = field "ts" (str "t") (field "source" (str "\0") end)

abbrev batch : Request
batch = record {
  body = obj (
      field "events"
        (arr (cons (obj report) (cons (obj unstorable) (cons (num "1") (cons (obj report) nil)))))
        end);
  producer_key = some "apikey:1";
  now = "now";
  random = λ i. i ∷ [];
}

abbrev calls : Calls
calls = record {
  monitor = record {
    codec = record { decode_segment = λ s. none; epoch_to_iso = λ s. none; sha1 = λ s. [] };
    sdk = record { verify_tct = λ t g a. none; verify_delegation = λ t a ms. none };
    mode = off;
  };
  crypto = crypto;
  now_ms = 5;
  stored = 6;
  delivery_ids = λ e. "d1" ∷ [];
  active_webhooks = hook_row ∷ [];
}

abbrev plane : Plane
plane = record {
  audit_events = event ∷ [];
  agents = [];
  sessions = [];
  tokens = record { issued_tcts = []; delegations = []; revocation_entries = []; agents = [] };
  bus = record { listeners = 1 ∷ []; backlog = []; max_backlog = 10; dropped = 0 };
  deliveries = [];
  events_dropped_total = 0;
  events_duplicate_total = 0;
}

json_value_problem-value_problem_example :
    json_value_problem (λ s. true) (arr (cons (str "\0") (cons null nil)))
    ≡ some (value_problem (λ s. true) (arr (cons (str "\0") (cons null nil))))
json_value_problem-value_problem_example =
    json_value_problem-value_problem (λ s. true) (arr (cons (str "\0") (cons null nil)))

post_events-IsRepeat_example :
    IsRepeat calls "later"
      (news [] (reported_in run batch (raw_events batch.body)))
      (post_events run calls batch plane)
      (post_events run calls
        (again batch "later" (λ i. i ∷ i ∷ []))
        (post_events run calls batch plane).0)
post_events-IsRepeat_example =
    post_events-IsRepeat run calls calls batch "later" (λ i. i ∷ i ∷ []) plane
      (unfold raw_events member items parse_event_timestamp in_storable_range in
        (refl, (refl, (refl, (refl, tt)))))
