-- ===== src/Events/Tests.antt =====
-- The theorems on the event bus and the stream slots at concrete calls.
use aitp_control_plane.Prelude.{ℕ, ◌-◌, ◌≡◌, refl, true, false, none, List, [], ◌∷◌, arith, length}
use aitp_control_plane.Prelude.Tables.{count_where}
use aitp_control_plane.Json.{null}
use aitp_control_plane.Webhooks.Rows.{AuditEvent}
use aitp_control_plane.Events.{create, get_dropped_count}
use aitp_control_plane.Events.Laws.{
  Call, published, subscribed, run, events_of, last_of, backlog_newest,
}
use aitp_control_plane.Events.Streams.{
  Streams, Signal, connect, cleanup, connect_stream, cleanup_at, on_signal, on_signals, IsExact,
  on_signals-IsExact,
}
use aitp_control_plane.Events.Slots.{acquire_slot, release_slot, record_rejected, get_open_count}

abbrev event_at : ℕ → AuditEvent
event_at n = record {
  id = n ∷ [];
  type = "tct.revoked";
  ts = "t";
  aid_a = none;
  aid_b = none;
  session_id = none;
  run_id = none;
  grants = none;
  payload = null;
  source = none;
}

abbrev calls : List Call
calls = published (event_at 1) ∷ subscribed 7 ∷ published (event_at 2) ∷ published (event_at 3) ∷ []

backlog_newest_example :
    ((run (create 2) calls).backlog ≡ last_of 2 (events_of calls))
    × (get_dropped_count (run (create 2) calls) ≡ length (events_of calls) - 2)
backlog_newest_example = backlog_newest 2 calls

abbrev no_streams : Streams
no_streams = record {
  slots = record { open_count = 0; opened_total = 0; rejected_total = 0 };
  closed_flags = [];
}

abbrev signals : List Signal
signals = connect ∷ connect ∷ connect ∷ cleanup 0 ∷ cleanup 0 ∷ connect ∷ []

after_signals : on_signals 2 no_streams signals ≡ record {
  slots = record { open_count = 2; opened_total = 3; rejected_total = 1 };
  closed_flags = false ∷ true ∷ false ∷ [];
}
unfolding on_signals on_signal connect_stream cleanup_at acquire_slot release_slot record_rejected
    get_open_count
after_signals = refl

no_streams-IsExact : IsExact 2 no_streams
unfolding count_where
no_streams-IsExact = record { open_live = refl; open_capped = omega arith; opened_all = refl }

on_signals-IsExact_example : IsExact 2 (on_signals 2 no_streams signals)
on_signals-IsExact_example = on_signals-IsExact 2 no_streams signals no_streams-IsExact
