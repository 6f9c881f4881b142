-- ===== src/Events/Streams.antt =====
-- The life of event streams as far as slots go: the capacity gate of `GET` and the `cleanup` of
-- each stream in src/app/api/events/stream/route.ts, called any number of times.
use aitp_control_plane.Prelude.{
  ℕ, zero, suc, ◌+◌, ◌≤◌, ◌≡◌, Bool, true, false, List, [], ◌∷◌, if◌then◌else◌, leb, length, not,
  arith,
}
use aitp_control_plane.Prelude.Tables.{count_where}
use aitp_control_plane.Events.Slots.{
  Slots, acquire_slot, release_slot, record_rejected, get_open_count,
}

-- A stream is its `closed` flag; the latest comes first.
pub record Streams : Type 0 where
  pub slots : Slots
  pub closed_flags : List Bool

pub data Signal : Type 0 where
  connect : Signal
  cleanup : ℕ → Signal

unfoldable pub connect_stream : ℕ → Streams → Streams
connect_stream max s =
    if leb max (get_open_count s.slots)
    then (record s { slots = record_rejected s.slots })
    else (record { slots = (acquire_slot s.slots).0; closed_flags = false ∷ s.closed_flags })

-- `if (closed) return; closed = true; releaseSseSlot();` of the stream in place `i`.
unfoldable pub cleanup_at : ℕ → List Bool → Slots → List Bool × Slots
cleanup_at i [] slots = ([], slots)
cleanup_at zero (true ∷ flags) slots = (true ∷ flags, slots)
cleanup_at zero (false ∷ flags) slots = (true ∷ flags, release_slot slots)
cleanup_at (suc i) (flag ∷ flags) slots =
    let (flags', slots') = cleanup_at i flags slots in (flag ∷ flags', slots')

unfoldable pub on_signal : ℕ → Streams → Signal → Streams
on_signal max s connect = connect_stream max s
on_signal max s (cleanup i) =
    let (flags, slots) = cleanup_at i s.closed_flags s.slots in
    record { slots = slots; closed_flags = flags }

unfoldable pub on_signals : ℕ → Streams → List Signal → Streams
on_signals max s [] = s
on_signals max s (x ∷ xs) = on_signals max (on_signal max s x) xs

abbrev pub is_live : Bool → Bool
is_live closed = not closed

-- The counters against the streams.
pub record IsExact (max : ℕ) (s : Streams) : Type 0 where
  pub open_live : s.slots.open_count ≡ count_where is_live s.closed_flags
  pub open_capped : s.slots.open_count ≤ max
  pub opened_all : s.slots.opened_total ≡ length s.closed_flags

-- `cleanup` changes the counter and the flags together; the counter may count more streams.
cleanup_at-open :
    (i extra : ℕ) (flags : List Bool) (slots : Slots)
    → slots.open_count ≡ extra + count_where is_live flags
    → ((cleanup_at i flags slots).1.open_count
        ≡ extra + count_where is_live (cleanup_at i flags slots).0)
      × ((cleanup_at i flags slots).1.open_count ≤ slots.open_count)
      × ((cleanup_at i flags slots).1.opened_total ≡ slots.opened_total)
      × ((cleanup_at i flags slots).1.rejected_total ≡ slots.rejected_total)
      × (length (cleanup_at i flags slots).0 ≡ length flags)
unfolding cleanup_at count_where release_slot
cleanup_at-open i extra [] slots h = ground (arith, h)
cleanup_at-open zero extra (true ∷ flags) slots h = ground (arith, h)
cleanup_at-open zero extra (false ∷ flags) slots h = ground (arith, h)
cleanup_at-open (suc i) extra (true ∷ flags) slots h =
    ground (arith, cleanup_at-open i extra flags slots h)
cleanup_at-open (suc i) extra (false ∷ flags) slots h =
    ground (arith, h, cleanup_at-open i (suc extra) flags slots (omega (arith, h)))

on_signal-IsExact :
    (max : ℕ) (s : Streams) (x : Signal) → IsExact max s → IsExact max (on_signal max s x)
unfolding on_signal connect_stream get_open_count record_rejected acquire_slot count_where
on_signal-IsExact max s connect h = ground (arith, h.open_live, h.open_capped, h.opened_all)
on_signal-IsExact max s (cleanup i) h =
    let (same, less, total, rejected, size) =
      cleanup_at-open i 0 s.closed_flags s.slots (omega (arith, h.open_live)) in
    record {
      open_live = omega (arith, same);
      open_capped = omega (arith, less, h.open_capped);
      opened_all = omega (arith, total, size, h.opened_all);
    }

-- After any connections and any, also repeated, cleanups, if the counters matched the streams
-- before, then the open count is the number of streams not closed, it is at most the cap, and the
-- number opened is the number of streams.
pub on_signals-IsExact :
    (max : ℕ) (s : Streams) (xs : List Signal) → IsExact max s → IsExact max (on_signals max s xs)
unfolding on_signals
on_signals-IsExact max s [] h = h
on_signals-IsExact max s (x ∷ xs) h =
    on_signals-IsExact max (on_signal max s x) xs (on_signal-IsExact max s x h)
