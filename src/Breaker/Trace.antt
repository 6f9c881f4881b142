-- ===== src/Breaker/Trace.antt =====
-- A breaker entry over any sequence of calls: the state diagram it follows, the exclusive probe,
-- the threshold that opens it, and its way back to `closed`.
use aitp_control_plane.Prelude.{
  ℕ, ◌+◌, ◌≤◌, ◌<◌, ◌≡◌, refl, ◌≢◌, Bool, true, false, List, [], ◌∷◌, arith, if◌then◌else◌,
}
use aitp_control_plane.Breaker.State.{
  Entry, Config, BreakerState, closed, opened, half_open, fresh, attempt, success, failure,
  timer_elapsed,
}
use aitp_control_plane.Breaker.Laws.{
  IsConfigured, Inv, fresh-Inv, attempt-Inv, success-Inv, failure-Inv,
}

-- A call on one webhook's entry, with the time at which it reads the clock.
pub data Call : Type 0 where
  attempted : ℕ → Call
  succeeded : Call
  failed : ℕ → Call
  rearmed : Call

unfoldable pub apply : Config → Entry → Call → Entry
apply cfg e (attempted now) = (attempt cfg now e).0
apply cfg e succeeded = success cfg e
apply cfg e (failed now) = failure cfg now e
apply cfg e rearmed = fresh

unfoldable pub run : Config → Entry → List Call → Entry
run cfg e [] = e
run cfg e (c ∷ cs) = run cfg (apply cfg e c) cs

apply-Inv :
    (cfg : Config) (e : Entry) (c : Call) → IsConfigured cfg → Inv cfg e → Inv cfg (apply cfg e c)
unfolding apply
apply-Inv cfg e (attempted now) ok h = attempt-Inv cfg now e ok h
apply-Inv cfg e succeeded ok h = success-Inv cfg e ok h
apply-Inv cfg e (failed now) ok h = failure-Inv cfg now e ok h
apply-Inv cfg e rearmed ok h = fresh-Inv ok

-- With positive thresholds, any calls on an entry that satisfies the invariant, as a fresh one does,
-- lead to one that satisfies it.
run-Inv :
    (cfg : Config) (e : Entry) (cs : List Call)
    → IsConfigured cfg
    → Inv cfg e
    → Inv cfg (run cfg e cs)
unfolding run
run-Inv cfg e [] ok h = h
run-Inv cfg e (c ∷ cs) ok h = run-Inv cfg (apply cfg e c) cs ok (apply-Inv cfg e c ok h)

-- The state diagram of the module's comment: from an entry, by a call, to a state. What a call does
-- depends on the state, the reset timer and the thresholds.
pub data Edge (cfg : Config) (e : Entry) : Call → BreakerState → Type 0 where
  admit : {now : ℕ} → e.state ≡ closed → Edge cfg e (attempted now) closed
  wait :
      {now : ℕ}
      → e.state ≡ opened
      → timer_elapsed cfg now e.opened_at ≡ false
      → Edge cfg e (attempted now) opened
  probe :
      {now : ℕ}
      → e.state ≡ opened
      → timer_elapsed cfg now e.opened_at ≡ true
      → Edge cfg e (attempted now) half_open
  hold : {now : ℕ} → e.state ≡ half_open → Edge cfg e (attempted now) half_open
  works : e.state ≡ closed → Edge cfg e succeeded closed
  recover :
      e.state ≡ half_open
      → cfg.success_threshold_to_close ≤ e.consecutive_successes + 1
      → Edge cfg e succeeded closed
  hope :
      e.state ≡ half_open
      → e.consecutive_successes + 1 < cfg.success_threshold_to_close
      → Edge cfg e succeeded half_open
  late_success : e.state ≡ opened → Edge cfg e succeeded opened
  bear :
      {now : ℕ}
      → e.state ≡ closed
      → e.failures + 1 < cfg.failure_threshold
      → Edge cfg e (failed now) closed
  trip :
      {now : ℕ}
      → e.state ≡ closed
      → cfg.failure_threshold ≤ e.failures + 1
      → Edge cfg e (failed now) opened
  relapse : {now : ℕ} → e.state ≡ half_open → Edge cfg e (failed now) opened
  late_failure : {now : ℕ} → e.state ≡ opened → Edge cfg e (failed now) opened
  rearm : Edge cfg e rearmed closed

attempt-Edge :
    (cfg : Config) (now : ℕ) (e : Entry) → Edge cfg e (attempted now) (attempt cfg now e).0.state
unfolding attempt
attempt-Edge cfg now e = grind (arith, admit, wait, probe, hold)

success-Edge : (cfg : Config) (e : Entry) → Edge cfg e succeeded (success cfg e).state
unfolding success
success-Edge cfg e = grind (arith, works, recover, hope, late_success)

failure-Edge :
    (cfg : Config) (now : ℕ) (e : Entry) → Edge cfg e (failed now) (failure cfg now e).state
unfolding failure
failure-Edge cfg now e = grind (arith, bear, trip, relapse, late_failure)

-- Any call moves an entry along the edge of the state diagram that the call has: an open breaker
-- stays open until an attempt after its timer or a reset, it opens only by a failure at the
-- threshold or of a probe, and it closes only by enough successful probes or a reset.
pub apply-Edge : (cfg : Config) (e : Entry) (c : Call) → Edge cfg e c (apply cfg e c).state
unfolding apply
apply-Edge cfg e (attempted now) = attempt-Edge cfg now e
apply-Edge cfg e succeeded = success-Edge cfg e
apply-Edge cfg e (failed now) = failure-Edge cfg now e
apply-Edge cfg e rearmed = rearm

-- Whether any of a list of attempts, made one after the other, is granted.
unfoldable pub any_granted : Config → Entry → List ℕ → Bool
any_granted cfg e [] = false
any_granted cfg e (now ∷ rest) =
    let later = any_granted cfg (attempt cfg now e).0 rest in
    if (attempt cfg now e).1 then true else later

attempt-IsProbing :
    (cfg : Config) (now : ℕ) (e : Entry)
    → e.state ≡ half_open
    → e.probe_in_flight ≡ true
    → attempt cfg now e ≡ (e, false)
unfolding attempt
attempt-IsProbing cfg now e s p = ground arith

any_granted-IsProbing :
    (cfg : Config) (e : Entry) (times : List ℕ)
    → e.state ≡ half_open
    → e.probe_in_flight ≡ true
    → any_granted cfg e times ≡ false
unfolding any_granted
any_granted-IsProbing cfg e [] s p = refl
any_granted-IsProbing cfg e (now ∷ rest) s p =
    rw (attempt-IsProbing cfg now e s p) (any_granted-IsProbing cfg e rest s p)

attempt-granted_probe :
    (cfg : Config) (now : ℕ) (e : Entry)
    → e.state ≢ closed
    → (attempt cfg now e).1 ≡ true
    → ((attempt cfg now e).0.state ≡ half_open) × ((attempt cfg now e).0.probe_in_flight ≡ true)
unfolding attempt
attempt-granted_probe cfg now e s g = ground arith

-- While the breaker is not closed, one granted attempt is the only one: of any further attempts,
-- with no outcome recorded and no reset in between, none is granted, however much time passes.
pub probe_exclusive :
    (cfg : Config) (now : ℕ) (e : Entry) (times : List ℕ)
    → e.state ≢ closed
    → (attempt cfg now e).1 ≡ true
    → any_granted cfg (attempt cfg now e).0 times ≡ false
probe_exclusive cfg now e times s g =
    let (state, flag) = attempt-granted_probe cfg now e s g in
    any_granted-IsProbing cfg (attempt cfg now e).0 times state flag
