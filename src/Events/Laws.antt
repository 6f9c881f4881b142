-- ===== src/Events/Laws.antt =====
-- The bus of src/lib/audit/stream.ts over a sequence of calls.
use aitp_control_plane.Prelude.{
  ℕ, zero, suc, ◌+◌, ◌-◌, ◌≤◌, ◌≡◌, refl, List, [], ◌∷◌, ◌++◌, ltb, ◌==◌, length, drop, any, ltb→lt,
  ◌<◌, subst, arith, length-append, length-drop, ap, ◌∙◌, sym, Bool-cases, inl, inr,
}
use mathlib.Core.List.{append-nil, append_assoc}
use aitp_control_plane.Webhooks.Rows.{AuditEvent}
use aitp_control_plane.Events.{EventBus, create, publish, subscribe, unsubscribe, get_dropped_count}

pub data Call : Type 0 where
  published : AuditEvent → Call
  subscribed : ℕ → Call
  unsubscribed : ℕ → Call

unfoldable pub apply : EventBus → Call → EventBus
apply bus (published event) = (publish event bus).0
apply bus (subscribed listener) = subscribe listener bus
apply bus (unsubscribed listener) = unsubscribe listener bus

unfoldable pub run : EventBus → List Call → EventBus
run bus [] = bus
run bus (c ∷ cs) = run (apply bus c) cs

-- The events of a sequence of calls.
unfoldable pub events_of : List Call → List AuditEvent
events_of [] = []
events_of (published event ∷ cs) = event ∷ events_of cs
events_of (subscribed listener ∷ cs) = events_of cs
events_of (unsubscribed listener ∷ cs) = events_of cs

-- The last `n` elements.
abbrev pub last_of {ℓ} : {A : Type ℓ} → ℕ → List A → List A
last_of n xs = drop (length xs - n) xs

drop-append_le {ℓ} :
    {A : Type ℓ} (n : ℕ) (xs ys : List A) → n ≤ length xs → drop n (xs ++ ys) ≡ drop n xs ++ ys
drop-append_le zero xs ys h = refl
drop-append_le (suc n) [] ys h = absurd (omega arith)
drop-append_le (suc n) (x ∷ xs) ys h = drop-append_le n xs ys (omega arith)

drop-drop {ℓ} : {A : Type ℓ} (n : ℕ) (xs : List A) → drop 1 (drop n xs) ≡ drop (suc n) xs
drop-drop zero xs = refl
drop-drop (suc n) [] = refl
drop-drop (suc n) (x ∷ xs) = drop-drop n xs

-- A bus that has seen the events `seen`.
record HasSeen (m : ℕ) (seen : List AuditEvent) (bus : EventBus) : Type 0 where
  max_kept : bus.max_backlog ≡ m
  newest : bus.backlog ≡ last_of m seen
  dropped_rest : bus.dropped ≡ length seen - m

length-last_of {ℓ} :
    {A : Type ℓ} (m : ℕ) (xs : List A) → length (last_of m xs) ≡ length xs - (length xs - m)
length-last_of m xs = length-drop (length xs - m) xs

length-snoc {ℓ} : {A : Type ℓ} (xs : List A) (x : A) → length (xs ++ x ∷ []) ≡ length xs + 1
length-snoc xs x = length-append xs (x ∷ [])

last_of-snoc {ℓ} :
    {A : Type ℓ} (m : ℕ) (xs : List A) (x : A)
    → last_of m xs ++ x ∷ [] ≡ drop (length xs - m) (xs ++ x ∷ [])
last_of-snoc m xs x = sym (drop-append_le (length xs - m) xs (x ∷ []) (omega arith))

-- One more element, with and without the drop of the oldest.
last_of-full {ℓ} :
    {A : Type ℓ} (m : ℕ) (xs : List A) (x : A)
    → m ≤ length xs
    → drop 1 (last_of m xs ++ x ∷ []) ≡ last_of m (xs ++ x ∷ [])
last_of-full m xs x h =
    let next : suc (length xs - m) ≡ length (xs ++ x ∷ []) - m = omega (arith, length-snoc xs x) in
    ap (drop 1) (last_of-snoc m xs x)
    ∙ drop-drop (length xs - m) (xs ++ x ∷ [])
    ∙ ap (λ n. drop n (xs ++ x ∷ [])) next

last_of-room {ℓ} :
    {A : Type ℓ} (m : ℕ) (xs : List A) (x : A)
    → length xs < m
    → last_of m xs ++ x ∷ [] ≡ last_of m (xs ++ x ∷ [])
last_of-room m xs x h =
    let same : length xs - m ≡ length (xs ++ x ∷ []) - m = omega (arith, length-snoc xs x) in
    last_of-snoc m xs x ∙ ap (λ n. drop n (xs ++ x ∷ [])) same

publish-HasSeen :
    (m : ℕ) (seen : List AuditEvent) (event : AuditEvent) (bus : EventBus)
    → HasSeen m seen bus
    → HasSeen m (seen ++ event ∷ []) (publish event bus).0
unfolding publish
publish-HasSeen m seen event bus h =
    let size : length (bus.backlog ++ event ∷ []) ≡ length seen - (length seen - m) + 1 =
      length-snoc bus.backlog event
      ∙ ap (λ l. length l + 1) h.newest
      ∙ ap (λ n. n + 1) (length-last_of m seen) in
    elim (Bool-cases (ltb bus.max_backlog (length (bus.backlog ++ event ∷ [])))) [
      | inl full ↦
          let over = ltb→lt bus.max_backlog _ full in
          simp full (record {
            max_kept = h.max_kept;
            newest =
                ap (λ l. drop 1 (l ++ event ∷ [])) h.newest
                ∙ last_of-full m seen event (omega (arith, over, size, h.max_kept));
            dropped_rest =
                omega (arith, over, size, h.max_kept, h.dropped_rest, length-snoc seen event);
          })
      | inr room ↦
          let under : length (bus.backlog ++ event ∷ []) ≤ bus.max_backlog = ground (arith, room) in
          simp room (record {
            max_kept = h.max_kept;
            newest =
                ap (λ l. l ++ event ∷ []) h.newest
                ∙ last_of-room m seen event (omega (arith, under, size, h.max_kept));
            dropped_rest =
                omega (arith, under, size, h.max_kept, h.dropped_rest, length-snoc seen event);
          })
    ]

drop-nil {ℓ} : {A : Type ℓ} (n : ℕ) → drop {A = A} n [] ≡ []
drop-nil zero = refl
drop-nil (suc n) = refl

subscribe-HasSeen :
    (m : ℕ) (seen : List AuditEvent) (l : ℕ) (bus : EventBus)
    → HasSeen m seen bus
    → HasSeen m seen (subscribe l bus)
unfolding subscribe
subscribe-HasSeen m seen l bus h = elim (Bool-cases (any (λ k. k == l) bus.listeners)) [
  | inl there ↦ simp there h
  | inr absent ↦
      simp absent
        (record { max_kept = h.max_kept; newest = h.newest; dropped_rest = h.dropped_rest })
]

run-HasSeen :
    (m : ℕ) (seen : List AuditEvent) (cs : List Call) (bus : EventBus)
    → HasSeen m seen bus
    → HasSeen m (seen ++ events_of cs) (run bus cs)
unfolding run apply events_of subscribe unsubscribe
run-HasSeen m seen [] bus h = subst (λ l. HasSeen m l bus) (sym (append-nil seen)) h
run-HasSeen m seen (published event ∷ cs) bus h =
    subst (λ l. HasSeen m l (run (publish event bus).0 cs))
      (append_assoc seen (event ∷ []) (events_of cs))
      (run-HasSeen m (seen ++ event ∷ []) cs (publish event bus).0
        (publish-HasSeen m seen event bus h))
run-HasSeen m seen (subscribed l ∷ cs) bus h =
    run-HasSeen m seen cs (subscribe l bus) (subscribe-HasSeen m seen l bus h)
run-HasSeen m seen (unsubscribed l ∷ cs) bus h =
    run-HasSeen m seen cs (unsubscribe l bus)
      (record { max_kept = h.max_kept; newest = h.newest; dropped_rest = h.dropped_rest })

-- On a new bus, after any calls, the backlog is the last `max_backlog` of the published events, in
-- order, and the drop count is the number of the others.
pub backlog_newest :
    (m : ℕ) (cs : List Call)
    → let bus = run (create m) cs in
      (bus.backlog ≡ last_of m (events_of cs)) × (get_dropped_count bus ≡ length (events_of cs) - m)
unfolding create get_dropped_count
backlog_newest m cs =
    let h =
      run-HasSeen m [] cs (create m)
        (record { max_kept = refl; newest = sym (drop-nil (0 - m)); dropped_rest = omega arith }) in
    (h.newest, h.dropped_rest)
