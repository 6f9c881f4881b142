-- ===== src/Webhooks/Dispatch/Laws.antt =====
-- Which webhooks `dispatchWebhooks` of src/lib/webhooks/service.ts enqueues an event for.
use aitp_control_plane.Prelude.{
  ℕ, ◌≤◌, ◌≡◌, refl, Bool, true, false, some, String, List, [], ◌∷◌, if◌then◌else◌, arith, length,
  Bool-cases, inl, inr, sym, subst, fun_ext, ap, ◌&&◌, ◌||◌, any, str_eq,
}
use aitp_control_plane.Prelude.Tables.{select_where}
use aitp_control_plane.Webhooks.Rows.{Webhook, Delivery, AuditEvent, pending}
use aitp_control_plane.Webhooks.Signing.{Crypto, build_canonical_body, sign_payload}
use aitp_control_plane.Webhooks.Dispatch.{
  deliverable_event_types, includes, is_empty, wants, enqueued, enqueue_all, dispatch_with_list,
  dispatch,
}

-- Whether a list of event types takes in a type: an empty list takes in all.
abbrev pub listens : List String → String → Bool
listens [] type = true
listens (t ∷ ts) type = any (λ u. str_eq u type) (t ∷ ts)

abbrev pub is_recipient : AuditEvent → Webhook → Bool
is_recipient event w = w.active && listens w.events event.type

-- The webhooks that an event is delivered to.
abbrev pub recipients : AuditEvent → List Webhook → List Webhook
recipients event ws =
    if includes deliverable_event_types event.type then select_where (is_recipient event) ws else []

listens-includes :
    (ts : List String) (type : String) → (is_empty ts || includes ts type) ≡ listens ts type
listens-includes [] type = refl
listens-includes (t ∷ ts) type = refl

wants-is_recipient : (event : AuditEvent) → wants event ≡ is_recipient event
wants-is_recipient event =
    fun_ext (λ w. ap (λ b. w.active && b) (listens-includes w.events event.type))

-- A row as it is queued for a webhook: pending, not tried yet, its stored signature that of its
-- stored body under the webhook's secret.
abbrev pub IsQueuedFor : Crypto → AuditEvent → Webhook → Delivery → Type 0
IsQueuedFor c event w d =
    (d.webhook_id ≡ w.id)
    × (d.payload ≡ event)
    × (d.status ≡ pending)
    × (d.attempts ≡ 0)
    × ((body : String) × (d.body ≡ some body) × (d.signature ≡ some (sign_payload c w.secret body)))

-- Two lists, element by element.
abbrev pub AllPairs : (Webhook → Delivery → Type 0) → List Webhook → List Delivery → Type 0
AllPairs R [] [] = Unit
AllPairs R (w ∷ ws) (d ∷ ds) = R w d × AllPairs R ws ds
AllPairs R _ _ = ⊥

enqueue_all-AllPairs :
    (c : Crypto) (now stored : ℕ) (ids : List String) (event : AuditEvent) (ws : List Webhook)
    → length ws ≤ length ids
    → AllPairs (IsQueuedFor c event) ws (enqueue_all c now stored ids event ws)
unfolding enqueue_all enqueued
enqueue_all-AllPairs c now stored [] event [] h = tt
enqueue_all-AllPairs c now stored (id ∷ ids) event [] h = tt
enqueue_all-AllPairs c now stored [] event (w ∷ ws) h = absurd (omega arith)
enqueue_all-AllPairs c now stored (id ∷ ids) event (w ∷ ws) h = (
  (refl, refl, refl, refl, (build_canonical_body c id event now, refl, refl)),
  enqueue_all-AllPairs c now stored ids event ws (omega arith),
)

wants_active :
    (event : AuditEvent) (ws : List Webhook)
    → select_where (wants event) (select_where (λ w. w.active) ws) ≡ select_where (wants event) ws
unfolding select_where
wants_active event [] = refl
wants_active event (w ∷ ws) = ground (arith, wants_active event ws)

recipients_deliverable :
    (event : AuditEvent) (ws : List Webhook)
    → includes deliverable_event_types event.type ≡ true
    → recipients event ws ≡ select_where (wants event) ws
recipients_deliverable event ws e =
    rw (e, recipients) (ap (λ p. select_where p ws) (sym (wants-is_recipient event)))

if_again {ℓ} :
    {A : Type ℓ} (b : Bool) (x y : A)
    → (if b then (if b then x else y) else y) ≡ (if b then x else y)
if_again true x y = refl
if_again false x y = refl

enqueue_all-select :
    (c : Crypto) (now stored : ℕ) (ids : List String) (event : AuditEvent) (ws : List Webhook)
    → length (recipients event ws) ≤ length ids
    → AllPairs
        (IsQueuedFor c event)
        (recipients event ws)
        (dispatch_with_list c now stored ids event ws)
unfolding dispatch_with_list
enqueue_all-select c now stored ids event ws h =
    elim (Bool-cases (includes deliverable_event_types event.type)) [
      | inr other ↦ rw (other, dispatch_with_list) tt
      | inl deliverable ↦
          rw (deliverable, dispatch_with_list)
            (subst
              (λ p.
                AllPairs (IsQueuedFor c event) (select_where p ws)
                  (enqueue_all c now stored ids event (select_where (wants event) ws)))
              (wants-is_recipient event)
              (enqueue_all-AllPairs c now stored ids event (select_where (wants event) ws) (
                subst (λ l. length l ≤ length ids) (recipients_deliverable event ws deliverable)
                  h)))
    ]

dispatch-eq :
    (c : Crypto) (now stored : ℕ) (ids : List String) (event : AuditEvent) (ws : List Webhook)
    → dispatch c now stored ids event ws ≡ dispatch_with_list c now stored ids event ws
unfolding dispatch dispatch_with_list
dispatch-eq c now stored ids event ws =
    rw (wants_active event ws) (if_again (includes deliverable_event_types event.type) _ [])

-- With an id for each recipient, both ways of dispatching an event queue the same rows: for every
-- active webhook that lists the event's type or lists none, in order, one pending row that has not
-- been tried, signed with that webhook's secret; and none if the type is not deliverable.
pub dispatch-recipients :
    (c : Crypto) (now stored : ℕ) (ids : List String) (event : AuditEvent) (ws : List Webhook)
    → length (recipients event ws) ≤ length ids
    → AllPairs (IsQueuedFor c event) (recipients event ws) (dispatch c now stored ids event ws)
      × (dispatch c now stored ids event ws ≡ dispatch_with_list c now stored ids event ws)
dispatch-recipients c now stored ids event ws h =
    let same = dispatch-eq c now stored ids event ws in
    (
      subst (AllPairs (IsQueuedFor c event) (recipients event ws)) (sym same)
          (enqueue_all-select c now stored ids event ws h),
      same,
    )
