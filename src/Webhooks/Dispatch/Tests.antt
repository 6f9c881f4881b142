-- ===== src/Webhooks/Dispatch/Tests.antt =====
-- The theorem on dispatching and the one on the pass of the reaper at concrete rows.
use aitp_control_plane.Prelude.{◌≡◌, refl, false, [], ◌∷◌, arith}
use aitp_control_plane.Prelude.Tables.{select_where}
use aitp_control_plane.Webhooks.Rows.{Webhook, pending, failed}
use aitp_control_plane.Webhooks.Dispatch.{dispatch, dispatch_with_list}
use aitp_control_plane.Webhooks.Dispatch.Laws.{
  recipients, IsQueuedFor, AllPairs, dispatch-recipients,
}
use aitp_control_plane.Webhooks.Retries.{flush_due_retries, due, slices}
use aitp_control_plane.Webhooks.Samples.{crypto, hook_row, event, queued}

abbrev idle_hook : Webhook
idle_hook = record hook_row { id = "w2"; active = false }

dispatch-recipients_example :
    AllPairs
      (IsQueuedFor crypto event)
      (recipients event (hook_row ∷ idle_hook ∷ []))
      (dispatch crypto 5 6 ("d1" ∷ []) event (hook_row ∷ idle_hook ∷ []))
    × (dispatch crypto 5 6 ("d1" ∷ []) event (hook_row ∷ idle_hook ∷ [])
        ≡ dispatch_with_list crypto 5 6 ("d1" ∷ []) event (hook_row ∷ idle_hook ∷ []))
unfolding select_where
dispatch-recipients_example =
    dispatch-recipients crypto 5 6 ("d1" ∷ []) event (hook_row ∷ idle_hook ∷ []) (omega arith)

flushed : flush_due_retries 9 (queued pending ∷ queued failed ∷ []) ≡ (("d1" ∷ []) ∷ [], 1)
unfolding flush_due_retries due slices select_where
flushed = refl
