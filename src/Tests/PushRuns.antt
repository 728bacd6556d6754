-- ===== src/Tests/PushRuns.antt =====
-- A server with one delivery in its queue, and the theorems at it.
use tentserv_chat_server.Prelude.{
  ℕ, ◌≡◌, refl, true, Option, none, some, List, [], ◌∷◌, ◌++◌, All, inl,
}
use tentserv_chat_server.Ws.Hub.{Client, Hub, elem, register, fresh_client}
use tentserv_chat_server.Ws.Hub.Lifecycle.{connect, handle}
use tentserv_chat_server.Ws.Hub.Runs.{Runs, start, next, new_hub}
use tentserv_chat_server.Push.Queue.{enqueue, Delivery, pending, delivered}
use tentserv_chat_server.Push.Attempts.{
  Server, new_server, dispatch, resolve_ack, Steps, stay, further, dispatches, resolves,
}
use tentserv_chat_server.Push.Acked.{RowAcked, delivered_only_if_acked}
use tentserv_chat_server.Push.Retried.{Extends, queue_keeps, retry_delivers}

abbrev memory : ℕ → Client
memory c = fresh_client none

abbrev as_json : Delivery → Option (List ℕ)
as_json d = some (d.id ∷ d.payload)

-- the hub with one connection of user 7
abbrev online : Hub
online = register 3 (some 7) (new_hub memory)

online-Runs : Runs memory online
unfolding handle
online-Runs = next start (connect 3 (some 7)) _ refl refl

abbrev empty : Server
empty = new_server online

abbrev item : Delivery
item = record {
  id = 1;
  user_id = 7;
  payload_type = 115 ∷ [];
  payload = 2 ∷ 3 ∷ [];
  status = pending;
  created_at = 0;
  delivered_at = none;
}

-- The service was down when the item came, so that no attempt is left; half a minute and a second later.
abbrev late : Server
late = record empty { queue = record { rows = item ∷ []; next_id = 2; now = 31 } }

abbrev queued : Server
queued = dispatch true 7 (115 ∷ []) (2 ∷ 3 ∷ []) empty

queued-Steps : Steps as_json empty (resolve_ack 1 queued)
unfolding dispatch register enqueue
queued-Steps =
    further (further stay (dispatches true 7 (115 ∷ []) (2 ∷ 3 ∷ []))) (resolves 1 3 refl)

delivered_only_if_acked_example :
    All (RowAcked (resolve_ack 1 queued).answered) (resolve_ack 1 queued).queue.rows
delivered_only_if_acked_example =
    delivered_only_if_acked as_json online (resolve_ack 1 queued) queued-Steps

retry_delivers_example :
    (u t : Server) × Steps as_json late u
    × (elem 3 u.hub.clients ≡ true)
    × ((u.hub.heap 3).queue ≡ (late.hub.heap 3).queue ++ (1 ∷ 2 ∷ 3 ∷ []) ∷ [])
    × Steps as_json (resolve_ack 1 u) t
    × All (λ r. r.id ≡ 1 → r.status ≡ delivered) t.queue.rows
unfolding register
retry_delivers_example =
    retry_delivers as_json memory late item (1 ∷ 2 ∷ 3 ∷ []) 3 online-Runs (inl refl) refl refl refl
      refl refl

queue_keeps_example : Extends empty.queue.rows (resolve_ack 1 queued).queue.rows
queue_keeps_example = queue_keeps as_json empty (resolve_ack 1 queued) queued-Steps
