-- ===== src/Tests/HubRuns.antt =====
-- Connections of two users to the hub, and the theorems at them.
use tentserv_chat_server.Prelude.{ℕ, ◌≡◌, refl, true, false, Option, none, some, [], ◌∷◌}
use tentserv_chat_server.Ws.Hub.{
  Client, Hub, elem, set, offered, fresh_client, send, unregister, register,
}
use tentserv_chat_server.Ws.Hub.Lifecycle.{IsSound, connect, disconnect, offer, handle}
use tentserv_chat_server.Ws.Hub.Senders.{Sending, copies, sends, meanwhile, send_returns}
use tentserv_chat_server.Ws.Hub.Presence.{presence, replay, is_of, Runs-presence}
use tentserv_chat_server.Ws.Hub.Runs.{
  Runs, start, next, new_hub, Runs-IsSound, handle_returns, unregister_removes,
}

abbrev memory : ℕ → Client
memory c = fresh_client none

-- Two connections of user 7 and one of user 8.
abbrev three : Hub
three = register 3 (some 8) (register 2 (some 7) (register 1 (some 7) (new_hub memory)))

-- three, after the first of the two sends
abbrev greeted : Hub
greeted = record three { heap = set 1 (offered (104 ∷ 105 ∷ []) (three.heap 1)) three.heap }

abbrev with_gone : Option Hub → (Hub → Option Hub) → Option Hub
with_gone none f = none
with_gone (some h) f = f h

three-Runs : Runs memory three
unfolding handle register
three-Runs =
    next (next (next start (connect 1 (some 7)) _ refl refl) (connect 2 (some 7)) _ refl refl)
      (connect 3 (some 8)) _ refl refl

Runs-IsSound_example : IsSound three
Runs-IsSound_example = Runs-IsSound memory three three-Runs

handle_returns_example : (h' : Hub) × (handle (disconnect 2) three ≡ some h')
handle_returns_example = handle_returns memory three (disconnect 2) three-Runs tt

-- after the departure of user 8
abbrev quiet : Hub
quiet = record {
  clients = 2 ∷ 1 ∷ [];
  user_clients = set 8 [] greeted.user_clients;
  heap = set 3 (record (greeted.heap 3) { is_closed = true }) greeted.heap;
}

-- SendToUser for user 7 sends to the connection 1, and before its second send user 8 leaves and user 9
-- connects.
between-Sending : Sending memory 7 (104 ∷ 105 ∷ []) (2 ∷ []) (register 4 (some 9) quiet)
unfolding handle send register unregister
between-Sending =
    meanwhile (2 ∷ []) (connect 4 (some 9)) quiet (register 4 (some 9) quiet)
      (meanwhile (2 ∷ []) (disconnect 3) greeted quiet
        (sends 1 (2 ∷ []) three greeted (copies three three-Runs) refl) (λ e. cc) tt refl)
      tt refl refl

send_returns_example :
    (h' : Hub) × (handle (offer 2 (104 ∷ 105 ∷ [])) (register 4 (some 9) quiet) ≡ some h')
    × (elem 2 (register 4 (some 9) quiet).clients ≡ true)
    × (presence (register 4 (some 9) quiet) 2 ≡ some (some 7))
    × (h'.heap 2 ≡ offered (104 ∷ 105 ∷ []) ((register 4 (some 9) quiet).heap 2))
send_returns_example =
    send_returns memory 7 (104 ∷ 105 ∷ []) 2 [] (register 4 (some 9) quiet) between-Sending

-- A send to a connection that has left since the copy panics.
late_send_panics : with_gone (unregister 2 three) (λ h. handle (offer 2 (104 ∷ [])) h) ≡ none
unfolding handle send register unregister
late_send_panics = refl

unregister_removes_example :
    (h' : Hub) × (unregister 2 three ≡ some h')
    × (elem 2 h'.clients ≡ false)
    × ((u : ℕ) → elem 2 (h'.user_clients u) ≡ false)
unregister_removes_example = unregister_removes memory three 2 three-Runs

Runs-presence_example :
    (presence three 2 ≡ replay three-Runs 2)
    × ((u : ℕ) → elem 2 (three.user_clients u) ≡ is_of u (replay three-Runs 2))
Runs-presence_example = Runs-presence memory three three-Runs 2
