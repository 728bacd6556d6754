-- ===== src/Ws/Hub.antt =====
-- internal/interface/ws/hub.go and the buffer of internal/interface/ws/client.go. Each handler of `Run`
-- runs without interruption here; Lifecycle.Event puts the sends of `SendToUser` between them one by one.
-- Clients are objects on a heap, under their addresses; a message is its bytes.
pub mod Delivery
pub mod Lists
pub mod Lifecycle
pub mod Departure
pub mod Runs
pub mod Presence
pub mod Senders
use tentserv_chat_server.Prelude.{
  ℕ, Bool, true, false, Option, none, some, List, [], ◌∷◌, ◌++◌, ◌==◌, ltb, if◌then◌else◌, any,
  length,
}

-- The channel `send`, whose buffer holds 256 messages, and UserID; `none` is the empty string.
pub record Client : Type 0 where
  pub user_id : Option ℕ
  pub queue : List (List ℕ)
  pub is_closed : Bool

-- `clients` holds the keys of the map of that name; a key that `userClients` lacks reads as `[]`.
pub record Hub : Type 0 where
  pub clients : List ℕ
  pub user_clients : ℕ → List ℕ
  pub heap : ℕ → Client

abbrev pub elem : ℕ → List ℕ → Bool
elem c cs = any (λ x. x == c) cs

abbrev pub set : {A : Type 0} → ℕ → A → (ℕ → A) → ℕ → A
set c v f x = if x == c then v else f x

abbrev pub buffer_size : ℕ
buffer_size = 256

-- a send that finds the buffer full drops the message
abbrev pub offered : List ℕ → Client → Client
offered m c = record c {
  queue = if ltb (length c.queue) buffer_size then c.queue ++ m ∷ [] else c.queue;
}

-- Client.Send: `none` is the panic of a send on a closed channel
unfoldable pub send : ℕ → List ℕ → (ℕ → Client) → Option (ℕ → Client)
send c m heap = if (heap c).is_closed then none else some (set c (offered m (heap c)) heap)

abbrev pub and_send :
    Option (ℕ → Client) → ((ℕ → Client) → Option (ℕ → Client)) → Option (ℕ → Client)
and_send none f = none
and_send (some heap) f = f heap

-- the loops of SendToUser and Broadcast
unfoldable pub send_all : List ℕ → List ℕ → (ℕ → Client) → Option (ℕ → Client)
unfolding send
send_all [] m heap = some heap
send_all (c ∷ cs) m heap = and_send (send c m heap) (λ heap'. send_all cs m heap')

abbrev pub with_heap : Hub → Option (ℕ → Client) → Option Hub
with_heap h none = none
with_heap h (some heap) = some (record h { heap = heap })

-- SendToUser, where nothing comes between its copy of the list and its sends
unfoldable pub send_to_user : ℕ → List ℕ → Hub → Option Hub
unfolding send_all
send_to_user u m h = with_heap h (send_all (h.user_clients u) m h.heap)

-- Run, on Broadcast
unfoldable pub broadcast : List ℕ → Hub → Option Hub
unfolding send_all
broadcast m h = with_heap h (send_all h.clients m h.heap)

abbrev pub fresh_client : Option ℕ → Client
fresh_client u = record { user_id = u; queue = []; is_closed = false }

abbrev pub joined : Option ℕ → ℕ → (ℕ → List ℕ) → ℕ → List ℕ
joined none c f = f
joined (some u) c f = set u (f u ++ c ∷ []) f

-- NewClient at the address `c`, then Run on Register
unfoldable pub register : ℕ → Option ℕ → Hub → Hub
register c user h = record {
  clients = if elem c h.clients then h.clients else c ∷ h.clients;
  user_clients = joined user c h.user_clients;
  heap = set c (fresh_client user) h.heap;
}

-- the loop of removeUserClient: the first occurrence goes
abbrev pub without : ℕ → List ℕ → List ℕ
without c [] = []
without c (x ∷ xs) = if x == c then xs else x ∷ without c xs

abbrev pub left : Option ℕ → ℕ → (ℕ → List ℕ) → ℕ → List ℕ
left none c f = f
left (some u) c f = set u (without c (f u)) f

-- `close(client.send)`: what is in the buffer can still be received
abbrev pub closed : Client → Client
closed c = record c { is_closed = true }

-- Run, on Unregister; `none` is the panic of a second close
unfoldable pub unregister : ℕ → Hub → Option Hub
unregister c h =
    if elem c h.clients
    then (if (h.heap c).is_closed
        then none
        else some (record {
          clients = without c h.clients;
          user_clients = left (h.heap c).user_id c h.user_clients;
          heap = set c (closed (h.heap c)) h.heap;
        }))
    else some h

abbrev pub rest_of : List (List ℕ) → List (List ℕ)
rest_of [] = []
rest_of (m ∷ ms) = ms

-- WritePump takes one message out of the buffer.
unfoldable pub receive : ℕ → Hub → Hub
receive c h = record h {
  heap = set c (record (h.heap c) { queue = rest_of (h.heap c).queue }) h.heap;
}
