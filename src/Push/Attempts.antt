-- ===== src/Push/Attempts.antt =====
-- internal/infrastructure/push/db_dispatcher.go and scheduler.go, and PushAndWaitAck and ResolveAck of
-- internal/interface/ws/hub.go. Each goroutine of `pushAndTrack` is an attempt; its steps and those of
-- the others come in any order. Times are seconds.
use tentserv_chat_server.Prelude.{
  ℕ, zero, suc, ◌+◌, ◌≡◌, Bool, true, false, Option, none, some, List, [], ◌∷◌, ◌++◌, map,
}
use tentserv_chat_server.Db.{Result, ok, err}
use tentserv_chat_server.Ws.Hub.{Hub, set, elem, send_to_user}
use tentserv_chat_server.Ws.Hub.Lifecycle.{Event, IsFresh, handle}
use tentserv_chat_server.Push.Queue.{
  Delivery, Queue, QueueError, enqueue, mark_delivered, find_pending_older_than,
}

-- Where a goroutine of `pushAndTrack` stands: not begun, in the select on its channel, or returned.
pub data Phase : Type 0 where
  begun returned : Phase
  waiting : ℕ → Phase

pub record Attempt : Type 0 where
  pub item : Delivery
  pub phase : Phase

-- `acks` is pendingAcks; `full` says whether the buffer of a channel, of one place, is taken.
-- `answered` is no state of the program: the ids for which a client has called ResolveAck.
pub record Server : Type 0 where
  pub queue : Queue
  pub hub : Hub
  pub acks : ℕ → Option ℕ
  pub full : ℕ → Bool
  pub next_channel : ℕ
  pub attempts : List Attempt
  pub answered : ℕ → Bool

abbrev pub at : {A : Type 0} → ℕ → List A → Option A
at k [] = none
at zero (x ∷ xs) = some x
at (suc k) (x ∷ xs) = at k xs

abbrev pub put : {A : Type 0} → ℕ → A → List A → List A
put k a [] = []
put zero a (x ∷ xs) = a ∷ xs
put (suc k) a (x ∷ xs) = x ∷ put k a xs

abbrev pub spawned : Delivery → Attempt
spawned d = record { item = d; phase = begun }

abbrev pub pending_age : ℕ
pending_age = 30

-- DBDispatcher.Dispatch
abbrev pub dispatched : Result QueueError Delivery × Queue → Server → Server
dispatched (err e, q) s = record s { queue = q }
dispatched (ok item, q) s = record s { queue = q; attempts = s.attempts ++ spawned item ∷ [] }

unfoldable pub dispatch : Bool → ℕ → List ℕ → List ℕ → Server → Server
unfolding enqueue
dispatch up user type payload s = dispatched (enqueue up user type payload s.queue) s

-- RetryScheduler.retry
abbrev pub respawned : Result QueueError (List Delivery) → Server → Server
respawned (err e) s = s
respawned (ok items) s = record s { attempts = s.attempts ++ map spawned items }

unfoldable pub retry : Bool → Server → Server
unfolding find_pending_older_than
retry up s = respawned (find_pending_older_than up pending_age s.queue) s

-- `none` is the panic of a send on a closed channel
abbrev pub sent : Option (List ℕ) → ℕ → Hub → Option Hub
sent none user h = some h
sent (some m) user h = send_to_user user m h

abbrev pub with_hub : Server → Option Hub → Option Server
with_hub s none = none
with_hub s (some h) = some (record s { hub = h })

-- the entry in pendingAcks, with a new channel
abbrev pub pushed_server : ℕ → Attempt → Server → Server
pushed_server k a s = record s {
  acks = set a.item.id (some s.next_channel) s.acks;
  full = set s.next_channel false s.full;
  next_channel = s.next_channel + 1;
  attempts = put k (record a { phase = waiting s.next_channel }) s.attempts;
}

-- PushAndWaitAck up to the select; json.Marshal of the message, or its error, is the parameter `marshal`.
unfoldable pub push : (Delivery → Option (List ℕ)) → ℕ → Attempt → Server → Option Server
unfolding send_to_user
push marshal k a s = with_hub (pushed_server k a s) (sent (marshal a.item) a.item.user_id s.hub)

-- ResolveAck
abbrev pub resolved : Option ℕ → Server → Server
resolved none s = s
resolved (some c) s = record s { full = set c true s.full }

unfoldable pub resolve_ack : ℕ → Server → Server
resolve_ack i s = resolved (s.acks i) (record s { answered = set i true s.answered })

-- the two cases of the select, and what pushAndTrack does with the result
abbrev pub finish : ℕ → Attempt → Server → Server
finish k a s = record s {
  acks = set a.item.id none s.acks;
  attempts = put k (record a { phase = returned }) s.attempts;
}

unfoldable pub receive_ack : Bool → ℕ → Attempt → Server → Server
unfolding mark_delivered
receive_ack up k a s =
    let t = finish k a s in record t { queue = (mark_delivered up a.item.id t.queue).1 }

unfoldable pub time_out : ℕ → Attempt → Server → Server
time_out k a s = finish k a s

-- What the goroutines, the scheduler, the clients and the hub's loop do next, in any order. ResolveAck is
-- called for a message of a connected client (handler/system/ack_handler.go), whichever it is. The sends
-- of one push come with nothing between them.
pub data Step (marshal : Delivery → Option (List ℕ)) (s : Server) : Server → Type 0 where
  dispatches :
      (up : Bool) (user : ℕ) (type payload : List ℕ)
      → Step marshal s (dispatch up user type payload s)
  retries : (up : Bool) → Step marshal s (retry up s)
  pushes :
      (k : ℕ) (a : Attempt) (t : Server)
      → at k s.attempts ≡ some a
      → a.phase ≡ begun
      → push marshal k a s ≡ some t
      → Step marshal s t
  resolves : (i c : ℕ) → elem c s.hub.clients ≡ true → Step marshal s (resolve_ack i s)
  receives :
      (up : Bool) (k c : ℕ) (a : Attempt)
      → at k s.attempts ≡ some a
      → a.phase ≡ waiting c
      → s.full c ≡ true
      → Step marshal s (receive_ack up k a s)
  times_out :
      (k c : ℕ) (a : Attempt)
      → at k s.attempts ≡ some a
      → a.phase ≡ waiting c
      → Step marshal s (time_out k a s)
  elapses : (t : ℕ) → Step marshal s (record s { queue = record s.queue { now = s.queue.now + t } })
  connections :
      (e : Event) (h : Hub)
      → IsFresh e s.hub
      → handle e s.hub ≡ some h
      → Step marshal s (record s { hub = h })

abbrev pub new_server : Hub → Server
new_server h = record {
  queue = record { rows = []; next_id = 1; now = 0 };
  hub = h;
  acks = λ i. none;
  full = λ c. false;
  next_channel = 0;
  attempts = [];
  answered = λ i. false;
}

-- Any number of steps.
pub data Steps (marshal : Delivery → Option (List ℕ)) (s : Server) : Server → Type 0 where
  stay : Steps marshal s s
  further : {t u : Server} → Steps marshal s t → Step marshal t u → Steps marshal s u
