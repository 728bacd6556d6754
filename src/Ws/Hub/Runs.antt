-- ===== src/Ws/Hub/Runs.antt =====
-- The hub's event loop, run from NewHub (internal/interface/ws/hub.go).
use tentserv_chat_server.Prelude.{
  ℕ, ◌≡◌, refl, true, false, none, some, List, [], ◌∷◌, Bool-cases, inl, inr,
}
use tentserv_chat_server.Ws.Hub.{Client, Hub, elem, set, offered, unregister}
use tentserv_chat_server.Ws.Hub.Delivery.{broadcast_lem}
use tentserv_chat_server.Ws.Hub.Lists.{All-elem}
use tentserv_chat_server.Ws.Hub.Lifecycle.{
  IsSound, Event, connect, disconnect, offer, announce, write, handle, IsFresh, offered-IsSound,
  offer_open, offer_closed, offer_at, receive-IsSound, register_unnamed, register_named,
}
use tentserv_chat_server.Ws.Hub.Departure.{unregister-IsSound}

-- NewHub, over whatever lies on the heap
abbrev pub new_hub : (ℕ → Client) → Hub
new_hub heap = record { clients = []; user_clients = λ u. []; heap = heap }

-- The hubs that events lead to.
pub data Runs (heap : ℕ → Client) : Hub → Type 0 where
  start : Runs heap (new_hub heap)
  next :
      {h : Hub}
      → Runs heap h
      → (e : Event) (h' : Hub) → IsFresh e h
      → handle e h ≡ some h'
      → Runs heap h'

new_hub-IsSound : (heap : ℕ → Client) → IsSound (new_hub heap)
new_hub-IsSound heap = record {
  distinct = tt;
  live = λ c e. cc;
  distinct_of = λ u. tt;
  known = λ u c e. cc;
  complete = λ u c e own. cc;
}

-- No send of an older SendToUser to a connection that has left the hub.
abbrev pub IsSafe : Event → Hub → Type 0
IsSafe (offer c m) h = elem c h.clients ≡ true
IsSafe e h = IsFresh e h

handle-IsSound :
    (e : Event) (h : Hub)
    → IsSound h
    → IsSafe e h
    → (h' : Hub) × (handle e h ≡ some h') × IsSound h'
unfolding handle
handle-IsSound (connect c none) h s fresh = (_, refl, register_unnamed h s c fresh)
handle-IsSound (connect c (some v)) h s fresh = (_, refl, register_named h s c fresh v)
handle-IsSound (disconnect c) h s fresh =
    let (h', run, sound, _) = unregister-IsSound h s c in (h', run, sound)
handle-IsSound (offer c m) h s listed =
    let h' : Hub = record h { heap = set c (offered m (h.heap c)) h.heap } in
    (
      h',
      offer_open c m h (s.live c listed).still_open,
      offered-IsSound h h' m (c ∷ []) s refl refl (offer_at c m h),
    )
handle-IsSound (announce m) h s fresh =
    let (h', run, e₁, e₂, at) =
      broadcast_lem m h s.distinct (All-elem h.clients (λ c e. (s.live c e).still_open)) in
    (h', run, offered-IsSound h h' m h.clients s e₁ e₂ at)
handle-IsSound (write c) h s fresh = (_, refl, receive-IsSound h s c)

reached : (e : Event) (h h' : Hub) → IsSound h → IsSafe e h → handle e h ≡ some h' → IsSound h'
reached e h h' s safe run =
    let after = handle-IsSound e h s safe in
    let same : h' ≡ after.0 = cc (run, after.1) in rw same after.2

-- a send that returned went to an open channel
offered_on :
    (c : ℕ) (m : List ℕ) (h h' : Hub) → IsSound h → handle (offer c m) h ≡ some h' → IsSound h'
offered_on c m h h' s run = elim (Bool-cases (h.heap c).is_closed) [
  | inl is_shut ↦ cc (run, offer_closed c m h is_shut)
  | inr is_open ↦
      let next_hub : Hub = record h { heap = set c (offered m (h.heap c)) h.heap } in
      let same : h' ≡ next_hub = cc (run, offer_open c m h is_open) in
      rw same (offered-IsSound h next_hub m (c ∷ []) s refl refl (offer_at c m h))
]

step-IsSound :
    (e : Event) (h h' : Hub) → IsSound h → IsFresh e h → handle e h ≡ some h' → IsSound h'
step-IsSound (connect c u) h h' s fresh run = reached (connect c u) h h' s fresh run
step-IsSound (disconnect c) h h' s fresh run = reached (disconnect c) h h' s fresh run
step-IsSound (offer c m) h h' s fresh run = offered_on c m h h' s run
step-IsSound (announce m) h h' s fresh run = reached (announce m) h h' s fresh run
step-IsSound (write c) h h' s fresh run = reached (write c) h h' s fresh run

-- Whatever connections come and go, and whatever messages are sent and written, the hub stays in order:
-- its connections are distinct and open, their buffers hold 256 messages at most, and those of a user
-- are exactly the ones in the user's list, each once.
pub Runs-IsSound : (heap : ℕ → Client) (h : Hub) → Runs heap h → IsSound h
Runs-IsSound heap _ start = new_hub-IsSound heap
Runs-IsSound heap _ (next {h} r e h' fresh run) =
    step-IsSound e h h' (Runs-IsSound heap h r) fresh run

-- From NewHub on, with a fresh address for each new connection, and with the sends of any SendToUser
-- calls between all other events: no handler of Run panics, so that no Broadcast meets a closed channel
-- and no channel is closed twice; nor does a send of SendToUser to a connection that is in the hub.
pub handle_returns :
    (heap : ℕ → Client) (h : Hub) (e : Event)
    → Runs heap h
    → IsSafe e h
    → (h' : Hub) × (handle e h ≡ some h')
handle_returns heap h e r safe =
    let after = handle-IsSound e h (Runs-IsSound heap h r) safe in (after.0, after.1)

-- After Unregister, which never panics, the connection is in no list of the hub.
pub unregister_removes :
    (heap : ℕ → Client) (h : Hub) (c : ℕ)
    → Runs heap h
    → (h' : Hub) × (unregister c h ≡ some h')
      × (elem c h'.clients ≡ false)
      × ((u : ℕ) → elem c (h'.user_clients u) ≡ false)
unregister_removes heap h c r =
    let s = Runs-IsSound heap h r in
    let (h', run, s', gone) = unregister-IsSound h s c in
    (
      h',
      run,
      gone,
      λ u. elim (Bool-cases (elem c (h'.user_clients u))) [
        | inl e ↦ cc ((s'.known u c e).0, gone)
        | inr e ↦ e
      ],
    )
