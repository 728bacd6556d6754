-- ===== src/Ws/Hub/Senders.antt =====
-- A call of SendToUser (internal/interface/ws/hub.go) amid everything else.
use tentserv_chat_server.Prelude.{
  ℕ, ◌≡◌, refl, ◌∙◌, true, none, some, List, ◌∷◌, ◌==◌, arith, Bool-cases, inl, inr, All,
  All-weaken,
}
use tentserv_chat_server.Ws.Hub.{Client, Hub, elem, set, offered}
use tentserv_chat_server.Ws.Hub.Lists.{All-elem}
use tentserv_chat_server.Ws.Hub.Lifecycle.{
  Event, connect, disconnect, offer, announce, write, handle, IsFresh, offer_open,
}
use tentserv_chat_server.Ws.Hub.Runs.{Runs, next, Runs-IsSound}
use tentserv_chat_server.Ws.Hub.Presence.{presence, after, presence-handle}

-- A connection of the user, in the hub.
abbrev pub Online : ℕ → Hub → ℕ → Type 0
Online u h c = presence h c ≡ some (some u)

-- No connection of the user leaves the hub.
abbrev pub IsStaying : ℕ → Event → Hub → Type 0
IsStaying u (disconnect c) h = ¬ (Online u h c)
IsStaying u e h = Unit

-- Where a call of SendToUser stands: the clients that it has still to send to, and the hub. Other events
-- but departures of the user come between the copy of the list and its sends.
pub data Sending (heap : ℕ → Client) (u : ℕ) (m : List ℕ) : List ℕ → Hub → Type 0 where
  copies : (h : Hub) → Runs heap h → Sending heap u m (h.user_clients u) h
  sends :
      (c : ℕ) (cs : List ℕ) (h h' : Hub)
      → Sending heap u m (c ∷ cs) h
      → handle (offer c m) h ≡ some h'
      → Sending heap u m cs h'
  meanwhile :
      (cs : List ℕ) (e : Event) (h h' : Hub)
      → Sending heap u m cs h
      → IsStaying u e h
      → IsFresh e h
      → handle e h ≡ some h'
      → Sending heap u m cs h'

Sending-Runs :
    {heap : ℕ → Client} {u : ℕ} {m cs : List ℕ} {h : Hub} → Sending heap u m cs h → Runs heap h
Sending-Runs (copies h r) = r
Sending-Runs (sends c cs h h' s run) = next (Sending-Runs s) (offer c _) h' tt run
Sending-Runs (meanwhile cs e h h' s stays fresh run) = next (Sending-Runs s) e h' fresh run

Online-listed : (u c : ℕ) (h : Hub) → Online u h c → elem c h.clients ≡ true
Online-listed u c h on = elim (Bool-cases (elem c h.clients)) [
  | inl e ↦ e
  | inr e ↦ let away : presence h c ≡ none = rw e refl in cc (on, away)
]

Online-after :
    (e : Event) (u c : ℕ) (h : Hub)
    → IsStaying u e h
    → IsFresh e h
    → Online u h c
    → after e (presence h) c ≡ some (some u)
Online-after (connect c₀ user) u c h stays fresh on = elim (Bool-cases (c == c₀)) [
  | inl hit ↦
      let same : c ≡ c₀ = ground (arith, hit) in
      let listed : elem c₀ h.clients ≡ true = rw same at (Online-listed u c h on) in
      cc (listed, fresh)
  | inr other ↦ rw other on
]
Online-after (disconnect c₀) u c h stays fresh on = elim (Bool-cases (c == c₀)) [
  | inl hit ↦
      let same : c ≡ c₀ = ground (arith, hit) in
      let gone : Online u h c₀ = rw same at on in absurd (stays gone)
  | inr other ↦ rw other on
]
Online-after (offer c₀ m) u c h stays fresh on = on
Online-after (announce m) u c h stays fresh on = on
Online-after (write c₀) u c h stays fresh on = on

Sending-Online :
    {heap : ℕ → Client} {u : ℕ} {m cs : List ℕ} {h : Hub}
    → Sending heap u m cs h
    → All (Online u h) cs
Sending-Online {heap = heap} {u = u} (copies h r) =
    let s = Runs-IsSound heap h r in
    All-elem (h.user_clients u) (λ c e. rw ((s.known u c e).0, (s.known u c e).1) refl)
Sending-Online {heap = heap} {u = u} {m = m} (sends c cs h h' s run) =
    All-weaken
      (λ x on.
        presence-handle h (offer c m) h' (Runs-IsSound heap h (Sending-Runs s)) tt run x ∙ on)
      cs (Sending-Online s).1
Sending-Online {heap = heap} {u = u} (meanwhile cs e h h' s stays fresh run) =
    All-weaken
      (λ x on.
        presence-handle h e h' (Runs-IsSound heap h (Sending-Runs s)) fresh run x
        ∙ Online-after e u x h stays fresh on)
      cs (Sending-Online s)

-- A call of SendToUser for a user has copied the list of the user's connections, and since then any
-- connections have come, messages been sent and written, also by other such calls, and connections of
-- others left, but none of that user: then its next send does not panic, is to a connection of the user
-- in the hub, and offers it the message.
pub send_returns :
    (heap : ℕ → Client) (u : ℕ) (m : List ℕ) (c : ℕ) (cs : List ℕ) (h : Hub)
    → Sending heap u m (c ∷ cs) h
    → (h' : Hub) × (handle (offer c m) h ≡ some h')
      × (elem c h.clients ≡ true)
      × (presence h c ≡ some (some u))
      × (h'.heap c ≡ offered m (h.heap c))
send_returns heap u m c cs h s =
    let sound = Runs-IsSound heap h (Sending-Runs s) in
    let on = (Sending-Online s).0 in
    let listed = Online-listed u c h on in
    (
      record h { heap = set c (offered m (h.heap c)) h.heap },
      offer_open c m h (sound.live c listed).still_open,
      listed,
      on,
      ground arith,
    )
