-- ===== src/Ws/Hub/Presence.antt =====
-- What the hub of internal/interface/ws/hub.go promises: it knows who is connected.
use tentserv_chat_server.Prelude.{
  ℕ, ◌≡◌, refl, ◌∙◌, Bool, true, false, Option, none, some, List, [], ◌∷◌, ◌==◌, arith, ==_iff,
  if◌then◌else◌, Bool-cases, inl, inr,
}
use tentserv_chat_server.Ws.Hub.{Client, Hub, elem, set, without, offered, register, receive}
use tentserv_chat_server.Ws.Hub.Delivery.{broadcast_lem}
use tentserv_chat_server.Ws.Hub.Lists.{All-elem, elem-without_self, elem-without_ne}
use tentserv_chat_server.Ws.Hub.Lifecycle.{
  IsSound, Event, connect, disconnect, offer, announce, write, handle, IsFresh, offer_open,
  offer_closed, offer_at,
}
use tentserv_chat_server.Ws.Hub.Departure.{departed, unregister_lem, unregister_unlisted}
use tentserv_chat_server.Ws.Hub.Runs.{Runs, start, next, Runs-IsSound}

-- The connections and, for each, its user, where it has one.
abbrev pub Presence : Type 0
Presence = ℕ → Option (Option ℕ)

abbrev pub presence : Hub → Presence
presence h c = if elem c h.clients then some (h.heap c).user_id else none

-- What an event means for it: messages mean nothing.
abbrev pub after : Event → Presence → Presence
after (connect c user) p = set c (some user) p
after (disconnect c) p = set c none p
after (offer c m) p = p
after (announce m) p = p
after (write c) p = p

abbrev pub replay : {heap : ℕ → Client} {h : Hub} → Runs heap h → Presence
replay start c = none
replay (next r e h' fresh run) c = after e (replay r) c

module _ (h : Hub) where
  presence-register :
      (c : ℕ) (user : Option ℕ)
      → elem c h.clients ≡ false
      → (x : ℕ) → presence (register c user h) x ≡ set c (some user) (presence h) x
  unfolding register
  presence-register c user new x = elim (Bool-cases (x == c)) [
    | inl hit ↦ let back : (c == x) ≡ true = ground (arith, hit) in rw (new, hit, back) refl
    | inr other ↦ let back : (c == x) ≡ false = ground (arith, other) in rw (new, other, back) refl
  ]

  presence-departed :
      (c : ℕ)
      → elem c (without c h.clients) ≡ false
      → (x : ℕ) → presence (departed c (h.heap c).user_id h) x ≡ set c none (presence h) x
  presence-departed c gone x = elim (Bool-cases (x == c)) [
    | inl hit ↦
        let same : x ≡ c = ground (arith, hit) in
        let away : elem x (without c h.clients) ≡ false = rw same gone in rw (away, hit) refl
    | inr other ↦ rw (other, elem-without_ne x c h.clients other) refl
  ]

  presence_absent :
      (c : ℕ) → elem c h.clients ≡ false → (x : ℕ) → presence h x ≡ set c none (presence h) x
  presence_absent c new x = elim (Bool-cases (x == c)) [
    | inl hit ↦
        let same : x ≡ c = ground (arith, hit) in
        let away : elem x h.clients ≡ false = rw same new in rw (away, hit) refl
    | inr other ↦ rw other refl
  ]

  presence-offered :
      (h' : Hub) (m : List ℕ) (cs : List ℕ)
      → h'.clients ≡ h.clients
      → ((c : ℕ) → h'.heap c ≡ (if elem c cs then offered m (h.heap c) else h.heap c))
      → (x : ℕ) → presence h' x ≡ presence h x
  presence-offered h' m cs e at x = elim (Bool-cases (elem x cs)) [
    | inl there ↦ rw (e, at x, there) refl
    | inr away ↦ rw (e, at x, away) refl
  ]

  presence-receive : (c x : ℕ) → presence (receive c h) x ≡ presence h x
  unfolding receive
  presence-receive c x = elim (Bool-cases (x == c)) [
    | inl hit ↦ let same : x ≡ c = ground (arith, hit) in rw (hit, same) refl
    | inr other ↦ rw other refl
  ]

  pub presence-handle :
      (e : Event) (h' : Hub)
      → IsSound h
      → IsFresh e h
      → handle e h ≡ some h'
      → (x : ℕ) → presence h' x ≡ after e (presence h) x
  unfolding handle
  presence-handle (connect c user) h' s fresh run x =
      let same : h' ≡ register c user h = cc run in rw same (presence-register c user fresh x)
  presence-handle (disconnect c) h' s fresh run x = elim (Bool-cases (elem c h.clients)) [
    | inl listed ↦
        let same : h' ≡ departed c (h.heap c).user_id h = cc (run, unregister_lem h s c listed) in
        rw same (presence-departed c (elem-without_self c h.clients s.distinct) x)
    | inr new ↦
        let same : h' ≡ h = cc (run, unregister_unlisted h s c new) in
        rw same (presence_absent c new x)
  ]
  presence-handle (offer c m) h' s fresh run x = elim (Bool-cases (h.heap c).is_closed) [
    | inl is_shut ↦ cc (run, offer_closed c m h is_shut)
    | inr is_open ↦
        let t : Hub = record h { heap = set c (offered m (h.heap c)) h.heap } in
        let same : h' ≡ t = cc (run, offer_open c m h is_open) in
        rw same (presence-offered t m (c ∷ []) refl (offer_at c m h) x)
  ]
  presence-handle (announce m) h' s fresh run x =
      let (t, sent, e₁, e₂, at) =
        broadcast_lem m h s.distinct (All-elem h.clients (λ c e. (s.live c e).still_open)) in
      let same : h' ≡ t = cc (run, sent) in rw same (presence-offered t m h.clients e₁ at x)
  presence-handle (write c) h' s fresh run x =
      let same : h' ≡ receive c h = cc run in rw same (presence-receive c x)

after_cong :
    (e : Event) (p q : Presence) → ((x : ℕ) → p x ≡ q x) → (x : ℕ) → after e p x ≡ after e q x
after_cong (connect c user) p q h x = rw (h x) refl
after_cong (disconnect c) p q h x = rw (h x) refl
after_cong (offer c m) p q h x = h x
after_cong (announce m) p q h x = h x
after_cong (write c) p q h x = h x

replayed : {heap : ℕ → Client} {h : Hub} (r : Runs heap h) (x : ℕ) → presence h x ≡ replay r x
replayed start x = refl
replayed {heap = heap} (next {h} r e h' fresh run) x =
    presence-handle h e h' (Runs-IsSound heap h r) fresh run x
    ∙ after_cong e (presence h) (replay r) (replayed r) x

-- a connection of the user
abbrev pub is_of : ℕ → Option (Option ℕ) → Bool
is_of u none = false
is_of u (some none) = false
is_of u (some (some v)) = v == u

is_of_iff : (u : ℕ) (o : Option ℕ) → is_of u (some o) ≡ true → o ≡ some u
is_of_iff u none e = cc e
is_of_iff u (some v) e = let same : v ≡ u = (==_iff v u).0 e in rw same refl

presence_listed :
    (h : Hub) → IsSound h → (u c : ℕ) → elem c (h.user_clients u) ≡ is_of u (presence h c)
presence_listed h s u c = elim (Bool-cases (elem c (h.user_clients u))) [
  | inl e ↦ rw (e, (s.known u c e).0, (s.known u c e).1) (ground arith)
  | inr e ↦ elim (Bool-cases (elem c h.clients)) [
    | inl listed ↦ elim (Bool-cases (is_of u (some (h.heap c).user_id))) [
      | inl mine ↦ cc (e, s.complete u c listed (is_of_iff u (h.heap c).user_id mine))
      | inr other ↦ rw (e, listed, other) refl
    ]
    | inr away ↦ rw (e, away) refl
  ]
]

-- The hub keeps what a table of connections with their users would: after every run, the connections
-- in it, with their users, are those that the run's connects and disconnects leave in such a table, and
-- the list that SendToUser reads for a user holds exactly the connections of that user in the table.
pub Runs-presence :
    (heap : ℕ → Client) (h : Hub) (r : Runs heap h) (c : ℕ)
    → (presence h c ≡ replay r c) × ((u : ℕ) → elem c (h.user_clients u) ≡ is_of u (replay r c))
Runs-presence heap h r c =
    (replayed r c, λ u. presence_listed h (Runs-IsSound heap h r) u c ∙ rw (replayed r c) refl)
