-- ===== src/Ws/Hub/Delivery.antt =====
-- Which connections a message reaches (SendToUser and Broadcast of internal/interface/ws/hub.go).
use tentserv_chat_server.Prelude.{
  ℕ, ◌≡◌, refl, true, false, some, List, [], ◌∷◌, ◌==◌, arith, if◌then◌else◌, All, All-weaken, ◌∙◌,
  Bool-cases, inl, inr,
}
use tentserv_chat_server.Ws.Hub.{
  Client, Hub, elem, set, offered, send, send_all, with_heap, send_to_user, broadcast,
}

abbrev pub Distinct : List ℕ → Type 0
Distinct [] = Unit
Distinct (x ∷ xs) = (elem x xs ≡ false) × Distinct xs

still_open :
    (x c : ℕ) (m : List ℕ) (heap : ℕ → Client)
    → (heap x).is_closed ≡ false
    → (heap c).is_closed ≡ false
    → (set x (offered m (heap x)) heap c).is_closed ≡ false
still_open x c m heap hx hc = ground arith

send_open :
    (x : ℕ) (m : List ℕ) (heap : ℕ → Client)
    → (heap x).is_closed ≡ false
    → send x m heap ≡ some (set x (offered m (heap x)) heap)
unfolding send
send_open x m heap h = rw h refl

pub ==_refl : (x : ℕ) → (x == x) ≡ true
==_refl x = ground arith

==_flip : (c x : ℕ) → (c == x) ≡ false → (x == c) ≡ false
==_flip c x h = ground arith

offered_later :
    (x c : ℕ) (m cs : List ℕ) (heap : ℕ → Client)
    → elem x cs ≡ false
    → (if elem c cs
        then offered m (set x (offered m (heap x)) heap c)
        else set x (offered m (heap x)) heap c)
      ≡ (if elem c (x ∷ cs) then offered m (heap c) else heap c)
offered_later x c m cs heap new = elim (Bool-cases (c == x)) [
  | inl same ↦ let e : c ≡ x = ground (arith, same) in rw (e, new, ==_refl x) refl
  | inr other ↦ rw (other, ==_flip c x other) refl
]

pub send_all_lem :
    (cs m : List ℕ) (heap : ℕ → Client)
    → Distinct cs
    → All (λ c. (heap c).is_closed ≡ false) cs
    → (heap' : ℕ → Client) × (send_all cs m heap ≡ some heap')
      × ((c : ℕ) → heap' c ≡ (if elem c cs then offered m (heap c) else heap c))
unfolding send_all
send_all_lem [] m heap d o = (heap, refl, λ c. refl)
send_all_lem (x ∷ cs) m heap d o =
    let heap1 : ℕ → Client = set x (offered m (heap x)) heap in
    let (heap', run, at) =
      send_all_lem cs m heap1 d.1 (All-weaken (λ c e. still_open x c m heap o.0 e) cs o.1) in
    (heap', rw (send_open x m heap o.0) run, λ c. at c ∙ offered_later x c m cs heap d.0)

-- Every client on the list is open.
abbrev pub AllOpen : List ℕ → (ℕ → Client) → Type 0
AllOpen cs heap = All (λ c. (heap c).is_closed ≡ false) cs

run_from :
    (cs m : List ℕ) (h : Hub)
    → Distinct cs
    → AllOpen cs h.heap
    → (h' : Hub) × (with_heap h (send_all cs m h.heap) ≡ some h')
      × (h'.clients ≡ h.clients)
      × (h'.user_clients ≡ h.user_clients)
      × ((c : ℕ) → h'.heap c ≡ (if elem c cs then offered m (h.heap c) else h.heap c))
run_from cs m h d o =
    let (heap', run, at) = send_all_lem cs m h.heap d o in
    (record h { heap = heap' }, rw run refl, refl, refl, at)

-- SendToUser puts the message into the buffer of each of the user's connections, unless that buffer is
-- full, and touches no other connection: it does not panic, if the user's connections are distinct and
-- open.
pub send_to_user_lem :
    (u : ℕ) (m : List ℕ) (h : Hub)
    → Distinct (h.user_clients u)
    → AllOpen (h.user_clients u) h.heap
    → (h' : Hub) × (send_to_user u m h ≡ some h')
      × (h'.clients ≡ h.clients)
      × (h'.user_clients ≡ h.user_clients)
      × ((c : ℕ)
          → h'.heap c ≡ (if elem c (h.user_clients u) then offered m (h.heap c) else h.heap c))
unfolding send_to_user
send_to_user_lem u m h d o = run_from (h.user_clients u) m h d o

-- Broadcast does the same for every connection of the hub.
pub broadcast_lem :
    (m : List ℕ) (h : Hub)
    → Distinct h.clients
    → AllOpen h.clients h.heap
    → (h' : Hub) × (broadcast m h ≡ some h')
      × (h'.clients ≡ h.clients)
      × (h'.user_clients ≡ h.user_clients)
      × ((c : ℕ) → h'.heap c ≡ (if elem c h.clients then offered m (h.heap c) else h.heap c))
unfolding broadcast
broadcast_lem m h d o = run_from h.clients m h d o
