-- ===== src/Ws/Hub/Lifecycle.antt =====
-- The hub over the life of its connections.
use tentserv_chat_server.Prelude.{
  ℕ, ◌≡◌, ◌≤◌, refl, Bool, true, false, Option, none, some, List, [], ◌∷◌, ◌++◌, ◌==◌, arith,
  if◌then◌else◌, length, length-append, Bool-cases, inl, inr, sym, ◌∙◌, ap,
}
use tentserv_chat_server.Ws.Hub.{
  Client, Hub, elem, set, offered, send, with_heap, broadcast, register, unregister, receive,
  joined, fresh_client, buffer_size, rest_of,
}
use tentserv_chat_server.Ws.Hub.Delivery.{Distinct, ==_refl}
use tentserv_chat_server.Ws.Hub.Lists.{elem-append, append-Distinct}

-- A client in good order: its channel is open, and its buffer within the capacity.
pub record IsLive (c : Client) : Type 0 where
  pub still_open : c.is_closed ≡ false
  pub bounded : length c.queue ≤ buffer_size

-- Each connection of the hub is live and stands once in the list of its user; no other stands in one.
pub record IsSound (h : Hub) : Type 0 where
  pub distinct : Distinct h.clients
  pub live : (c : ℕ) → elem c h.clients ≡ true → IsLive (h.heap c)
  pub distinct_of : (u : ℕ) → Distinct (h.user_clients u)
  pub known :
      (u c : ℕ)
      → elem c (h.user_clients u) ≡ true
      → (elem c h.clients ≡ true) × ((h.heap c).user_id ≡ some u)
  pub complete :
      (u c : ℕ)
      → elem c h.clients ≡ true
      → (h.heap c).user_id ≡ some u
      → elem c (h.user_clients u) ≡ true

-- What the hub's goroutine, the callers of SendToUser and the write pumps do. `offer` is one send of a
-- SendToUser: such a call sends after it has released the lock, so that its sends come between all else,
-- and go to whichever clients its copy of the list has by then.
pub data Event : Type 0 where
  connect : ℕ → Option ℕ → Event
  disconnect : ℕ → Event
  offer : ℕ → List ℕ → Event
  announce : List ℕ → Event
  write : ℕ → Event

unfoldable pub handle : Event → Hub → Option Hub
unfolding register unregister send broadcast receive
handle (connect c u) h = some (register c u h)
handle (disconnect c) h = unregister c h
handle (offer c m) h = with_heap h (send c m h.heap)
handle (announce m) h = broadcast m h
handle (write c) h = some (receive c h)

-- NewClient gives an address that no connection of the hub has.
abbrev pub IsFresh : Event → Hub → Type 0
IsFresh (connect c u) h = elem c h.clients ≡ false
IsFresh _ h = Unit

offered-IsLive : (m : List ℕ) (c : Client) → IsLive c → IsLive (offered m c)
offered-IsLive m c h = record {
  still_open = h.still_open;
  bounded = ground (arith, h.bounded, length-append c.queue (m ∷ []));
}

-- The lists stay, and each client keeps its user and its good order.
same_lists-IsSound :
    (h h' : Hub)
    → IsSound h
    → h'.clients ≡ h.clients
    → h'.user_clients ≡ h.user_clients
    → ((c : ℕ) → IsLive (h.heap c) → IsLive (h'.heap c))
    → ((c : ℕ) → (h'.heap c).user_id ≡ (h.heap c).user_id)
    → IsSound h'
same_lists-IsSound h h' s e₁ e₂ live same = record {
  distinct = rw e₁ s.distinct;
  live = λ c e. live c (s.live c (rw (sym e₁) e));
  distinct_of = λ u. rw e₂ (s.distinct_of u);
  known = λ u c e. let k = s.known u c (rw (sym e₂) e) in (rw e₁ k.0, same c ∙ k.1);
  complete = λ u c e own. rw e₂ (s.complete u c (rw (sym e₁) e) (sym (same c) ∙ own));
}

module _ (m : List ℕ) (k k' : Client) where
  same_user : (b : Bool) → k' ≡ (if b then offered m k else k) → k'.user_id ≡ k.user_id
  same_user true e = rw e refl
  same_user false e = rw e refl

  IsLive-after : (b : Bool) → k' ≡ (if b then offered m k else k) → IsLive k → IsLive k'
  IsLive-after true e l = rw e (offered-IsLive m k l)
  IsLive-after false e l = rw e l

pub offer_open :
    (c : ℕ) (m : List ℕ) (h : Hub)
    → (h.heap c).is_closed ≡ false
    → handle (offer c m) h ≡ some (record h { heap = set c (offered m (h.heap c)) h.heap })
unfolding handle send
offer_open c m h is_open = rw is_open refl

pub offer_closed :
    (c : ℕ) (m : List ℕ) (h : Hub) → (h.heap c).is_closed ≡ true → handle (offer c m) h ≡ none
unfolding handle send
offer_closed c m h is_shut = rw is_shut refl

pub offer_at :
    (c : ℕ) (m : List ℕ) (h : Hub) (x : ℕ)
    → set c (offered m (h.heap c)) h.heap x
      ≡ (if elem x (c ∷ []) then offered m (h.heap x) else h.heap x)
offer_at c m h x = elim (Bool-cases (x == c)) [
  | inl hit ↦
      let same : x ≡ c = ground (arith, hit) in
      let back : (c == x) ≡ true = ground (arith, hit) in rw (hit, back) (rw same refl)
  | inr other ↦ let back : (c == x) ≡ false = ground (arith, other) in rw (other, back) refl
]

pub offered-IsSound :
    (h h' : Hub) (m cs : List ℕ)
    → IsSound h
    → h'.clients ≡ h.clients
    → h'.user_clients ≡ h.user_clients
    → ((c : ℕ) → h'.heap c ≡ (if elem c cs then offered m (h.heap c) else h.heap c))
    → IsSound h'
offered-IsSound h h' m cs s e₁ e₂ at =
    same_lists-IsSound h h' s e₁ e₂
      (λ c l. IsLive-after m (h.heap c) (h'.heap c) (elem c cs) (at c) l)
      (λ c. same_user m (h.heap c) (h'.heap c) (elem c cs) (at c))

pub set_cases :
    {A : Type 0} (P : A → Type 0) (c x : ℕ) (v : A) (f : ℕ → A)
    → ((x == c) ≡ true → P v)
    → ((x == c) ≡ false → P (f x))
    → P (set c v f x)
set_cases P c x v f hit miss = elim (Bool-cases (x == c)) [
  | inl e ↦ rw e (hit e)
  | inr e ↦ rw e (miss e)
]

rest_shorter : (ms : List (List ℕ)) → length (rest_of ms) ≤ length ms
rest_shorter [] = omega arith
rest_shorter (m ∷ ms) = omega arith

pub some_injective : (u v : ℕ) → some u ≡ some v → u ≡ v
some_injective u v e = cc

module _ (h : Hub) (s : IsSound h) (c₀ : ℕ) where
  pub receive-IsSound : IsSound (receive c₀ h)
  unfolding receive
  receive-IsSound =
      same_lists-IsSound h (receive c₀ h) s refl refl
        (λ c l.
          set_cases IsLive c₀ c _ h.heap
            (λ e.
              let same : c ≡ c₀ = ground (arith, e) in
              let here : IsLive (h.heap c₀) = rw (sym same) l in
              record {
                still_open = here.still_open;
                bounded = omega (arith, rest_shorter (h.heap c₀).queue, here.bounded);
              })
            (λ _. l))
        (λ c.
          set_cases (λ x. x.user_id ≡ (h.heap c).user_id) c₀ c _ h.heap
            (λ e. let same : c ≡ c₀ = ground (arith, e) in rw same refl) (λ _. refl))

  module _ (fresh : elem c₀ h.clients ≡ false) where
    unlisted : (u : ℕ) → elem c₀ (h.user_clients u) ≡ false
    unlisted u = elim (Bool-cases (elem c₀ (h.user_clients u))) [
      | inl e ↦ cc ((s.known u c₀ e).0, fresh)
      | inr e ↦ e
    ]

    module _ (user : Option ℕ) where
      IsLive-with_new :
          (c : ℕ) → elem c (c₀ ∷ h.clients) ≡ true → IsLive (set c₀ (fresh_client user) h.heap c)
      IsLive-with_new c e =
          set_cases IsLive c₀ c (fresh_client user) h.heap
            (λ _. record { still_open = refl; bounded = omega arith })
            (λ other. s.live c (ground (arith, other, e)))

      known_before :
          (u c : ℕ)
          → elem c (h.user_clients u) ≡ true
          → (elem c (c₀ ∷ h.clients) ≡ true)
            × ((set c₀ (fresh_client user) h.heap c).user_id ≡ some u)
      known_before u c e = (
        ground (arith, (s.known u c e).0),
        set_cases (λ x. x.user_id ≡ some u) c₀ c (fresh_client user) h.heap
            (λ hit.
              let same : c ≡ c₀ = ground (arith, hit) in
              let there : elem c₀ (h.user_clients u) ≡ true = rw (sym same) e in
              cc (there, unlisted u))
            (λ _. (s.known u c e).1),
      )

      complete_before :
          (u c : ℕ)
          → (c == c₀) ≡ false
          → elem c (c₀ ∷ h.clients) ≡ true
          → (set c₀ (fresh_client user) h.heap c).user_id ≡ some u
          → elem c (h.user_clients u) ≡ true
      complete_before u c other e own = s.complete u c (ground (arith, other, e)) (rw other at own)

    pub register_unnamed : IsSound (register c₀ none h)
    unfolding register
    register_unnamed = rw fresh (record {
      distinct = (fresh, s.distinct);
      live = IsLive-with_new none;
      distinct_of = s.distinct_of;
      known = known_before none;
      complete = λ u c e own. elim (Bool-cases (c == c₀)) [
        | inl hit ↦ cc (rw hit at own)
        | inr other ↦ complete_before none u c other e own
      ];
    })

    module _ (v : ℕ) where
      known_named :
          (u c : ℕ)
          → elem c (joined (some v) c₀ h.user_clients u) ≡ true
          → (elem c (c₀ ∷ h.clients) ≡ true)
            × ((set c₀ (fresh_client (some v)) h.heap c).user_id ≡ some u)
      known_named u c e = elim (Bool-cases (u == v)) [
        | inl hit ↦
            let same : u ≡ v = ground (arith, hit) in
            elim (Bool-cases (c == c₀)) [
              | inl new ↦ (ground (arith, new), rw (new, same) refl)
              | inr old ↦ known_before (some v) u c (
                  ground (
                    arith,
                    old,
                    (rw hit at e),
                    elem-append c c₀ (h.user_clients v),
                    ap h.user_clients same,
                  ))
            ]
        | inr other ↦ known_before (some v) u c (rw other at e)
      ]

      complete_named :
          (u c : ℕ)
          → elem c (c₀ ∷ h.clients) ≡ true
          → (set c₀ (fresh_client (some v)) h.heap c).user_id ≡ some u
          → elem c (joined (some v) c₀ h.user_clients u) ≡ true
      complete_named u c e own = elim (Bool-cases (c == c₀)) [
        | inl new ↦
            let same : v ≡ u = some_injective v u (rw new at own) in
            let back : c ≡ c₀ = ground (arith, new) in
            rw
              (
                back,
                sym same,
                ==_refl v,
                elem-append c₀ c₀ (h.user_clients v),
                unlisted v,
                ==_refl c₀,
              )
              refl
        | inr old ↦
            let there = complete_before (some v) u c old e own in
            set_cases (λ cs. elem c cs ≡ true) v u (h.user_clients v ++ c₀ ∷ []) h.user_clients
              (λ hit.
                let same : u ≡ v = ground (arith, hit) in
                rw (elem-append c c₀ (h.user_clients v), sym same, there) refl)
              (λ _. there)
      ]

      pub register_named : IsSound (register c₀ (some v) h)
      unfolding register
      register_named = rw fresh (record {
        distinct = (fresh, s.distinct);
        live = IsLive-with_new (some v);
        distinct_of = λ u.
            set_cases Distinct v u (h.user_clients v ++ c₀ ∷ []) h.user_clients
              (λ _. append-Distinct c₀ (h.user_clients v) (unlisted v) (s.distinct_of v))
              (λ _. s.distinct_of u);
        known = known_named;
        complete = complete_named;
      })
