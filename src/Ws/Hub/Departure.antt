-- ===== src/Ws/Hub/Departure.antt =====
-- A connection leaves the hub (Unregister of internal/interface/ws/hub.go).
use tentserv_chat_server.Prelude.{
  ℕ, ◌≡◌, refl, sym, true, false, Option, none, some, List, ◌==◌, arith, Bool-cases, inl, inr, ◌∙◌,
}
use tentserv_chat_server.Ws.Hub.{Hub, elem, set, unregister, left, without, closed}
use tentserv_chat_server.Ws.Hub.Delivery.{Distinct}
use tentserv_chat_server.Ws.Hub.Lists.{
  elem-without_self, elem-without_ne, elem-without_le, without-Distinct,
}
use tentserv_chat_server.Ws.Hub.Lifecycle.{IsLive, IsSound, set_cases, some_injective}

-- the hub without the connection
abbrev pub departed : ℕ → Option ℕ → Hub → Hub
departed c user h = record {
  clients = without c h.clients;
  user_clients = left user c h.user_clients;
  heap = set c (closed (h.heap c)) h.heap;
}

elem_at : (x c : ℕ) (cs : List ℕ) → x ≡ c → elem x cs ≡ true → elem c cs ≡ true
elem_at x c cs same e = rw (sym same) e

module _ (h : Hub) (s : IsSound h) (c : ℕ) where
  still_listed : (x : ℕ) → elem x (without c h.clients) ≡ true → (x == c) ≡ false
  still_listed x e = elim (Bool-cases (x == c)) [
    | inl hit ↦
        let same : x ≡ c = ground (arith, hit) in
        let there : elem c (without c h.clients) ≡ true =
          elem_at x c (without c h.clients) same e in
        cc (there, elem-without_self c h.clients s.distinct)
    | inr other ↦ other
  ]

  IsLive-without :
      (x : ℕ) → elem x (without c h.clients) ≡ true → IsLive (set c (closed (h.heap c)) h.heap x)
  IsLive-without x e = rw (still_listed x e) (s.live x (elem-without_le x c h.clients e))

  user_kept :
      (u x : ℕ)
      → (x == c) ≡ false
      → elem x (h.user_clients u) ≡ true
      → (elem x (without c h.clients) ≡ true)
        × ((set c (closed (h.heap c)) h.heap x).user_id ≡ some u)
  user_kept u x other e =
      (rw (elem-without_ne x c h.clients other) (s.known u x e).0, rw other (s.known u x e).1)

  was_complete :
      (u x : ℕ)
      → elem x (without c h.clients) ≡ true
      → (set c (closed (h.heap c)) h.heap x).user_id ≡ some u
      → elem x (h.user_clients u) ≡ true
  was_complete u x e own =
      s.complete u x (elem-without_le x c h.clients e) (rw (still_listed x e) at own)

  unnamed-IsSound : (h.heap c).user_id ≡ none → IsSound (departed c none h)
  unnamed-IsSound nobody = record {
    distinct = without-Distinct c h.clients s.distinct;
    live = IsLive-without;
    distinct_of = s.distinct_of;
    known = λ u x e. user_kept u x (not_me u x e) e;
    complete = was_complete;
  }
    where
      not_me : (u x : ℕ) → elem x (h.user_clients u) ≡ true → (x == c) ≡ false
      not_me u x e = elim (Bool-cases (x == c)) [
        | inl hit ↦
            let same : x ≡ c = ground (arith, hit) in
            let own : (h.heap c).user_id ≡ some u = rw (sym same) (s.known u x e).1 in
            cc (own, nobody)
        | inr other ↦ other
      ]

  module _ (v : ℕ) (mine : (h.heap c).user_id ≡ some v) where
    remaining :
        (u x : ℕ)
        → elem x (set v (without c (h.user_clients v)) h.user_clients u) ≡ true
        → ((x == c) ≡ false) × (elem x (h.user_clients u) ≡ true)
    remaining u x e = elim (Bool-cases (u == v)) [
      | inl hit ↦
          let same : u ≡ v = ground (arith, hit) in
          let there : elem x (without c (h.user_clients v)) ≡ true = rw hit at e in
          (
            elim (Bool-cases (x == c)) [
              | inl me ↦
                  let back : x ≡ c = ground (arith, me) in
                  let gone : elem c (without c (h.user_clients v)) ≡ true =
                    elem_at x c (without c (h.user_clients v)) back there in
                  cc (gone, elem-without_self c (h.user_clients v) (s.distinct_of v))
              | inr other ↦ other
            ],
            rw same (elem-without_le x c (h.user_clients v) there),
          )
      | inr away ↦
          let there : elem x (h.user_clients u) ≡ true = rw away at e in
          (
            elim (Bool-cases (x == c)) [
              | inl me ↦
                  let back : x ≡ c = ground (arith, me) in
                  let own : (h.heap c).user_id ≡ some u = rw (sym back) (s.known u x there).1 in
                  let same : u ≡ v = some_injective u v (sym own ∙ mine) in
                  ground (arith, same, away)
              | inr other ↦ other
            ],
            there,
          )
    ]

    named-IsSound : IsSound (departed c (some v) h)
    named-IsSound = record {
      distinct = without-Distinct c h.clients s.distinct;
      live = IsLive-without;
      distinct_of = λ u.
          set_cases Distinct v u (without c (h.user_clients v)) h.user_clients
            (λ _. without-Distinct c (h.user_clients v) (s.distinct_of v)) (λ _. s.distinct_of u);
      known = λ u x e. let r = remaining u x e in user_kept u x r.0 r.1;
      complete = λ u x e own.
          let there = was_complete u x e own in
          set_cases (λ cs. elem x cs ≡ true) v u (without c (h.user_clients v)) h.user_clients
            (λ hit.
              let same : u ≡ v = ground (arith, hit) in
              rw (elem-without_ne x c (h.user_clients v) (still_listed x e), sym same) there)
            (λ _. there);
    }

  departed-IsSound : (user : Option ℕ) → (h.heap c).user_id ≡ user → IsSound (departed c user h)
  departed-IsSound none e = unnamed-IsSound e
  departed-IsSound (some v) e = named-IsSound v e

  pub unregister_lem :
      elem c h.clients ≡ true → unregister c h ≡ some (departed c (h.heap c).user_id h)
  unfolding unregister
  unregister_lem listed = rw (listed, (s.live c listed).still_open) refl

  pub unregister_unlisted : elem c h.clients ≡ false → unregister c h ≡ some h
  unfolding unregister
  unregister_unlisted e = rw e refl

  pub unregister-IsSound :
      (h' : Hub) × (unregister c h ≡ some h') × IsSound h' × (elem c h'.clients ≡ false)
  unregister-IsSound = elim (Bool-cases (elem c h.clients)) [
    | inl listed ↦ (
      departed c (h.heap c).user_id h,
      unregister_lem listed,
      departed-IsSound _ refl,
      elem-without_self c h.clients s.distinct,
    )
    | inr other ↦ (h, unregister_unlisted other, s, other)
  ]
