-- ===== src/Push/Acked.antt =====
-- Nothing is marked delivered without an acknowledgement, and nothing leaves the queue.
use tentserv_chat_server.Prelude.{
  ℕ, zero, suc, ◌+◌, ◌≡◌, sym, ◌<◌, Bool, true, false, Option, none, some, List, [], ◌∷◌, arith,
  if◌then◌else◌, map, Bool-cases, Option-cases, inl, inr, ◌⊎◌, All, All-append, All-weaken, update,
  ◌==◌,
}
use tentserv_chat_server.Ws.Hub.{Hub, set}
use tentserv_chat_server.Push.Queue.{
  Delivery, delivered, enqueue, mark_delivered, find_pending_older_than, marked, has_id, new_item,
}
use tentserv_chat_server.Push.Attempts.{
  Attempt, waiting, returned, Server, at, put, spawned, dispatch, retry, sent, push, resolve_ack,
  finish, pushed_server, receive_ack, time_out, Step, Steps, stay, dispatches, retries, pushes,
  resolves, receives, times_out, elapses, connections, further, new_server, with_hub,
}

-- A row is marked only after its id was acknowledged.
abbrev pub RowAcked : (ℕ → Bool) → Delivery → Type 0
RowAcked answered d = d.status ≡ delivered → answered d.id ≡ true

-- An attempt waits on a channel made before, which the map names under no other id, and which is full
-- only after its id was acknowledged.
pub record Waits (acks : ℕ → Option ℕ) (full : ℕ → Bool) (next : ℕ) (answered : ℕ → Bool)
    (a : Attempt) : Type 0 where
  pub made : (c : ℕ) → a.phase ≡ waiting c → c < next
  pub own : (c i : ℕ) → a.phase ≡ waiting c → acks i ≡ some c → a.item.id ≡ i
  pub acked : (c : ℕ) → a.phase ≡ waiting c → full c ≡ true → answered a.item.id ≡ true

pub record IsSound (s : Server) : Type 0 where
  pub rows : All (RowAcked s.answered) s.queue.rows
  pub attempts : All (Waits s.acks s.full s.next_channel s.answered) s.attempts
  pub channels : (i c : ℕ) → s.acks i ≡ some c → c < s.next_channel

All-put :
    {A : Type 0} (P : A → Type 0) (k : ℕ) (a : A) (xs : List A)
    → P a
    → All P xs
    → All P (put k a xs)
All-put P k a [] ha h = tt
All-put P zero a (x ∷ xs) ha h = (ha, h.1)
All-put P (suc k) a (x ∷ xs) ha h = (h.0, All-put P k a xs ha h.1)

All-at :
    {A : Type 0} (P : A → Type 0) (k : ℕ) (a : A) (xs : List A) → at k xs ≡ some a → All P xs → P a
All-at P k a [] e h = cc
All-at P zero a (x ∷ xs) e h = let same : x ≡ a = cc in rw (sym same) h.0
All-at P (suc k) a (x ∷ xs) e h = All-at P k a xs e h.1

module _ (acks : ℕ → Option ℕ) (full : ℕ → Bool) (next : ℕ) (answered : ℕ → Bool) where
  spawned-Waits : (ds : List Delivery) → All (Waits acks full next answered) (map spawned ds)
  spawned-Waits [] = tt
  spawned-Waits (d ∷ ds) = (
    record {
      made = λ c e. absurd (cc);
      own = λ c i e _. absurd (cc);
      acked = λ c e _. absurd (cc);
    },
    spawned-Waits ds,
  )

  Waits-push :
      (i : ℕ) (a : Attempt)
      → Waits acks full next answered a
      → Waits (set i (some next) acks) (set next false full) (next + 1) answered a
  Waits-push i a w = record {
    made = λ c e. omega (arith, w.made c e);
    own = λ c j e m. ground (arith, w.made c e, w.own c j e, m);
    acked = λ c e m. ground (arith, w.made c e, w.acked c e, m);
  }

  pushed-Waits :
      (a : Attempt)
      → ((j c : ℕ) → acks j ≡ some c → c < next)
      → Waits
          (set a.item.id (some next) acks)
          (set next false full)
          (next + 1)
          answered
          (record a { phase = waiting next })
  pushed-Waits a below = record {
    made = λ c e. let same : next ≡ c = cc in omega (arith, same);
    own = λ c j e m. let same : next ≡ c = cc in ground (arith, below j c, same, m);
    acked = λ c e m. let same : next ≡ c = cc in ground (arith, same, m);
  }

  Waits-resolve :
      (i c₀ : ℕ) (a : Attempt)
      → acks i ≡ some c₀
      → Waits acks full next answered a
      → Waits acks (set c₀ true full) next (set i true answered) a
  Waits-resolve i c₀ a named w = record {
    made = w.made;
    own = w.own;
    acked = λ c e m. elim (Bool-cases (c == c₀)) [
      | inl hit ↦
          let same : c ≡ c₀ = ground (arith, hit) in ground (arith, w.own c i e (rw same named))
      | inr miss ↦ ground (arith, w.acked c e, miss, m)
    ];
  }

  Waits-answered :
      (i : ℕ) (a : Attempt)
      → Waits acks full next answered a
      → Waits acks full next (set i true answered) a
  Waits-answered i a w = record {
    made = w.made;
    own = w.own;
    acked = λ c e m. ground (arith, w.acked c e m);
  }

  Waits-finish :
      (i : ℕ) (a : Attempt)
      → Waits acks full next answered a
      → Waits (set i none acks) full next answered a
  Waits-finish i a w = record {
    made = w.made;
    own = λ c j e m. ground (arith, w.own c j e, m);
    acked = w.acked;
  }

  returned-Waits : (a : Attempt) → Waits acks full next answered (record a { phase = returned })
  returned-Waits a = record {
    made = λ c e. absurd (cc);
    own = λ c i e _. absurd (cc);
    acked = λ c e _. absurd (cc);
  }

RowAcked-answered :
    (answered : ℕ → Bool) (i : ℕ) (d : Delivery)
    → RowAcked answered d
    → RowAcked (set i true answered) d
RowAcked-answered answered i d h e = ground (arith, h e)

marked-RowAcked :
    (answered : ℕ → Bool) (i now : ℕ) (ds : List Delivery)
    → answered i ≡ true
    → All (RowAcked answered) ds
    → All (RowAcked answered) (update (has_id i) (marked now) ds)
marked-RowAcked answered i now [] known h = tt
marked-RowAcked answered i now (d ∷ ds) known h =
    (one (Bool-cases (d.id == i)), marked-RowAcked answered i now ds known h.1)
  where
    one :
        ((d.id == i) ≡ true) ⊎ ((d.id == i) ≡ false)
        → RowAcked answered (if d.id == i then marked now d else d)
    one (inl hit) = rw hit (λ _. let same : d.id ≡ i = ground (arith, hit) in rw same known)
    one (inr miss) = rw miss h.0

module _ (s : Server) (v : IsSound s) where
  dispatch-IsSound :
      (up : Bool) (user : ℕ) (type payload : List ℕ) → IsSound (dispatch up user type payload s)
  unfolding dispatch enqueue
  dispatch-IsSound false user type payload = v
  dispatch-IsSound true user type payload = record {
    rows = All-append (RowAcked s.answered) s.queue.rows _ v.rows ((λ e. absurd (cc)), tt);
    attempts = All-append _ s.attempts _ v.attempts (
        spawned-Waits s.acks s.full s.next_channel s.answered
          (new_item user type payload s.queue ∷ []));
    channels = v.channels;
  }

  retry-IsSound : (up : Bool) → IsSound (retry up s)
  unfolding retry find_pending_older_than
  retry-IsSound false = v
  retry-IsSound true = record {
    rows = v.rows;
    attempts =
        All-append _ s.attempts _ v.attempts
          (spawned-Waits s.acks s.full s.next_channel s.answered _);
    channels = v.channels;
  }

  pushed-IsSound :
      (k : ℕ) (a : Attempt) (h : Hub) → IsSound (record (pushed_server k a s) { hub = h })
  pushed-IsSound k a h = record {
    rows = v.rows;
    attempts =
        All-put _ k _ s.attempts (pushed-Waits s.acks s.full s.next_channel s.answered a v.channels)
          (All-weaken (λ b w. Waits-push s.acks s.full s.next_channel s.answered a.item.id b w)
            s.attempts v.attempts);
    channels = λ j c e. ground (arith, v.channels j c, e);
  }

  with_hub-IsSound :
      (k : ℕ) (a : Attempt) (o : Option Hub) (t : Server)
      → with_hub (pushed_server k a s) o ≡ some t
      → IsSound t
  with_hub-IsSound k a none t e = absurd (cc)
  with_hub-IsSound k a (some h) t e =
      let same : record (pushed_server k a s) { hub = h } ≡ t = cc in
      rw (sym same) (pushed-IsSound k a h)

  resolve_ack-IsSound : (i : ℕ) → IsSound (resolve_ack i s)
  unfolding resolve_ack
  resolve_ack-IsSound i = elim (Option-cases (s.acks i)) [
    | inl e ↦ rw e (record {
      rows = All-weaken (λ d h. RowAcked-answered s.answered i d h) s.queue.rows v.rows;
      attempts =
          All-weaken (λ a w. Waits-answered s.acks s.full s.next_channel s.answered i a w)
            s.attempts v.attempts;
      channels = v.channels;
    })
    | inr (c, e) ↦ rw e (record {
      rows = All-weaken (λ d h. RowAcked-answered s.answered i d h) s.queue.rows v.rows;
      attempts =
          All-weaken (λ a w. Waits-resolve s.acks s.full s.next_channel s.answered i c a e w)
            s.attempts v.attempts;
      channels = v.channels;
    })
  ]

  finish-IsSound : (k : ℕ) (a : Attempt) → IsSound (finish k a s)
  finish-IsSound k a = record {
    rows = v.rows;
    attempts = All-put _ k _ s.attempts (returned-Waits _ _ _ _ a) (
        All-weaken (λ b w. Waits-finish s.acks s.full s.next_channel s.answered a.item.id b w)
          s.attempts v.attempts);
    channels = λ j c e. ground (arith, v.channels j c, e);
  }

  receive_ack-IsSound :
      (up : Bool) (k c : ℕ) (a : Attempt)
      → at k s.attempts ≡ some a
      → a.phase ≡ waiting c
      → s.full c ≡ true
      → IsSound (receive_ack up k a s)
  unfolding receive_ack mark_delivered
  receive_ack-IsSound false k c a here waits full = finish-IsSound k a
  receive_ack-IsSound true k c a here waits full =
      let t = finish-IsSound k a in
      record {
        rows =
            marked-RowAcked s.answered a.item.id s.queue.now s.queue.rows
              ((All-at _ k a s.attempts here v.attempts).acked c waits full) v.rows;
        attempts = t.attempts;
        channels = t.channels;
      }

new_server-IsSound : (h : Hub) → IsSound (new_server h)
new_server-IsSound h = record { rows = tt; attempts = tt; channels = λ i c e. absurd (cc) }

module _ (marshal : Delivery → Option (List ℕ)) where
  Step-IsSound : (s : Server) {t : Server} → Step marshal s t → IsSound s → IsSound t
  unfolding push time_out
  Step-IsSound s (dispatches up user type payload) v = dispatch-IsSound s v up user type payload
  Step-IsSound s (retries up) v = retry-IsSound s v up
  Step-IsSound s (pushes k a t here fresh e) v =
      with_hub-IsSound s v k a (sent (marshal a.item) a.item.user_id s.hub) t e
  Step-IsSound s (resolves i c here) v = resolve_ack-IsSound s v i
  Step-IsSound s (receives up k c a here waits full) v =
      receive_ack-IsSound s v up k c a here waits full
  Step-IsSound s (times_out k c a here waits) v = finish-IsSound s v k a
  Step-IsSound s (elapses t) v = record {
    rows = v.rows;
    attempts = v.attempts;
    channels = v.channels;
  }
  Step-IsSound s (connections e h fresh run) v = record {
    rows = v.rows;
    attempts = v.attempts;
    channels = v.channels;
  }

  pub Steps-IsSound : {s t : Server} → Steps marshal s t → IsSound s → IsSound t
  Steps-IsSound stay v = v
  Steps-IsSound (further {t} r e) v = Step-IsSound t e (Steps-IsSound r v)

  -- In every server that steps lead to from one that starts, a row is marked delivered only if a client
  -- called ResolveAck with its id, whatever is sent, retried, timed out or refused on the way.
  pub delivered_only_if_acked :
      (h : Hub) (s : Server)
      → Steps marshal (new_server h) s
      → All (RowAcked s.answered) s.queue.rows
  delivered_only_if_acked h s r = (Steps-IsSound r (new_server-IsSound h)).rows
