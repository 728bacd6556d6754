-- ===== src/Push/Retried.antt =====
-- What waits in the queue is pushed again until it is acknowledged, and stays there.
use tentserv_chat_server.Prelude.{
  ℕ, zero, suc, ◌≡◌, sym, ◌∙◌, refl, Bool, true, false, Option, none, some, List, [], ◌∷◌, ◌++◌,
  arith, if◌then◌else◌, map, Bool-cases, Option-cases, inl, inr, All, Row, update, select, ◌==◌,
  ltb, length,
}
use tentserv_chat_server.Ws.Hub.{Client, Hub, set, elem, buffer_size}
use tentserv_chat_server.Ws.Hub.Delivery.{send_to_user_lem}
use tentserv_chat_server.Ws.Hub.Lists.{All-elem}
use tentserv_chat_server.Ws.Hub.Runs.{Runs, Runs-IsSound}
use tentserv_chat_server.Push.Queue.{
  Delivery, delivered, enqueue, mark_delivered, find_pending_older_than, marked, has_id, is_overdue,
}
use tentserv_chat_server.Push.Attempts.{
  waiting, Server, at, put, spawned, dispatch, retry, sent, push, resolve_ack, pushed_server,
  receive_ack, time_out, Step, Steps, stay, further, dispatches, retries, pushes, resolves,
  receives, times_out, elapses, connections, with_hub, pending_age,
}

module _ {A : Type 0} where
  at-put : (k : ℕ) (a b : A) (xs : List A) → at k xs ≡ some b → at k (put k a xs) ≡ some a
  at-put k a b [] e = cc
  at-put zero a b (x ∷ xs) e = refl
  at-put (suc k) a b (x ∷ xs) e = at-put k a b xs e

  -- A row that passes the test stands somewhere in what is selected, behind anything.
  at-append :
      {B : Type 0} (f : B → A) (test : B → Bool) (b : B) (xs : List A) (ys : List B)
      → Row b ys
      → test b ≡ true
      → (k : ℕ) × (at k (xs ++ map f (select test ys)) ≡ some (f b))
  at-append f test b (x ∷ xs) ys here hit =
      let (k, e) = at-append f test b xs ys here hit in (suc k, e)
  at-append f test b [] [] here hit = elim here [ ]
  at-append f test b [] (y ∷ ys) (inl same) hit =
      let passes : test y ≡ true = rw same hit in (zero, rw passes (rw same refl))
  at-append f test b [] (y ∷ ys) (inr here) hit =
      let (k, e) = at-append f test b [] ys here hit in
      elim (Bool-cases (test y)) [ inl passes ↦ (suc k, rw passes e) | inr fails ↦ (k, rw fails e) ]

set_hit : {A : Type 0} (k : ℕ) (v : A) (f : ℕ → A) → set k v f k ≡ v
set_hit k v f = ground arith

marked-All :
    (i now : ℕ) (ds : List Delivery)
    → All (λ d. d.id ≡ i → d.status ≡ delivered) (update (has_id i) (marked now) ds)
marked-All i now [] = tt
marked-All i now (d ∷ ds) = (ground arith, marked-All i now ds)

module _ (marshal : Delivery → Option (List ℕ)) (heap : ℕ → Client) where
  -- what SendToUser does with a message, for one connection of the user
  sent_reaches :
      (m : List ℕ) (u c : ℕ) (h : Hub)
      → Runs heap h
      → elem c h.clients ≡ true
      → (h.heap c).user_id ≡ some u
      → ltb (length (h.heap c).queue) buffer_size ≡ true
      → (h' : Hub) × (sent (some m) u h ≡ some h')
        × (elem c h'.clients ≡ true)
        × ((h'.heap c).queue ≡ (h.heap c).queue ++ m ∷ [])
  sent_reaches m u c h r here own space =
      let s = Runs-IsSound heap h r in
      let (h', run, e₁, e₂, at) =
        send_to_user_lem u m h (s.distinct_of u)
          (All-elem (h.user_clients u) (λ c e. (s.live c (s.known u c e).0).still_open)) in
      (h', run, rw e₁ here, rw (at c) (rw (s.complete u c here own) (rw space refl)))

  -- From every server whose hub came about by its events, for a pending row created more than 30 seconds
  -- ago, whose message can be written, and a connection of its user with space in its buffer: with the
  -- service answering, a run of the scheduler and one push put the message at the end of the connection's
  -- buffer, and after that connection's acknowledgement the attempt marks every row of that id delivered.
  pub retry_delivers :
      (s : Server) (d : Delivery) (m : List ℕ) (c : ℕ)
      → Runs heap s.hub
      → Row d s.queue.rows
      → is_overdue s.queue.now pending_age d ≡ true
      → marshal d ≡ some m
      → elem c s.hub.clients ≡ true
      → (s.hub.heap c).user_id ≡ some d.user_id
      → ltb (length (s.hub.heap c).queue) buffer_size ≡ true
      → (u t : Server) × Steps marshal s u
        × (elem c u.hub.clients ≡ true)
        × ((u.hub.heap c).queue ≡ (s.hub.heap c).queue ++ m ∷ [])
        × Steps marshal (resolve_ack d.id u) t
        × All (λ r. r.id ≡ d.id → r.status ≡ delivered) t.queue.rows
  unfolding retry find_pending_older_than push resolve_ack receive_ack mark_delivered
  retry_delivers s d m c r here late written connected own space =
      let (k, found) =
        at-append spawned (is_overdue s.queue.now pending_age) d s.attempts s.queue.rows here
          late in
      let (h, e, still, queued) = sent_reaches m d.user_id c s.hub r connected own space in
      let s₁ = retry true s in
      let s₂ = record (pushed_server k (spawned d) s₁) { hub = h } in
      let a = record (spawned d) { phase = waiting s.next_channel } in
      let s₃ = record s₂ {
        full = set s.next_channel true s₂.full;
        answered = set d.id true s.answered;
      } in
      let same : resolve_ack d.id s₂ ≡ s₃ = rw (set_hit d.id (some s.next_channel) s.acks) refl in
      (
        s₂,
        receive_ack true k a s₃,
        further (further stay (retries true))
            (pushes k (spawned d) s₂ found refl (rw (written, e) refl)),
        still,
        queued,
        rw same (
            further stay (
              receives true k s.next_channel a (at-put k a (spawned d) s₁.attempts found) refl
                (set_hit s.next_channel true s₂.full))),
        marked-All d.id s.queue.now s.queue.rows,
      )

-- The row as it was, save that it may have been marked.
pub record Kept (d d' : Delivery) : Type 0 where
  pub same_id : d'.id ≡ d.id
  pub same_user : d'.user_id ≡ d.user_id
  pub same_type : d'.payload_type ≡ d.payload_type
  pub same_payload : d'.payload ≡ d.payload
  pub same_creation : d'.created_at ≡ d.created_at
  pub still_delivered : d.status ≡ delivered → d'.status ≡ delivered

-- Each row of the first table is kept, in its place, in the second.
abbrev pub Extends : List Delivery → List Delivery → Type 0
Extends [] es = Unit
Extends (d ∷ ds) [] = ⊥
Extends (d ∷ ds) (e ∷ es) = Kept d e × Extends ds es

Kept-refl : (d : Delivery) → Kept d d
Kept-refl d = record {
  same_id = refl;
  same_user = refl;
  same_type = refl;
  same_payload = refl;
  same_creation = refl;
  still_delivered = λ e. e;
}

Kept-trans : (d e f : Delivery) → Kept d e → Kept e f → Kept d f
Kept-trans d e f k l = record {
  same_id = l.same_id ∙ k.same_id;
  same_user = l.same_user ∙ k.same_user;
  same_type = l.same_type ∙ k.same_type;
  same_payload = l.same_payload ∙ k.same_payload;
  same_creation = l.same_creation ∙ k.same_creation;
  still_delivered = λ h. l.still_delivered (k.still_delivered h);
}

Extends-append : (ds es : List Delivery) → Extends ds (ds ++ es)
Extends-append [] es = tt
Extends-append (d ∷ ds) es = (Kept-refl d, Extends-append ds es)

Extends-refl : (ds : List Delivery) → Extends ds ds
Extends-refl [] = tt
Extends-refl (d ∷ ds) = (Kept-refl d, Extends-refl ds)

Extends-trans : (ds es fs : List Delivery) → Extends ds es → Extends es fs → Extends ds fs
Extends-trans [] es fs h k = tt
Extends-trans (d ∷ ds) [] fs h k = elim h [ ]
Extends-trans (d ∷ ds) (e ∷ es) [] h k = elim k [ ]
Extends-trans (d ∷ ds) (e ∷ es) (f ∷ fs) h k =
    (Kept-trans d e f h.0 k.0, Extends-trans ds es fs h.1 k.1)

Kept-marked : (now : ℕ) (b : Bool) (d : Delivery) → Kept d (if b then marked now d else d)
Kept-marked now true d = record {
  same_id = refl;
  same_user = refl;
  same_type = refl;
  same_payload = refl;
  same_creation = refl;
  still_delivered = λ e. refl;
}
Kept-marked now false d = Kept-refl d

Extends-marked : (i now : ℕ) (ds : List Delivery) → Extends ds (update (has_id i) (marked now) ds)
Extends-marked i now [] = tt
Extends-marked i now (d ∷ ds) = (Kept-marked now (d.id == i) d, Extends-marked i now ds)

with_hub-rows :
    (o : Option Hub) (s t : Server) → with_hub s o ≡ some t → t.queue.rows ≡ s.queue.rows
with_hub-rows none s t e = absurd (cc)
with_hub-rows (some h) s t e = let same : record s { hub = h } ≡ t = cc in rw (sym same) refl

resolve_ack-rows : (i : ℕ) (s : Server) → (resolve_ack i s).queue.rows ≡ s.queue.rows
unfolding resolve_ack
resolve_ack-rows i s = elim (Option-cases (s.acks i)) [ inl e ↦ rw e refl | inr (c, e) ↦ rw e refl ]

module _ (marshal : Delivery → Option (List ℕ)) where
  Step-Extends : (s : Server) {t : Server} → Step marshal s t → Extends s.queue.rows t.queue.rows
  unfolding dispatch enqueue retry find_pending_older_than push receive_ack mark_delivered time_out
  Step-Extends s (dispatches false user type payload) = Extends-refl s.queue.rows
  Step-Extends s (dispatches true user type payload) = Extends-append s.queue.rows _
  Step-Extends s (retries false) = Extends-refl s.queue.rows
  Step-Extends s (retries true) = Extends-refl s.queue.rows
  Step-Extends s (pushes k a t here fresh e) =
      rw (with_hub-rows (sent (marshal a.item) a.item.user_id s.hub) (pushed_server k a s) t e)
        (Extends-refl s.queue.rows)
  Step-Extends s (resolves i c here) = rw (resolve_ack-rows i s) (Extends-refl s.queue.rows)
  Step-Extends s (receives false k c a here waits full) = Extends-refl s.queue.rows
  Step-Extends s (receives true k c a here waits full) =
      Extends-marked a.item.id s.queue.now s.queue.rows
  Step-Extends s (times_out k c a here waits) = Extends-refl s.queue.rows
  Step-Extends s (elapses t) = Extends-refl s.queue.rows
  Step-Extends s (connections e h fresh run) = Extends-refl s.queue.rows

  -- No step, in any order, loses a row of the queue, changes its id, user, payload, payload type or
  -- creation, or makes a delivered row pending again.
  pub queue_keeps : (s t : Server) → Steps marshal s t → Extends s.queue.rows t.queue.rows
  queue_keeps s _ stay = Extends-refl s.queue.rows
  queue_keeps s _ (further {t} {u} r e) =
      Extends-trans s.queue.rows t.queue.rows u.queue.rows (queue_keeps s t r) (Step-Extends t e)
