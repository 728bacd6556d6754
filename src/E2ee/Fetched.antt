-- ===== src/E2ee/Fetched.antt =====
-- The sender keys that a member fetches, and the key requests.
use tentserv_chat_server.Prelude.{
  ℕ, ◌≡◌, refl, sym, Bool-cases, inl, inr, true, not, List, [], ◌∷◌, map, ◌==◌, any, select, Row,
}
use tentserv_chat_server.Rows.{Participant, ChatMember, SenderKey, Distribution}
use tentserv_chat_server.Db.{
  Tables, State, DbError, failed, pure, ◌>>=◌, require, attempt, scan_all,
}
use tentserv_chat_server.Db.Rules.{
  Ends, Ends-pure, Ends-bind, Ends-call, Ends-guard, Ends-statement, Ends-scan_all, Ends-weaken,
  Ends-attempt, Answered-if,
}
use tentserv_chat_server.Repo.Members
use tentserv_chat_server.Repo.GroupKeys
use tentserv_chat_server.Repo.Found.{IsUser}
use tentserv_chat_server.E2ee.{Crypto}
use tentserv_chat_server.E2ee.SenderKeys.{
  SenderKeyItem, item_of, distributions_to, caller_member, get_sender_keys,
}
use tentserv_chat_server.E2ee.Rekey.{Ends-caller_member}

-- A state that differs in the distributions, and in their ids, at most.
pub record SameKeys (s t : State) : Type 0 where
  pub participants : t.tables.participants ≡ s.tables.participants
  pub members : t.tables.members ≡ s.tables.members
  pub sender_keys : t.tables.sender_keys ≡ s.tables.sender_keys
  pub key_requests : t.tables.key_requests ≡ s.tables.key_requests

SameKeys-refl : (s : State) → SameKeys s s
SameKeys-refl s = record {
  participants = refl;
  members = refl;
  sender_keys = refl;
  key_requests = refl;
}

distributed-SameKeys :
    (d : Distribution) (s t : State) → SameKeys s t → SameKeys s (GroupKeys.distributed d t)
distributed-SameKeys d s t h =
    elim (Bool-cases
      (any (GroupKeys.is_between d.sender_member_id d.receiver_member_id) t.tables.distributions)) [
        | inl e ↦ rw e (record {
          participants = h.participants;
          members = h.members;
          sender_keys = h.sender_keys;
          key_requests = h.key_requests;
        })
        | inr e ↦ rw e (record {
          participants = h.participants;
          members = h.members;
          sender_keys = h.sender_keys;
          key_requests = h.key_requests;
        })
      ]

distributed_all-SameKeys :
    (ds : List Distribution) (s t : State)
    → SameKeys s t
    → SameKeys s (GroupKeys.distributed_all ds t)
distributed_all-SameKeys [] s t h = h
distributed_all-SameKeys (d ∷ ds) s t h =
    distributed_all-SameKeys ds s (GroupKeys.distributed d t) (distributed-SameKeys d s t h)

by_none : (ks : List SenderKey) → select (GroupKeys.is_by_one_of []) ks ≡ []
by_none [] = refl
by_none (k ∷ ks) = by_none ks

module _ {Q : List SenderKey → State → Type 0} {R : DbError → State → Type 0} where
  Ends-find_all_by_members :
      (ms : List ℕ) (s : State)
      → Q (select (GroupKeys.is_by_one_of ms) s.tables.sender_keys) s
      → ((e : DbError) → R e s)
      → Ends Q R (GroupKeys.find_all_by_members ms) s
  unfolding GroupKeys.find_all_by_members
  Ends-find_all_by_members [] s h broken =
      Ends-pure [] s (rw (sym (by_none s.tables.sender_keys)) (h))
  Ends-find_all_by_members (m ∷ ms) s h broken =
      Ends-bind (scan_all (λ t. select (GroupKeys.is_by_one_of (m ∷ ms)) t.sender_keys))
        (λ ks.
          require (not (any (λ k. not (GroupKeys.is_sender_key k)) ks)) failed >>= λ _. pure ks)
        s
        (Ends-scan_all _ s (Ends-guard _ failed _ s (broken failed) (λ _. Ends-pure _ s h))
          (broken failed))

Ends-upsert_batch :
    (ds : List Distribution) (s : State)
    → Ends (λ _ t. SameKeys s t) (λ _ t. SameKeys s t) (GroupKeys.upsert_batch ds) s
unfolding GroupKeys.upsert_batch
Ends-upsert_batch [] s = Ends-pure tt s (SameKeys-refl s)
Ends-upsert_batch (d ∷ ds) s =
    Ends-statement _ s
      (λ n.
        Answered-if (λ _ t. SameKeys s t) (λ _ t. SameKeys s t) s (GroupKeys.repeats (d ∷ ds)) _ _
          (λ _. SameKeys-refl s) (λ _. distributed_all-SameKeys (d ∷ ds) s s (SameKeys-refl s)))
      (SameKeys-refl s)

-- the keys of a room's members
abbrev pub room_keys : ℕ → Tables → List SenderKey
room_keys room t =
    select (GroupKeys.is_by_one_of (map (λ m. m.id) (select (λ m. m.room_id == room) t.members)))
      t.sender_keys

-- What a fetch leaves: the caller has a membership of the room, and was given the keys of its members.
pub record Fetched (crypto : Crypto) (user room : ℕ) (s : State) (items : List SenderKeyItem)
    (t : State) : Type 0 where
  pub caller : Participant
  pub member : ChatMember
  pub is_caller : IsUser user s.tables caller
  pub known : Row member s.tables.members
  pub own : Members.is_of room caller.id member ≡ true
  pub given_keys : items ≡ map (item_of crypto) (room_keys room s.tables)
  pub same : SameKeys s t

module _ (crypto : Crypto) (user room : ℕ) where
  -- A fetch of a room's sender keys that succeeds was made by a user with a membership row of the room, gives
  -- the keys of all the members that the room has, and leaves the members, the keys and the requests as they
  -- were, also when the distributions cannot be recorded. One that fails changes no participant, member, key or
  -- request.
  pub get_sender_keys_lem :
      (s : State)
      → Ends
          (λ items t. Fetched crypto user room s items t)
          (λ _ t. SameKeys s t)
          (get_sender_keys crypto user room)
          s
  unfolding get_sender_keys Members.find_by_room
  get_sender_keys_lem s = Ends-bind (caller_member user room) _ s (
      Ends-caller_member user room s
        (λ p m is_caller known own. Ends-call _ (Members.find_by_room room) _ s (
          Ends-scan_all _ s
            (Ends-call _
              (GroupKeys.find_all_by_members
                (map (λ m. m.id) (select (λ m. m.room_id == room) s.tables.members)))
              _ s
              (Ends-find_all_by_members _ s
                (Ends-bind
                  (attempt
                    (GroupKeys.upsert_batch (distributions_to m.id (room_keys room s.tables))))
                  (λ _. pure (map (item_of crypto) (room_keys room s.tables))) s
                  (Ends-attempt _ s (
                    Ends-weaken
                      (Ends-upsert_batch (distributions_to m.id (room_keys room s.tables)) s)
                      (λ _ t h. Ends-pure _ t (done p m is_caller known own t h))
                      (λ _ t h. Ends-pure _ t (done p m is_caller known own t h)))))
                (λ _. SameKeys-refl s)))
            (SameKeys-refl s)))
        (λ _. SameKeys-refl s))
    where
      done :
          (p : Participant) (m : ChatMember)
          → IsUser user s.tables p
          → Row m s.tables.members
          → Members.is_of room p.id m ≡ true
          → (t : State) → SameKeys s t
          → Fetched crypto user room s (map (item_of crypto) (room_keys room s.tables)) t
      done p m is_caller known own t h = record {
        caller = p;
        member = m;
        is_caller = is_caller;
        known = known;
        own = own;
        given_keys = refl;
        same = h;
      }
