-- ===== src/Chat/Soundness.antt =====
-- The soundness of the tables of rooms, participants and memberships, kept by every write.
use tentserv_chat_server.Prelude.{
  ℕ, ◌+◌, ◌<◌, ◌≡◌, refl, String, true, false, Option, [], ◌∷◌, ◌++◌, ◌==◌, arith, any, update, All,
  All-weaken, All-append, All-update, any_key_below, Bool-cases, inl, inr,
}
use tentserv_chat_server.Rows.{ChatMember, ChatRoom, ParticipantType, Role}
use tentserv_chat_server.Db.{Tables, Sequences, State}
use tentserv_chat_server.Repo.Participants.{with_detail, fresh_participant}
use tentserv_chat_server.Repo.Rooms.{stored_room}
use tentserv_chat_server.Repo.Members.{
  is_of, is_full, has_parents, upserted, rewritten, revived, fresh_member,
}
use tentserv_chat_server.Repo.Everywhere.{Invariant}
use tentserv_chat_server.Chat.Membership.{OneEach, upserted-OneEach, rewritten-OneEach}
use tentserv_chat_server.Chat.Capacity.{
  Fits, upserted-Fits, count-occupies-append, count-occupies-attach, count-occupies-rewritten,
  count-occupies_unnamed,
}

-- The member's references are below the bounds.
abbrev pub Refers : ℕ → ℕ → ChatMember → Type 0
Refers room p m = (m.room_id < room) × (m.participant_id < p)

-- One membership for each room and participant; ids below the next ones; no room above its limit.
pub record IsSound (t : Tables) (n : Sequences) : Type 0 where
  pub one_each : OneEach t.members
  pub references : All (Refers n.room n.participant) t.members
  pub room_ids : All (λ r. r.id < n.room) t.rooms
  pub participant_ids : All (λ p. p.id < n.participant) t.participants
  pub within : All (Fits t.participants t.members) t.rooms

upserted-Refers :
    (room p : ℕ) (role : Role) (s : State) (i j : ℕ)
    → room < i
    → p < j
    → All (Refers i j) s.tables.members
    → All (Refers i j) (upserted room p role s)
upserted-Refers room p role s i j hr hp h =
    elim (Bool-cases (any (is_of room p) s.tables.members)) [
      | inl old ↦
          rw old
            (All-update (Refers i j) (is_of room p) (revived s.now) s.tables.members (λ m k. k) h)
      | inr new ↦ rw new (
          All-append (Refers i j) s.tables.members (fresh_member room p role s ∷ []) h
            ((hr, hp), tt))
    ]

module _ (t : Tables) (n : Sequences) (h : IsSound t n) where
  used_participant : IsSound t (record n { participant = n.participant + 1 })
  used_participant = record {
    one_each = h.one_each;
    references = All-weaken (λ m k. (k.0, omega (arith, k.1))) t.members h.references;
    room_ids = h.room_ids;
    participant_ids = All-weaken (λ q k. omega (arith, k)) t.participants h.participant_ids;
    within = h.within;
  }

  used_room : IsSound t (record n { room = n.room + 1 })
  used_room = record {
    one_each = h.one_each;
    references = All-weaken (λ m k. (omega (arith, k.0), k.1)) t.members h.references;
    room_ids = All-weaken (λ r k. omega (arith, k)) t.rooms h.room_ids;
    participant_ids = h.participant_ids;
    within = h.within;
  }

  -- writes and ids of the other tables
  elsewhere :
      (t' : Tables) (n' : Sequences)
      → t'.participants ≡ t.participants
      → t'.rooms ≡ t.rooms
      → t'.members ≡ t.members
      → n'.room ≡ n.room
      → n'.participant ≡ n.participant
      → IsSound t' n'
  elsewhere t' n' e₁ e₂ e₃ e₄ e₅ = record {
    one_each = rw e₃ h.one_each;
    references = rw (e₃, e₄, e₅) h.references;
    room_ids = rw (e₂, e₄) h.room_ids;
    participant_ids = rw (e₁, e₅) h.participant_ids;
    within = rw (e₁, e₂, e₃) h.within;
  }

module _ (s : State) (h : IsSound s.tables s.next) where
  insert_participant :
      (k : ParticipantType)
      → IsSound
          (record s.tables { participants = s.tables.participants ++ fresh_participant k s ∷ [] })
          (record s.next { participant = s.next.participant + 1 })
  insert_participant k = record {
    one_each = h.one_each;
    references = All-weaken (λ m k. (k.0, omega (arith, k.1))) s.tables.members h.references;
    room_ids = h.room_ids;
    participant_ids =
        All-append (λ p. p.id < s.next.participant + 1) s.tables.participants
          (fresh_participant k s ∷ [])
          (All-weaken (λ q k. omega (arith, k)) s.tables.participants h.participant_ids)
          (omega arith, tt);
    within =
        All-weaken
          (λ r fits.
            rw
              (count-occupies-append r.id (fresh_participant k s) s.tables.participants
                s.tables.members (All-weaken (λ m k. k.1) s.tables.members h.references))
              fits)
          s.tables.rooms h.within;
  }

  attach :
      (id : ℕ) (u a : Option ℕ) (d : Option String)
      → IsSound
          (record s.tables {
            participants = update (λ p. p.id == id) (with_detail u a d) s.tables.participants;
          })
          s.next
  attach id u a d = record {
    one_each = h.one_each;
    references = h.references;
    room_ids = h.room_ids;
    participant_ids =
        All-update (λ p. p.id < s.next.participant) (λ p. p.id == id) (with_detail u a d)
          s.tables.participants (λ p k. k) h.participant_ids;
    within =
        All-weaken
          (λ r fits.
            rw (count-occupies-attach r.id id u a d s.tables.participants s.tables.members) fits)
          s.tables.rooms h.within;
  }

  create_room :
      (r : ChatRoom)
      → IsSound
          (record s.tables { rooms = s.tables.rooms ++ stored_room r s ∷ [] })
          (record s.next { room = s.next.room + 1 })
  create_room r = record {
    one_each = h.one_each;
    references = All-weaken (λ m k. (omega (arith, k.0), k.1)) s.tables.members h.references;
    room_ids =
        All-append (λ r. r.id < s.next.room + 1) s.tables.rooms (stored_room r s ∷ [])
          (All-weaken (λ r k. omega (arith, k)) s.tables.rooms h.room_ids) (omega arith, tt);
    participant_ids = h.participant_ids;
    within =
        All-append (Fits s.tables.participants s.tables.members) s.tables.rooms
          (stored_room r s ∷ []) h.within
          (
            inr (
                omega (
                  arith,
                  count-occupies_unnamed s.next.room s.tables.participants s.tables.members
                      (All-weaken (λ m k. k.0) s.tables.members h.references),
                )),
            tt,
          );
  }

  add_member :
      (room p : ℕ) (role : Role)
      → is_full room s.tables ≡ false
      → has_parents room p s.tables ≡ true
      → IsSound
          (record s.tables { members = upserted room p role s })
          (record s.next { member = s.next.member + 1 })
  add_member room p role space parents = record {
    one_each = upserted-OneEach room p role s h.one_each;
    references =
        upserted-Refers room p role s s.next.room s.next.participant
          (any_key_below (λ r. r.id) room s.next.room s.tables.rooms (ground (arith, parents))
            h.room_ids)
          (any_key_below (λ q. q.id) p s.next.participant s.tables.participants
            (ground (arith, parents)) h.participant_ids)
          h.references;
    room_ids = h.room_ids;
    participant_ids = h.participant_ids;
    within = upserted-Fits room p role s h.one_each space h.within;
  }

update_member :
    (m : ChatMember) (now : ℕ) (t : Tables) (n : Sequences)
    → IsSound t n
    → IsSound (record t { members = update (λ x. x.id == m.id) (rewritten m now) t.members }) n
update_member m now t n h = record {
  one_each = rewritten-OneEach m.id now m t.members h.one_each;
  references =
      All-update (Refers n.room n.participant) (λ x. x.id == m.id) (rewritten m now) t.members
        (λ m k. k) h.references;
  room_ids = h.room_ids;
  participant_ids = h.participant_ids;
  within =
      All-weaken
        (λ r fits. rw (count-occupies-rewritten r.id m.id now m t.participants t.members) fits)
        t.rooms h.within;
}

pub IsSound-Invariant : Invariant IsSound
IsSound-Invariant = record {
  used_participant = used_participant;
  used_room = used_room;
  used_member = λ t n h. elsewhere t n h _ _ refl refl refl refl refl;
  used_invitation = λ t n h. elsewhere t n h _ _ refl refl refl refl refl;
  used_friendship = λ t n h. elsewhere t n h _ _ refl refl refl refl refl;
  used_message = λ t n h. elsewhere t n h _ _ refl refl refl refl refl;
  insert_participant = λ k s h. insert_participant s h k;
  attach = λ id u a d s h. attach s h id u a d;
  create_room = λ r s h. create_room s h r;
  add_member = λ room p role s space parents h. add_member s h room p role space parents;
  update_member = update_member;
  create_invitation = λ i s h. elsewhere s.tables s.next h _ _ refl refl refl refl refl;
  update_invitation = λ id st now t n h. elsewhere t n h _ _ refl refl refl refl refl;
  create_friendship = λ u v st s e h. elsewhere s.tables s.next h _ _ refl refl refl refl refl;
  update_friendship = λ id st now t n h. elsewhere t n h _ _ refl refl refl refl refl;
  delete_friendship = λ id t n h. elsewhere t n h _ _ refl refl refl refl refl;
  create_message = λ m s h. elsewhere s.tables s.next h _ _ refl refl refl refl refl;
}
