-- ===== src/Repo/Everywhere.antt =====
-- A property of the tables, held by the current ones and by those that a rollback would bring back.
use tentserv_chat_server.Prelude.{
  ℕ, ◌+◌, ◌≡◌, String, Bool, true, false, Option, none, some, [], ◌∷◌, ◌++◌, any, update, remove,
  ◌==◌, if◌then◌else◌,
}
use tentserv_chat_server.Rows.{
  Participant, ParticipantType, ChatRoom, ChatMember, ChatInvitation, ChatMessage, Role,
  InvitationStatus, FriendshipStatus,
}
use tentserv_chat_server.Db.{Tables, Sequences, State, Result, DbError, restored}
use tentserv_chat_server.Db.Keeps.{Keeps, Keeps-statement, Keeps-exec, Keeps-begin_tx, Keeps-commit}
use tentserv_chat_server.Db.Rules.{Answered, Answered-if}
use tentserv_chat_server.Repo.Stable.{Stable, Transactional}
use tentserv_chat_server.Repo.Participants
use tentserv_chat_server.Repo.Rooms
use tentserv_chat_server.Repo.Members
use tentserv_chat_server.Repo.Invitations
use tentserv_chat_server.Repo.Friendships
use tentserv_chat_server.Repo.Messages

abbrev pub InSaved : (Tables → Sequences → Type 0) → Option Tables → Sequences → Type 0
InSaved Q none n = Unit
InSaved Q (some t) n = Q t n

abbrev pub Everywhere : (Tables → Sequences → Type 0) → State → Type 0
Everywhere Q s = Q s.tables s.next × InSaved Q s.saved s.next

-- `Q` survives each write, and each use of an id by a transaction that is undone.
pub record Invariant (Q : Tables → Sequences → Type 0) : Type 0 where
  pub used_participant :
      (t : Tables) (n : Sequences) → Q t n → Q t (record n { participant = n.participant + 1 })
  pub used_room : (t : Tables) (n : Sequences) → Q t n → Q t (record n { room = n.room + 1 })
  pub used_member : (t : Tables) (n : Sequences) → Q t n → Q t (record n { member = n.member + 1 })
  pub used_invitation :
      (t : Tables) (n : Sequences) → Q t n → Q t (record n { invitation = n.invitation + 1 })
  pub used_friendship :
      (t : Tables) (n : Sequences) → Q t n → Q t (record n { friendship = n.friendship + 1 })
  pub used_message :
      (t : Tables) (n : Sequences) → Q t n → Q t (record n { message = n.message + 1 })
  pub insert_participant :
      (k : ParticipantType) (s : State)
      → Q s.tables s.next
      → Q
          (record s.tables {
            participants = s.tables.participants ++ Participants.fresh_participant k s ∷ [];
          })
          (record s.next { participant = s.next.participant + 1 })
  pub attach :
      (id : ℕ) (u a : Option ℕ) (d : Option String) (s : State)
      → Q s.tables s.next
      → Q
          (record s.tables {
            participants =
                update (λ p. p.id == id) (Participants.with_detail u a d) s.tables.participants;
          })
          s.next
  pub create_room :
      (r : ChatRoom) (s : State)
      → Q s.tables s.next
      → Q
          (record s.tables { rooms = s.tables.rooms ++ Rooms.stored_room r s ∷ [] })
          (record s.next { room = s.next.room + 1 })
  pub add_member :
      (room p : ℕ) (role : Role) (s : State)
      → Members.is_full room s.tables ≡ false
      → Members.has_parents room p s.tables ≡ true
      → Q s.tables s.next
      → Q
          (record s.tables { members = Members.upserted room p role s })
          (record s.next { member = s.next.member + 1 })
  pub update_member :
      (m : ChatMember) (now : ℕ) (t : Tables) (n : Sequences)
      → Q t n
      → Q (record t { members = update (λ x. x.id == m.id) (Members.rewritten m now) t.members }) n
  pub create_invitation :
      (i : ChatInvitation) (s : State)
      → Q s.tables s.next
      → Q
          (record s.tables {
            invitations = s.tables.invitations ++ Invitations.stored_invitation i s ∷ [];
          })
          (record s.next { invitation = s.next.invitation + 1 })
  pub update_invitation :
      (id : ℕ) (status : InvitationStatus) (now : ℕ) (t : Tables) (n : Sequences)
      → Q t n
      → Q
          (record t {
            invitations = update (λ i. i.id == id) (Invitations.resolved status now) t.invitations;
          })
          n
  pub create_friendship :
      (u v : ℕ) (status : FriendshipStatus) (s : State)
      → any (Friendships.is_from u v) s.tables.friendships ≡ false
      → Q s.tables s.next
      → Q
          (record s.tables {
            friendships = s.tables.friendships ++ Friendships.stored_friendship u v status s ∷ [];
          })
          (record s.next { friendship = s.next.friendship + 1 })
  pub update_friendship :
      (id : ℕ) (status : FriendshipStatus) (now : ℕ) (t : Tables) (n : Sequences)
      → Q t n
      → Q
          (record t {
            friendships = update (λ f. f.id == id) (Friendships.changed status now) t.friendships;
          })
          n
  pub delete_friendship :
      (id : ℕ) (t : Tables) (n : Sequences)
      → Q t n
      → Q (record t { friendships = remove (λ f. f.id == id) t.friendships }) n
  pub create_message :
      (m : ChatMessage) (s : State)
      → Q s.tables s.next
      → Q
          (record s.tables { messages = s.tables.messages ++ Messages.stored_message m s ∷ [] })
          (record s.next { message = s.next.message + 1 })

module _ {Q : Tables → Sequences → Type 0} (v : Invariant Q) where
  in_saved :
      (o : Option Tables) (n n' : Sequences)
      → ((t : Tables) → Q t n → Q t n')
      → InSaved Q o n
      → InSaved Q o n'
  in_saved none n n' f h = tt
  in_saved (some t) n n' f h = f t h

  kept_if :
      {A : Type 0} (s : State) (b : Bool) (x y : Result DbError (A × State))
      → (b ≡ true → Answered (λ _. Everywhere Q) (λ _. Everywhere Q) s x)
      → (b ≡ false → Answered (λ _. Everywhere Q) (λ _. Everywhere Q) s y)
      → Answered (λ _. Everywhere Q) (λ _. Everywhere Q) s (if b then x else y)
  kept_if s b x y = Answered-if (λ _. Everywhere Q) (λ _. Everywhere Q) s b x y

  insert_participant-Keeps :
      (k : ParticipantType) → Keeps (Everywhere Q) (Participants.insert_participant k)
  unfolding Participants.insert_participant
  insert_participant-Keeps k = Keeps-statement _ λ i s h. (
    v.insert_participant k s h.0,
    in_saved s.saved s.next _ (λ t. v.used_participant t s.next) h.1,
  )

  attach-Keeps :
      (id : ℕ) (taken : Participant → Bool) (u a : Option ℕ) (d : Option String)
      → Keeps (Everywhere Q) (Participants.attach id taken u a d)
  unfolding Participants.attach
  attach-Keeps id taken u a d = Keeps-statement _ λ i s h.
      kept_if s (any taken s.tables.participants) _ _ (λ e. h) (λ e. (v.attach id u a d s h.0, h.1))

  create_room-Keeps : (r : ChatRoom) → Keeps (Everywhere Q) (Rooms.create r)
  unfolding Rooms.create
  create_room-Keeps r = Keeps-statement _ λ i s h.
      kept_if s (Rooms.is_room_type r.kind) _ _
        (λ e. (v.create_room r s h.0, in_saved s.saved s.next _ (λ t. v.used_room t s.next) h.1))
        (λ e. h)

  returned-Answered :
      (o : Option ChatMember) (s t : State)
      → Everywhere Q s
      → Everywhere Q t
      → Answered (λ _. Everywhere Q) (λ _. Everywhere Q) s (Members.returned o t)
  returned-Answered none s t h k = h
  returned-Answered (some m) s t h k = k

  added-Answered :
      (room p : ℕ) (role : Role) (s : State)
      → Members.is_full room s.tables ≡ false
      → Everywhere Q s
      → Answered (λ _. Everywhere Q) (λ _. Everywhere Q) s (Members.added room p role s)
  added-Answered room p role s space h =
      kept_if s (Members.has_parents room p s.tables) _ _
        (λ parents.
          returned-Answered (Members.first (Members.is_of room p) (Members.upserted room p role s))
            s _ h
            (
              v.add_member room p role s space parents h.0,
              in_saved s.saved s.next _ (λ t. v.used_member t s.next) h.1,
            ))
        (λ e. h)

  add_member-Keeps : (room p : ℕ) (role : Role) → Keeps (Everywhere Q) (Members.add room p role)
  unfolding Members.add
  add_member-Keeps room p role = Keeps-statement _ λ i s h.
      kept_if s (Members.is_full room s.tables) _ _ (λ e. h)
        (λ space. added-Answered room p role s space h)

  update_member-Keeps : (m : ChatMember) → Keeps (Everywhere Q) (Members.update_member m)
  unfolding Members.update_member
  update_member-Keeps m = Keeps-exec _ (λ s h. (v.update_member m s.now s.tables s.next h.0, h.1))

  create_invitation-Keeps : (i : ChatInvitation) → Keeps (Everywhere Q) (Invitations.create i)
  unfolding Invitations.create
  create_invitation-Keeps i = Keeps-statement _ λ k s h.
      (v.create_invitation i s h.0, in_saved s.saved s.next _ (λ t. v.used_invitation t s.next) h.1)

  update_invitation-Keeps :
      (id : ℕ) (status : InvitationStatus)
      → Keeps (Everywhere Q) (Invitations.update_status id status)
  unfolding Invitations.update_status
  update_invitation-Keeps id status =
      Keeps-exec _ (λ s h. (v.update_invitation id status s.now s.tables s.next h.0, h.1))

  create_friendship-Keeps :
      (x y : ℕ) (status : FriendshipStatus)
      → Keeps (Everywhere Q) (Friendships.create_with_status x y status)
  unfolding Friendships.create_with_status
  create_friendship-Keeps x y status = Keeps-statement _ λ k s h.
      kept_if s (any (Friendships.is_from x y) s.tables.friendships) _ _ (λ e. h)
        (λ e. (
          v.create_friendship x y status s e h.0,
          in_saved s.saved s.next _ (λ t. v.used_friendship t s.next) h.1,
        ))

  update_friendship-Keeps :
      (id : ℕ) (status : FriendshipStatus)
      → Keeps (Everywhere Q) (Friendships.update_status id status)
  unfolding Friendships.update_status
  update_friendship-Keeps id status =
      Keeps-exec _ (λ s h. (v.update_friendship id status s.now s.tables s.next h.0, h.1))

  delete_friendship-Keeps : (id : ℕ) → Keeps (Everywhere Q) (Friendships.delete id)
  unfolding Friendships.delete
  delete_friendship-Keeps id =
      Keeps-exec _ (λ s h. (v.delete_friendship id s.tables s.next h.0, h.1))

  create_message-Keeps : (m : ChatMessage) → Keeps (Everywhere Q) (Messages.create m)
  unfolding Messages.create
  create_message-Keeps m = Keeps-statement _ λ k s h.
      kept_if s (Messages.is_message_type m.kind) _ _
        (λ e.
          (v.create_message m s h.0, in_saved s.saved s.next _ (λ t. v.used_message t s.next) h.1))
        (λ e. h)

  pub Everywhere-Stable : Stable (Everywhere Q)
  Everywhere-Stable = record {
    insert_participant = insert_participant-Keeps;
    attach = attach-Keeps;
    create_room = create_room-Keeps;
    add_member = add_member-Keeps;
    update_member = update_member-Keeps;
    create_invitation = create_invitation-Keeps;
    update_invitation = update_invitation-Keeps;
    create_friendship = create_friendship-Keeps;
    update_friendship = update_friendship-Keeps;
    delete_friendship = delete_friendship-Keeps;
    create_message = create_message-Keeps;
  }

module _ (Q : Tables → Sequences → Type 0) where
  undone-Everywhere :
      (o : Option Tables) (s : State)
      → Everywhere Q s
      → InSaved Q o s.next
      → Everywhere Q (restored o s)
  undone-Everywhere none s h k = h
  undone-Everywhere (some t) s h k = (k, tt)

  pub Everywhere-Transactional : Transactional (Everywhere Q)
  Everywhere-Transactional = record {
    opens = Keeps-begin_tx (λ s h. (h.0, h.0));
    closes = Keeps-commit (λ s h. (h.0, tt)) (λ s h. undone-Everywhere s.saved s h h.1);
    undoes = λ s h. undone-Everywhere s.saved s h h.1;
  }
