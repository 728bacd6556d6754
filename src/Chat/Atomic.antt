-- ===== src/Chat/Atomic.antt =====
-- The transactions of the chat use cases: while one is open, the tables that its rollback brings back
-- stay the ones that it began with.
pub mod Failure
use tentserv_chat_server.Prelude.{
  ℕ, ◌≡◌, refl, String, Bool, true, false, Option, none, some, any, if◌then◌else◌,
}
use tentserv_chat_server.Rows.{
  ChatMember, ChatRoom, ChatInvitation, ChatMessage, Participant, ParticipantType, Role,
  InvitationStatus, FriendshipStatus,
}
use tentserv_chat_server.Db.{
  Tables, State, DbError, Result, M, raise, pure, ◌>>=◌, map_err, begin_tx, commit, undone,
  deferring_rollback,
}
use tentserv_chat_server.Db.Rules.{
  Ends, Answered, Answered-if, Ends-pure, Ends-raise, Ends-bind, Ends-map_err, Ends-commit,
  Ends-weaken, Ends-begin_tx, Ends-deferring_rollback,
}
use tentserv_chat_server.Db.Keeps.{Keeps, Keeps-statement, Keeps-exec}
use tentserv_chat_server.Repo.Stable.{Stable}
use tentserv_chat_server.Repo.Participants
use tentserv_chat_server.Repo.Rooms
use tentserv_chat_server.Repo.Members
use tentserv_chat_server.Repo.Invitations
use tentserv_chat_server.Repo.Friendships
use tentserv_chat_server.Repo.Messages

-- A transaction that began with these tables is open.
abbrev pub Began : Tables → State → Type 0
Began t s = s.saved ≡ some t

module _ (t : Tables) where
  Began-if :
      {A : Type 0} (s : State) (b : Bool) (x y : Result DbError (A × State))
      → (b ≡ true → Answered (λ _. Began t) (λ _. Began t) s x)
      → (b ≡ false → Answered (λ _. Began t) (λ _. Began t) s y)
      → Answered (λ _. Began t) (λ _. Began t) s (if b then x else y)
  Began-if s b x y = Answered-if (λ _. Began t) (λ _. Began t) s b x y

  returned-Began :
      (o : Option ChatMember) (s u : State)
      → Began t s
      → Began t u
      → Answered (λ _. Began t) (λ _. Began t) s (Members.returned o u)
  returned-Began none s u h k = h
  returned-Began (some m) s u h k = k

  insert_participant-Began :
      (k : ParticipantType) → Keeps (Began t) (Participants.insert_participant k)
  unfolding Participants.insert_participant
  insert_participant-Began k = Keeps-statement _ (λ i s h. h)

  attach-Began :
      (id : ℕ) (taken : Participant → Bool) (u a : Option ℕ) (d : Option String)
      → Keeps (Began t) (Participants.attach id taken u a d)
  unfolding Participants.attach
  attach-Began id taken u a d =
      Keeps-statement _
        (λ i s h. Began-if s (any taken s.tables.participants) _ _ (λ _. h) (λ _. h))

  create_room-Began : (r : ChatRoom) → Keeps (Began t) (Rooms.create r)
  unfolding Rooms.create
  create_room-Began r =
      Keeps-statement _ (λ i s h. Began-if s (Rooms.is_room_type r.kind) _ _ (λ _. h) (λ _. h))

  add_member-Began : (room p : ℕ) (role : Role) → Keeps (Began t) (Members.add room p role)
  unfolding Members.add
  add_member-Began room p role = Keeps-statement _ λ i s h.
      Began-if s (Members.is_full room s.tables) _ _ (λ _. h)
        (λ _.
          Began-if s (Members.has_parents room p s.tables) _ _
            (λ _.
              returned-Began (Members.first (Members.is_of room p) (Members.upserted room p role s))
                s _ h h)
            (λ _. h))

  update_member-Began : (m : ChatMember) → Keeps (Began t) (Members.update_member m)
  unfolding Members.update_member
  update_member-Began m = Keeps-exec _ (λ s h. h)

  create_invitation-Began : (i : ChatInvitation) → Keeps (Began t) (Invitations.create i)
  unfolding Invitations.create
  create_invitation-Began i = Keeps-statement _ (λ k s h. h)

  update_invitation-Began :
      (id : ℕ) (status : InvitationStatus) → Keeps (Began t) (Invitations.update_status id status)
  unfolding Invitations.update_status
  update_invitation-Began id status = Keeps-exec _ (λ s h. h)

  create_friendship-Began :
      (x y : ℕ) (status : FriendshipStatus)
      → Keeps (Began t) (Friendships.create_with_status x y status)
  unfolding Friendships.create_with_status
  create_friendship-Began x y status = Keeps-statement _ (λ k s h.
      Began-if s (any (Friendships.is_from x y) s.tables.friendships) _ _ (λ _. h) (λ _. h))

  update_friendship-Began :
      (id : ℕ) (status : FriendshipStatus) → Keeps (Began t) (Friendships.update_status id status)
  unfolding Friendships.update_status
  update_friendship-Began id status = Keeps-exec _ (λ s h. h)

  delete_friendship-Began : (id : ℕ) → Keeps (Began t) (Friendships.delete id)
  unfolding Friendships.delete
  delete_friendship-Began id = Keeps-exec _ (λ s h. h)

  create_message-Began : (m : ChatMessage) → Keeps (Began t) (Messages.create m)
  unfolding Messages.create
  create_message-Began m =
      Keeps-statement _
        (λ k s h. Began-if s (Messages.is_message_type m.kind) _ _ (λ _. h) (λ _. h))

  pub Began-Stable : Stable (Began t)
  Began-Stable = record {
    insert_participant = insert_participant-Began;
    attach = attach-Began;
    create_room = create_room-Began;
    add_member = add_member-Began;
    update_member = update_member-Began;
    create_invitation = create_invitation-Began;
    update_invitation = update_invitation-Began;
    create_friendship = create_friendship-Began;
    update_friendship = update_friendship-Began;
    delete_friendship = delete_friendship-Began;
    create_message = create_message-Began;
  }

-- `m` runs in a transaction that began with `t`, and ends it: if it fails, a rollback finds `t`.
pub record Closes {E A : Type 0} (t : Tables) (m : M E A) : Type 0 where
  pub at : (s : State) → Began t s → Ends (λ _ _. Unit) (λ _ u. (undone u).tables ≡ t) m s

undone-Began : (t : Tables) (s : State) → Began t s → (undone s).tables ≡ t
undone-Began t s h = rw h refl

pub undone_twice : (t : Tables) (s : State) → Began t s → (undone (undone s)).tables ≡ t
undone_twice t s h = rw h refl

module _ {E A : Type 0} {t : Tables} where
  pub Closes-pure : (a : A) → Closes t (pure {E = E} a)
  Closes-pure a = record { at = λ s h. Ends-pure a s tt }

  pub Closes-raise : (e : E) → Closes t (raise {A = A} e)
  Closes-raise e = record { at = λ s h. Ends-raise e s (undone-Began t s h) }

  pub Closes-if : (b : Bool) (m n : M E A) → Closes t m → Closes t n → Closes t (if b then m else n)
  Closes-if true m n hm hn = hm
  Closes-if false m n hm hn = hn

  pub Closes-bind :
      {B : Type 0} (m : M E B) (f : B → M E A)
      → Keeps (Began t) m
      → ((b : B) → Closes t (f b))
      → Closes t (m >>= f)
  Closes-bind m f hm hf = record {
    at = λ s h.
        Ends-bind m f s
          (Ends-weaken (hm.at s h) (λ b u k. (hf b).at u k) (λ e u k. undone-Began t u k));
  }

  -- The commit comes last.
  pub Closes-commit : (f : DbError → E) (a : A) → Closes t (map_err f commit >>= λ _. pure a)
  Closes-commit f a = record {
    at = λ s h.
        Ends-bind (map_err f commit) (λ _. pure a) s
          (Ends-map_err f commit s (Ends-commit s (Ends-pure a _ tt) (undone_twice t s h)));
  }

-- The shape of the use cases: begin, defer the rollback, and close. A failure leaves the tables alone.
pub Closes-in_tx :
    {E A : Type 0} (f : DbError → E) (m : M E A) (s : State)
    → ((t : Tables) → Closes t m)
    → Ends
        (λ _ _. Unit)
        (λ _ u. u.tables ≡ s.tables)
        (map_err f begin_tx >>= λ _. deferring_rollback m)
        s
Closes-in_tx f m s h =
    Ends-bind (map_err f begin_tx) (λ _. deferring_rollback m) s
      (Ends-map_err f begin_tx s (
        Ends-begin_tx s
          (Ends-deferring_rollback m _ ((h s.tables).at (record s { saved = some s.tables }) refl))
          refl))

pub ruleset closes_rules = (Closes-pure, Closes-raise, Closes-if, Closes-bind, Closes-commit)
