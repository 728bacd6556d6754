-- ===== src/Chat/Overview/Seen.antt =====
-- What the detail of a room shows (internal/application/chat/usecase/get_chat_room_detail.go).
use tentserv_chat_server.Prelude.{
  ℕ, String, ◌≡◌, ◌≤◌, refl, Bool, true, false, not, Option, none, some, List, [], ◌∷◌, ◌==◌, map,
  select, reverse, length, All, take,
}
use tentserv_chat_server.Rows.{Participant, ChatRoom, ChatMember, User, Agent}
use tentserv_chat_server.Db.{State, M, DbError, Result, ok, err, pure, ◌>>=◌, attempt}
use tentserv_chat_server.Db.Rules.{
  Ends, Ends-pure, Ends-bind, Ends-call, Ends-guard, Ends-scan_all, Ends-weaken, Ends-attempt,
}
use tentserv_chat_server.Db.Keeps.{Keeps, keeps_rules}
use tentserv_chat_server.Repo.Participants
use tentserv_chat_server.Repo.Members
use tentserv_chat_server.Repo.Messages
use tentserv_chat_server.Repo.Users
use tentserv_chat_server.Repo.Found.{Ends-find_user, Ends-find_membership, Ends-find_room}
use tentserv_chat_server.Chat.Errors.{database}
use tentserv_chat_server.Chat.Send.Delivered.{Belongs}
use tentserv_chat_server.Chat.Reading.Pages.{Shown, newest-IsPage, page_of_lem}
use tentserv_chat_server.Chat.Overview.{
  MemberInfo, bare_info, with_user, with_agent, named, of_participant, build_member_info,
  member_infos, user_avatar, peer_avatar, avatar_from, resolve_room_avatar, detail_of, get_detail,
}

-- The lookups read only.
module _ {s : State} where
  pub find_user-Keeps : (u : ℕ) → Keeps (λ t. t ≡ s) (Users.find_by_id u)
  unfolding Users.find_by_id Users.find_role_codes
  find_user-Keeps u = search keeps_rules depth 20

  find_agent-Keeps : (a : ℕ) → Keeps (λ t. t ≡ s) (Users.find_agent a)
  unfolding Users.find_agent
  find_agent-Keeps a = search keeps_rules depth 10

  pub find_participant-Keeps : (i : ℕ) → Keeps (λ t. t ≡ s) (Participants.find_by_id i)
  unfolding Participants.find_by_id
  find_participant-Keeps i = search keeps_rules depth 10

  user_avatar-Keeps : (direct : Bool) (o : Option ℕ) → Keeps (λ t. t ≡ s) (user_avatar direct o)
  user_avatar-Keeps true (some u) = search (keeps_rules, find_user-Keeps) depth 20
  user_avatar-Keeps true none = search keeps_rules depth 10
  user_avatar-Keeps false o = search keeps_rules depth 10

  peer_avatar-Keeps :
      (direct : Bool) (r : Result DbError Participant) → Keeps (λ t. t ≡ s) (peer_avatar direct r)
  peer_avatar-Keeps direct (ok p) = user_avatar-Keeps direct p.user_id
  peer_avatar-Keeps direct (err e) = search keeps_rules depth 10

  avatar_from-Keeps :
      (direct : Bool) (o : Option ChatMember) → Keeps (λ t. t ≡ s) (avatar_from direct o)
  avatar_from-Keeps direct none = search keeps_rules depth 10
  avatar_from-Keeps direct (some m) =
      search (keeps_rules, find_participant-Keeps, peer_avatar-Keeps) depth 20

  resolve-Keeps :
      (room : ChatRoom) (p : ℕ) (ms : List ChatMember)
      → Keeps (λ t. t ≡ s) (resolve_room_avatar room p ms)
  unfolding resolve_room_avatar
  resolve-Keeps room p ms = search (keeps_rules, avatar_from-Keeps) depth 20

module _ {E A B : Type 0} {Q : B → State → Type 0} {R : E → State → Type 0} where
  -- a lookup whose error is dropped
  pub Ends-tried :
      (m : M DbError A) (k : Result DbError A → M E B) (s : State)
      → Keeps (λ t. t ≡ s) m
      → ((r : Result DbError A) → Ends Q R (k r) s)
      → Ends Q R (attempt m >>= k) s
  Ends-tried m k s reads h = Ends-bind (attempt m) k s (
      Ends-attempt m s
        (Ends-weaken (reads.at s refl) (λ a t e. rw e (h (ok a))) (λ x t e. rw e (h (err x)))))

-- an entry for the member
abbrev IsFor : ChatMember → State → MemberInfo → State → Type 0
IsFor m s i t = (t ≡ s) × (i.member_id ≡ m.id)

with_user_id :
    (info : MemberInfo) (r : Result DbError (User × List String))
    → (with_user info r).member_id ≡ info.member_id
with_user_id info (ok u) = refl
with_user_id info (err e) = refl

with_agent_id :
    (info : MemberInfo) (r : Result DbError Agent) → (with_agent info r).member_id ≡ info.member_id
with_agent_id info (ok a) = refl
with_agent_id info (err e) = refl

build_lem : (m : ChatMember) (s : State) → Ends (IsFor m s) (λ _ t. t ≡ s) (build_member_info m) s
unfolding build_member_info
build_lem m s = Ends-tried _ _ s (find_participant-Keeps m.participant_id) lookup
  where
    found : (u a : Option ℕ) → Ends (IsFor m s) (λ _ t. t ≡ s) (named (bare_info m) u a) s
    found (some u) a =
        Ends-tried _ _ s (find_user-Keeps u) λ r. Ends-pure _ s (refl, with_user_id _ r)
    found none (some a) =
        Ends-tried _ _ s (find_agent-Keeps a) λ r. Ends-pure _ s (refl, with_agent_id _ r)
    found none none = Ends-pure _ s (refl, refl)

    lookup :
        (r : Result DbError Participant)
        → Ends (IsFor m s) (λ _ t. t ≡ s) (of_participant (bare_info m) r) s
    lookup (ok p) = found p.user_id p.agent_id
    lookup (err e) = Ends-pure _ s (refl, refl)

member_infos_lem :
    (ms : List ChatMember) (s : State)
    → Ends
        (λ is t. (t ≡ s) × (map (λ i. i.member_id) is ≡ map (λ m. m.id) ms))
        (λ _ t. t ≡ s)
        (member_infos ms)
        s
unfolding member_infos
member_infos_lem [] s = Ends-pure [] s (refl, refl)
member_infos_lem (m ∷ ms) s = Ends-bind (build_member_info m) _ s (
    Ends-weaken (build_lem m s)
      (λ i t h. rw h.0 (
        Ends-bind (member_infos ms) (λ rest. pure (i ∷ rest)) s
          (Ends-weaken (member_infos_lem ms s)
            (λ is u k. Ends-pure (i ∷ is) u (k.0, rw (h.1, k.1) refl)) (λ _ u k. k))))
      (λ _ t h. h))

-- The detail of a room is read only by a user with a membership of the room that is not deleted, and
-- reading changes nothing. It lists exactly the members whose membership is not deleted, and at most 20
-- messages, each a stored message of the room that is not deleted.
pub get_detail_lem :
    (u room : ℕ) (s : State)
    → Ends
        (λ d t.
          (t ≡ s)
          × ((m : ChatMember) × Belongs u room s.tables m)
          × (map (λ i. i.member_id) d.members
              ≡ map
                  (λ m. m.id)
                  (select
                    (λ m. not m.is_deleted)
                    (select (λ m. m.room_id == room) s.tables.members)))
          × All (Shown room s) d.messages
          × (length d.messages ≤ 20))
        (λ _ t. t ≡ s)
        (get_detail u room)
        s
unfolding get_detail Members.find_by_room Messages.find_by_room
get_detail_lem u room s =
    let all = select (λ m. m.room_id == room) s.tables.members in
    let rows = take 20 (
      Messages.order_desc (λ m. m.created_at)
        (select (λ m. m.room_id == room) s.tables.messages)) in
    let page = page_of_lem room 20 s all (reverse rows) (newest-IsPage room 20 s) in
    Ends-call _ _ _ s (
      Ends-find_user u s
        (λ p is_caller. Ends-call _ _ _ s (
          Ends-find_membership room p.id s
            (λ m joined own. Ends-guard (not m.is_deleted) _ _ s refl λ live. Ends-call _ _ _ s (
              Ends-find_room room s
                (λ r known same. Ends-call _ _ _ s (
                  Ends-scan_all _ s
                    (Ends-bind (member_infos (select (λ m. not m.is_deleted) all)) _ s (
                      Ends-weaken (member_infos_lem (select (λ m. not m.is_deleted) all) s)
                        (λ infos t h. rw h.0 (
                          Ends-call database (Messages.find_by_room room 20 0)
                            (λ rows. resolve_room_avatar r p.id all >>= λ avatar.
                              pure (detail_of r all infos rows avatar))
                            s
                            (Ends-scan_all _ s
                              (Ends-bind (resolve_room_avatar r p.id all)
                                (λ avatar. pure (detail_of r all infos rows avatar)) s
                                (Ends-weaken ((resolve-Keeps r p.id all).at s refl)
                                  (λ avatar t e. Ends-pure _ t (
                                    e,
                                    (
                                      m,
                                      record {
                                        caller = p;
                                        is_caller = is_caller;
                                        joined = joined;
                                        own = own;
                                        active = live;
                                      },
                                    ),
                                    h.1,
                                    page.0,
                                    page.1,
                                  ))
                                  (λ _ t e. e)))
                              refl)))
                        (λ _ t h. h)))
                    refl))
                (λ _. refl)))
            (λ _. refl) refl))
        (λ _. refl))
