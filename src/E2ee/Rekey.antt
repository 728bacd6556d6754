-- ===== src/E2ee/Rekey.antt =====
-- The sender key of a member.
use tentserv_chat_server.Prelude.{
  ℕ, ◌≡◌, refl, ◌∙◌, true, false, Option, none, some, List, [], ◌∷◌, ◌++◌, length, any, Row,
}
use tentserv_chat_server.Rows.{Participant, ChatMember, SenderKey, KeyRequest}
use tentserv_chat_server.Db.{State, DbError, Result, ok, err, pure, attempt}
use tentserv_chat_server.Db.Rules.{
  Ends, Ends-pure, Ends-bind, Ends-call, Ends-statement, Ends-exec, Ends-weaken, Ends-map_err,
  Ends-attempt, Answered-if,
}
use tentserv_chat_server.Db.Keeps.{Keeps, Keeps-bind, keeps_rules}
use tentserv_chat_server.Repo.Participants
use tentserv_chat_server.Repo.Members
use tentserv_chat_server.Repo.GroupKeys
use tentserv_chat_server.Repo.Found.{IsUser, Ends-find_user, Ends-find_membership}
use tentserv_chat_server.E2ee.{Crypto, E2eeError, invalid_signature, not_room_member, given}
use tentserv_chat_server.E2ee.Prekeys.{decoded}
use tentserv_chat_server.E2ee.SenderKeys.{
  UploadSenderKeyInput, caller_member, told, notified, looked_up, notify_each, notify_requesters,
  new_sender_key, store_sender_key, upload_sender_key,
}
use tentserv_chat_server.E2ee.Active.{Ends-given, Ends-decoded}

-- The sender keys stay.
abbrev KeysAre : List SenderKey → State → Type 0
KeysAre ks s = s.tables.sender_keys ≡ ks

module _ {ks : List SenderKey} where
  mark_fulfilled-Keeps : (r q : ℕ) → Keeps (KeysAre ks) (GroupKeys.mark_fulfilled r q)
  unfolding GroupKeys.mark_fulfilled
  mark_fulfilled-Keeps r q = record { at = λ s h. Ends-exec _ s h h }

  find_pending-Keeps : (q : ℕ) → Keeps (KeysAre ks) (GroupKeys.find_pending_by_provider q)
  unfolding GroupKeys.find_pending_by_provider
  find_pending-Keeps q = search keeps_rules depth 10

  find_member-Keeps : (i : ℕ) → Keeps (KeysAre ks) (Members.find_by_id i)
  unfolding Members.find_by_id
  find_member-Keeps i = search keeps_rules depth 10

  find_participant-Keeps : (i : ℕ) → Keeps (KeysAre ks) (Participants.find_by_id i)
  unfolding Participants.find_by_id
  find_participant-Keeps i = search keeps_rules depth 10

  told-Keeps : (r q : ℕ) (o : Option ℕ) → Keeps (KeysAre ks) (told r q o)
  told-Keeps r q none = search keeps_rules depth 10
  told-Keeps r q (some u) = search (keeps_rules, mark_fulfilled-Keeps) depth 20

  notified-Keeps : (r q : ℕ) (o : Result DbError Participant) → Keeps (KeysAre ks) (notified r q o)
  notified-Keeps r q (ok p) = told-Keeps r q p.user_id
  notified-Keeps r q (err e) = search keeps_rules depth 10

  looked_up-Keeps : (r q : ℕ) (o : Result DbError ChatMember) → Keeps (KeysAre ks) (looked_up r q o)
  looked_up-Keeps r q (ok m) = search (keeps_rules, find_participant-Keeps, notified-Keeps) depth 20
  looked_up-Keeps r q (err e) = search keeps_rules depth 10

  notify_each-Keeps : (q : ℕ) (rs : List KeyRequest) → Keeps (KeysAre ks) (notify_each q rs)
  unfolding notify_each
  notify_each-Keeps q [] = search keeps_rules depth 10
  notify_each-Keeps q (r ∷ rs) =
      Keeps-bind _ _ (search (keeps_rules, find_member-Keeps) depth 10) λ m.
        Keeps-bind _ _ (looked_up-Keeps r.requester_member_id q m)
          λ us. Keeps-bind _ _ (notify_each-Keeps q rs) λ vs. search keeps_rules depth 10

  notify_requesters-Keeps : (q : ℕ) → Keeps (KeysAre ks) (notify_requesters q)
  unfolding notify_requesters
  notify_requesters-Keeps q = search (keeps_rules, find_pending-Keeps, notify_each-Keeps) depth 20

module _ {Q : ChatMember → State → Type 0} {R : E2eeError → State → Type 0} where
  pub Ends-caller_member :
      (u room : ℕ) (s : State)
      → ((p : Participant) (m : ChatMember)
          → IsUser u s.tables p
          → Row m s.tables.members
          → Members.is_of room p.id m ≡ true
          → Q m s)
      → ((e : E2eeError) → R e s)
      → Ends Q R (caller_member u room) s
  unfolding caller_member
  Ends-caller_member u room s h broken = Ends-call _ (Participants.find_by_user_id u) _ s (
      Ends-find_user u s
        (λ p is_caller. Ends-map_err _ _ s (
          Ends-find_membership room p.id s (λ m known own. h p m is_caller known own)
            (λ _. broken not_room_member) (broken not_room_member)))
        (λ _. broken not_room_member))

-- The key that an upload adds: the first of a membership of the caller.
pub record Uploaded (crypto : Crypto) (user : ℕ) (input : UploadSenderKeyInput) (s t : State)
    : Type 0 where
  pub caller : Participant
  pub member : ChatMember
  pub public : List ℕ
  pub message : List ℕ
  pub is_caller : IsUser user s.tables caller
  pub known : Row member s.tables.members
  pub own : Members.is_of input.room_id caller.id member ≡ true
  pub public_read : crypto.decode input.sender_key_public ≡ some public
  pub public_length : length public ≡ 32
  pub message_read : crypto.decode input.distribution_message ≡ some message
  pub no_key_before : any (GroupKeys.has_chain member.id 0) s.tables.sender_keys ≡ false
  pub stored :
      t.tables.sender_keys
      ≡ s.tables.sender_keys
        ++ GroupKeys.stored_sender_key (new_sender_key member.id public message) s ∷ []

module _ (crypto : Crypto) (user : ℕ) (input : UploadSenderKeyInput) where
  stored-Ends :
      (p : Participant) (m : ChatMember) (s : State)
      → IsUser user s.tables p
      → Row m s.tables.members
      → Members.is_of input.room_id p.id m ≡ true
      → Ends
          (λ _ t. Uploaded crypto user input s t)
          (λ _ t. t.tables ≡ s.tables)
          (store_sender_key crypto input m)
          s
  unfolding store_sender_key GroupKeys.add_sender_key
  stored-Ends p m s is_caller known own =
      Ends-bind (decoded crypto 32 input.sender_key_public) _ s (
        Ends-decoded crypto 32 input.sender_key_public s
          (λ public read fits.
            Ends-bind (given (crypto.decode input.distribution_message) invalid_signature) _ s (
              Ends-given _ invalid_signature s
                (λ message message_read. Ends-map_err _ _ s (
                  Ends-statement _ s
                    (λ n.
                      Answered-if (λ _ t. Uploaded crypto user input s t)
                        (λ _ t. t.tables ≡ s.tables) s
                        (any (GroupKeys.has_chain m.id 0) s.tables.sender_keys) _ _ (λ _. refl)
                        (λ fresh. record {
                          caller = p;
                          member = m;
                          public = public;
                          message = message;
                          is_caller = is_caller;
                          known = known;
                          own = own;
                          public_read = read;
                          public_length = fits;
                          message_read = message_read;
                          no_key_before = fresh;
                          stored = refl;
                        }))
                    refl))
                refl))
          (λ _. refl))

  later :
      {s t u : State}
      → Uploaded crypto user input s t
      → u.tables.sender_keys ≡ t.tables.sender_keys
      → Uploaded crypto user input s u
  later done kept = record {
    caller = done.caller;
    member = done.member;
    public = done.public;
    message = done.message;
    is_caller = done.is_caller;
    known = done.known;
    own = done.own;
    public_read = done.public_read;
    public_length = done.public_length;
    message_read = done.message_read;
    no_key_before = done.no_key_before;
    stored = kept ∙ done.stored;
  }

  -- An upload of a sender key that succeeds adds the one key, of 32 bytes, for a membership of the caller
  -- in the room that had no key with chain id 0 before, and the new key has that chain id.
  -- An upload that fails changes no table.
  pub upload_sender_key_lem :
      (s : State)
      → Ends
          (λ _ t. Uploaded crypto user input s t)
          (λ _ t. t.tables ≡ s.tables)
          (upload_sender_key crypto user input)
          s
  unfolding upload_sender_key
  upload_sender_key_lem s = Ends-bind (caller_member user input.room_id) _ s (
      Ends-caller_member user input.room_id s
        (λ p m is_caller known own. Ends-bind (store_sender_key crypto input m) _ s (
          Ends-weaken (stored-Ends p m s is_caller known own)
            (λ _ t done.
              Ends-bind (attempt (notify_requesters m.id)) (λ _. pure tt) t
                (Ends-attempt _ t (
                  Ends-weaken ((notify_requesters-Keeps m.id).at t refl)
                    (λ _ u kept. Ends-pure tt u (later done kept))
                    (λ _ u kept. Ends-pure tt u (later done kept)))))
            (λ e t same. same)))
        (λ _. refl))
