-- ===== src/Chat/System.antt =====
-- The chat server as a state machine: users send requests to the chat and friendship use cases, the
-- service answers their statements as it likes, and the clock advances between them.
pub mod Reachable
pub mod Sound
use tentserv_chat_server.Prelude.{ℕ, ◌+◌, ◌≡◌, String, Bool}
use tentserv_chat_server.Db.{
  Tables, Sequences, State, Connection, Result, M, attempt, pure, ◌>>=◌, ◌>>◌,
}
use tentserv_chat_server.Chat.Errors.{ChatError}
use tentserv_chat_server.Chat.CreateRoom.{CreateInput, create_chat_room}
use tentserv_chat_server.Chat.Join.{join}
use tentserv_chat_server.Chat.Approve.{approve}
use tentserv_chat_server.Chat.Respond.{respond}
use tentserv_chat_server.Chat.Send.{SendInput, send}
use tentserv_chat_server.Friends.{apply, accept, block, unblock, cancel, remove_friend}
use tentserv_chat_server.Chat.Participation.{create_user_participant, update_member_status}

-- The chat and friendship use cases that write.
pub data Request : Type 0 where
  register : Request
  open_room : CreateInput → Request
  join_room : ℕ → Request
  approve_request : ℕ → Bool → Request
  respond_to : ℕ → String → Request
  post : SendInput → Request
  mark_read : ℕ → Request
  apply_to : ℕ → Request
  accept_from : ℕ → Request
  block_user : ℕ → Request
  unblock_user : ℕ → Request
  cancel_request : ℕ → Request
  unfriend : ℕ → Request

-- What a user's request runs; the output is left out, and so is the error of a friendship use case.
unfoldable pub serve : ℕ → Request → M ChatError Unit
serve u register = create_user_participant u >> pure tt
serve u (open_room i) = create_chat_room u i >> pure tt
serve u (join_room room) = join u room >> pure tt
serve u (approve_request id approved) = approve u id approved >> pure tt
serve u (respond_to id action) = respond u id action >> pure tt
serve u (post i) = send u i >> pure tt
serve u (mark_read room) = update_member_status u room >> pure tt
serve u (apply_to v) = attempt (apply u v) >> pure tt
serve u (accept_from id) = attempt (accept u id) >> pure tt
serve u (block_user v) = attempt (block u v) >> pure tt
serve u (unblock_user v) = attempt (unblock u v) >> pure tt
serve u (cancel_request id) = attempt (cancel u id) >> pure tt
serve u (unfriend id) = attempt (remove_friend u id) >> pure tt

-- One request, on a fresh connection or not, or the passing of time.
pub data Step : State → State → Type 0 where
  request : (u : ℕ) (r : Request) (c : Connection) (s : State) → Step s ((serve u r s c).1)
  tick : (d : ℕ) (s : State) → Step s (record s { now = s.now + d })

pub data Reach (s : State) : State → Type 0 where
  here : Reach s s
  next : {t u : State} → Reach s t → Step t u → Reach s u
