-- ===== src/Chat/System/Reachable.antt =====
-- A property that survives each repository write holds in every reachable state.
use tentserv_chat_server.Prelude.{ℕ, ◌+◌}
use tentserv_chat_server.Db.{State, Connection, Result, ok, err}
use tentserv_chat_server.Db.Rules.{Post}
use tentserv_chat_server.Db.Keeps.{Keeps, Keeps-bind, Keeps-pure, Keeps-attempt}
use tentserv_chat_server.Repo.Stable.{Stable, Transactional}
use tentserv_chat_server.Chat.Preserves.{
  create_user_participant-Keeps, create_chat_room-Keeps, join-Keeps, approve-Keeps, respond-Keeps,
  send-Keeps, update_member_status-Keeps,
}
use tentserv_chat_server.Friends.Preserves.{
  apply-Keeps, accept-Keeps, block-Keeps, unblock-Keeps, cancel-Keeps, remove_friend-Keeps,
}
use tentserv_chat_server.Chat.System.{
  Request, register, open_room, join_room, approve_request, respond_to, post, mark_read, apply_to,
  accept_from, block_user, unblock_user, cancel_request, unfriend, serve, Step, request, tick,
  Reach, here, next,
}

after_post :
    {E A : Type 0} (P : State → Type 0) (r : Result E A × State × Connection)
    → Post (λ _. P) (λ _. P) r
    → P r.1
after_post P (ok a, s, c) h = h
after_post P (err e, s, c) h = h

module _ {P : State → Type 0} (w : Stable P) (t : Transactional P) where
  pub serve-Keeps : (u : ℕ) (r : Request) → Keeps P (serve u r)
  unfolding serve
  serve-Keeps u register = Keeps-bind _ _ (create_user_participant-Keeps w t u) (λ _. Keeps-pure tt)
  serve-Keeps u (open_room i) = Keeps-bind _ _ (create_chat_room-Keeps w t u i) (λ _. Keeps-pure tt)
  serve-Keeps u (join_room room) = Keeps-bind _ _ (join-Keeps w t u room) (λ _. Keeps-pure tt)
  serve-Keeps u (approve_request id a) =
      Keeps-bind _ _ (approve-Keeps w t u id a) (λ _. Keeps-pure tt)
  serve-Keeps u (respond_to id a) = Keeps-bind _ _ (respond-Keeps w t u id a) (λ _. Keeps-pure tt)
  serve-Keeps u (post i) = Keeps-bind _ _ (send-Keeps w t u i) (λ _. Keeps-pure tt)
  serve-Keeps u (mark_read room) =
      Keeps-bind _ _ (update_member_status-Keeps w t u room) (λ _. Keeps-pure tt)
  serve-Keeps u (apply_to v) =
      Keeps-bind _ _ (Keeps-attempt _ (apply-Keeps w u v)) (λ _. Keeps-pure tt)
  serve-Keeps u (accept_from id) =
      Keeps-bind _ _ (Keeps-attempt _ (accept-Keeps w t u id)) (λ _. Keeps-pure tt)
  serve-Keeps u (block_user v) =
      Keeps-bind _ _ (Keeps-attempt _ (block-Keeps w u v)) (λ _. Keeps-pure tt)
  serve-Keeps u (unblock_user v) =
      Keeps-bind _ _ (Keeps-attempt _ (unblock-Keeps w u v)) (λ _. Keeps-pure tt)
  serve-Keeps u (cancel_request id) =
      Keeps-bind _ _ (Keeps-attempt _ (cancel-Keeps w u id)) (λ _. Keeps-pure tt)
  serve-Keeps u (unfriend id) =
      Keeps-bind _ _ (Keeps-attempt _ (remove_friend-Keeps w u id)) (λ _. Keeps-pure tt)

  module _ (timeless : (s : State) (d : ℕ) → P s → P (record s { now = s.now + d })) where
    Step-Keeps : {s s' : State} → Step s s' → P s → P s'
    Step-Keeps (request u r c s) h = after_post P (serve u r s c) (((serve-Keeps u r).at s h).at c)
    Step-Keeps (tick d s) h = timeless s d h

    pub Reach-Keeps : {s s' : State} → Reach s s' → P s → P s'
    Reach-Keeps here h = h
    Reach-Keeps (next r st) h = Step-Keeps st (Reach-Keeps r h)
