-- ===== src/Friends/Failure.antt =====
-- Accepting a friendship request is one transaction, followed by a step that cannot fail
-- (internal/application/friendship/usecase/accept_friendship_usecase.go).
use tentserv_chat_server.Prelude.{ℕ, ◌≡◌}
use tentserv_chat_server.Rows.{Participant, ChatRoom}
use tentserv_chat_server.Db.{
  Tables, State, Connection, DbError, not_found, Result, ok, err, M, pure, ◌>>=◌, map_err, attempt,
  commit,
}
use tentserv_chat_server.Db.Rules.{
  Ends, Post, Ends-pure, Ends-attempt, Ends-bind, Ends-map_err, Ends-commit, Ends-weaken,
}
use tentserv_chat_server.Db.Keeps.{keeps_rules}
use tentserv_chat_server.Repo.Friendships
use tentserv_chat_server.Chat.Atomic.{
  Began-Stable, Closes, Closes-in_tx, closes_rules, undone_twice,
}
use tentserv_chat_server.Friends.{
  accept, accept_in_tx, seat, open_if_missing, open_between, open_with, open_direct,
}
use tentserv_chat_server.Friends.Preserves.{create-Keeps, tolerated-Keeps}

-- `m` returns a value, whatever the service does.
record Succeeds {E A : Type 0} (m : M E A) : Type 0 where
  pub at : (s : State) → Ends (λ _ _. Unit) (λ _ _. ⊥) m s

module _ {E A : Type 0} where
  Succeeds-pure : (a : A) → Succeeds (pure {E = E} a)
  Succeeds-pure a = record { at = λ s. Ends-pure a s tt }

  Succeeds-bind :
      {B : Type 0} (m : M E B) (f : B → M E A)
      → Succeeds m
      → ((b : B) → Succeeds (f b))
      → Succeeds (m >>= f)
  Succeeds-bind m f hm hf = record {
    at = λ s. Ends-bind m f s (Ends-weaken (hm.at s) (λ b u _. (hf b).at u) (λ e u h. h));
  }

either_end :
    {E A : Type 0} (r : Result E A × State × Connection) → Post (λ _ _. Unit) (λ _ _. Unit) r
either_end (ok a, s, c) = tt
either_end (err e, s, c) = tt

any_end : {E A : Type 0} (m : M E A) (s : State) → Ends (λ _ _. Unit) (λ _ _. Unit) m s
any_end m s = record { at = λ c. either_end (m s c) }

Succeeds-attempt : {E F A : Type 0} (m : M E A) → Succeeds (attempt {F = F} m)
Succeeds-attempt m = record { at = λ s. Ends-attempt m s (any_end m s) }

ruleset succeeds_rules = (Succeeds-pure, Succeeds-bind, Succeeds-attempt)

seat-Succeeds : (p q : Participant) (r : Result DbError ChatRoom) → Succeeds (seat p q r)
unfolding seat
seat-Succeeds p q (ok r) = search succeeds_rules depth 20
seat-Succeeds p q (err e) = search succeeds_rules

open_if_missing-Succeeds :
    (p q : Participant) (r : Result DbError ChatRoom) → Succeeds (open_if_missing p q r)
unfolding open_if_missing
open_if_missing-Succeeds p q (ok r) = search succeeds_rules
open_if_missing-Succeeds p q (err not_found) = search (succeeds_rules, seat-Succeeds) depth 20
open_if_missing-Succeeds p q (err _) = search succeeds_rules

open_between-Succeeds :
    (p : Participant) (r : Result DbError Participant) → Succeeds (open_between p r)
unfolding open_between
open_between-Succeeds p (ok q) = search (succeeds_rules, open_if_missing-Succeeds) depth 20
open_between-Succeeds p (err e) = search succeeds_rules

open_with-Succeeds : (v : ℕ) (r : Result DbError Participant) → Succeeds (open_with v r)
unfolding open_with
open_with-Succeeds v (ok p) = search (succeeds_rules, open_between-Succeeds) depth 20
open_with-Succeeds v (err e) = search succeeds_rules

open_direct-Succeeds : (u v : ℕ) → Succeeds (open_direct u v)
unfolding open_direct
open_direct-Succeeds u v = search (succeeds_rules, open_with-Succeeds) depth 20

module _ (t : Tables) where
  Closes-commit_then :
      {E A : Type 0} (f : DbError → E) (m : M E A)
      → Succeeds m
      → Closes t (map_err f commit >>= λ _. m)
  Closes-commit_then f m h = record {
    at = λ s began.
        Ends-bind (map_err f commit) (λ _. m) s
          (Ends-map_err f commit s (
            Ends-commit s (Ends-weaken (h.at _) (λ _ _ _. tt) (λ e u no. elim no [ ]))
              (undone_twice t s began)));
  }

  accept_in_tx-Closes : (u id : ℕ) → Closes t (accept_in_tx u id)
  unfolding accept_in_tx Friendships.find_by_id Friendships.find_by_user_id_and_friend_id
  accept_in_tx-Closes u id =
      search
        (
          closes_rules,
          keeps_rules,
          (Began-Stable t).update_friendship,
          create-Keeps (Began-Stable t),
          tolerated-Keeps (Began-Stable t),
          Closes-commit_then,
          open_direct-Succeeds,
        )
        depth 30

-- When accepting a friendship request fails, every table is as it was before: no request is accepted
-- without its reverse row. No error comes from the direct room that is opened after the commit.
pub accept_failing :
    (u id : ℕ) (s : State) → Ends (λ _ _. Unit) (λ _ s'. s'.tables ≡ s.tables) (accept u id) s
unfolding accept
accept_failing u id s = Closes-in_tx _ _ s (λ t. accept_in_tx-Closes t u id)
