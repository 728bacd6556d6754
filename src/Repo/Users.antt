-- ===== src/Repo/Users.antt =====
-- internal/infrastructure/persistence/postgres/user and .../agent: the lookups by id. A row that the mapper
-- of agents refuses is a lookup that fails, as a statement of the service can.
use tentserv_chat_server.Prelude.{ℕ, String, List, map, ◌==◌, select}
use tentserv_chat_server.Rows.{User, Agent}
use tentserv_chat_server.Db.{DbError, M, pure, ◌>>=◌, scan_one, scan_all}

-- findRoleCodes
unfoldable pub find_role_codes : ℕ → M DbError (List String)
find_role_codes u = scan_all (λ t. map (λ r. r.code) (select (λ r. r.user_id == u) t.user_roles))

-- UserRepository.FindByID, whose answer has the role codes too
unfoldable pub find_by_id : ℕ → M DbError (User × List String)
unfolding find_role_codes
find_by_id u = do
  user ← scan_one (λ t. select (λ x. x.id == u) t.users)
  codes ← find_role_codes user.id
  pure (user, codes)

-- AgentRepository.FindByID
unfoldable pub find_agent : ℕ → M DbError Agent
find_agent a = scan_one (λ t. select (λ x. x.id == a) t.agents)
