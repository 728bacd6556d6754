-- ===== src/Lib.antt =====
-- The core of the tentserv chat server: rooms, memberships, invitations, messages, friendships and
-- encryption keys over their Postgres repositories, the sessions, the rate limits, the queue of pushed
-- messages, and the WebSocket hub that delivers them.
--
-- The parts and how they interact:
--   * Rows: the entities of internal/domain (participant, chatroom, chatmember, chatinvitation,
--     chatmessage, friendship, the keys of end-to-end encryption, users and agents), as rows of the
--     tables of dev-doc/sql.
--   * Db: the tables with one open transaction (unit_of_work.go, base_repo.go and postgres_util.go of
--     internal/infrastructure/persistence/postgres). A repository call is a function of the state and
--     the connection, and returns a value or an error. Db.Rules is a program logic for such calls, and
--     Db.Keeps its rules for invariants.
--   * Repo: one module for each repository of internal/infrastructure/persistence/postgres/chat and
--     .../friendship, one function for each of its methods, and the lookups by id of users and agents.
--     Repo.Stable is the interface that the invariants use: what survives every write. Repo.Everywhere
--     gives it for a property of the tables. Repo.Found and Repo.Written are the rules for lookups and
--     writes.
--   * Chat: the use cases of internal/application/chat/usecase, one module for each `Execute`:
--     CreateRoom, Join, Approve, Respond, Send (with MediaPath, the check on the content of media
--     messages), Participation, Reading, Overview (the detail of a room) and Invited (the invitation
--     that concerns the caller). Admission is what Approve and Respond do alike. Chat.System composes
--     the chat and friendship use cases that write into a step relation.
--   * Friends: the use cases of internal/application/friendship/usecase; Lists has those that read.
--   * Ws: the hub and the send buffers of internal/interface/ws. The handlers of the hub's loop are not
--     interrupted; the sends of SendToUser come one by one between them.
--   * E2ee: the use cases of internal/application/e2ee/usecase on identity keys, signed prekeys
--     (Prekeys) and sender keys (SenderKeys), over Repo.Keys and Repo.GroupKeys, which are
--     internal/infrastructure/persistence/postgres/e2ee. Base64, uuid.Parse and the key verifier are
--     the parameter Crypto. A goroutine that such a use case starts is run at its end.
--   * Auth: the session manager of internal/infrastructure/auth/session (Manager), over the rows of
--     internal/infrastructure/persistence/postgres/session (Sessions) and the cache of
--     internal/infrastructure/redis/cache.go (World). Manager.History composes its operations, the
--     goroutines that FindByToken starts, Refreshes that overlap and the passing of time into
--     histories. The random tokens, the hash of them and which calls fail are parameters
--     (World.Platform). Tokens and hashes are numbers. What encoding/json writes to the cache is taken
--     to be read back as it was.
--   * Push: the delivery queue (Queue, of internal/infrastructure/persistence/postgres/deliveryqueue),
--     and the dispatcher and retry scheduler of internal/infrastructure/push with the acknowledgements
--     of the hub (Attempts): each goroutine of a push is an entry of a list, and Step does the next
--     statement of any of them. Instants of the queue are seconds.
--   * Limits: the rate limiter of internal/infrastructure/shared/security over the counters of
--     internal/infrastructure/redis/security, with the two calls of CheckIP apart. Its instants are
--     microseconds, and what go-redis makes of the duration of EXPIRE is a parameter.
--   * Tests: runs on small databases, hubs, queues and counters.
--
-- The service is a parameter: Db.Connection holds a function that says for each statement whether it
-- fails or is answered, and which of several matching rows comes first. Every theorem on a use case
-- holds for every such function. Inside a transaction, a statement that fails makes the service refuse
-- the later ones, and the commit then undoes the transaction. A read sees the transaction's own writes;
-- transactions do not interleave with each other. Identifiers come from sequences, which a rollback
-- does not set back. The trigger `limit_member_of_room`, the references of memberships, the unique
-- columns of memberships, participants and friendships, and the enumerated types of rooms and messages
-- are written out from dev-doc/sql; of other references, such as that of a reply, the model asks
-- nothing.
--
-- Ids, user ids and instants are natural numbers, with no bound: 64-bit wrap-around is out of reach of
-- the code, which does no arithmetic on them. `MaxMembers` is not negative. Content is its bytes. No
-- function of the model runs on fuel: loops are structural recursion on lists.
--
-- Not modelled: concurrent transactions, the interleaving of the calls within the other operations of
-- the session manager and within one push, the JSON payloads, the log, the network calls of the pumps,
-- the order of the rows that a query without ORDER BY answers, where it answers with many (they come in
-- the order of the table), the in-place shift of a list that a SendToUser has copied, the list of
-- rooms, the media upload, one-time prekeys and key bundles, the notification of a key's provider, and
-- the other parts of the server (accounts, login and registration, devices, email, Ollama and HTTP),
-- which are left for later work or are calls of other services.
pub mod Prelude
pub mod Rows
pub mod Db
pub mod Repo
pub mod Chat
pub mod Friends
pub mod Ws
pub mod Auth
pub mod Push
pub mod Limits
pub mod E2ee
pub mod Tests
