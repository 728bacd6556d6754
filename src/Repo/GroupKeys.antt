-- ===== src/Repo/GroupKeys.antt =====
-- The sender keys, distributions and key requests of internal/infrastructure/persistence/postgres/e2ee, with
-- the unique columns of dev-doc/sql/postgres_e2ee.sql.
use tentserv_chat_server.Prelude.{
  ℕ, ◌+◌, Bool, true, false, not, ◌&&◌, Option, none, some, List, [], ◌∷◌, ◌++◌, if◌then◌else◌,
  ◌==◌, ltb, leb, select, update, any, length, map,
}
use tentserv_chat_server.Rows.{ChatMember, SenderKey, Distribution, KeyRequest}
use tentserv_chat_server.Db.{
  Tables, State, DbError, duplicate_key, failed, ok, err, M, pure, ◌>>=◌, ◌>>◌, require, statement,
  scan_one, scan_all, exec,
}

abbrev pub is_by : ℕ → SenderKey → Bool
is_by m k = k.chat_member_id == m

-- ORDER BY chain_id DESC: no key of the member has a greater chain id
abbrev pub is_latest : List SenderKey → ℕ → SenderKey → Bool
is_latest ks m k =
    if is_by m k then not (any (λ j. is_by m j && ltb k.chain_id j.chain_id) ks) else false

-- toSenderKeyDomain
abbrev pub is_sender_key : SenderKey → Bool
is_sender_key k = length k.sender_key_public == 32

-- FindLatest
unfoldable pub find_latest : ℕ → M DbError SenderKey
find_latest m = do
  k ← scan_one (λ t. select (is_latest t.sender_keys m) t.sender_keys)
  require (is_sender_key k) failed
  pure k

abbrev pub is_by_one_of : List ℕ → SenderKey → Bool
is_by_one_of ms k = any (λ m. is_by m k) ms

-- FindAllByMembers
unfoldable pub find_all_by_members : List ℕ → M DbError (List SenderKey)
find_all_by_members [] = pure []
find_all_by_members (m ∷ ms) = do
  ks ← scan_all (λ t. select (is_by_one_of (m ∷ ms)) t.sender_keys)
  require (not (any (λ k. not (is_sender_key k)) ks)) failed
  pure ks

-- Add: (chat_member_id, chain_id) is unique
abbrev pub has_chain : ℕ → ℕ → SenderKey → Bool
has_chain m c k = if is_by m k then k.chain_id == c else false

abbrev pub stored_sender_key : SenderKey → State → SenderKey
stored_sender_key k s = record k { id = s.next.sender_key; created_at = s.now }

unfoldable pub add_sender_key : SenderKey → M DbError Unit
add_sender_key k = statement λ n s.
    if any (has_chain k.chat_member_id k.chain_id) s.tables.sender_keys
    then err duplicate_key
    else ok (
      tt,
      record s {
        tables = record s.tables {
          sender_keys = s.tables.sender_keys ++ stored_sender_key k s ∷ [];
        };
        next = record s.next { sender_key = s.next.sender_key + 1 };
      },
    )

abbrev pub is_between : ℕ → ℕ → Distribution → Bool
is_between sender receiver d = d.sender_member_id == sender && d.receiver_member_id == receiver

-- ON CONFLICT DO UPDATE refuses to touch one row twice
abbrev pub repeats : List Distribution → Bool
repeats [] = false
repeats (d ∷ ds) =
    if any (is_between d.sender_member_id d.receiver_member_id) ds then true else repeats ds

abbrev pub greatest : ℕ → ℕ → ℕ
greatest a b = if ltb a b then b else a

abbrev pub distributed : Distribution → State → State
distributed d s =
    if any (is_between d.sender_member_id d.receiver_member_id) s.tables.distributions
    then record s {
      tables = record s.tables {
        distributions =
            update (is_between d.sender_member_id d.receiver_member_id)
              (λ o. record o { chain_id = greatest d.chain_id o.chain_id; distributed_at = s.now })
              s.tables.distributions;
      };
    }
    else record s {
      tables = record s.tables {
        distributions =
            s.tables.distributions
            ++ record d { id = s.next.distribution; distributed_at = s.now } ∷ [];
      };
      next = record s.next { distribution = s.next.distribution + 1 };
    }

abbrev pub distributed_all : List Distribution → State → State
distributed_all [] s = s
distributed_all (d ∷ ds) s = distributed_all ds (distributed d s)

-- UpsertBatch
unfoldable pub upsert_batch : List Distribution → M DbError Unit
upsert_batch [] = pure tt
upsert_batch (d ∷ ds) =
    statement (λ n s. if repeats (d ∷ ds) then err failed else ok (tt, distributed_all (d ∷ ds) s))

-- the members of the sender's room that have not fetched the chain
abbrev pub awaits_chain : Tables → ℕ → ℕ → ChatMember → Bool
awaits_chain t sender chain m =
    any (λ s. s.id == sender && s.room_id == m.room_id) t.members
    && not (m.id == sender)
    && not m.is_deleted
    && not (any (λ d. is_between sender m.id d && leb chain d.chain_id) t.distributions)

-- FindPendingReceivers
unfoldable pub find_pending_receivers : ℕ → ℕ → M DbError (List ℕ)
find_pending_receivers sender chain =
    scan_all (λ t. map (λ m. m.id) (select (awaits_chain t sender chain) t.members))

abbrev pub is_from : ℕ → ℕ → KeyRequest → Bool
is_from requester provider r =
    r.requester_member_id == requester && r.provider_member_id == provider

-- Upsert
unfoldable pub upsert_request : ℕ → ℕ → M DbError Unit
upsert_request requester provider = statement λ n s.
    if any (is_from requester provider) s.tables.key_requests
    then ok (
      tt,
      record s {
        tables = record s.tables {
          key_requests =
              update (is_from requester provider)
                (λ r. record r { fulfilled_at = none; created_at = s.now }) s.tables.key_requests;
        };
      },
    )
    else ok (
      tt,
      record s {
        tables = record s.tables {
          key_requests =
              s.tables.key_requests
              ++ record {
                id = s.next.key_request;
                requester_member_id = requester;
                provider_member_id = provider;
                created_at = s.now;
                fulfilled_at = none;
              }
                ∷ [];
        };
        next = record s.next { key_request = s.next.key_request + 1 };
      },
    )

abbrev pub is_open : Option ℕ → Bool
is_open none = true
is_open (some t) = false

-- FindPendingByProvider
unfoldable pub find_pending_by_provider : ℕ → M DbError (List KeyRequest)
find_pending_by_provider provider =
    scan_all
      (λ t. select (λ r. r.provider_member_id == provider && is_open r.fulfilled_at) t.key_requests)

-- MarkFulfilled
unfoldable pub mark_fulfilled : ℕ → ℕ → M DbError Unit
mark_fulfilled requester provider = exec (λ now t. record t {
  key_requests =
      update (λ r. is_from requester provider r && is_open r.fulfilled_at)
        (λ r. record r { fulfilled_at = some now }) t.key_requests;
})
