-- ===== src/Repo/Participants.antt =====
-- internal/infrastructure/persistence/postgres/chat/participant_repo.go
use text.Mathlib.Text.{◌==◌ as str_eq}
use tentserv_chat_server.Prelude.{
  ℕ, ◌+◌, String, Bool, false, Option, none, some, [], ◌∷◌, ◌++◌, map, ◌==◌, if◌then◌else◌, refers,
  select, update, any,
}
use tentserv_chat_server.Rows.{Participant, ParticipantType, user, agent, system}
use tentserv_chat_server.Db.{
  State, DbError, already_exists, failed, ok, err, M, ◌>>=◌, ◌>>◌, pure, raise, statement, scan_one,
}

-- FindByID
unfoldable pub find_by_id : ℕ → M DbError Participant
find_by_id id = scan_one (λ t. select (λ p. p.id == id) t.participants)

-- the columns that the other lookups answer with
abbrev pub bare_user : Participant → Participant
bare_user p = record p { agent_id = none; system_type = none }

-- FindByUserID
unfoldable pub find_by_user_id : ℕ → M DbError Participant
find_by_user_id u = scan_one (λ t. map bare_user (select (λ p. refers p.user_id u) t.participants))

abbrev bare_agent : Participant → Participant
bare_agent p = record p { user_id = none; system_type = none }

-- FindByAgentID
unfoldable find_by_agent_id : ℕ → M DbError Participant
find_by_agent_id a =
    scan_one (λ t. map bare_agent (select (λ p. refers p.agent_id a) t.participants))

-- The row that `INSERT INTO participants` adds: it has no details yet.
abbrev pub fresh_participant : ParticipantType → State → Participant
fresh_participant kind s = record {
  id = s.next.participant;
  kind = kind;
  user_id = none;
  agent_id = none;
  system_type = none;
  created_at = s.now;
}

unfoldable pub insert_participant : ParticipantType → M DbError Participant
insert_participant kind = statement λ k s. ok (
  fresh_participant kind s,
  record s {
    tables = record s.tables {
      participants = s.tables.participants ++ fresh_participant kind s ∷ [];
    };
    next = record s.next { participant = s.next.participant + 1 };
  },
)

-- the detail columns that an insert into one of the join tables sets
abbrev pub with_detail : Option ℕ → Option ℕ → Option String → Participant → Participant
with_detail u a t p = record p { user_id = u; agent_id = a; system_type = t }

-- An insert into a join table. `taken` says which rows break its unique column; the violation is
-- reported as participant.ErrAlreadyExists.
unfoldable pub attach :
    ℕ → (Participant → Bool) → Option ℕ → Option ℕ → Option String → M DbError Unit
attach id taken u a t = statement λ k s.
    if any taken s.tables.participants
    then err already_exists
    else ok (
      tt,
      record s {
        tables = record s.tables {
          participants = update (λ p. p.id == id) (with_detail u a t) s.tables.participants;
        };
      },
    )

-- Create: the type decides which join table gets the detail, which must be there.
unfoldable pub create_detail :
    ParticipantType → Option ℕ → Option ℕ → Option String → ℕ → M DbError Unit
unfolding attach
create_detail user (some u) a t id = attach id (λ p. refers p.user_id u) (some u) none none
create_detail agent u (some a) t id = attach id (λ p. refers p.agent_id a) none (some a) none
create_detail system u a (some t) id = attach id (λ p. false) none none (some t)
create_detail _ u a t id = raise failed

unfoldable pub create : Participant → M DbError Participant
unfolding insert_participant create_detail attach
create p = do
  row ← insert_participant p.kind
  create_detail p.kind p.user_id p.agent_id p.system_type row.id
  pure (record p { id = row.id; created_at = row.created_at })

abbrev has_system_type : String → Participant → Bool
has_system_type kind p = elim p.system_type [ none ↦ false | some t ↦ str_eq t kind ]

abbrev bare_system : Participant → Participant
bare_system p = record p { user_id = none; agent_id = none }

-- FindSystemByType
unfoldable find_system_by_type : String → M DbError Participant
find_system_by_type kind =
    scan_one (λ t. map bare_system (select (has_system_type kind) t.participants))
