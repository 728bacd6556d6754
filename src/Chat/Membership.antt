-- ===== src/Chat/Membership.antt =====
-- The table of memberships stays sound: one row per room and participant, and no room with more active
-- members than its limit.
use tentserv_chat_server.Prelude.{
  ℕ, ◌≡◌, refl, true, false, List, [], ◌∷◌, ◌++◌, inl, inr, ◌==◌, if◌then◌else◌, arith, any, update,
  Bool-cases,
}
use tentserv_chat_server.Rows.{ChatMember, Role}
use tentserv_chat_server.Db.{State}
use tentserv_chat_server.Repo.Members.{is_of, revived, fresh_member, upserted, rewritten}

-- No two rows are of one room and one participant.
abbrev pub OneEach : List ChatMember → Type 0
OneEach [] = Unit
OneEach (m ∷ ms) = (any (is_of m.room_id m.participant_id) ms ≡ false) × OneEach ms

any-is_of-revived :
    (room p room' p' now : ℕ) (ms : List ChatMember)
    → any (is_of room p) (update (is_of room' p') (revived now) ms) ≡ any (is_of room p) ms
any-is_of-revived room p room' p' now [] = refl
any-is_of-revived room p room' p' now (m ∷ ms) =
    ground (arith, any-is_of-revived room p room' p' now ms)

any-is_of-rewritten :
    (room p id now : ℕ) (row : ChatMember) (ms : List ChatMember)
    → any (is_of room p) (update (λ m. m.id == id) (rewritten row now) ms) ≡ any (is_of room p) ms
any-is_of-rewritten room p id now row [] = refl
any-is_of-rewritten room p id now row (m ∷ ms) =
    ground (arith, any-is_of-rewritten room p id now row ms)

any-is_of-append :
    (room p : ℕ) (x : ChatMember) (ms : List ChatMember)
    → any (is_of room p) (ms ++ x ∷ []) ≡ (if any (is_of room p) ms then true else is_of room p x)
any-is_of-append room p x [] = ground arith
any-is_of-append room p x (m ∷ ms) = ground (arith, any-is_of-append room p x ms)

revived-OneEach :
    (room p now : ℕ) (ms : List ChatMember)
    → OneEach ms
    → OneEach (update (is_of room p) (revived now) ms)
revived-OneEach room p now [] h = tt
revived-OneEach room p now (m ∷ ms) h = ground (
  arith,
  any-is_of-revived m.room_id m.participant_id room p now ms,
  revived-OneEach room p now ms h.1,
)

pub rewritten-OneEach :
    (id now : ℕ) (row : ChatMember) (ms : List ChatMember)
    → OneEach ms
    → OneEach (update (λ m. m.id == id) (rewritten row now) ms)
rewritten-OneEach id now row [] h = tt
rewritten-OneEach id now row (m ∷ ms) h = ground (
  arith,
  any-is_of-rewritten m.room_id m.participant_id id now row ms,
  rewritten-OneEach id now row ms h.1,
)

append-OneEach :
    (x : ChatMember) (ms : List ChatMember)
    → any (is_of x.room_id x.participant_id) ms ≡ false
    → OneEach ms
    → OneEach (ms ++ x ∷ [])
append-OneEach x [] fresh h = (refl, tt)
append-OneEach x (m ∷ ms) fresh h =
    ground (arith, any-is_of-append m.room_id m.participant_id x ms, append-OneEach x ms)

pub upserted-OneEach :
    (room p : ℕ) (role : Role) (s : State)
    → OneEach s.tables.members
    → OneEach (upserted room p role s)
upserted-OneEach room p role s h = elim (Bool-cases (any (is_of room p) s.tables.members)) [
  | inl old ↦ rw old (revived-OneEach room p s.now s.tables.members h)
  | inr new ↦ rw new (append-OneEach (fresh_member room p role s) s.tables.members new h)
]
