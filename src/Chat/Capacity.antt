-- ===== src/Chat/Capacity.antt =====
-- No room holds more active members than its limit.
use tentserv_chat_server.Prelude.{
  ℕ, ◌+◌, ◌≤◌, ◌<◌, ◌≡◌, ◌≢◌, refl, Bool, true, false, Option, List, [], ◌∷◌, ◌++◌, ◌⊎◌, inl,
  String, inr, ◌==◌, ◌&&◌, not, if◌then◌else◌, arith, any, update, count, All, Bool-cases,
  update-eq_of_none, any_none,
}
use tentserv_chat_server.Rows.{ChatMember, ChatRoom, Participant, Role}
use tentserv_chat_server.Db.{State}
use tentserv_chat_server.Repo.Participants.{with_detail}
use tentserv_chat_server.Repo.Members.{
  is_of, revived, fresh_member, upserted, rewritten, occupies, is_full, is_full_room, is_system,
}
use tentserv_chat_server.Chat.Membership.{OneEach}

-- The room has no limit, or its active members are within it. System participants do not count.
abbrev pub Fits : List Participant → List ChatMember → ChatRoom → Type 0
Fits ps ms r = (r.max_members ≡ 0) ⊎ (count (occupies r.id ps) ms ≤ r.max_members)

-- a participant that counts
abbrev counts : ℕ → Participant → Bool
counts p q = q.id == p && not (is_system q.kind)

any-counts-append :
    (p : ℕ) (x : Participant) (ps : List Participant)
    → p < x.id
    → any (counts p) (ps ++ x ∷ []) ≡ any (counts p) ps
any-counts-append p x [] h = ground arith
any-counts-append p x (q ∷ ps) h = ground (arith, any-counts-append p x ps h)

any-counts-attach :
    (p id : ℕ) (u a : Option ℕ) (d : Option String) (ps : List Participant)
    → any (counts p) (update (λ q. q.id == id) (with_detail u a d) ps) ≡ any (counts p) ps
any-counts-attach p id u a d [] = refl
any-counts-attach p id u a d (q ∷ ps) = ground (arith, any-counts-attach p id u a d ps)

-- The count depends on the participants only through the members' own.
pub count-occupies-append :
    (room : ℕ) (x : Participant) (ps : List Participant) (ms : List ChatMember)
    → All (λ m. m.participant_id < x.id) ms
    → count (occupies room (ps ++ x ∷ [])) ms ≡ count (occupies room ps) ms
count-occupies-append room x ps [] h = refl
count-occupies-append room x ps (m ∷ ms) h =
    ground
      (arith, any-counts-append m.participant_id x ps h.0, count-occupies-append room x ps ms h.1)

pub count-occupies-attach :
    (room id : ℕ) (u a : Option ℕ) (d : Option String) (ps : List Participant)
    (ms : List ChatMember)
    → count (occupies room (update (λ q. q.id == id) (with_detail u a d) ps)) ms
      ≡ count (occupies room ps) ms
count-occupies-attach room id u a d ps [] = refl
count-occupies-attach room id u a d ps (m ∷ ms) = ground (
  arith,
  any-counts-attach m.participant_id id u a d ps,
  count-occupies-attach room id u a d ps ms,
)

pub count-occupies-rewritten :
    (room id now : ℕ) (row : ChatMember) (ps : List Participant) (ms : List ChatMember)
    → count (occupies room ps) (update (λ m. m.id == id) (rewritten row now) ms)
      ≡ count (occupies room ps) ms
count-occupies-rewritten room id now row ps [] = refl
count-occupies-rewritten room id now row ps (m ∷ ms) =
    ground (arith, count-occupies-rewritten room id now row ps ms)

-- A room whose id no member names is empty.
pub count-occupies_unnamed :
    (room : ℕ) (ps : List Participant) (ms : List ChatMember)
    → All (λ m. m.room_id < room) ms
    → count (occupies room ps) ms ≡ 0
count-occupies_unnamed room ps [] h = refl
count-occupies_unnamed room ps (m ∷ ms) h = ground (arith, count-occupies_unnamed room ps ms h.1)

count-occupies-append_member :
    (room : ℕ) (ps : List Participant) (x : ChatMember) (ms : List ChatMember)
    → count (occupies room ps) (ms ++ x ∷ [])
      ≡ count (occupies room ps) ms + (if occupies room ps x then 1 else 0)
count-occupies-append_member room ps x [] = ground arith
count-occupies-append_member room ps x (m ∷ ms) =
    ground (arith, count-occupies-append_member room ps x ms)

others_none :
    (m : ChatMember) (room p : ℕ) (ms : List ChatMember)
    → is_of room p m ≡ true
    → any (is_of m.room_id m.participant_id) ms ≡ false
    → any (is_of room p) ms ≡ false
others_none m room p [] hit h = refl
others_none m room p (x ∷ ms) hit h = ground (arith, others_none m room p ms hit)

-- Reviving a membership adds one active member to its room at most,
count-occupies-revived :
    (room p now : ℕ) (ps : List Participant) (ms : List ChatMember)
    → OneEach ms
    → count (occupies room ps) (update (is_of room p) (revived now) ms)
      ≤ count (occupies room ps) ms + 1
count-occupies-revived room p now ps [] h = omega arith
count-occupies-revived room p now ps (m ∷ ms) h = elim (Bool-cases (is_of room p m)) [
  | inl hit ↦
      ground
        (arith, update-eq_of_none (is_of room p) (revived now) ms (others_none m room p ms hit h.0))
  | inr miss ↦ ground (arith, count-occupies-revived room p now ps ms h.1)
]

-- and none to any other room.
count-occupies-revived_ne :
    (other room p now : ℕ) (ps : List Participant) (ms : List ChatMember)
    → other ≢ room
    → count (occupies other ps) (update (is_of room p) (revived now) ms)
      ≡ count (occupies other ps) ms
count-occupies-revived_ne other room p now ps [] h = refl
count-occupies-revived_ne other room p now ps (m ∷ ms) h =
    ground (arith, count-occupies-revived_ne other room p now ps ms h)

module _ (room p : ℕ) (role : Role) (s : State) (ps : List Participant) where
  count-occupies-upserted :
      OneEach s.tables.members
      → count (occupies room ps) (upserted room p role s)
        ≤ count (occupies room ps) s.tables.members + 1
  count-occupies-upserted h = elim (Bool-cases (any (is_of room p) s.tables.members)) [
    | inl old ↦ rw old (count-occupies-revived room p s.now ps s.tables.members h)
    | inr new ↦ ground (
      arith,
      new,
      count-occupies-append_member room ps (fresh_member room p role s) s.tables.members,
    )
  ]

  count-occupies-upserted_ne :
      (other : ℕ)
      → other ≢ room
      → count (occupies other ps) (upserted room p role s)
        ≡ count (occupies other ps) s.tables.members
  count-occupies-upserted_ne other h = elim (Bool-cases (any (is_of room p) s.tables.members)) [
    | inl old ↦ rw old (count-occupies-revived_ne other room p s.now ps s.tables.members h)
    | inr new ↦ ground (
      arith,
      new,
      count-occupies-append_member other ps (fresh_member room p role s) s.tables.members,
    )
  ]

Fits-one :
    (ps : List Participant) (ms ms' : List ChatMember) (r : ChatRoom)
    → count (occupies r.id ps) ms' ≤ count (occupies r.id ps) ms + 1
    → is_full_room ps ms r ≡ false
    → Fits ps ms' r
Fits-one ps ms ms' r one space = elim (Bool-cases (r.max_members == 0)) [
  | inl free ↦ inl (ground (arith, free))
  | inr limited ↦ inr (ground (arith, limited, one, space))
]

Fits-here :
    (ps : List Participant) (ms ms' : List ChatMember) (room : ℕ) (r : ChatRoom)
    → count (occupies room ps) ms' ≤ count (occupies room ps) ms + 1
    → ((o : ℕ) → o ≢ room → count (occupies o ps) ms' ≡ count (occupies o ps) ms)
    → (r.id == room && is_full_room ps ms r) ≡ false
    → Fits ps ms r
    → Fits ps ms' r
Fits-here ps ms ms' room r one others space h = elim (Bool-cases (r.id == room)) [
  | inl here ↦
      let e : r.id ≡ room = ground (arith, here) in
      Fits-one ps ms ms' r (rw e one) (ground (arith, here, space))
  | inr away ↦ let e : r.id ≢ room = ground (arith, away) in rw (others r.id e) h
]

Fits-after_adding :
    (ps : List Participant) (ms ms' : List ChatMember) (room : ℕ)
    → count (occupies room ps) ms' ≤ count (occupies room ps) ms + 1
    → ((o : ℕ) → o ≢ room → count (occupies o ps) ms' ≡ count (occupies o ps) ms)
    → (rs : List ChatRoom) → any (λ r. r.id == room && is_full_room ps ms r) rs ≡ false
    → All (Fits ps ms) rs
    → All (Fits ps ms') rs
Fits-after_adding ps ms ms' room one others [] space h = tt
Fits-after_adding ps ms ms' room one others (r ∷ rs) space h =
    let apart = any_none (λ r. r.id == room && is_full_room ps ms r) r rs space in
    (
      Fits-here ps ms ms' room r one others apart.0 h.0,
      Fits-after_adding ps ms ms' room one others rs apart.1 h.1,
    )

pub upserted-Fits :
    (room p : ℕ) (role : Role) (s : State)
    → OneEach s.tables.members
    → is_full room s.tables ≡ false
    → All (Fits s.tables.participants s.tables.members) s.tables.rooms
    → All (Fits s.tables.participants (upserted room p role s)) s.tables.rooms
upserted-Fits room p role s each space h =
    Fits-after_adding s.tables.participants s.tables.members (upserted room p role s) room
      (count-occupies-upserted room p role s s.tables.participants each)
      (count-occupies-upserted_ne room p role s s.tables.participants) s.tables.rooms space h
