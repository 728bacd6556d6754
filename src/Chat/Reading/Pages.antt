-- ===== src/Chat/Reading/Pages.antt =====
-- What a page of messages shows (internal/application/chat/usecase/get_chat_room_messages.go).
use mathlib.Core.List.{reverse_aux}
use tentserv_chat_server.Prelude.{
  ℕ, zero, suc, ◌+◌, ◌≡◌, ◌≤◌, refl, Bool, true, false, List, [], ◌∷◌, ◌==◌, ◌&&◌, not, leb, ltb,
  if◌then◌else◌, arith, length, select, take, drop, map, reverse, All, All-weaken, Row, inl, inr,
}
use tentserv_chat_server.Rows.{ChatMember, ChatMessage}
use tentserv_chat_server.Db.{State}
use tentserv_chat_server.Db.Rules.{
  Ends, Ends-if, Ends-bind, Ends-call, Ends-pure, Ends-scan_all, Ends-map_err, Ends-weaken,
}
use tentserv_chat_server.Repo.Members
use tentserv_chat_server.Repo.Messages
use tentserv_chat_server.Repo.Messages.{order_desc, insert_desc}
use tentserv_chat_server.Chat.Send.Delivered.{Belongs, Ends-active_membership}
use tentserv_chat_server.Chat.Reading.{
  MessageInfo, page_limit, page_rows, page_of, info_of, get_messages,
}

module _ {A : Type 0} where
  length-take : (n : ℕ) (xs : List A) → length (take n xs) ≤ n
  length-take zero xs = omega arith
  length-take (suc n) [] = omega arith
  length-take (suc n) (x ∷ xs) = omega (arith, length-take n xs)

  length-reverse_aux : (xs r : List A) → length (reverse_aux xs r) ≡ length xs + length r
  length-reverse_aux [] r = omega arith
  length-reverse_aux (x ∷ xs) r = omega (arith, length-reverse_aux xs (x ∷ r))

  length-select : (p : A → Bool) (xs : List A) → length (select p xs) ≤ length xs
  length-select p [] = omega arith
  length-select p (x ∷ xs) = ground (arith, length-select p xs)

length-map : {A B : Type 0} (f : A → B) (xs : List A) → length (map f xs) ≡ length xs
length-map f [] = refl
length-map f (x ∷ xs) = omega (arith, length-map f xs)

module _ {A : Type 0} (P : A → Type 0) where
  All-take : (n : ℕ) (xs : List A) → All P xs → All P (take n xs)
  All-take zero xs h = tt
  All-take (suc n) [] h = tt
  All-take (suc n) (x ∷ xs) h = (h.0, All-take n xs h.1)

  All-drop : (n : ℕ) (xs : List A) → All P xs → All P (drop n xs)
  All-drop zero xs h = h
  All-drop (suc n) [] h = tt
  All-drop (suc n) (x ∷ xs) h = All-drop n xs h.1

  All-reverse_aux : (xs r : List A) → All P xs → All P r → All P (reverse_aux xs r)
  All-reverse_aux [] r h k = k
  All-reverse_aux (x ∷ xs) r h k = All-reverse_aux xs (x ∷ r) h.1 (h.0, k)

  All-map :
      {B : Type 0} (Q : B → Type 0) (f : A → B) (xs : List A)
      → ((x : A) → P x → Q (f x))
      → All P xs
      → All Q (map f xs)
  All-map Q f [] g h = tt
  All-map Q f (x ∷ xs) g h = (g x h.0, All-map Q f xs g h.1)

  -- The rows that a selection keeps pass its test.
  All-select : (p : A → Bool) (xs : List A) → All P xs → All (λ x. P x × (p x ≡ true)) (select p xs)
  All-select p [] h = tt
  All-select p (x ∷ xs) h = kept (p x) refl (All-select p xs h.1)
    where
      kept :
          (b : Bool)
          → p x ≡ b
          → All (λ x. P x × (p x ≡ true)) (select p xs)
          → All (λ x. P x × (p x ≡ true)) (if b then x ∷ select p xs else select p xs)
      kept true e r = ((h.0, e), r)
      kept false e r = r

module _ (P : ChatMessage → Type 0) (key : ChatMessage → ℕ) where
  All-insert_desc :
      (m : ChatMessage) (xs : List ChatMessage) → P m → All P xs → All P (insert_desc key m xs)
  unfolding insert_desc
  All-insert_desc m [] h k = (h, tt)
  All-insert_desc m (x ∷ xs) h k = placed (leb (key x) (key m)) (All-insert_desc m xs h k.1)
    where
      placed :
          (b : Bool)
          → All P (insert_desc key m xs)
          → All P (if b then m ∷ x ∷ xs else x ∷ insert_desc key m xs)
      placed true r = (h, k)
      placed false r = (k.0, r)

  All-order_desc : (xs : List ChatMessage) → All P xs → All P (order_desc key xs)
  unfolding order_desc
  All-order_desc [] h = tt
  All-order_desc (x ∷ xs) h = All-insert_desc x (order_desc key xs) h.0 (All-order_desc xs h.1)

All-rows : (xs : List ChatMessage) → All (λ m. Row m xs) xs
All-rows [] = tt
All-rows (x ∷ xs) = (inl refl, All-weaken (λ m at. inr at) xs (All-rows xs))

-- a message of the room
abbrev pub Belonging : ℕ → State → ChatMessage → Type 0
Belonging room s m = Row m s.tables.messages × ((m.room_id == room) ≡ true)

-- an item of a page, and the message that it shows
abbrev pub Shown : ℕ → State → MessageInfo → Type 0
Shown room s i =
    (m : ChatMessage) × Row m s.tables.messages
    × ((m.room_id == room) ≡ true)
    × (not m.is_deleted ≡ true)
    × (i.message_id ≡ m.id)
    × (i.content ≡ m.content)

page_limit_lem : (asked : ℕ) → page_limit asked ≤ 100
unfolding page_limit
page_limit_lem asked = ground arith

-- The rows of a page are messages of the room, and no more than asked for.
abbrev pub IsPage : ℕ → ℕ → State → List ChatMessage → Type 0
IsPage room limit s rows = All (Belonging room s) rows × (length rows ≤ limit)

in_room :
    (room : ℕ) (s : State) (p : ChatMessage → Bool)
    → ((m : ChatMessage) → p m ≡ true → (m.room_id == room) ≡ true)
    → All (Belonging room s) (select p s.tables.messages)
in_room room s p h =
    All-weaken (λ m k. (k.0, h m k.1)) (select p s.tables.messages)
      (All-select (λ m. Row m s.tables.messages) p s.tables.messages (All-rows s.tables.messages))

module _ (room limit : ℕ) (s : State) (rows : List ChatMessage)
    (h : All (Belonging room s) rows) where
  taken-IsPage :
      (key : ChatMessage → ℕ) → IsPage room limit s (reverse (take limit (order_desc key rows)))
  taken-IsPage key = (
    All-reverse_aux (Belonging room s) (take limit (order_desc key rows)) []
        (All-take (Belonging room s) limit (order_desc key rows)
          (All-order_desc (Belonging room s) key rows h))
        tt,
    omega (
      arith,
      length-reverse_aux (take limit (order_desc key rows)) [],
      length-take limit (order_desc key rows),
    ),
  )

pub newest-IsPage :
    (room limit : ℕ) (s : State)
    → IsPage room limit s (
        reverse (
          take limit
            (order_desc (λ m. m.created_at) (select (λ m. m.room_id == room) s.tables.messages))))
newest-IsPage room limit s =
    taken-IsPage room limit s (select (λ m. m.room_id == room) s.tables.messages)
      (in_room room s (λ m. m.room_id == room) (λ m e. e)) (λ m. m.created_at)

page_rows_lem :
    (room before limit : ℕ) (s : State)
    → Ends
        (λ rows s'. (s' ≡ s) × IsPage room limit s rows)
        (λ _ s'. s' ≡ s)
        (page_rows room before limit)
        s
unfolding page_rows Messages.find_by_room Messages.find_by_room_before
page_rows_lem room before limit s =
    Ends-if {b = before == 0}
      (λ _.
        Ends-call _ _ _ s
          (Ends-scan_all _ s (Ends-pure _ s (refl, newest-IsPage room limit s)) refl))
      (λ _. Ends-map_err _ _ s (
        Ends-bind _ _ s (
          Ends-scan_all _ s
            (Ends-pure _ s (
              refl,
              (taken-IsPage room limit s
                  (select (λ m. m.room_id == room && not m.is_deleted && ltb m.id before)
                    s.tables.messages)
                  (in_room room s (λ m. m.room_id == room && not m.is_deleted && ltb m.id before)
                    (λ m e. ground (arith, e)))
                  (λ m. m.id)),
            ))
            refl)))

pub page_of_lem :
    (room limit : ℕ) (s : State) (members : List ChatMember) (rows : List ChatMessage)
    → IsPage room limit s rows
    → All (Shown room s) (page_of members rows limit).messages
      × (length (page_of members rows limit).messages ≤ limit)
page_of_lem room limit s members rows h = (
  All-map (λ m. Belonging room s m × (not m.is_deleted ≡ true)) (Shown room s) (info_of members)
      (select (λ m. not m.is_deleted) rows) (λ m k. (m, k.0.0, k.0.1, k.1, refl, refl))
      (All-select (Belonging room s) (λ m. not m.is_deleted) rows h.0),
  omega (
    arith,
    length-map (info_of members) (select (λ m. not m.is_deleted) rows),
    length-select (λ m. not m.is_deleted) rows,
    h.1,
  ),
)

-- A page is read only by a user with a membership of the room that is not deleted, and reading changes
-- nothing. Whatever number of messages is asked for, the page has 100 at most, and each of its items
-- shows a stored message of the room that is not deleted.
pub get_messages_lem :
    (u room before asked : ℕ) (s : State)
    → Ends
        (λ page s'.
          (s' ≡ s)
          × ((m : ChatMember) × Belongs u room s.tables m)
          × All (Shown room s) page.messages
          × (length page.messages ≤ 100))
        (λ _ s'. s' ≡ s)
        (get_messages u room before asked)
        s
unfolding get_messages Members.find_by_room
get_messages_lem u room before asked s = Ends-bind _ _ s (
    Ends-active_membership u room s
      (λ m belongs. Ends-call _ _ _ s (
        Ends-scan_all _ s
          (Ends-bind _ _ s (
            Ends-weaken (page_rows_lem room before (page_limit asked) s)
              (λ rows t h.
                let shown =
                  page_of_lem room (page_limit asked) s
                    (select (λ m. m.room_id == room) s.tables.members) rows h.1 in
                Ends-pure _ t
                  (h.0, (m, belongs), shown.0, omega (arith, shown.1, page_limit_lem asked)))
              (λ e t h. h)))
          refl))
      (λ _. refl))
