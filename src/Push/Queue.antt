-- ===== src/Push/Queue.antt =====
-- internal/infrastructure/persistence/postgres/deliveryqueue/repo.go
use tentserv_chat_server.Prelude.{
  ℕ, ◌+◌, Bool, true, false, Option, none, some, List, [], ◌∷◌, ◌++◌, if◌then◌else◌, ◌==◌, ltb,
  update, select, any,
}
use tentserv_chat_server.Db.{Result, ok, err}

pub data Status : Type 0 where
  pending delivered : Status

-- A row of delivery_queue; a payload type and a payload are their bytes.
pub record Delivery : Type 0 where
  pub id : ℕ
  pub user_id : ℕ
  pub payload_type : List ℕ
  pub payload : List ℕ
  pub status : Status
  pub created_at : ℕ
  pub delivered_at : Option ℕ

pub record Queue : Type 0 where
  pub rows : List Delivery
  pub next_id : ℕ
  pub now : ℕ

pub data QueueError : Type 0 where
  item_not_found service_error : QueueError

abbrev pub is_pending : Delivery → Bool
is_pending d = elim d.status [ pending ↦ true | delivered ↦ false ]

abbrev pub has_id : ℕ → Delivery → Bool
has_id i d = d.id == i

-- Whether the service answers comes first in each call: a refused statement changes nothing.
abbrev pub new_item : ℕ → List ℕ → List ℕ → Queue → Delivery
new_item user type payload q = record {
  id = q.next_id;
  user_id = user;
  payload_type = type;
  payload = payload;
  status = pending;
  created_at = q.now;
  delivered_at = none;
}

unfoldable pub enqueue : Bool → ℕ → List ℕ → List ℕ → Queue → Result QueueError Delivery × Queue
enqueue false user type payload q = (err service_error, q)
enqueue true user type payload q =
    let item = new_item user type payload q in
    (ok item, record q { rows = q.rows ++ item ∷ []; next_id = q.next_id + 1 })

abbrev pub marked : ℕ → Delivery → Delivery
marked now d = record d { status = delivered; delivered_at = some now }

unfoldable pub mark_delivered : Bool → ℕ → Queue → Result QueueError Unit × Queue
mark_delivered false i q = (err service_error, q)
mark_delivered true i q = (
  if any (has_id i) q.rows then ok tt else err item_not_found,
  record q { rows = update (has_id i) (marked q.now) q.rows },
)

-- `created_at < now - age`, and pending
abbrev pub is_overdue : ℕ → ℕ → Delivery → Bool
is_overdue now age d = if is_pending d then ltb (d.created_at + age) now else false

unfoldable pub find_pending_older_than : Bool → ℕ → Queue → Result QueueError (List Delivery)
find_pending_older_than false age q = err service_error
find_pending_older_than true age q = ok (select (is_overdue q.now age) q.rows)
