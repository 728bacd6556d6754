-- ===== src/Chat/System/Sound.antt =====
-- The memberships in every reachable state.
use tentserv_chat_server.Prelude.{◌≡◌, none}
use tentserv_chat_server.Db.{State}
use tentserv_chat_server.Repo.Everywhere.{Everywhere-Stable, Everywhere-Transactional}
use tentserv_chat_server.Chat.Soundness.{IsSound, IsSound-Invariant}
use tentserv_chat_server.Chat.System.{Reach}
use tentserv_chat_server.Chat.System.Reachable.{Reach-Keeps}

-- Start from sound tables with no transaction open: after any requests, by any users and with any
-- failures of the service, the tables are sound. There is one membership at most for each room and
-- participant, every room and participant id and every reference of a membership is below the next id,
-- and no room with a limit has more active members than it allows, system participants left out.
pub Reach-IsSound :
    (s s' : State)
    → s.saved ≡ none
    → IsSound s.tables s.next
    → Reach s s'
    → IsSound s'.tables s'.next
Reach-IsSound s s' idle h r =
    (Reach-Keeps (Everywhere-Stable IsSound-Invariant) (Everywhere-Transactional IsSound)
      (λ t d k. k) r (h, rw idle tt)).0
