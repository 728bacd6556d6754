-- ===== src/Auth/Manager/LogOut.antt =====
-- RevokeAllForUser while the services answer.
use tentserv_chat_server.Prelude.{
  ℕ, ◌≡◌, refl, true, false, Option, none, some, Option-cases, ◌⊎◌, inl, inr, List, [], ◌∷◌, All,
  Row, arith, if◌then◌else◌, update, select,
}
use tentserv_chat_server.Db.{err}
use tentserv_chat_server.Auth.World.{
  SessionRecord, World, Platform, session_not_found, return, throw, or_error, try, advanced, call,
  ◌>>=◌, ◌>>◌, found_or, alive, set, get_access, get_id, delete_access, delete_id, asks,
}
use tentserv_chat_server.Auth.Rules.{Ends, Ends-bind, Ends-weaken}
use tentserv_chat_server.Auth.Sessions.{
  is_active, of_account, ids_of, revoked_row, find_active_ids_by_account_id, revoke_all_for_account,
}
use tentserv_chat_server.Auth.Manager.{
  hash_token, cached, find_by_token, drop_access, delete_by_session_id, delete_each,
  revoke_all_for_user,
}
use tentserv_chat_server.Auth.Manager.Life.{steady}

Gone : ℕ → World → Type 0
Gone h w = w.access h ≡ none

-- The index still leads from the id to the hash, or the hash has no entry any more.
Reaches : ℕ → ℕ → World → Type 0
Reaches i h w = (alive w.now (w.ids i) ≡ some h) ⊎ (w.access h ≡ none)

set_gone : {A : Type 0} (k h : ℕ) (f : ℕ → Option A) → f h ≡ none → set k none f h ≡ none
set_gone k h f e = ground (arith, e)

module _ (p : Platform) where
  one_Reaches :
      (i h j : ℕ) (w : World)
      → Reaches i h w
      → Ends (steady p) (λ _. Reaches i h) (λ _ _. ⊥) (delete_by_session_id j) w
  unfolding Reaches delete_by_session_id drop_access get_id delete_access delete_id return try call
      ◌>>=◌
  one_Reaches i h j w reaches = elim (Option-cases (alive w.now (w.ids j))) [
    | inl e ↦ record { post = rw e (ground (arith, reaches, e)) }
    | inr (k, e) ↦ record { post = rw e (ground (arith, reaches, e)) }
  ]

  one_Gone :
      (i h : ℕ) (w : World)
      → Reaches i h w
      → Ends (steady p) (λ _. Gone h) (λ _ _. ⊥) (delete_by_session_id i) w
  unfolding Gone Reaches delete_by_session_id drop_access get_id delete_access delete_id return try
      call ◌>>=◌
  one_Gone i h w reaches = elim (Option-cases (alive w.now (w.ids i))) [
    | inl e ↦ record { post = rw e (ground (arith, reaches, e)) }
    | inr (k, e) ↦ record { post = rw e (ground (arith, reaches, e)) }
  ]

  keeps-Gone :
      (h j : ℕ) (w : World)
      → Gone h w
      → Ends (steady p) (λ _. Gone h) (λ _ _. ⊥) (delete_by_session_id j) w
  unfolding Gone delete_by_session_id drop_access get_id delete_access delete_id return try call
      ◌>>=◌
  keeps-Gone h j w gone = elim (Option-cases (alive w.now (w.ids j))) [
    | inl e ↦ record { post = rw e gone }
    | inr (k, e) ↦ record { post = rw e (set_gone k h w.access gone) }
  ]

  each_Gone :
      (h : ℕ) (is : List ℕ) (w : World)
      → Gone h w
      → Ends (steady p) (λ _. Gone h) (λ _ _. ⊥) (delete_each is) w
  unfolding delete_each return
  each_Gone h [] w gone = record { post = gone }
  each_Gone h (j ∷ js) w gone =
      Ends-bind (delete_by_session_id j) (λ _. delete_each js) w
        (Ends-weaken (keeps-Gone h j w gone) (λ _ v gone'. each_Gone h js v gone')
          (λ _ _ never. never))

  each_Reaches :
      (i h : ℕ) (is : List ℕ) (w : World)
      → Row i is
      → Reaches i h w
      → Ends (steady p) (λ _. Gone h) (λ _ _. ⊥) (delete_each is) w
  unfolding delete_each
  each_Reaches i h [] w at reaches = elim at [ ]
  each_Reaches i h (j ∷ js) w (inl e) reaches =
      Ends-bind (delete_by_session_id j) (λ _. delete_each js) w
        (Ends-weaken (one_Gone j h w (rw e reaches)) (λ _ v gone. each_Gone h js v gone)
          (λ _ _ never. never))
  each_Reaches i h (j ∷ js) w (inr at) reaches =
      Ends-bind (delete_by_session_id j) (λ _. delete_each js) w
        (Ends-weaken (one_Reaches i h j w reaches)
          (λ _ v reaches'. each_Reaches i h js v at reaches') (λ _ _ never. never))

update_revokes :
    (account : ℕ) (rows : List SessionRecord)
    → All
        (λ r. r.account_id ≡ account → r.revoked ≡ true)
        (update (of_account account) revoked_row rows)
update_revokes account [] = tt
update_revokes account (r ∷ rs) = (ground arith, update_revokes account rs)

module _ (p : Platform) (token account : ℕ) where
  -- The token finds no session, and every row of the account is revoked.
  pub record LoggedOut (w : World) : Type 0 where
    pub unknown : (find_by_token token (steady p) w).0 ≡ err session_not_found
    pub revoked : All (λ r. r.account_id ≡ account → r.revoked ≡ true) w.sessions

  find-Gone :
      (w : World)
      → Gone (p.hash token) w
      → (find_by_token token (steady p) w).0 ≡ err session_not_found
  unfolding Gone find_by_token hash_token cached get_access found_or return throw asks or_error call
      ◌>>=◌
  find-Gone w gone = rw gone refl

  marked :
      (w : World)
      → Gone (p.hash token) w
      → Ends (steady p) (λ _. LoggedOut) (λ _ _. ⊥) (revoke_all_for_account account) w
  unfolding revoke_all_for_account call Gone
  marked w gone = record {
    post = record {
      unknown = find-Gone (revoke_all_for_account account (steady p) w).1 gone;
      revoked = update_revokes account w.sessions;
    };
  }

  listed :
      (i : ℕ) (w : World)
      → Row i (
          ids_of
            (select (λ r. if of_account account r then is_active w.now r else false) w.sessions))
      → Reaches i (p.hash token) w
      → Ends
          (steady p)
          (λ is.
            Ends
              (steady p)
              (λ _. LoggedOut)
              (λ _ _. ⊥)
              (delete_each is >> revoke_all_for_account account))
          (λ _ _. ⊥)
          (find_active_ids_by_account_id account)
          w
  unfolding find_active_ids_by_account_id call Reaches
  listed i w at reaches = record {
    post =
        Ends-bind (delete_each active) (λ _. revoke_all_for_account account) (advanced w)
          (Ends-weaken (each_Reaches p i (p.hash token) active (advanced w) at reaches)
            (λ _ v gone. marked v gone) (λ _ _ never. never));
  }
    where
      active : List ℕ
      active =
          ids_of
            (select (λ r. if of_account account r then is_active w.now r else false) w.sessions)

  -- Where the services answer every call, and the index in the cache leads from the id of an unrevoked,
  -- unexpired session of the account to the hash of an access token: RevokeAllForUser of the account
  -- succeeds, after it the token finds no session, and every row of the account is revoked.
  pub revoke_all_for_user_lem :
      (i : ℕ) (w : World)
      → Row i (
          ids_of
            (select (λ r. if of_account account r then is_active w.now r else false) w.sessions))
      → alive w.now (w.ids i) ≡ some (p.hash token)
      → Ends (steady p) (λ _. LoggedOut) (λ _ _. ⊥) (revoke_all_for_user account) w
  unfolding revoke_all_for_user Reaches
  revoke_all_for_user_lem i w at indexed =
      Ends-bind (find_active_ids_by_account_id account)
        (λ is. delete_each is >> revoke_all_for_account account) w (listed i w at (inl indexed))
