-- ===== src/Auth/Sessions/Ending.antt =====
-- The end of sessions: one, or all of a user.
use oc_piloci.Prelude.{
  ℕ, ◌≡◌, refl, ◌∙◌, ap, none, List, [], ◌∷◌, false, String, if◌then◌else◌, contains, arith,
  eq_refl,
}
use oc_piloci.Auth.Redis.{Redis, IsRedis, append_iff}
use oc_piloci.Auth.Sessions.{
  Session, Sets, IsSets, SessionStore, session_key, user_sessions_key, get_session,
  get_user_sessions, delete_all, delete_all_user_sessions,
}

module _ {R S : Type 0} (redis : Redis R Session) (sets : Sets S) (laws : IsRedis redis)
    (set_laws : IsSets sets) where
  get-delete_all :
      (now : ℕ) (id : String) (ids : List String) (values : R)
      → redis.get (delete_all redis sets ids values) now (session_key id)
        ≡ (if contains id ids then none else redis.get values now (session_key id))
  unfolding delete_all contains
  get-delete_all now id [] values = refl
  get-delete_all now id (sid ∷ ids) values =
      get-delete_all now id ids (redis.delete values (session_key sid))
      ∙ ground (
        arith,
        laws.get-delete values now (session_key sid) (session_key id),
        append_iff "session:" sid id,
      )

  -- After all sessions of a user are ended, none of the ids that the user had leads to a session, at
  -- any time, the user has no ids, and every other id leads where it led.
  pub get-delete_all_user_sessions :
      (user_id id : String) (now : ℕ) (s : SessionStore R S)
      → (get_session redis sets id now (delete_all_user_sessions redis sets user_id s) ≡ (
          if contains id (get_user_sessions redis sets user_id s)
          then none
          else get_session redis sets id now s))
        × (contains id
              (get_user_sessions redis sets user_id (delete_all_user_sessions redis sets user_id s))
            ≡ false)
  unfolding get_session delete_all_user_sessions contains
  get-delete_all_user_sessions user_id id now s =
      by_ids (get_user_sessions redis sets user_id s) refl
    where
      by_ids :
          (ids : List String)
          → get_user_sessions redis sets user_id s ≡ ids
          → (get_session redis sets id now (delete_all_user_sessions redis sets user_id s) ≡ (
              if contains id (get_user_sessions redis sets user_id s)
              then none
              else get_session redis sets id now s))
            × (contains id (
                  get_user_sessions redis sets user_id
                    (delete_all_user_sessions redis sets user_id s))
                ≡ false)
      by_ids [] e = rw (e, delete_all_user_sessions) (refl, ap (contains id) e)
      by_ids (i ∷ ids) e =
          rw (e, delete_all_user_sessions)
            (
              get-delete_all now id (i ∷ ids) s.values,
              set_laws.smembers-delete s.sets (user_sessions_key user_id)
                    (user_sessions_key user_id) id
                  ∙ rw (eq_refl (user_sessions_key user_id)) refl,
            )
