-- ===== src/Auth/Sessions/Limit.antt =====
-- What `_enforce_session_limit` does once a user has more sessions than the limit: it looks for each
-- session under a key made of bytes.
use Prim.Native.String.{◌++◌ as str_append}
use oc_piloci.Prelude.{
  ℕ, zero, suc, take, ◌-◌, ◌+◌, ◌≤◌, ◌<◌, ltb, ◌≡◌, refl, sym, ◌∙◌, ap, none, some, List, [], ◌∷◌,
  true, false, not, ◌&&◌, String, ◌==◌, leb, if◌then◌else◌, length, contains, arith, eq_refl,
}
use oc_piloci.Auth.Redis.{Redis, IsRedis, append_iff}
use oc_piloci.Auth.Sessions.{
  Session, Bytes, utf8, texts, Sets, IsSets, SessionStore, session_key, user_sessions_key, sorted,
  leb_bytes, older, gather, evict, enforce_session_limit, create_session, delete_all_user_sessions,
  get_session, get_user_sessions,
}
use oc_piloci.Auth.Sessions.Sorting.{contains-sorted}

module _ {R S : Type 0} (redis : Redis R Session) (sets : Sets S) (set_laws : IsSets sets)
    (user_id : String) where
  -- No session is kept under a key that starts with session:b'.
  abbrev pub Unseen : ℕ → R → Type 0
  Unseen now values = (x : String) → redis.get values now (session_key (str_append "b'" x)) ≡ none

  gather-Unseen :
      (now : ℕ) (ids : List Bytes) (s : SessionStore R S)
      → Unseen now s.values
      → ((gather redis sets user_id now ids s).1 ≡ [])
        × ((gather redis sets user_id now ids s).0.values ≡ s.values)
        × ((y : String)
            → contains y
                (get_user_sessions redis sets user_id (gather redis sets user_id now ids s).0)
              ≡ contains y (get_user_sessions redis sets user_id s) && not (contains y (texts ids)))
  unfolding gather contains
  gather-Unseen now [] s h = (refl, refl, λ y. ground arith)
  gather-Unseen now (b ∷ ids) s h =
      let s' : SessionStore R S = record s {
        sets = sets.srem s.sets (user_sessions_key user_id) b;
      } in
      let rest = gather-Unseen now ids s' h in
      rw (h (str_append b.text "'"), gather)
        (
          rest.0,
          rest.1,
          λ y.
              rest.2 y
              ∙ ground (
                arith,
                set_laws.smembers-srem s.sets (user_sessions_key user_id)
                    (user_sessions_key user_id) y b,
                eq_refl (user_sessions_key user_id),
              ),
        )

  empty : (xs : List String) → ((y : String) → contains y xs ≡ false) → xs ≡ []
  unfolding contains
  empty [] h = refl
  empty (x ∷ xs) h = absurd (ground (arith, h x, eq_refl x))

  sorted-gone :
      (y : String) (members : List Bytes)
      → contains y (texts members) && not (contains y (texts (sorted leb_bytes members))) ≡ false
  sorted-gone y members = ground (arith, contains-sorted leb_bytes (λ b. b.text) y members)

  nothing_excess : (n : ℕ) → take n (sorted older []) ≡ []
  unfolding sorted
  nothing_excess zero = refl
  nothing_excess (suc n) = refl

  enforce-Unseen :
      (max_sessions now : ℕ) (s : SessionStore R S)
      → Unseen now s.values
      → leb (sets.scard s.sets (user_sessions_key user_id)) max_sessions ≡ false
      → ((enforce_session_limit redis sets max_sessions user_id now s).values ≡ s.values)
        × (get_user_sessions redis sets user_id
              (enforce_session_limit redis sets max_sessions user_id now s)
            ≡ [])
  unfolding enforce_session_limit evict sorted
  enforce-Unseen max_sessions now s h e =
      let members : List Bytes = sets.smembers s.sets (user_sessions_key user_id) in
      let gathered = gather-Unseen now (sorted leb_bytes members) s h in
      let longer : leb (length members) max_sessions ≡ false =
        ap (λ n. leb n max_sessions) (sym (set_laws.scard_lem s.sets (user_sessions_key user_id)))
        ∙ e in
      rw
        (
          e,
          longer,
          gathered.0,
          nothing_excess (length (sorted older []) - max_sessions),
          enforce_session_limit,
        )
        (gathered.1, empty _ (λ y. gathered.2 y ∙ sorted-gone y members))

module _ {R S : Type 0} (redis : Redis R Session) (sets : Sets S) (laws : IsRedis redis)
    (set_laws : IsSets sets) where
  -- With one session more than the limit, where no id starts with b': making a session
  -- ends no session, the set of the user's ids is empty, and ending all sessions of the user then
  -- ends none.
  pub create_session-forgets :
      (ttl max_sessions : ℕ) (session : Session) (session_id : String) (now : ℕ)
      (s : SessionStore R S)
      → 1 ≤ ttl
      → Unseen redis sets set_laws session.user_id now s.values
      → ((x : String) → (session_id == str_append "b'" x) ≡ false)
      → max_sessions
        < sets.scard
            (sets.sadd s.sets (user_sessions_key session.user_id) (utf8 session_id))
            (user_sessions_key session.user_id)
      → ((id : String)
          → get_session redis sets id now
              (create_session redis sets ttl max_sessions session session_id now s)
            ≡ (if session_id == id then some session else get_session redis sets id now s))
        × (get_user_sessions redis sets session.user_id
              (create_session redis sets ttl max_sessions session session_id now s)
            ≡ [])
        × (delete_all_user_sessions redis sets session.user_id
              (create_session redis sets ttl max_sessions session session_id now s)
            ≡ create_session redis sets ttl max_sessions session session_id now s)
  unfolding create_session get_session delete_all_user_sessions
  create_session-forgets ttl max_sessions session session_id now s live unseen plain more =
      let made : SessionStore R S = record {
        values = redis.set s.values now (session_key session_id) session ttl;
        sets = sets.sadd s.sets (user_sessions_key session.user_id) (utf8 session_id);
      } in
      let kept =
        enforce-Unseen redis sets set_laws session.user_id max_sessions now made
          (λ x.
            laws.get-set s.values now now (session_key session_id) (session_key (str_append "b'" x))
              session ttl (omega arith)
            ∙ rw (append_iff "session:" session_id (str_append "b'" x), plain x) (unseen x))
          (ground (arith, more)) in
      (
        λ id.
            ap (λ v. redis.get v now (session_key id)) kept.0
            ∙ laws.get-set s.values now now (session_key session_id) (session_key id) session ttl
                (omega arith)
            ∙ rw (append_iff "session:" session_id id, in_time) refl,
        kept.1,
        rw (kept.1, delete_all_user_sessions) refl,
      )
    where
      in_time : ltb now (now + ttl) ≡ true
      in_time = ground (arith, live)
