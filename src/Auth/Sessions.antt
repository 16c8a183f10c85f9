-- ===== src/Auth/Sessions.antt =====
-- auth/session.py: the sessions of `SessionStore`: a value for each session, and a set of ids for
-- each user. Redis is a parameter; the ids that the code draws come in. `get_session_store` makes a
-- client with `decode_responses=False`, so that the members of a set come back as bytes.
pub mod Sorting
pub mod Limit
pub mod Ending
mod Examples
use Prim.Native.String.{◌++◌ as str_append, compare}
use Prim.Native.Nat.{Ordering}
use oc_piloci.Prelude.{
  ℕ, ◌+◌, ◌-◌, ◌≡◌, Option, none, some, List, [], ◌∷◌, map, Bool, true, false, ◌&&◌, String, ◌==◌,
  leb, if◌then◌else◌, length, take, drop, contains, Distinct,
}
use oc_piloci.Auth.Redis.{Redis}

pub record Session : Type 0 where
  pub user_id : String
  pub created_at : ℕ
  pub ip : String
  pub user_agent : String
  pub is_admin : Bool
  pub approval_status : String

-- The bytes of a text in UTF-8.
pub record Bytes : Type 0 where
  pub text : String

-- What a text is sent as.
abbrev pub utf8 : String → Bytes
utf8 s = record { text = s }

-- What an f-string makes of bytes. The ids are hexadecimal (`secrets.token_hex`), which Python writes
-- without an escape.
abbrev pub format : Bytes → String
format b = str_append "b'" (str_append b.text "'")

abbrev pub texts : List Bytes → List String
texts ids = map (λ b. b.text) ids

-- The commands on sets.
pub record Sets (S : Type 0) : Type 0 where
  pub scard : S → String → ℕ
  pub smembers : S → String → List Bytes
  pub sadd : S → String → Bytes → S
  pub srem : S → String → Bytes → S
  pub delete : S → String → S

-- What Redis documents of SCARD, SMEMBERS, SADD, SREM and DEL.
pub record IsSets {S : Type 0} (sets : Sets S) : Type 0 where
  pub scard_lem : (s : S) (k : String) → sets.scard s k ≡ length (sets.smembers s k)
  pub smembers-Distinct : (s : S) (k : String) → Distinct (texts (sets.smembers s k))
  pub smembers-sadd :
      (s : S) (k k' y : String) (b : Bytes)
      → contains y (texts (sets.smembers (sets.sadd s k b) k'))
        ≡ (if (k == k') && (b.text == y) then true else contains y (texts (sets.smembers s k')))
  pub smembers-srem :
      (s : S) (k k' y : String) (b : Bytes)
      → contains y (texts (sets.smembers (sets.srem s k b) k'))
        ≡ (if (k == k') && (b.text == y) then false else contains y (texts (sets.smembers s k')))
  pub smembers-delete :
      (s : S) (k k' y : String)
      → contains y (texts (sets.smembers (sets.delete s k) k'))
        ≡ (if k == k' then false else contains y (texts (sets.smembers s k')))

pub record SessionStore (R S : Type 0) : Type 0 where
  pub values : R
  pub sets : S

abbrev pub session_key : String → String
session_key id = str_append "session:" id

abbrev pub user_sessions_key : String → String
user_sessions_key user_id = str_append "user_sessions:" user_id

-- Python's order of bytes, which for these ids is that of the texts.
abbrev pub leb_bytes : Bytes → Bytes → Bool
leb_bytes a b = elim (compare a.text b.text) [ Ordering.gt ↦ false | _ ↦ true ]

module _ {A : Type 0} (le : A → A → Bool) where
  unfoldable pub insert_sorted : A → List A → List A
  insert_sorted x [] = x ∷ []
  insert_sorted x (y ∷ ys) =
      let rest = insert_sorted x ys in if le x y then x ∷ y ∷ ys else y ∷ rest

  -- A stable sort.
  unfoldable pub sorted : List A → List A
  sorted [] = []
  sorted (x ∷ xs) = insert_sorted x (sorted xs)

abbrev pub older : Bytes × ℕ → Bytes × ℕ → Bool
older a b = leb a.1 b.1

module _ {R S : Type 0} (redis : Redis R Session) (sets : Sets S) where
  -- The ids with the times of their sessions; an id without a session goes.
  unfoldable pub gather :
      String → ℕ → List Bytes → SessionStore R S → SessionStore R S × List (Bytes × ℕ)
  gather user_id now [] s = (s, [])
  gather user_id now (sid ∷ ids) s = elim (redis.get s.values now (session_key (format sid))) [
    | none ↦
        gather user_id now ids
          (record s { sets = sets.srem s.sets (user_sessions_key user_id) sid })
    | some session ↦
        ((gather user_id now ids s).0, (sid, session.created_at) ∷ (gather user_id now ids s).1)
  ]

  unfoldable pub evict : String → List (Bytes × ℕ) → SessionStore R S → SessionStore R S
  evict user_id [] s = s
  evict user_id ((sid, created_at) ∷ sessions) s = evict user_id sessions (record s {
    values = redis.delete s.values (session_key (format sid));
    sets = sets.srem s.sets (user_sessions_key user_id) sid;
  })

  -- `_enforce_session_limit`
  unfoldable pub enforce_session_limit : ℕ → String → ℕ → SessionStore R S → SessionStore R S
  enforce_session_limit max_sessions user_id now s =
      let ids = sets.smembers s.sets (user_sessions_key user_id) in
      if leb (sets.scard s.sets (user_sessions_key user_id)) max_sessions
      then s
      else if leb (length ids) max_sessions
      then s
      else (let gathered = gather user_id now (sorted leb_bytes ids) s in
          let sessions = sorted older gathered.1 in
          evict user_id (take (length sessions - max_sessions) sessions) gathered.0)

  -- With the id that the code draws; `ttl` and the limit are the settings'.
  unfoldable pub create_session : ℕ → ℕ → Session → String → ℕ → SessionStore R S → SessionStore R S
  create_session ttl max_sessions session session_id now s =
      enforce_session_limit max_sessions session.user_id now (record s {
        values = redis.set s.values now (session_key session_id) session ttl;
        sets = sets.sadd s.sets (user_sessions_key session.user_id) (utf8 session_id);
      })

  unfoldable pub get_session : String → ℕ → SessionStore R S → Option Session
  get_session session_id now s = redis.get s.values now (session_key session_id)

  unfoldable pub delete_session : String → String → SessionStore R S → SessionStore R S
  delete_session session_id user_id s = record s {
    values = redis.delete s.values (session_key session_id);
    sets = sets.srem s.sets (user_sessions_key user_id) (utf8 session_id);
  }

  abbrev pub get_user_sessions : String → SessionStore R S → List String
  get_user_sessions user_id s = texts (sets.smembers s.sets (user_sessions_key user_id))

  unfoldable pub delete_all : List String → R → R
  delete_all [] values = values
  delete_all (sid ∷ ids) values = delete_all ids (redis.delete values (session_key sid))

  unfoldable pub delete_all_user_sessions : String → SessionStore R S → SessionStore R S
  delete_all_user_sessions user_id s = elim (get_user_sessions user_id s) [
    | [] ↦ s
    | id ∷ ids ↦ record s {
      values = delete_all (id ∷ ids) s.values;
      sets = sets.delete s.sets (user_sessions_key user_id);
    }
  ]
