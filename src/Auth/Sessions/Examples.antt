-- ===== src/Auth/Sessions/Examples.antt =====
-- A store with two old sessions of one user, and sets that are functions from keys to lists.
use Prim.Native.String.{◌++◌ as str_append}
use Prim.Native.Char.{Char, code}
use text.Mathlib.TextLemmas.{append_assoc}
use oc_piloci.Prelude.{
  map, some, ◌≢◌, ◌<◌, ℕ, ◌≡◌, refl, sym, ◌∙◌, ap, Option, none, List, [], ◌∷◌, ◌++◌, Bool, true,
  false, String, ◌==◌, if◌then◌else◌, length, contains, remove, Distinct, arith, eq_iff, Bool-cases,
  inl, inr, contains-append, contains-remove, remove-Distinct, append-Distinct,
}
use oc_piloci.Auth.Redis.{not_equal, first_char, append_iff}
use oc_piloci.Auth.Redis.Memory.{memory, memory-IsRedis}
use oc_piloci.Auth.Sessions.{
  Session, Sets, IsSets, SessionStore, utf8, texts, session_key, user_sessions_key, get_session,
  get_user_sessions, create_session, delete_all_user_sessions,
}
use oc_piloci.Auth.Sessions.Limit.{Unseen, create_session-forgets}

record Ids : Type 0 where
  ids : List String
  once : Distinct ids

added_by : (x : String) (i : Ids) (b : Bool) → contains x i.ids ≡ b → Ids
added_by x i true e = i
added_by x i false e = record { ids = i.ids ++ x ∷ []; once = append-Distinct x i.ids i.once e }

added : String → Ids → Ids
added x i = added_by x i (contains x i.ids) refl

abbrev plain_sets : Sets (String → Ids)
plain_sets = record {
  scard = λ s k. length (map utf8 (s k).ids);
  smembers = λ s k. map utf8 (s k).ids;
  sadd = λ s k b j. if k == j then added b.text (s j) else s j;
  srem = λ s k b j.
      if k == j
      then record {
        ids = remove b.text (s j).ids;
        once = remove-Distinct b.text (s j).ids (s j).once;
      }
      else s j;
  delete = λ s k j. if k == j then record { ids = []; once = tt } else s j;
}

texts-utf8 : (xs : List String) → texts (map utf8 xs) ≡ xs
texts-utf8 [] = refl
texts-utf8 (x ∷ xs) = ap (◌∷◌ x) (texts-utf8 xs)

contains-added :
    (x y : String) (xs : List String)
    → contains y (xs ++ x ∷ []) ≡ (if x == y then true else contains y xs)
unfolding contains
contains-added x y xs = contains-append y xs (x ∷ []) ∙ ground arith

added_by_lem :
    (x y : String) (i : Ids) (b : Bool) (e : contains x i.ids ≡ b)
    → contains y (added_by x i b e).ids ≡ (if x == y then true else contains y i.ids)
unfolding added_by
added_by_lem x y i true e = elim (Bool-cases (x == y)) [
  | inl f ↦ rw f (ap (λ z. contains z i.ids) (sym ((eq_iff x y).0 f)) ∙ e)
  | inr f ↦ rw f refl
]
added_by_lem x y i false e = contains-added x y i.ids

plain_sets-IsSets : IsSets plain_sets
unfolding contains added
plain_sets-IsSets = record {
  scard_lem = λ s k. refl;
  smembers-Distinct = λ s k. rw (texts-utf8 (s k).ids) (s k).once;
  smembers-sadd = λ s k k' y b. rw (texts-utf8 (s k').ids) (elim (Bool-cases (k == k')) [
    | inl e ↦
        rw (e, texts-utf8 (added b.text (s k')).ids)
          (added_by_lem b.text y (s k') (contains b.text (s k').ids) refl)
    | inr e ↦ rw (e, texts-utf8 (s k').ids) refl
  ]);
  smembers-srem = λ s k k' y b. rw (texts-utf8 (s k').ids) (elim (Bool-cases (k == k')) [
    | inl e ↦
        rw (e, texts-utf8 (remove b.text (s k').ids))
          (contains-remove b.text y (s k').ids (s k').once)
    | inr e ↦ rw (e, texts-utf8 (s k').ids) refl
  ]);
  smembers-delete =
      λ s k k' y. elim (Bool-cases (k == k')) [ inl e ↦ rw e refl | inr e ↦ rw e refl ];
}

abbrev session : ℕ → Session
session now = record {
  user_id = "ann";
  created_at = now;
  ip = "";
  user_agent = "";
  is_admin = false;
  approval_status = "approved";
}

unfoldable two_ids : Ids
unfolding contains
two_ids = record { ids = "1f" ∷ "2f" ∷ []; once = (refl, (refl, tt)) }

abbrev two_sessions : SessionStore (String → Option (Session × ℕ)) (String → Ids)
two_sessions = record {
  values =
      memory.set (memory.set (λ k. none) 10 (session_key "1f") (session 10) 900) 20
        (session_key "2f") (session 20) 900;
  sets = λ k. if k == user_sessions_key "ann" then two_ids else record { ids = []; once = tt };
}

-- A text that starts with another letter does not start with b'.
digit_first :
    (c : Char) (rest x : String)
    → code c ≢ code "b"
    → (str_append (String.◌∷◌ c String.[]) rest == str_append "b'" x) ≡ false
digit_first c rest x n =
    not_equal _ _
      (λ e. n (ap code (first_char c "b" rest (str_append "'" x) (e ∙ append_assoc "b" "'" x))))

two_sessions-Unseen : Unseen memory plain_sets plain_sets-IsSets "ann" 30 two_sessions.values
two_sessions-Unseen x =
    rw
      (
        append_iff "session:" "2f" (str_append "b'" x),
        append_iff "session:" "1f" (str_append "b'" x),
        digit_first "2" "f" x (omega arith),
        digit_first "1" "f" x (omega arith),
      )
      refl

three :
    2
    < plain_sets.scard
        (plain_sets.sadd two_sessions.sets (user_sessions_key "ann") (utf8 "3f"))
        (user_sessions_key "ann")
unfolding added added_by contains two_ids
three = omega arith

create_session-forgets_example :
    ((id : String)
      → get_session memory plain_sets id 30
          (create_session memory plain_sets 900 2 (session 30) "3f" 30 two_sessions)
        ≡ (if "3f" == id
            then some (session 30)
            else get_session memory plain_sets id 30 two_sessions))
    × (get_user_sessions memory plain_sets "ann"
          (create_session memory plain_sets 900 2 (session 30) "3f" 30 two_sessions)
        ≡ [])
    × (delete_all_user_sessions memory plain_sets "ann"
          (create_session memory plain_sets 900 2 (session 30) "3f" 30 two_sessions)
        ≡ create_session memory plain_sets 900 2 (session 30) "3f" 30 two_sessions)
create_session-forgets_example =
    create_session-forgets memory plain_sets memory-IsRedis plain_sets-IsSets 900 2 (session 30)
      "3f" 30 two_sessions (omega arith) two_sessions-Unseen
      (λ x. digit_first "3" "f" x (omega arith)) three
