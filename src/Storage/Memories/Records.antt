-- ===== src/Storage/Memories/Records.antt =====
-- storage/lancedb_store.py: the rows of the table of memories, what the store takes and returns, and
-- the checks of ids and tags that go into a filter.
use oc_piloci.Prelude.{
  ℕ, zero, suc, leb, ◌=?◌, Option, none, some, List, [], ◌∷◌, Bool, true, false, not, ◌&&◌, ◌||◌,
  String, ◌==◌, if◌then◌else◌, Result, ok, err, ◌>>=◌, contains, insert, lookup,
}
use Prim.Native.Char.{code}

pub data StoreError : Type 0 where
  invalid_id invalid_tag : StoreError

pub record Row (V : Type 0) : Type 0 where
  pub memory_id : String
  pub user_id : String
  pub project_id : String
  pub scope : String
  pub team_id : Option String
  pub content : String
  pub tags : List String
  pub metadata : String
  pub created_at : ℕ
  pub updated_at : ℕ
  pub vector : V

-- A Python dict of JSON values.
abbrev pub Meta : Type 0 → Type 0
Meta J = List (String × J)

pub record Codec (J : Type 0) : Type 0 where
  -- `orjson.loads`, `none` where it raises; the table holds only what `dumps` wrote of a dict.
  pub loads : String → Option (Meta J)
  pub dumps : Meta J → String
  -- A text as a JSON value, the text that a value is, and whether a value counts as true.
  pub text : String → J
  pub text_of : J → Option String
  pub is_truthy : J → Bool

-- `j == text`
abbrev pub is_text : {J : Type 0} → Codec J → String → J → Bool
is_text codec s j = elim (codec.text_of j) [ none ↦ false | some v ↦ v == s ]

-- What a read returns.
pub record Memory (J : Type 0) : Type 0 where
  pub id : String
  pub user_id : String
  pub project_id : String
  pub scope : String
  pub team_id : Option String
  pub content : String
  pub tags : List String
  pub metadata : Meta J
  pub created_at : ℕ
  pub updated_at : ℕ

pub record MemoryWrite (V J : Type 0) : Type 0 where
  pub content : String
  pub vector : V
  pub tags : List String
  pub metadata : Meta J

-- The optional arguments of an update.
pub record Patch (V J : Type 0) : Type 0 where
  pub content : Option String
  pub new_vector : Option V
  pub tags : Option (List String)
  pub metadata : Option (Meta J)

-- `_PERSONAL_TEAM_SENTINEL`
abbrev pub personal : String
personal = "__personal__"

abbrev pub codes : String → List ℕ
codes String.[] = []
codes (String.◌∷◌ c s) = code c ∷ codes s

unfoldable pub is_id_char : ℕ → Bool
is_id_char c =
    (leb b'A' c && leb c b'Z')
    || (leb b'a' c && leb c b'z')
    || (leb b'0' c && leb c b'9')
    || (c =? b'_')
    || (c =? b'-')

-- Characters of an id, or one last line feed, which `$` lets pass.
unfoldable pub id_rest : List ℕ → Bool
unfolding is_id_char
id_rest [] = true
id_rest (c ∷ []) = is_id_char c || (c =? 10)
id_rest (c ∷ d ∷ cs) = is_id_char c && id_rest (d ∷ cs)

-- `_SAFE_ID_RE`
unfoldable pub is_safe_id : List ℕ → Bool
unfolding id_rest is_id_char
is_safe_id [] = false
is_safe_id (c ∷ cs) = is_id_char c && id_rest cs

unfoldable pub safe_id : String → Result StoreError String
safe_id value = if is_safe_id (codes value) then ok value else err invalid_id

unfoldable pub is_tag_char : ℕ → Bool
is_tag_char c = not ((c =? 39) || (c =? 0) || (c =? 13) || (c =? 10))

-- At most `n` characters of a tag, or one last line feed after them.
unfoldable pub tag_rest : ℕ → List ℕ → Bool
unfolding is_tag_char
tag_rest n [] = true
tag_rest zero (c ∷ []) = c =? 10
tag_rest (suc n) (c ∷ []) = is_tag_char c || (c =? 10)
tag_rest zero (c ∷ d ∷ cs) = false
tag_rest (suc n) (c ∷ d ∷ cs) = is_tag_char c && tag_rest n (d ∷ cs)

-- `_SAFE_TAG_RE`
unfoldable pub is_safe_tag : List ℕ → Bool
unfolding tag_rest is_tag_char
is_safe_tag [] = false
is_safe_tag (c ∷ cs) = is_tag_char c && tag_rest 79 cs

-- `_safe_tag`, for each tag of a filter.
unfoldable pub safe_tags : List String → Result StoreError (List String)
safe_tags [] = ok []
safe_tags (tag ∷ tags) = do
  r ← if is_safe_tag (codes tag) then ok tag else err invalid_tag
  rest ← safe_tags tags
  ok (r ∷ rest)

abbrev pub given {ℓ} : {A : Type ℓ} → A → Option A → A
given a none = a
given a (some b) = b

abbrev pub is_none {ℓ} : {A : Type ℓ} → Option A → Bool
is_none none = true
is_none (some a) = false

abbrev pub ids_of : {V J : Type 0} → List (String × MemoryWrite V J) → List String
ids_of [] = []
ids_of ((memory_id, m) ∷ memories) = memory_id ∷ ids_of memories

module _ {V : Type 0} where
  -- `team_id = '…'`, which no NULL meets.
  abbrev pub of_team : String → Row V → Bool
  of_team team_id r = elim r.team_id [ none ↦ false | some t ↦ t == team_id ]

  abbrev pub is_personal : String → String → Row V → Bool
  is_personal user_id project_id r =
      (r.user_id == user_id) && ((r.project_id == project_id) && of_team personal r)

  abbrev pub has_id : String → Row V → Bool
  has_id memory_id r = r.memory_id == memory_id

  -- `list_contains(tags, '…')` for each tag.
  abbrev pub has_tags : List String → Row V → Bool
  has_tags [] r = true
  has_tags (tag ∷ tags) r = contains tag r.tags && has_tags tags r

module _ {J : Type 0} where
  -- `{**a, **b}`
  unfoldable pub merged : Meta J → Meta J → Meta J
  merged a [] = a
  merged a ((k, v) ∷ b) = merged (insert k v a) b

  -- `meta.setdefault(k, v)`
  abbrev pub setdefault : String → J → Meta J → Meta J
  setdefault k v meta = elim (lookup k meta) [ none ↦ insert k v meta | some w ↦ meta ]
