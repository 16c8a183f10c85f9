-- ===== src/Storage/Cache.antt =====
-- storage/cache.py: the LRU cache of text embeddings. The vectors are values of any type.
-- Each method returns the exception that Python would raise, or its result with the new cache.
pub mod Recency
pub mod Runs
use oc_piloci.Prelude.{
  ℕ, String, Option, none, some, List, [], ◌∷◌, ◌++◌, length, lookup, insert, erase, contains,
  remove, leb, if◌then◌else◌, Result, ok, err, ◌>>=◌,
}

-- What `list.remove`, `list.pop(0)` and `del d[k]` raise.
pub data Fault : Type 0 where
  value_error index_error key_error : Fault

pub record EmbeddingCache (V : Type 0) : Type 0 where
  pub maxsize : ℕ
  pub cache : List (String × V)
  pub keys : List String

module _ {V : Type 0} where
  pub init : ℕ → EmbeddingCache V
  init maxsize = record { maxsize = maxsize; cache = []; keys = [] }

  -- `self._keys.remove(text)`
  abbrev remove_key : EmbeddingCache V → String → Result Fault (EmbeddingCache V)
  remove_key c text =
      if contains text c.keys then ok (record c { keys = remove text c.keys }) else err value_error

  -- `oldest = self._keys.pop(0)` and `del self._cache[oldest]`
  abbrev evict : EmbeddingCache V → List String → Result Fault (EmbeddingCache V)
  evict c [] = err index_error
  evict c (oldest ∷ rest) = elim (lookup oldest c.cache) [
    | none ↦ err key_error
    | some v ↦ ok (record c { cache = erase oldest c.cache; keys = rest })
  ]

  -- `self._cache[text] = vector` and `self._keys.append(text)`
  abbrev store : EmbeddingCache V → String → V → EmbeddingCache V
  store c text vector = record c { cache = insert text vector c.cache; keys = c.keys ++ text ∷ [] }

  pub get : EmbeddingCache V → String → Result Fault (Option V × EmbeddingCache V)
  get c text = elim (lookup text c.cache) [
    | none ↦ ok (none, c)
    | some vector ↦ do
      c' ← remove_key c text
      ok (some vector, record c' { keys = c'.keys ++ text ∷ [] })
  ]

  -- The two ways in which `set` makes room.
  abbrev make_room : EmbeddingCache V → String → Result Fault (EmbeddingCache V)
  make_room c text = elim (lookup text c.cache) [
    | some old ↦ remove_key c text
    | none ↦ if leb c.maxsize (length c.keys) then evict c c.keys else ok c
  ]

  pub set : EmbeddingCache V → String → V → Result Fault (EmbeddingCache V)
  set c text vector = do c' ← make_room c text; ok (store c' text vector)

  pub clear : EmbeddingCache V → EmbeddingCache V
  clear c = record c { cache = []; keys = [] }

  pub size : EmbeddingCache V → ℕ
  size c = length c.cache
