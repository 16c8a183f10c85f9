-- ===== src/Curator/Ingest/Examples.antt =====
-- One session that the prefilter lets through, ingested alone and in a batch that is sent twice.
use oc_piloci.Prelude.{
  ℕ, zero, suc, ◌+◌, ◌≤◌, ◌≡◌, refl, none, some, List, [], ◌∷◌, true, false, String, length, take,
  arith,
}
use oc_piloci.Db.{Sql}
use oc_piloci.Db.Table.{table, table-IsSql}
use oc_piloci.Curator.RawSessions.{RawSession}
use oc_piloci.Text.{strip, lstrip, is_space}
use oc_piloci.Curator.Backlog.{count_pending, archive_overflow, enforce_ceiling_after_ingest}
use oc_piloci.Curator.Prefilter.{
  Message, message, text_content, Library, assistant, evaluate, judge, normalize,
}
use oc_piloci.Curator.Ingest.{IngestTexts, Uploader, IngestBody, ingest, BatchItem, sessions_ingest}
use oc_piloci.Curator.Ingest.Ceiling.{ingest-ceiling}
use oc_piloci.Curator.Ingest.Again.{renamed, sessions_ingest-again}

abbrev rows : Sql (List RawSession) RawSession
rows = table (λ r. r.ingest_id)

-- Sixty different words, and a long text.
abbrev words : ℕ → List ℕ
words zero = []
words (suc n) = (1000 + n) ∷ 32 ∷ words n

abbrev letters : ℕ → List ℕ
letters zero = []
letters (suc n) = 97 ∷ letters n

abbrev rich : Library
rich = record {
  loads = λ s. none;
  is_templated = λ s. false;
  lower = λ s. words 60;
  isalnum = λ w. true;
}

abbrev long : Message
long = message assistant (text_content (letters 600))

abbrev texts : IngestTexts
texts = record {
  strip = λ s. s;
  cut = λ n s. s;
  splitlines = λ s. s ∷ s ∷ s ∷ s ∷ s ∷ [];
  loads = λ s. some long;
  dumps = λ ms. "[]";
}

abbrev ann : Uploader
ann = record { user_id = "ann"; project_id = some "proj" }

abbrev item : BatchItem
item = record { session_id = some "s"; transcript = some "lines"; source = none }

abbrev batch : List (BatchItem × String)
batch = (item, "a") ∷ (item, "b") ∷ []

abbrev other_id : String → String
other_id k = "c"

-- The batch is queued when it is sent first: one row, as both items are of one session.
batch_queued : (sessions_ingest rows texts rich 2 "ann" "proj" batch 10 []).1 ≡ (1, 1)
unfolding sessions_ingest evaluate judge normalize strip lstrip is_space archive_overflow
    enforce_ceiling_after_ingest count_pending oc_piloci.Curator.Ingest.ingest_items
    oc_piloci.Curator.Ingest.ingest_item oc_piloci.Db.Table.sort
batch_queued = refl

sessions_ingest-again_example :
    sessions_ingest rows texts rich 2 "ann" "proj"
      (renamed other_id batch)
      20
      (sessions_ingest rows texts rich 2 "ann" "proj" batch 10 []).0
    ≡ ((sessions_ingest rows texts rich 2 "ann" "proj" batch 10 []).0, (0, length (take 50 batch)))
sessions_ingest-again_example =
    sessions_ingest-again rows (table-IsSql (λ r. r.ingest_id)) texts rich 2 "ann" "proj" other_id
      batch 10 20 [] (refl, (refl, tt))

abbrev body : IngestBody
body = record {
  client = none;
  transcript = some (message assistant (text_content (letters 600)) ∷ []);
  session_id = none;
  project_id = none;
}

ingest-ceiling_example :
    count_pending rows
      (some "ann")
      (ingest rows texts rich 2 (some ann) false (some body) "a" 10 []).0
    ≤ 2
unfolding ingest evaluate judge normalize strip lstrip is_space archive_overflow
    enforce_ceiling_after_ingest count_pending
ingest-ceiling_example =
    ingest-ceiling rows (table-IsSql (λ r. r.ingest_id)) texts rich 2 ann false (some body) "a" 10 0
      [] (λ k. omega arith) refl refl
