-- ===== src/Engine/Payload/Through.antt =====
-- `_read_through` (dbs/engine/validate.py): a whole payload is read and its counts are compared.
use Prim.Native.String.{String}
use mathlib.Core.List.{flatten}
use text.Mathlib.Text.{◌==◌ as str_eq}
use dbs.Prelude.{Bool, List, [], if◌then◌else◌, true, ℕ, ◌&&◌, ◌+◌, ◌==◌, ◌∷◌}
use dbs.Engine.Json.{Fields, Json, count_of, fields_of, get, items_of, text_of}
use dbs.Engine.Payload.Reader.{
  FileStream, Parsers, finish_payload, new_payload, read_files, read_header, read_manifest,
  read_trailer, record_batches,
}
use dbs.Result.{Result, container_error, guard, ok, ◌>>=◌, ◌>>◌}

-- A count for each label; `counts[label] = counts.get(label, 0) + 1`
abbrev pub Counts : Type 0
Counts = List (String × ℕ)

unfoldable pub count_for : String → Counts → ℕ
count_for label [] = 0
count_for label ((l, n) ∷ counts) =
    let rest = count_for label counts in if str_eq l label then n else rest

unfoldable pub set_count : String → ℕ → Counts → Counts
set_count label n [] = (label, n) ∷ []
set_count label n ((l, k) ∷ counts) =
    let rest = set_count label n counts in if str_eq l label then (l, n) ∷ counts else (l, k) ∷ rest

unfoldable pub label_of : Json → String
unfolding text_of get fields_of
label_of entry = text_of (get "model" (fields_of entry))

unfoldable pub count_records : List Json → Counts → Counts
unfolding set_count count_for label_of
count_records [] counts = counts
count_records (entry ∷ entries) counts =
    count_records entries
      (set_count (label_of entry) (count_for (label_of entry) counts + 1) counts)

-- `{item["model"]: item["count"] for item in stats["models"] if item["count"]}`
unfoldable pub recorded_counts : List Json → Counts → Counts
unfolding set_count label_of count_of get fields_of
recorded_counts [] counts = counts
recorded_counts (item ∷ items) counts =
    let n = count_of (get "count" (fields_of item)) in
    recorded_counts items (if n == 0 then counts else set_count (label_of item) n counts)

unfoldable pub total_of : Counts → ℕ
total_of [] = 0
total_of ((label, n) ∷ counts) = n + total_of counts

-- every count of the first dictionary is that of the second, where it is not zero
unfoldable pub within_counts : Counts → Counts → Bool
unfolding count_for
within_counts [] others = true
within_counts ((label, n) ∷ counts) others =
    let rest = within_counts counts others in count_for label others == n && rest

-- equality of dictionaries whose counts are not zero
unfoldable pub same_counts : Counts → Counts → Bool
unfolding within_counts
same_counts a b = within_counts a b && within_counts b a

unfoldable pub count_files : List (FileStream × List (List ℕ)) → ℕ
count_files [] = 0
count_files ((stream, chunks) ∷ streams) =
    (if str_eq stream.skipped "" then 1 else 0) + count_files streams

-- the checks at the end of `_read_through`
unfoldable pub checked_stats : Fields → Counts → ℕ → Result (Unit {0})
unfolding recorded_counts items_of get same_counts total_of count_of
checked_stats stats counts file_count =
    guard
      (same_counts (recorded_counts (items_of (get "models" stats)) []) counts
        && count_of (get "records" stats) == total_of counts)
      container_error
    >> guard (count_of (get "files" stats) == file_count) container_error

-- what `_read_through` has read when it returns
pub record Contents : Type 0 where
  pub streams : List (FileStream × List (List ℕ))
  pub batches : List (List Json)
  pub stats : Fields

-- `_read_through`, after the construction of the reader
unfoldable pub read_through : Parsers → ℕ → List (List ℕ) → Result Contents
unfolding new_payload read_header read_manifest read_files record_batches read_trailer
    finish_payload get fields_of count_records checked_stats count_files
read_through parsers fuel pieces = new_payload pieces >>= λ r0. read_header parsers r0 >>= λ r1.
    read_manifest parsers fuel r1 >>= λ r2. read_files parsers fuel r2 >>= λ (streams, r3).
    record_batches parsers fuel true r3 >>= λ (batches, r4). read_trailer parsers r4 >>= λ r5.
    finish_payload parsers r5 >>= λ r6.
    let stats = fields_of (get "stats" (fields_of r6.trailer)) in
    checked_stats stats (count_records (flatten batches) []) (count_files streams) >>= λ checked.
    ok (record { streams = streams; batches = batches; stats = stats })
