-- ===== src/Tee.antt =====
-- A backup that is written to the server's folder and to a stream at once (dbs/tee.py). What the
-- operating system does is given: whether a write to the stream raises, and how a link is made.
-- The file itself is assumed to take what it is given; an error of it ends the backup.
pub mod Kept
use dbs.Prelude.{
  Bool, List, Option, [], drop, false, if◌then◌else◌, length, none, not, some, suc, take, true,
  zero, ℕ, ◌++◌, ◌+◌, ◌==◌, ◌||◌, ◌∷◌,
}
use dbs.Result.{Result, dbs_error, err, ok, os_error, ◌>>=◌}

abbrev pub max_ordinal : ℕ
max_ordinal = 999

-- The fields of a `TeeSink` that calls change, with what the stream and the file have got.
pub record TeeSink : Type 0 where
  pub streamed : List ℕ
  pub stream_lost : Bool
  pub file : List ℕ
  pub size : ℕ

pub record TeeResult : Type 0 where
  pub ordinal : ℕ
  pub size : ℕ
  pub stream_lost : Bool

unfoldable pub new_tee : Bool → TeeSink
new_tee has_stream = record { streamed = []; stream_lost = not has_stream; file = []; size = 0 }

-- `_send`: a write that raises loses the stream.
unfoldable pub send : Bool → List ℕ → TeeSink → TeeSink
send raises bytes t =
    if t.stream_lost
    then t
    else if raises
    then record t { stream_lost = true }
    else record t { streamed = t.streamed ++ bytes }

unfoldable pub tee_write : Bool → List ℕ → TeeSink → TeeSink
unfolding send
tee_write raises bytes t =
    send raises bytes (record t { file = t.file ++ bytes; size = t.size + length bytes })

-- `write_all`, in pieces of `chunk_size`; for each piece, whether the stream raises.
unfoldable pub tee_write_all : List Bool → ℕ → List ℕ → TeeSink → TeeSink
unfolding tee_write
tee_write_all [] chunk_size bytes t = t
tee_write_all (raises ∷ others) chunk_size bytes t =
    tee_write_all others chunk_size (drop chunk_size bytes)
      (tee_write raises (take chunk_size bytes) t)

-- The backups in the folder by their ordinals, with what they hold.
abbrev pub Folder : Type 0
Folder = ℕ → Option (List ℕ)

-- How a call of `os.link` goes: it links unless the name is taken, it raises one of NO_HARD_LINKS,
-- or it raises an error that is neither. `unsupported` says what another process may put under the name
-- between the test of it and the renaming.
pub data Linking : Type 0 where
  links : Linking
  unsupported : Option (List ℕ) → Linking
  refused : Linking

unfoldable pub put_file : ℕ → Option (List ℕ) → Folder → Folder
put_file ordinal content folder k = if k == ordinal then content else folder k

-- another process's file under the name, if it makes one
unfoldable pub intrude : ℕ → Option (List ℕ) → Folder → Folder
unfolding put_file
intrude ordinal none folder = folder
intrude ordinal (some content) folder = put_file ordinal (some content) folder

-- `place_without_replacing` of a partial file: whether it now has the name, and the folder. The
-- partial file's own name is not in the folder.
unfoldable pub place_without_replacing : Linking → List ℕ → ℕ → Folder → Result (Bool × Folder)
unfolding put_file intrude
place_without_replacing links partial ordinal folder = elim (folder ordinal) [
  | some content ↦ ok (false, folder)
  | none ↦ ok (true, put_file ordinal (some partial) folder)
]
place_without_replacing (unsupported intruder) partial ordinal folder = elim (folder ordinal) [
  | some content ↦ ok (false, folder)
  | none ↦ ok (true, put_file ordinal (some partial) (intrude ordinal intruder folder))
]
place_without_replacing refused partial ordinal folder = err os_error

-- The loop of `install_backup` from `ordinal` on, with `n` ordinals left; `linking` is how each
-- call goes.
unfoldable pub install_rounds : (ℕ → Linking) → List ℕ → ℕ → ℕ → Folder → Result (ℕ × Folder)
unfolding place_without_replacing
install_rounds linking partial zero ordinal folder = err dbs_error
install_rounds linking partial (suc n) ordinal folder =
    place_without_replacing (linking ordinal) partial ordinal folder >>= λ (placed, folder').
    let later = install_rounds linking partial n (ordinal + 1) folder' in
    if placed then ok (ordinal, folder') else later

unfoldable pub install_backup : (ℕ → Linking) → List ℕ → Folder → Result (ℕ × Folder)
unfolding install_rounds
install_backup linking partial folder = install_rounds linking partial max_ordinal 1 folder

-- `finish`: whether the flush of the stream raises, what `verify` makes of the partial file, and
-- how the links go
unfoldable pub finish :
    Bool
    → (List ℕ → Result (Unit {0}))
    → (ℕ → Linking)
    → TeeSink
    → Folder
    → Result (TeeResult × Folder)
unfolding install_backup
finish flush_raises verify_partial linking t folder = do
  u ← verify_partial t.file
  (ordinal, folder') ← install_backup linking t.file folder
  ok (
    record { ordinal = ordinal; size = t.size; stream_lost = t.stream_lost || flush_raises },
    folder',
  )
