-- ===== src/Engine/Kind.antt =====
-- The kinds of frames (dbs/engine/frames.py): HEADER, MANIFEST, FILE_DATA, FILE_END, RECORDS and
-- TRAILER.
use dbs.Prelude.{ℕ}

abbrev pub header : ℕ
header = b'H'

abbrev pub manifest : ℕ
manifest = b'M'

abbrev pub file_data : ℕ
file_data = b'D'

abbrev pub file_end : ℕ
file_end = b'E'

abbrev pub records : ℕ
records = b'R'

abbrev pub trailer : ℕ
trailer = b'T'
