-- ===== src/Tee/Kept.antt =====
-- The file has everything, and a backup never replaces another (dbs/tee.py).
use mathlib.Core.Path.{subst}
use dbs.Prelude.{
  Bool, Bool-cases, List, Option, Option-cases, [], ap, append-nil, append_assoc, arith, false,
  if_false, if◌then◌else◌, inl, inr, length, none, some, ◌≢◌, length-append, refl, suc, sym, true,
  zero, ℕ, ◌++◌, ◌+◌, ◌<◌, ◌==◌, ◌∙◌, ◌∷◌, ◌≡◌, ◌≤◌,
}
use dbs.Result.{Ensures, Ensures-ok, Result, bind-Ensures, err, ok}
use dbs.Tee.{
  Folder, Linking, TeeSink, install_backup, install_rounds, intrude, links, max_ordinal, new_tee,
  place_without_replacing, put_file, refused, send, tee_write, unsupported,
}

-- Pieces that are written one after the other, each with whether the stream raises.
abbrev pub tee_writes : List (Bool × List ℕ) → TeeSink → TeeSink
tee_writes [] t = t
tee_writes ((raises, bytes) ∷ writes) t = tee_writes writes (tee_write raises bytes t)

abbrev pub written_bytes : List (Bool × List ℕ) → List ℕ
written_bytes [] = []
written_bytes ((raises, bytes) ∷ writes) = bytes ++ written_bytes writes

-- The pieces before the first write to the stream that raises.
abbrev pub delivered_bytes : List (Bool × List ℕ) → List ℕ
delivered_bytes [] = []
delivered_bytes ((true, bytes) ∷ writes) = []
delivered_bytes ((false, bytes) ∷ writes) = bytes ++ delivered_bytes writes

-- Whether the stream is lost shows in the stream only.
file-send :
    (raises : Bool) (bytes : List ℕ) (t : TeeSink)
    → ((send raises bytes t).file ≡ t.file) × ((send raises bytes t).size ≡ t.size)
unfolding send
file-send raises bytes t = go t.stream_lost raises
  where
    go :
        (lost raises : Bool)
        → let s =
            if lost
            then t
            else if raises
            then record t { stream_lost = true }
            else record t { streamed = t.streamed ++ bytes } in
          (s.file ≡ t.file) × (s.size ≡ t.size)
    go true raises = (refl, refl)
    go false true = (refl, refl)
    go false false = (refl, refl)

send_lost :
    (raises : Bool) (bytes : List ℕ) (t : TeeSink) → t.stream_lost ≡ true → send raises bytes t ≡ t
unfolding send
send_lost raises bytes t h =
    ap
      (λ lost.
        if lost
        then t
        else if raises
        then record t { stream_lost = true }
        else record t { streamed = t.streamed ++ bytes })
      h

tee_writes-file :
    (writes : List (Bool × List ℕ)) (t : TeeSink)
    → ((tee_writes writes t).file ≡ t.file ++ written_bytes writes)
      × ((tee_writes writes t).size ≡ t.size + length (written_bytes writes))
unfolding tee_write
tee_writes-file [] t = (sym (append-nil t.file), omega arith)
tee_writes-file ((raises, bytes) ∷ writes) t =
    let taken = record t { file = t.file ++ bytes; size = t.size + length bytes } in
    let here = file-send raises bytes taken in
    let (f, s) = tee_writes-file writes (send raises bytes taken) in
    (
      f
          ∙ ap (λ file. file ++ written_bytes writes) here.0
          ∙ append_assoc t.file bytes (written_bytes writes),
      omega (arith, s, here.1, length-append bytes (written_bytes writes)),
    )

tee_writes-lost :
    (writes : List (Bool × List ℕ)) (t : TeeSink)
    → t.stream_lost ≡ true
    → (tee_writes writes t).streamed ≡ t.streamed
unfolding tee_write
tee_writes-lost [] t h = refl
tee_writes-lost ((raises, bytes) ∷ writes) t h =
    let taken = record t { file = t.file ++ bytes; size = t.size + length bytes } in
    let same = send_lost raises bytes taken h in
    ap (λ s. (tee_writes writes s).streamed) same ∙ tee_writes-lost writes taken h

tee_writes-streamed :
    (writes : List (Bool × List ℕ)) (t : TeeSink)
    → t.stream_lost ≡ false
    → (tee_writes writes t).streamed ≡ t.streamed ++ delivered_bytes writes
unfolding tee_write send
tee_writes-streamed [] t h = sym (append-nil t.streamed)
tee_writes-streamed ((true, bytes) ∷ writes) t h =
    let gone = record t {
      file = t.file ++ bytes;
      size = t.size + length bytes;
      stream_lost = true;
    } in
    ap (λ s. (tee_writes writes s).streamed) (if_false t.stream_lost _ gone h)
    ∙ tee_writes-lost writes gone refl
    ∙ sym (append-nil t.streamed)
tee_writes-streamed ((false, bytes) ∷ writes) t h =
    let sent = record t {
      file = t.file ++ bytes;
      size = t.size + length bytes;
      streamed = t.streamed ++ bytes;
    } in
    ap (λ s. (tee_writes writes s).streamed) (if_false t.stream_lost _ sent h)
    ∙ tee_writes-streamed writes sent h
    ∙ append_assoc t.streamed bytes (delivered_bytes writes)

-- The file of a backup gets every byte that is written, in order, and its size counts them,
-- whatever happens to the stream; the stream gets those before the first write that it refuses.
pub tee_writes-new_tee :
    (writes : List (Bool × List ℕ))
    → let t = tee_writes writes (new_tee true) in
      (t.file ≡ written_bytes writes)
      × (t.size ≡ length (written_bytes writes))
      × (t.streamed ≡ delivered_bytes writes)
unfolding new_tee
tee_writes-new_tee writes =
    let (f, s) = tee_writes-file writes (new_tee true) in
    (f, omega (arith, s), tee_writes-streamed writes (new_tee true) refl)

-- Every ordinal from `first` up to `last` has a backup.
abbrev pub AllTaken : Folder → ℕ → ℕ → Type 0
AllTaken folder first last = (k : ℕ) → first ≤ k → k < last → folder k ≢ none

-- What a call leaves that has placed a file under `ordinal`.
abbrev pub IsPut : List ℕ → ℕ → Folder → Folder → Type 0
IsPut partial ordinal folder folder' =
    (folder' ordinal ≡ some partial) × ((k : ℕ) → k ≢ ordinal → folder' k ≡ folder k)

put_file-IsPut :
    (partial : List ℕ) (ordinal : ℕ) (intruder : Option (List ℕ)) (folder : Folder)
    → IsPut partial ordinal folder
        (put_file ordinal (some partial) (intrude ordinal intruder folder))
unfolding put_file intrude
put_file-IsPut partial ordinal none folder = (
  (let same : (ordinal == ordinal) ≡ true = ground arith in rw same refl),
  (λ k d. let other : (k == ordinal) ≡ false = ground arith in rw other refl),
)
put_file-IsPut partial ordinal (some content) folder = (
  (let same : (ordinal == ordinal) ≡ true = ground arith in rw same refl),
  (λ k d. let other : (k == ordinal) ≡ false = ground arith in rw other refl),
)

-- A call places the file where nothing was, or leaves the folder as it is where something is.
Placed : List ℕ → ℕ → Folder → Bool × Folder → Type 0
Placed partial ordinal folder (true, folder') =
    (folder ordinal ≡ none) × IsPut partial ordinal folder folder'
Placed partial ordinal folder (false, folder') = (folder ordinal ≢ none) × (folder' ≡ folder)

place_without_replacing-Placed :
    (linking : Linking) (partial : List ℕ) (ordinal : ℕ) (folder : Folder)
    → Ensures
        (Unit {0})
        (Placed partial ordinal folder)
        (place_without_replacing linking partial ordinal folder)
unfolding place_without_replacing Placed intrude
place_without_replacing-Placed links partial ordinal folder = elim (Option-cases (folder ordinal)) [
  | inl free ↦ rw (free, Ensures) (free, put_file-IsPut partial ordinal none folder)
  | inr (content, taken) ↦ rw (taken, Ensures) ((λ free. cc (free, taken)), refl)
]
place_without_replacing-Placed (unsupported intruder) partial ordinal folder =
    elim (Option-cases (folder ordinal)) [
      | inl free ↦ rw (free, Ensures) (free, put_file-IsPut partial ordinal intruder folder)
      | inr (content, taken) ↦ rw (taken, Ensures) ((λ free. cc (free, taken)), refl)
    ]
place_without_replacing-Placed refused partial ordinal folder = tt

-- What the loop gives that starts at `ordinal` with `n` ordinals left.
abbrev Installed : List ℕ → ℕ → ℕ → Folder → ℕ × Folder → Type 0
Installed partial n ordinal folder (found, folder') =
    (ordinal ≤ found)
    × (found < ordinal + n)
    × (folder found ≡ none)
    × AllTaken folder ordinal found
    × IsPut partial found folder folder'

Installed-later :
    (partial : List ℕ) (n ordinal : ℕ) (folder : Folder) (m : Result (ℕ × Folder))
    → folder ordinal ≢ none
    → Ensures (Unit {0}) (Installed partial n (ordinal + 1) folder) m
    → Ensures (Unit {0}) (Installed partial (suc n) ordinal folder) m
Installed-later partial n ordinal folder (err e) taken h = tt
Installed-later partial n ordinal folder (ok (found, folder')) taken (lo, hi, free, before, put) = (
  omega arith,
  omega arith,
  free,
  (λ k l u. elim (Bool-cases (k == ordinal)) [
    | inl same ↦ let q : k ≡ ordinal = ground (arith, same) in λ e. taken (ap folder (sym q) ∙ e)
    | inr past ↦ before k (ground (arith, past, l)) u
  ]),
  put,
)

install_rounds-Installed :
    (linking : ℕ → Linking) (partial : List ℕ) (n ordinal : ℕ) (folder : Folder)
    → Ensures
        (Unit {0})
        (Installed partial n ordinal folder)
        (install_rounds linking partial n ordinal folder)
unfolding install_rounds Placed
install_rounds-Installed linking partial zero ordinal folder = tt
install_rounds-Installed linking partial (suc n) ordinal folder =
    bind-Ensures (Unit {0}) (Placed partial ordinal folder)
      (Installed partial (suc n) ordinal folder)
      (place_without_replacing (linking ordinal) partial ordinal folder) _
      (place_without_replacing-Placed (linking ordinal) partial ordinal folder)
      (next (install_rounds-Installed linking partial n (ordinal + 1) folder))
  where
    next :
        Ensures
          (Unit {0})
          (Installed partial n (ordinal + 1) folder)
          (install_rounds linking partial n (ordinal + 1) folder)
        → (out : Bool × Folder) → Placed partial ordinal folder out
        → Ensures (Unit {0}) (Installed partial (suc n) ordinal folder) (
            let later = install_rounds linking partial n (ordinal + 1) out.1 in
            if out.0 then ok (ordinal, out.1) else later)
    next ih (true, folder') (free, put) =
        (omega arith, omega arith, free, (λ k lo hi. absurd (omega (arith, lo, hi))), put)
    next ih (false, folder') (taken, same) =
        subst
          (λ f.
            Ensures (Unit {0}) (Installed partial (suc n) ordinal folder)
              (install_rounds linking partial n (ordinal + 1) f))
          (sym same)
          (Installed-later partial n ordinal folder
            (install_rounds linking partial n (ordinal + 1) folder) taken ih)

-- A finished backup gets the first name from 1 on that was free, with what the partial file holds,
-- and every other name keeps what it had: no backup that was in the folder is replaced.
pub install_backup-first :
    (linking : ℕ → Linking) (partial : List ℕ) (folder folder' : Folder) (found : ℕ)
    → install_backup linking partial folder ≡ ok (found, folder')
    → (1 ≤ found)
      × (found ≤ max_ordinal)
      × (folder found ≡ none)
      × AllTaken folder 1 found
      × (folder' found ≡ some partial)
      × ((k : ℕ) → k ≢ found → folder' k ≡ folder k)
unfolding install_backup
install_backup-first linking partial folder folder' found e =
    let (lo, hi, free, taken, (put, others)) =
      Ensures-ok (Unit {0}) (Installed partial max_ordinal 1 folder)
        (install_rounds linking partial max_ordinal 1 folder)
        (install_rounds-Installed linking partial max_ordinal 1 folder) e in
    (lo, omega (arith, hi), free, taken, put, others)
