-- ===== src/Engine/Pipeline/Line.antt =====
-- The threads of `encoding` (dbs/engine/pipeline.py) in a line: a source that only puts, stages
-- that get from one channel and put into the next, and a sink that only gets. What matters of a
-- thread is the operation on a channel that it does next. An item stands for its size.
use dbs.Prelude.{Bool, List, [], false, suc, true, ℕ, ◌+◌, ◌∷◌, ◌≡◌, ◌⊎◌}
use dbs.Engine.Pipeline.{Channel, Entry, close_channel, done, end_mark, get, item, put}

pub data Want : Type 0 where
  putting : ℕ → Want
  getting closing finished : Want

-- `drained`: the thread has got the end of its channel; true of the source from the start
pub record Stage : Type 0 where
  pub want : Want
  pub drained : Bool

-- A channel and the thread that gets from it.
abbrev pub Link : Type 0
Link = Channel ℕ × Stage

abbrev pub size_of : ℕ → ℕ
size_of n = n

-- What a thread with these links behind it may do next: the sink gets until the end, and then is
-- finished; another thread gets no more after the end, and closes its channel only then.
abbrev pub Allowed : List Link → Bool → Want → Type 0
Allowed [] false want = want ≡ getting
Allowed [] true want = want ≡ finished
Allowed (link ∷ links) drained (putting n) = Unit {0}
Allowed (link ∷ links) drained getting = drained ≡ false
Allowed (link ∷ links) drained closing = drained ≡ true
Allowed (link ∷ links) drained finished = ⊥

-- One operation of one thread of a pipeline that is not stopped.
pub data Step : Stage → List Link → Stage → List Link → Type 0 where
  puts :
      (n : ℕ) (want : Want) (p c : Stage) (ch ch' : Channel ℕ) (links : List Link)
      → p.want ≡ putting n
      → put size_of false n ch ≡ done ch'
      → Allowed ((ch, c) ∷ links) p.drained want
      → Step p ((ch, c) ∷ links) (record p { want = want }) ((ch', c) ∷ links)
  closes :
      (p c : Stage) (ch ch' : Channel ℕ) (links : List Link)
      → p.want ≡ closing
      → close_channel size_of false ch ≡ done ch'
      → Step p ((ch, c) ∷ links) (record p { want = finished }) ((ch', c) ∷ links)
  gets :
      (n : ℕ) (want : Want) (p c : Stage) (ch ch' : Channel ℕ) (links : List Link)
      → c.want ≡ getting
      → get size_of false ch ≡ done (item n, ch')
      → Allowed links false want
      → Step p ((ch, c) ∷ links) p ((ch', record c { want = want }) ∷ links)
  gets_end :
      (want : Want) (p c : Stage) (ch ch' : Channel ℕ) (links : List Link)
      → c.want ≡ getting
      → get size_of false ch ≡ done (end_mark, ch')
      → Allowed links true want
      → Step p ((ch, c) ∷ links) p ((ch', record { want = want; drained = true }) ∷ links)
  later :
      (p c c' : Stage) (ch : Channel ℕ) (links links' : List Link)
      → Step c links c' links'
      → Step p ((ch, c) ∷ links) p ((ch, c') ∷ links')

pub data Steps (p : Stage) (links : List Link) : Stage → List Link → Type 0 where
  here : Steps p links p links
  next :
      (q r : Stage) (ls ms : List Link) → Steps p links q ls → Step q ls r ms → Steps p links r ms

-- The threads as they start: the channels are empty.
abbrev pub AllWaiting : List Link → Type 0
AllWaiting [] = Unit {0}
AllWaiting ((ch, c) ∷ links) =
    (ch.items ≡ []) × (c ≡ record { want = getting; drained = false }) × AllWaiting links

abbrev pub IsStart : Stage → List Link → Type 0
IsStart p links = (p.drained ≡ true) × Allowed links true p.want × AllWaiting links

abbrev pub AllFinished : Stage → List Link → Type 0
AllFinished p [] = p.want ≡ finished
AllFinished p ((ch, c) ∷ links) = (p.want ≡ finished) × AllFinished c links

abbrev pub ends : List (Entry ℕ) → ℕ
ends [] = 0
ends (item n ∷ entries) = ends entries
ends (end_mark ∷ entries) = suc (ends entries)

abbrev pub has_finished : Want → ℕ
has_finished finished = 1
has_finished _ = 0

abbrev pub has_drained : Bool → ℕ
has_drained true = 1
has_drained false = 0

-- A thread does what it may, or has done all.
abbrev pub IsFit : List Link → Stage → Type 0
IsFit links c = Allowed links c.drained c.want ⊎ ((c.want ≡ finished) × (c.drained ≡ true))

-- The end of a channel is in it, or was got, exactly when the thread that puts is finished.
abbrev pub Linked : Stage → List Link → Type 0
Linked p [] = Unit {0}
Linked p ((ch, c) ∷ links) =
    (ends ch.items + has_drained c.drained ≡ has_finished p.want) × IsFit links c × Linked c links
