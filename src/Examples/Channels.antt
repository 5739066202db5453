-- ===== src/Examples/Channels.antt =====
-- Concrete runs of the pipeline's channels, threads and segments.
use mathlib.Core.List.{flatten}
use dbs.Prelude.{List, [], false, length, refl, true, ℕ, ◌++◌, ◌<◌, ◌∷◌, ◌≡◌, ◌⊎◌}
use dbs.Engine.Pipeline.{
  Channel, Entry, close_channel, end_mark, get, item, put, segments_of, segment_bytes,
}
use dbs.Engine.Pipeline.Fifo.{History, History-IsQueue, IsQueue}
use dbs.Engine.Pipeline.Line.{AllFinished, Stage, Step, Steps, getting, putting}
use dbs.Engine.Pipeline.Progress.{CanStep, Steps-progress}
use dbs.Engine.Pipeline.Segments.{segments_of-flatten, AllFull}

abbrev size : List ℕ → ℕ
size [] = 0
size (x ∷ xs) = x

abbrev channel_of : List (Entry (List ℕ)) → ℕ → Channel (List ℕ)
channel_of items held = record { capacity = 10; items = items; held = held }

-- Two items are put, the first is got, and the channel is closed.
abbrev queue_history :
    History size 10
      (channel_of (item (5 ∷ []) ∷ end_mark ∷ []) 5)
      (item (4 ∷ []) ∷ item (5 ∷ []) ∷ end_mark ∷ [])
      (item (4 ∷ []) ∷ [])
unfolding put get close_channel
queue_history =
    History.closes (channel_of (item (5 ∷ []) ∷ []) 5)
      (channel_of (item (5 ∷ []) ∷ end_mark ∷ []) 5) (item (4 ∷ []) ∷ item (5 ∷ []) ∷ [])
      (item (4 ∷ []) ∷ [])
      (History.gets (channel_of (item (4 ∷ []) ∷ item (5 ∷ []) ∷ []) 9)
        (channel_of (item (5 ∷ []) ∷ []) 5) (item (4 ∷ [])) (item (4 ∷ []) ∷ item (5 ∷ []) ∷ []) []
        (History.puts (5 ∷ []) (channel_of (item (4 ∷ []) ∷ []) 4)
          (channel_of (item (4 ∷ []) ∷ item (5 ∷ []) ∷ []) 9) (item (4 ∷ []) ∷ []) []
          (History.puts (4 ∷ []) (channel_of [] 0) (channel_of (item (4 ∷ []) ∷ []) 4) [] []
            History.begins refl)
          refl)
        refl)
      refl

History-IsQueue_example :
    IsQueue size 10
      (channel_of (item (5 ∷ []) ∷ end_mark ∷ []) 5)
      (item (4 ∷ []) ∷ item (5 ∷ []) ∷ end_mark ∷ [])
      (item (4 ∷ []) ∷ [])
History-IsQueue_example = History-IsQueue size queue_history

abbrev waiting : Stage
waiting = record { want = getting; drained = false }

abbrev source : Stage
source = record { want = putting 7; drained = true }

abbrev empty_channel : Channel ℕ
empty_channel = record { capacity = 4; items = []; held = 0 }

abbrev full_channel : Channel ℕ
full_channel = record { capacity = 4; items = item 7 ∷ []; held = 7 }

-- The source has put an item that is larger than the capacity.
abbrev first_step :
    Steps source ((empty_channel, waiting) ∷ []) source ((full_channel, waiting) ∷ [])
unfolding put
first_step =
    Steps.next source source ((empty_channel, waiting) ∷ []) ((full_channel, waiting) ∷ [])
      Steps.here (Step.puts 7 (putting 7) source waiting empty_channel full_channel [] refl refl tt)

Steps-progress_example :
    CanStep source ((full_channel, waiting) ∷ [])
    ⊎ AllFinished source ((full_channel, waiting) ∷ [])
Steps-progress_example =
    Steps-progress source source (empty_channel, waiting) [] ((full_channel, waiting) ∷ [])
      (refl, tt, (refl, refl, tt)) first_step

segments_of-flatten_example :
    (flatten (segments_of ((1 ∷ []) ∷ [] ∷ (2 ∷ 3 ∷ []) ∷ [])) ≡ 1 ∷ 2 ∷ 3 ∷ [])
    × (AllFull (segments_of ((1 ∷ []) ∷ [] ∷ (2 ∷ 3 ∷ []) ∷ []))
        ⊎ ((full : List (List ℕ)) × (last : List ℕ) × (segments_of
                ((1 ∷ []) ∷ [] ∷ (2 ∷ 3 ∷ []) ∷ [])
              ≡ full ++ last ∷ [])
            × AllFull full
            × (0 < length last)
            × (length last < segment_bytes)))
unfolding flatten
segments_of-flatten_example = segments_of-flatten ((1 ∷ []) ∷ [] ∷ (2 ∷ 3 ∷ []) ∷ [])
