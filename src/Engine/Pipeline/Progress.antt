-- ===== src/Engine/Pipeline/Progress.antt =====
-- The threads of a pipeline (dbs/engine/pipeline.py) do not wait for one another in vain.
use mathlib.Core.Path.{subst}
use dbs.Prelude.{
  Bool, List, [], ap, arith, false, inl, inr, refl, sym, true, ℕ, ◌++◌, ◌+◌, ◌-◌, ◌∙◌, ◌∷◌, ◌≡◌,
  ◌≢◌, ◌⊎◌,
}
use dbs.Engine.Pipeline.{
  Channel, Entry, close_channel, done, end_mark, entry_size, get, item, popped, put, append,
  is_empty, must_wait,
}
use dbs.Engine.Pipeline.Kept.{Allowed-unfinished, Step-Linked, Step-drained, fit-getting}
use dbs.Engine.Pipeline.Line.{
  puts, closes, gets, Allowed, IsFit, Link, Linked, Stage, Step, Want, closing, ends, finished,
  gets_end, getting, has_drained, has_finished, later, putting, size_of, AllFinished, AllWaiting,
  IsStart, Steps, here, next,
}

-- Some thread can do its next operation.
abbrev pub CanStep : Stage → List Link → Type 0
CanStep p links = (q : Stage) × (links' : List Link) × Step p links q links'

put_empty :
    (n : ℕ) (ch : Channel ℕ)
    → ch.items ≡ []
    → (ch' : Channel ℕ) × (put size_of false n ch ≡ done ch')
unfolding put must_wait append is_empty
put_empty n ch e = (record ch { items = ch.items ++ item n ∷ []; held = ch.held + n }, rw e refl)

close_any : (ch : Channel ℕ) → (ch' : Channel ℕ) × (close_channel size_of false ch ≡ done ch')
unfolding close_channel append
close_any ch = (record ch { items = ch.items ++ end_mark ∷ []; held = ch.held + 0 }, refl)

popped_some :
    (items : List (Entry ℕ)) (entry : Entry ℕ) (rest : List (Entry ℕ)) (ch : Channel ℕ)
    → items ≡ entry ∷ rest
    → (ch' : Channel ℕ) × (popped size_of items ch ≡ done (entry, ch'))
unfolding popped
popped_some items entry rest ch e =
    (record ch { items = rest; held = ch.held - entry_size size_of entry }, rw e refl)

get_some :
    (entry : Entry ℕ) (rest : List (Entry ℕ)) (ch : Channel ℕ)
    → ch.items ≡ entry ∷ rest
    → (ch' : Channel ℕ) × (get size_of false ch ≡ done (entry, ch'))
unfolding get
get_some entry rest ch e = popped_some ch.items entry rest ch e

-- A thread that waits for a channel with something in it goes on.
get-CanStep :
    (p c : Stage) (ch : Channel ℕ) (links : List Link) (entry : Entry ℕ) (rest : List (Entry ℕ))
    → c.want ≡ getting
    → ch.items ≡ entry ∷ rest
    → CanStep p ((ch, c) ∷ links)
get-CanStep p c ch [] (item n) rest w e =
    let (ch', got) = get_some (item n) rest ch e in (p, _, gets n getting p c ch ch' [] w got refl)
get-CanStep p c ch (link ∷ links) (item n) rest w e =
    let (ch', got) = get_some (item n) rest ch e in
    (p, _, gets n getting p c ch ch' (link ∷ links) w got refl)
get-CanStep p c ch [] end_mark rest w e =
    let (ch', got) = get_some end_mark rest ch e in
    (p, _, gets_end finished p c ch ch' [] w got refl)
get-CanStep p c ch (link ∷ links) end_mark rest w e =
    let (ch', got) = get_some end_mark rest ch e in
    (p, _, gets_end closing p c ch ch' (link ∷ links) w got refl)

-- A thread that puts into an empty channel, or closes it, goes on.
put-CanStep :
    (want : Want) (p c : Stage) (ch : Channel ℕ) (links : List Link)
    → p.want ≡ want
    → p.want ≢ getting
    → has_finished want ≡ 0
    → ch.items ≡ []
    → CanStep p ((ch, c) ∷ links)
put-CanStep (putting n) p c ch links w g u e =
    let (ch', put_in) = put_empty n ch e in (_, _, puts n (putting n) p c ch ch' links w put_in tt)
put-CanStep closing p c ch links w g u e =
    let (ch', put_in) = close_any ch in (_, _, closes p c ch ch' links w put_in)
put-CanStep getting p c ch links w g u e = absurd (g w)
put-CanStep finished p c ch links w g u e = absurd (omega arith)

is_getting : (want : Want) → (want ≡ getting) ⊎ (want ≢ getting)
is_getting getting = inl refl
is_getting (putting n) = inr (λ e. cc)
is_getting closing = inr (λ e. cc)
is_getting finished = inr (λ e. cc)

sink_finished : (drained : Bool) → Allowed [] drained finished → drained ≡ true
sink_finished true a = refl
sink_finished false a = cc a

sink_next :
    (drained : Bool) (want : Want) → Allowed [] drained want → want ≢ getting → want ≡ finished
sink_next true want a g = a
sink_next false want a g = absurd (g a)

-- a finished thread has got the end of its channel
finished-drained :
    (links : List Link) (c : Stage) → IsFit links c → c.want ≡ finished → c.drained ≡ true
finished-drained links c (inr (a, b)) w = b
finished-drained [] c (inl a) w = sink_finished c.drained (subst (Allowed [] c.drained) w a)
finished-drained (link ∷ links) c (inl a) w =
    let k : Allowed (link ∷ links) c.drained finished =
      subst (Allowed (link ∷ links) c.drained) w a in
    absurd k

finished_of_count : (want : Want) → has_finished want ≡ 1 → want ≡ finished
finished_of_count finished h = refl
finished_of_count (putting n) h = absurd (omega arith)
finished_of_count getting h = absurd (omega arith)
finished_of_count closing h = absurd (omega arith)

AllFinished-first : (p : Stage) (links : List Link) → AllFinished p links → p.want ≡ finished
AllFinished-first p [] h = h
AllFinished-first p ((ch, c) ∷ links) h = h.0

count_finished :
    (n : ℕ) (drained : Bool) (want : Want)
    → n + has_drained drained ≡ has_finished want
    → drained ≡ true
    → has_finished want ≡ 1
count_finished n drained (putting k) e d = absurd (omega (arith, ap has_drained d))
count_finished n drained getting e d = absurd (omega (arith, ap has_drained d))
count_finished n drained closing e d = absurd (omega (arith, ap has_drained d))
count_finished n drained finished e d = refl

waiting-CanStep :
    (items : List (Entry ℕ)) (p c : Stage) (ch : Channel ℕ) (links : List Link)
    → c.want ≡ getting
    → p.want ≢ getting
    → ends ch.items + has_drained c.drained ≡ has_finished p.want
    → c.drained ≡ false
    → ch.items ≡ items
    → CanStep p ((ch, c) ∷ links)
waiting-CanStep (entry ∷ rest) p c ch links w g k d e = get-CanStep p c ch links entry rest w e
waiting-CanStep [] p c ch links w g k d e =
    put-CanStep p.want p c ch links refl g (omega (arith, k, ap ends e, ap has_drained d)) e

-- The first thread does not get; then some thread goes on, or all are finished.
Linked-progress :
    (p : Stage) (links : List Link)
    → IsFit links p
    → Linked p links
    → p.want ≢ getting
    → CanStep p links ⊎ AllFinished p links
Linked-progress p [] (inr (a, b)) h g = inr a
Linked-progress p [] (inl a) h g = inr (sink_next p.drained p.want a g)
Linked-progress p ((ch, c) ∷ links) f (k, d, h) g = elim (is_getting c.want) [
  | inl waiting ↦
      inl (waiting-CanStep ch.items p c ch links waiting g k (fit-getting links c d waiting) refl)
  | inr busy ↦ elim (Linked-progress c links d h busy) [
    | inl (q, links', s) ↦ inl (p, _, later p c q ch links links' s)
    | inr all ↦
        let done_c = finished-drained links c d (AllFinished-first c links all) in
        inr
          (finished_of_count p.want (count_finished (ends ch.items) c.drained p.want k done_c), all)
  ]
]

waiting-Allowed :
    (links : List Link) (c : Stage)
    → c ≡ record { want = getting; drained = false }
    → Allowed links c.drained c.want
waiting-Allowed [] c e = subst (λ (s : Stage). Allowed [] s.drained s.want) (sym e) refl
waiting-Allowed (link ∷ links) c e =
    subst (λ (s : Stage). Allowed (link ∷ links) s.drained s.want) (sym e) refl

start-Linked :
    (p : Stage) (links : List Link) → has_finished p.want ≡ 0 → AllWaiting links → Linked p links
start-Linked p [] u h = tt
start-Linked p ((ch, c) ∷ links) u (e, w, h) = (
  omega (arith, u, ap ends e, ap (λ (s : Stage). has_drained s.drained) w),
  inl (waiting-Allowed links c w),
  start-Linked c links (ap (λ (s : Stage). has_finished s.want) w) h,
)

Steps-Linked :
    {p : Stage} {ls : List Link} {q : Stage} {ms : List Link}
    → Steps p ls q ms
    → IsFit ls p × Linked p ls
    → IsFit ms q × Linked q ms
Steps-Linked here h = h
Steps-Linked (next q r ls ms past s) h = Step-Linked s (Steps-Linked past h)

Steps-drained :
    {p : Stage} {ls : List Link} {q : Stage} {ms : List Link}
    → Steps p ls q ms
    → q.drained ≡ p.drained
Steps-drained here = refl
Steps-drained (next q r ls ms past s) = Step-drained s ∙ Steps-drained past

-- In whatever order the threads went on from their start, and whatever sizes their items had:
-- some thread can do its next operation, or all of them have come to their ends.
pub Steps-progress :
    (p q : Stage) (link : Link) (links ls : List Link)
    → IsStart p (link ∷ links)
    → Steps p (link ∷ links) q ls
    → CanStep q ls ⊎ AllFinished q ls
Steps-progress p q link links ls (d, a, w) steps =
    let fit : IsFit (link ∷ links) p =
      inl (subst (λ b. Allowed (link ∷ links) b p.want) (sym d) a) in
    let linked = start-Linked p (link ∷ links) (Allowed-unfinished link links true p.want a) w in
    let (f, h) = Steps-Linked steps (fit, linked) in
    Linked-progress q ls f h
      (λ g. let k = fit-getting ls q f g in absurd (cc (k, Steps-drained steps, d)))
