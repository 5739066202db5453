-- ===== src/Engine/Pipeline/Kept.antt =====
-- What the threads of a pipeline (dbs/engine/pipeline.py) keep in order as they go on.
use mathlib.Core.Path.{subst}
use dbs.Prelude.{
  Bool, List, [], ap, ap₂, arith, false, inl, inr, refl, suc, sym, true, ℕ, ◌++◌, ◌+◌, ◌-◌, ◌∙◌,
  ◌∷◌, ◌≡◌,
}
use dbs.Engine.Pipeline.{
  Channel, Entry, close_channel, done, end_mark, entry_size, get, item, popped, put,
}
use dbs.Engine.Pipeline.Fifo.{closed, put-done}
use dbs.Engine.Pipeline.Line.{
  puts, closes, gets, Allowed, IsFit, Link, Linked, Stage, Step, Want, closing, ends, finished,
  gets_end, getting, has_drained, has_finished, later, putting, size_of,
}

ends-append_item : (entries : List (Entry ℕ)) (n : ℕ) → ends (entries ++ item n ∷ []) ≡ ends entries
ends-append_item [] n = refl
ends-append_item (item k ∷ entries) n = ends-append_item entries n
ends-append_item (end_mark ∷ entries) n = ap suc (ends-append_item entries n)

ends-append_end : (entries : List (Entry ℕ)) → ends (entries ++ end_mark ∷ []) ≡ ends entries + 1
ends-append_end [] = omega arith
ends-append_end (item k ∷ entries) = ends-append_end entries
ends-append_end (end_mark ∷ entries) = omega (arith, ends-append_end entries)

put-items :
    (n : ℕ) (ch ch' : Channel ℕ)
    → put size_of false n ch ≡ done ch'
    → ch'.items ≡ ch.items ++ item n ∷ []
put-items n ch ch' e = sym (ap (λ (c : Channel ℕ). c.items) (put-done size_of n ch ch' e).0)

close-items :
    (ch ch' : Channel ℕ)
    → close_channel size_of false ch ≡ done ch'
    → ch'.items ≡ ch.items ++ end_mark ∷ []
close-items ch ch' e = sym (ap (λ (c : Channel ℕ). c.items) (closed size_of ch ch' e))

popped-items :
    (items : List (Entry ℕ)) (ch ch' : Channel ℕ) (entry : Entry ℕ)
    → popped size_of items ch ≡ done (entry, ch')
    → items ≡ entry ∷ ch'.items
unfolding popped
popped-items [] ch ch' entry e = cc
popped-items (x ∷ items) ch ch' entry e =
    let same : x ≡ entry = cc e in
    let left : record ch { items = items; held = ch.held - entry_size size_of x } ≡ ch' = cc e in
    ap₂ ◌∷◌ same (ap (λ (c : Channel ℕ). c.items) left)

get-items :
    (ch ch' : Channel ℕ) (entry : Entry ℕ)
    → get size_of false ch ≡ done (entry, ch')
    → ch.items ≡ entry ∷ ch'.items
unfolding get
get-items ch ch' entry e = popped-items ch.items ch ch' entry e

-- What a thread may do next says that it is not finished, unless it is the sink.
pub Allowed-unfinished :
    (link : Link) (links : List Link) (drained : Bool) (want : Want)
    → Allowed (link ∷ links) drained want
    → has_finished want ≡ 0
Allowed-unfinished link links drained (putting n) h = refl
Allowed-unfinished link links drained getting h = refl
Allowed-unfinished link links drained closing h = refl
Allowed-unfinished link links drained finished h = absurd h

Allowed-Linked :
    (links : List Link) (drained : Bool) (want : Want) (c : Stage)
    → Allowed links drained want
    → c.want ≡ getting
    → (d : Stage) → d.want ≡ want
    → Linked c links
    → Linked d links
Allowed-Linked [] drained want c a g d e h = tt
Allowed-Linked ((ch, b) ∷ links) drained want c a g d e (n, f, h) =
    let u = Allowed-unfinished (ch, b) links drained want a in
    (n ∙ ap has_finished g ∙ sym (ap has_finished e ∙ u), f, h)

pub Step-drained : {p q : Stage} {ls ms : List Link} → Step p ls q ms → q.drained ≡ p.drained
Step-drained (puts n want p c ch ch' links w e a) = refl
Step-drained (closes p c ch ch' links w e) = refl
Step-drained (gets n want p c ch ch' links w e a) = refl
Step-drained (gets_end want p c ch ch' links w e a) = refl
Step-drained (later p c c' ch links links' s) = refl

-- what a thread that closes its channel, or gets from one, may have got
fit-closing :
    (link : Link) (links : List Link) (p : Stage)
    → IsFit (link ∷ links) p
    → p.want ≡ closing
    → p.drained ≡ true
fit-closing link links p (inl a) w =
    let k : Allowed (link ∷ links) p.drained closing =
      subst (Allowed (link ∷ links) p.drained) w a in
    k
fit-closing link links p (inr (a, b)) w = b

sink_getting : (drained : Bool) → Allowed [] drained getting → drained ≡ false
sink_getting false a = refl
sink_getting true a = cc a

pub fit-getting :
    (links : List Link) (p : Stage) → IsFit links p → p.want ≡ getting → p.drained ≡ false
fit-getting [] p (inl a) w = sink_getting p.drained (subst (Allowed [] p.drained) w a)
fit-getting (link ∷ links) p (inl a) w =
    let k : Allowed (link ∷ links) p.drained getting =
      subst (Allowed (link ∷ links) p.drained) w a in
    k
fit-getting links p (inr (a, b)) w = cc (a, w)

Allowed-later :
    (drained : Bool) (want : Want) (ch ch' : Channel ℕ) (c c' : Stage) (links links' : List Link)
    → Allowed ((ch, c) ∷ links) drained want
    → Allowed ((ch', c') ∷ links') drained want
Allowed-later drained (putting n) ch ch' c c' links links' a = a
Allowed-later drained getting ch ch' c c' links links' a = a
Allowed-later drained closing ch ch' c c' links links' a = a
Allowed-later drained finished ch ch' c c' links links' a = a

-- What a thread may do does not depend on what follows, but for the end of the line.
IsFit-later :
    (p : Stage) (ch ch' : Channel ℕ) (c c' : Stage) (links links' : List Link)
    → IsFit ((ch, c) ∷ links) p
    → IsFit ((ch', c') ∷ links') p
IsFit-later p ch ch' c c' links links' (inr h) = inr h
IsFit-later p ch ch' c c' links links' (inl a) =
    inl (Allowed-later p.drained p.want ch ch' c c' links links' a)

-- The line keeps in order what it says of ends.
pub Step-Linked :
    {p q : Stage} {ls ms : List Link}
    → Step p ls q ms
    → IsFit ls p × Linked p ls
    → IsFit ms q × Linked q ms
Step-Linked (puts n want p c ch ch' links w e a) (f, (k, g, h)) = (
  inl a,
  (
    omega (
      arith,
      k,
      ap ends (put-items n ch ch' e),
      ends-append_item ch.items n,
      ap has_finished w,
      Allowed-unfinished (ch', c) links p.drained want a,
    ),
    g,
    h,
  ),
)
Step-Linked (closes p c ch ch' links w e) (f, (k, g, h)) = (
  inr (refl, fit-closing (ch, c) links p f w),
  (
    omega (arith, k, ap ends (close-items ch ch' e), ends-append_end ch.items, ap has_finished w),
    g,
    h,
  ),
)
Step-Linked (gets n want p c ch ch' links w e a) (f, (k, g, h)) =
    let open_stage = fit-getting links c g w in
    (
      f,
      (
        omega (arith, k, ap ends (get-items ch ch' (item n) e)),
        inl (subst (λ d. Allowed links d want) (sym open_stage) a),
        Allowed-Linked links false want c a w (record c { want = want }) refl h,
      ),
    )
Step-Linked (gets_end want p c ch ch' links w e a) (f, (k, g, h)) =
    let open_stage = fit-getting links c g w in
    (
      f,
      (
        omega (arith, k, ap ends (get-items ch ch' end_mark e), ap has_drained open_stage),
        inl a,
        Allowed-Linked links true want c a w (record { want = want; drained = true }) refl h,
      ),
    )
Step-Linked (later p c c' ch links links' s) (f, (k, g, h)) =
    let (g', h') = Step-Linked s (g, h) in
    (
      IsFit-later p ch ch c c' links links' f,
      (omega (arith, k, ap has_drained (Step-drained s)), g', h'),
    )
