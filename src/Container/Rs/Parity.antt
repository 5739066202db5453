-- ===== src/Container/Rs/Parity.antt =====
-- The parity of message rows, column by column and in batches (dbs/container/rs.py).
use mathlib.Core.Bool.{◌&&◌}
use mathlib.Core.List.{map-append}
use dbs.Prelude.{
  Bool-cases, List, [], ap, ap₂, arith, bit_xor, drop, get_or, if◌then◌else◌, inl, inr, leb, length,
  length-drop, length-replicate, length-take, map, refl, replicate, suc, sym, take,
  take-append-drop, zero, ℕ, ◌*◌, ◌++◌, ◌+◌, ◌/◌, ◌∙◌, ◌∷◌, ◌≡◌, ◌≤◌,
}
use dbs.Container.Rs.Sizes.{min_nsym, max_nsym, IsNsym}
use dbs.Container.Rs.Table.{Entry, IsTable, row_width, parity_table, parity_table-IsTable}
use dbs.Result.{◌>>◌, Result, ok, err, value_error, guard}

abbrev pub Row : Type 0
Row = List ℕ

unfoldable pub xor_row : Row → Row → Row
xor_row (x ∷ xs) (y ∷ ys) = bit_xor x y ∷ xor_row xs ys
xor_row _ _ = []

unfoldable pub xor_rows : List Row → List Row → List Row
xor_rows (x ∷ xs) (y ∷ ys) = xor_row x y ∷ xor_rows xs ys
xor_rows _ _ = []

-- `messages.T[position]`
unfoldable pub column : ℕ → List Row → List ℕ
column position = map (λ row. get_or row position 0)

-- The loop of `_parity_rows`: a message column selects a row of the table for every message.
unfoldable pub parity_rounds : List Entry → ℕ → List Row → List Row → List Row
unfolding xor_rows column
parity_rounds [] position messages accumulator = accumulator
parity_rounds (entry ∷ table) position messages accumulator =
    parity_rounds table (position + 1) messages
      (xor_rows accumulator (map entry (column position messages)))

unfoldable pub parity_rows : ℕ → List Entry → List Row → List Row
unfolding parity_rounds
parity_rows width table messages =
    parity_rounds table 0 messages (replicate (length messages) (replicate width 0))

abbrev pub parity_batch_rows : ℕ
parity_batch_rows = 4096

-- The batches from one start to the next, while rows are left; `fuel` bounds their number.
unfoldable pub parity_batches : ℕ → ℕ → List Entry → List Row → List Row
unfolding parity_rows
parity_batches zero width table messages = []
parity_batches (suc fuel) width table [] = []
parity_batches (suc fuel) width table (row ∷ rows) =
    parity_rows width table (take parity_batch_rows (row ∷ rows))
    ++ parity_batches fuel width table (drop parity_batch_rows (row ∷ rows))

unfoldable pub check_nsym : ℕ → Result (Unit {0})
check_nsym nsym = guard (leb min_nsym nsym && leb nsym max_nsym) value_error

-- `.view(np.uint8)[:, :nsym]` drops the padding of each row.
unfoldable pub parity : List Row → ℕ → Result (List Row)
unfolding check_nsym parity_batches
parity messages nsym = do
  check_nsym nsym
  let table = parity_table nsym
  let rows =
      if leb (length messages) parity_batch_rows
      then parity_rows (row_width nsym) table messages
      else parity_batches (length messages) (row_width nsym) table messages
  ok (map (take nsym) rows)

-- One message on its own: the exclusive or of the table rows that its bytes select.
unfoldable pub row_rounds : List Entry → ℕ → Row → Row → Row
unfolding xor_row
row_rounds [] position message accumulator = accumulator
row_rounds (entry ∷ table) position message accumulator =
    row_rounds table (position + 1) message
      (xor_row accumulator (entry (get_or message position 0)))

unfoldable pub row_parity : ℕ → Row → Row
unfolding row_rounds
row_parity nsym message =
    take nsym (row_rounds (parity_table nsym) 0 message (replicate (row_width nsym) 0))

parity_rounds-map :
    (table : List Entry) (position : ℕ) (messages : List Row) (g : Row → Row)
    → parity_rounds table position messages (map g messages)
      ≡ map (λ m. row_rounds table position m (g m)) messages
unfolding parity_rounds row_rounds
parity_rounds-map [] position messages g = refl
parity_rounds-map (entry ∷ table) position messages g =
    ap (parity_rounds table (position + 1) messages) (step messages)
    ∙ parity_rounds-map table (position + 1) messages
        (λ m. xor_row (g m) (entry (get_or m position 0)))
  where
    step :
        (rows : List Row)
        → xor_rows (map g rows) (map entry (column position rows))
          ≡ map (λ m. xor_row (g m) (entry (get_or m position 0))) rows
    step [] = refl
    step (r ∷ rows) = ap (◌∷◌ (xor_row (g r) (entry (get_or r position 0)))) (step rows)

replicate-map :
    (messages : List Row) (r : Row) → replicate (length messages) r ≡ map (λ _. r) messages
replicate-map [] r = refl
replicate-map (m ∷ messages) r = ap (◌∷◌ r) (replicate-map messages r)

parity_rows-map :
    (width : ℕ) (table : List Entry) (messages : List Row)
    → parity_rows width table messages
      ≡ map (λ m. row_rounds table 0 m (replicate width 0)) messages
unfolding parity_rows
parity_rows-map width table messages =
    ap (parity_rounds table 0 messages) (replicate-map messages (replicate width 0))
    ∙ parity_rounds-map table 0 messages (λ _. replicate width 0)

parity_batches-map :
    (fuel width : ℕ) (table : List Entry) (messages : List Row)
    → length messages ≤ fuel
    → parity_batches fuel width table messages
      ≡ map (λ m. row_rounds table 0 m (replicate width 0)) messages
unfolding parity_batches
parity_batches-map zero width table [] h = refl
parity_batches-map zero width table (m ∷ messages) h = absurd (omega arith)
parity_batches-map (suc fuel) width table [] h = refl
parity_batches-map (suc fuel) width table (m ∷ messages) h =
    let rows = m ∷ messages in
    let f : Row → Row = λ r. row_rounds table 0 r (replicate width 0) in
    ap₂ ◌++◌ (parity_rows-map width table (take parity_batch_rows rows)) (
      parity_batches-map fuel width table (drop parity_batch_rows rows)
        (omega (arith, length-drop parity_batch_rows rows)))
    ∙ sym (map-append f (take parity_batch_rows rows) (drop parity_batch_rows rows))
    ∙ ap (map f) (take-append-drop parity_batch_rows rows)

map-map {ℓ} :
    {A B C : Type ℓ} (f : B → C) (g : A → B) (xs : List A)
    → map f (map g xs) ≡ map (λ x. f (g x)) xs
map-map f g [] = refl
map-map f g (x ∷ xs) = ap (◌∷◌ (f (g x))) (map-map f g xs)

-- Whatever the number of messages, the columns and batches of `parity` compute the parity of each
-- message on its own.
pub parity-row_parity :
    (messages : List Row) (nsym : ℕ)
    → IsNsym nsym
    → parity messages nsym ≡ ok (map (row_parity nsym) messages)
unfolding parity check_nsym row_parity
parity-row_parity messages nsym h = elim (Bool-cases (leb (length messages) parity_batch_rows)) [
  | inl small ↦ rw small (ground (arith, rows (parity_rows-map width table messages)))
  | inr large ↦ rw large (
      ground
        (arith, rows (parity_batches-map (length messages) width table messages (omega arith))))
]
  where
    width : ℕ
    width = row_width nsym

    table : List Entry
    table = parity_table nsym

    rows :
        {found : List Row}
        → found ≡ map (λ m. row_rounds table 0 m (replicate width 0)) messages
        → map (take nsym) found ≡ map (row_parity nsym) messages
    rows e = ap (map (take nsym)) e ∙ map-map (take nsym) _ messages

-- A parity length outside the range of the code is refused, whatever the messages.
parity_out_of_range :
    (messages : List Row) (nsym : ℕ) → ¬ IsNsym nsym → parity messages nsym ≡ err value_error
unfolding parity check_nsym
parity_out_of_range messages nsym h = ground (arith, Bool-cases (leb 1 nsym))

length-xor_row :
    (width : ℕ) (xs ys : Row)
    → length xs ≡ width
    → length ys ≡ width
    → length (xor_row xs ys) ≡ width
unfolding xor_row
length-xor_row width [] ys h k = h
length-xor_row width (x ∷ xs) [] h k = absurd (omega arith)
length-xor_row zero (x ∷ xs) (y ∷ ys) h k = absurd (omega arith)
length-xor_row (suc width) (x ∷ xs) (y ∷ ys) h k =
    ap suc (length-xor_row width xs ys (omega arith) (omega arith))

length-row_rounds :
    (width : ℕ) (table : List Entry) (position : ℕ) (message accumulator : Row)
    → IsTable width table
    → length accumulator ≡ width
    → length (row_rounds table position message accumulator) ≡ width
unfolding row_rounds
length-row_rounds width [] position message accumulator t h = h
length-row_rounds width (entry ∷ table) position message accumulator t h =
    length-row_rounds width table (position + 1) message
      (xor_row accumulator (entry (get_or message position 0))) t.1
      (length-xor_row width accumulator (entry (get_or message position 0)) h
        (t.0 (get_or message position 0)))

-- The parity of a message is `nsym` bytes long.
pub length-row_parity :
    (nsym : ℕ) (message : Row) → IsNsym nsym → length (row_parity nsym message) ≡ nsym
unfolding row_parity row_width
length-row_parity nsym message h =
    let width = (nsym + 7) / 8 * 8 in
    let zeros : Row = replicate width 0 in
    omega (
      arith,
      length-take nsym (row_rounds (parity_table nsym) 0 message zeros),
      length-row_rounds width (parity_table nsym) 0 message zeros
          (unfold row_width in parity_table-IsTable nsym h.0) (length-replicate {0} width 0),
    )
