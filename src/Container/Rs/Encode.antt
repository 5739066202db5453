-- ===== src/Container/Rs/Encode.antt =====
-- Encoding blocks into codewords, `encode_many` and `encode` (dbs/container/rs.py).
use mathlib.Core.List.{flatten, map-append}
use dbs.Prelude.{
  Bool-cases, List, [], ap, append-nil, append_assoc, ap₂, arith, drop, drop-append_of_length,
  false, get_or, get_or-append, if◌then◌else◌, inl, inr, length, length-append, length-map,
  length-reshape, map, refl, replicate, reshape, slice, sym, take, take-append,
  take-append_of_length, take_of_length-le, true, ℕ, ◌%◌, ◌*◌, ◌++◌, ◌+◌, ◌-◌, ◌/◌, ◌==◌, ◌∙◌, ◌∷◌,
  ◌≡◌,
}
use dbs.Container.Rs.Parity.{Row, parity, row_parity, parity-row_parity}
use dbs.Container.Rs.Sizes.{message_length, IsNsym}
use dbs.Result.{Result, ok, ◌>>=◌}

-- The message rows of a block, the last one filled up with zeros on its left, and the length of
-- what does not fill a row.
unfoldable pub message_rows : List ℕ → ℕ → List Row × ℕ
unfolding message_length
message_rows block nsym =
    let message_len = message_length nsym in
    let full = length block / message_len in
    let rest = length block % message_len in
    (
      reshape full message_len block
          ++ (if rest == 0
              then []
              else (replicate (message_len - rest) 0 ++ drop (full * message_len) block) ∷ []),
      rest,
    )

-- each row beside its parity, the columns of `codewords`
unfoldable pub join_rows : List Row → List Row → List Row
join_rows (row ∷ rows) (tail ∷ tails) = (row ++ tail) ∷ join_rows rows tails
join_rows _ _ = []

-- The body of the loop of `encode_many`: a block with its rows and their parity.
unfoldable pub encode_block : ℕ → List ℕ → List Row × ℕ → List Row → List ℕ
unfolding join_rows message_length
encode_block nsym block layout block_parity =
    let (rows, rest) = layout in
    let full = length rows - (if rest == 0 then 0 else 1) in
    let codewords = join_rows (take full rows) (take full block_parity) in
    flatten codewords
    ++ (if rest == 0
        then []
        else drop (full * message_length nsym) block ++ get_or block_parity full [])

-- The loop of `encode_many` over the layouts and the blocks, from row `start` of the parity on.
unfoldable pub encode_rounds :
    ℕ → List Row → ℕ → List (List Row × ℕ) → List (List ℕ) → List (List ℕ)
unfolding encode_block
encode_rounds nsym all_parity start (layout ∷ layouts) (block ∷ blocks) =
    let count = length layout.0 in
    encode_block nsym block layout (slice start (start + count) all_parity)
    ∷ encode_rounds nsym all_parity (start + count) layouts blocks
encode_rounds nsym all_parity start _ _ = []

unfoldable pub all_rows : List (List Row × ℕ) → List Row
all_rows layouts = flatten (map (λ layout. layout.0) layouts)

unfoldable pub encode_many : List (List ℕ) → ℕ → Result (List (List ℕ))
unfolding message_rows encode_rounds all_rows
encode_many [] nsym = ok []
encode_many (block ∷ blocks) nsym = do
  let layouts = map (λ b. message_rows b nsym) (block ∷ blocks)
  all_parity ← parity (all_rows layouts) nsym
  ok (encode_rounds nsym all_parity 0 layouts (block ∷ blocks))

-- `encode_many([data], nsym)[0]`
unfoldable pub encode : List ℕ → ℕ → Result (List ℕ)
unfolding encode_many
encode block nsym = do encoded ← encode_many (block ∷ []) nsym; ok (get_or encoded 0 [])

-- A block as its codewords: each message beside its parity, and the shorter last one without the
-- zeros that were put before it.
unfoldable pub codewords_of : ℕ → List ℕ → List ℕ
unfolding message_length
codewords_of nsym block =
    let message_len = message_length nsym in
    let full = length block / message_len in
    let rest = length block % message_len in
    let last = drop (full * message_len) block in
    flatten (map (λ row. row ++ row_parity nsym row) (reshape full message_len block))
    ++ (if rest == 0
        then []
        else last ++ row_parity nsym (replicate (message_len - rest) 0 ++ last))

join_rows-map :
    (f : Row → Row) (rows : List Row) → join_rows rows (map f rows) ≡ map (λ r. r ++ f r) rows
unfolding join_rows
join_rows-map f [] = refl
join_rows-map f (r ∷ rows) = ap (◌∷◌ (r ++ f r)) (join_rows-map f rows)

encode_block_whole :
    (nsym rest : ℕ) (block : List ℕ) (rows : List Row)
    → (rest == 0) ≡ true
    → encode_block nsym block (rows ++ [], rest) (map (row_parity nsym) (rows ++ []))
      ≡ flatten (map (λ r. r ++ row_parity nsym r) rows) ++ []
unfolding encode_block
encode_block_whole nsym rest block rows z =
    let e : length rows - 0 ≡ length rows = omega arith in
    simp (
      z,
      append-nil,
      e,
      take_of_length-le (length rows) rows (omega arith),
      take_of_length-le (length rows) (map (row_parity nsym) rows)
          (omega (arith, length-map rows (row_parity nsym))),
      join_rows-map,
    )

encode_block_part :
    (nsym rest full : ℕ) (block : List ℕ) (rows : List Row) (last : Row)
    → (rest == 0) ≡ false
    → length rows ≡ full
    → encode_block nsym block (rows ++ last ∷ [], rest) (map (row_parity nsym) (rows ++ last ∷ []))
      ≡ flatten (map (λ r. r ++ row_parity nsym r) rows)
        ++ (drop (full * message_length nsym) block ++ row_parity nsym last)
unfolding encode_block
encode_block_part nsym rest full block rows last z h =
    let p = row_parity nsym in
    let e : length (rows ++ last ∷ []) - 1 ≡ full = omega (arith, length-append rows (last ∷ [])) in
    let e' : length (map p rows) ≡ full = length-map rows p ∙ h in
    let g : get_or (map p rows ++ p last ∷ []) full [] ≡ p last =
      ap (λ n. get_or (map p rows ++ p last ∷ []) n []) (sym e')
      ∙ get_or-append (map p rows) (p last ∷ []) [] in
    simp (
      z,
      e,
      map-append p rows (last ∷ []),
      g,
      take-append_of_length full rows (last ∷ []) h,
      take-append_of_length full (map p rows) (p last ∷ []) e',
      join_rows-map,
    )

-- The columns and slices of `encode_many` put each message beside its own parity.
encode_block-codewords_of :
    (nsym : ℕ) (block : List ℕ)
    → encode_block nsym block
        (message_rows block nsym)
        (map (row_parity nsym) (message_rows block nsym).0)
      ≡ codewords_of nsym block
unfolding message_rows codewords_of
encode_block-codewords_of nsym block = elim (Bool-cases (rest == 0)) [
  | inl z ↦ rw z (encode_block_whole nsym rest block rows z)
  | inr z ↦ rw z (
      encode_block_part nsym rest full block rows
        (replicate (message_len - rest) 0 ++ drop (full * message_len) block) z
        (length-reshape full message_len block))
]
  where
    message_len : ℕ
    message_len = message_length nsym

    full : ℕ
    full = length block / message_len

    rest : ℕ
    rest = length block % message_len

    rows : List Row
    rows = reshape full message_len block

-- The parity rows are cut up again at the places where the message rows were joined.
encode_rounds-map :
    (nsym : ℕ) (blocks : List (List ℕ)) (start : ℕ) (before : List Row)
    → length before ≡ start
    → encode_rounds nsym
        (before ++ map (row_parity nsym) (all_rows (map (λ b. message_rows b nsym) blocks)))
        start
        (map (λ b. message_rows b nsym) blocks)
        blocks
      ≡ map (codewords_of nsym) blocks
unfolding encode_rounds all_rows flatten
encode_rounds-map nsym [] start before h = refl
encode_rounds-map nsym (block ∷ blocks) start before h =
    let p = row_parity nsym in
    let rows = (message_rows block nsym).0 in
    let others = all_rows (map (λ b. message_rows b nsym) blocks) in
    let e : start + length rows - start ≡ length (map p rows) = omega (arith, length-map rows p) in
    let longer : length (before ++ map p rows) ≡ start + length rows =
      omega (arith, length-append before (map p rows), length-map rows p) in
    let mine : slice start (start + length rows) (before ++ map p (rows ++ others)) ≡ map p rows =
      rw
        (
          e,
          map-append p rows others,
          drop-append_of_length start before (map p rows ++ map p others) h,
        )
        (take-append (map p rows) (map p others)) in
    let again : before ++ map p (rows ++ others) ≡ (before ++ map p rows) ++ map p others =
      rw (map-append p rows others) (sym (append_assoc before (map p rows) (map p others))) in
    ap₂ ◌∷◌
      (ap (encode_block nsym block (message_rows block nsym)) mine
        ∙ encode_block-codewords_of nsym block)
      (ap
          (λ all.
            encode_rounds nsym all (start + length rows) (map (λ b. message_rows b nsym) blocks)
              blocks)
          again
        ∙ encode_rounds-map nsym blocks (start + length rows) (before ++ map p rows) longer)

-- Blocks that are encoded together are encoded as each would be on its own: one parity call over
-- all their rows gives the codewords of every block.
pub encode_many-codewords_of :
    (blocks : List (List ℕ)) (nsym : ℕ)
    → IsNsym nsym
    → encode_many blocks nsym ≡ ok (map (codewords_of nsym) blocks)
unfolding encode_many
encode_many-codewords_of [] nsym h = refl
encode_many-codewords_of (block ∷ blocks) nsym h =
    rw (parity-row_parity _ nsym h) (ap ok (encode_rounds-map nsym (block ∷ blocks) 0 [] refl))

pub encode-codewords_of :
    (block : List ℕ) (nsym : ℕ) → IsNsym nsym → encode block nsym ≡ ok (codewords_of nsym block)
unfolding encode
encode-codewords_of block nsym h = rw (encode_many-codewords_of (block ∷ []) nsym h)
