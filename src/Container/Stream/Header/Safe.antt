-- ===== src/Container/Stream/Header/Safe.antt =====
-- What a header that was accepted guarantees (dbs/container/stream.py).
use dbs.Prelude.{
  Bool-cases, List, Option, Option-cases, [], ap, arith, ◌∙◌, get_or, if◌then◌else◌, inl, inr, leb,
  length, none, refl, slice, some, true, ℕ, ◌&&◌, ◌*◌, ◌-◌, ◌==◌, ◌∷◌, ◌≡◌,
}
use dbs.Bytes.{from_bytes}
use dbs.Container.Stream.Header.{
  StreamHeader, as_container_error, is_none, parse_stream_header, unpack_header, check_arguments,
  header_body_size, header_copy, locate_header, new_writer,
}
use dbs.Container.Stream.Layout.{
  IsUsable, layout_problem, StreamLayout, header_size, layout_problem-IsUsable, chunk_capacity,
}
use dbs.Container.Stream.Place.{emit}
use dbs.Container.Stream.Reader.{Metadata}
use dbs.Container.Stream.Writer.{Primitives, Writer}
use dbs.Container.Stream.Writer.Write.{IsOpen}
use dbs.Crypto.Limits.{IsAffordable, KdfParams, validate_untrusted, validate_untrusted-IsAffordable}
use dbs.Result.{Result, ok, err, Ensures, Ensures-ok, bind-Ensures, ◌>>◌, ◌>>=◌}

abbrev IsSafe : StreamHeader → Type 0
IsSafe h = IsUsable h.layout × IsAffordable h.kdf_params

is_none_sound {ℓ} : {A : Type ℓ} (o : Option A) → is_none o ≡ true → o ≡ none
is_none_sound none e = refl
is_none_sound (some a) e = cc

accepted :
    (h : StreamHeader) (m : Result (Unit {0}))
    → (m ≡ ok tt → IsSafe h)
    → Ensures (Unit {0}) IsSafe (as_container_error m >> ok h)
unfolding as_container_error
accepted h (ok u) k = k refl
accepted h (err e) k = tt

parse_stream_header-Ensures : (body : List ℕ) → Ensures (Unit {0}) IsSafe (parse_stream_header body)
unfolding parse_stream_header
parse_stream_header-Ensures body =
    let h = unpack_header body in
    elim (Bool-cases (length body == header_body_size)) [
      | inr unsized ↦ rw unsized tt
      | inl sized ↦
          elim (Bool-cases (from_bytes (slice 22 24 body) == 0 && get_or body 63 0 == 0)) [
            | inr strange ↦ rw (sized, strange) tt
            | inl plain ↦ elim (Bool-cases (is_none (layout_problem h.layout))) [
              | inr unusable ↦ rw (sized, plain, unusable) tt
              | inl usable ↦
                  rw (sized, plain, usable)
                    (accepted h (validate_untrusted h.kdf_params) (λ valid. (
                      layout_problem-IsUsable h.layout
                          (is_none_sound (layout_problem h.layout) usable),
                      (validate_untrusted-IsAffordable h.kdf_params).0 valid,
                    )))
            ]
          ]
    ]

locate_header-Ensures :
    (sealed_checksum : List ℕ → List ℕ) (source : List ℕ)
    → Ensures (Unit {0}) (λ found. IsSafe found.0) (locate_header sealed_checksum source)
unfolding locate_header
locate_header-Ensures sealed_checksum source =
    let front = header_copy sealed_checksum source 0 in
    let back =
      if leb (2 * header_size) (length source)
      then header_copy sealed_checksum source (length source - header_size)
      else none in
    elim (Option-cases (if is_none front then back else front)) [
      | inl lost ↦ rw (lost, locate_header) tt
      | inr ((chosen, body), found) ↦
          rw (found, locate_header)
            (bind-Ensures {A = StreamHeader} {B = StreamHeader × List Metadata} (Unit {0}) IsSafe
              (λ found. IsSafe found.0) (parse_stream_header body) _
              (parse_stream_header-Ensures body) (λ header safe. safe))
    ]

-- A header that is read from a source, whatever the source holds, describes a layout that can be
-- read within the memory limit and asks for a key derivation whose cost is bounded.
pub locate_header-IsSafe :
    (sealed_checksum : List ℕ → List ℕ) (source : List ℕ) (header : StreamHeader)
    (damaged : List Metadata)
    → locate_header sealed_checksum source ≡ ok (header, damaged)
    → IsUsable header.layout × IsAffordable header.kdf_params
locate_header-IsSafe sealed_checksum source header damaged e =
    Ensures-ok (Unit {0}) (λ found. IsSafe found.0) (locate_header sealed_checksum source)
      (locate_header-Ensures sealed_checksum source) e

-- A writer that has emitted its header and nothing else.
pub record IsFresh (layout : StreamLayout) (sealed_header : List ℕ) (w : Writer) : Type 0 where
  pub laid_out : w.encoder.layout ≡ layout
  pub empty : (w.pending ≡ []) × (w.encoder.batch ≡ [])
  pub none_emitted : (w.encoder.next_index ≡ 0) × (w.plaintext_bytes ≡ 0)
  pub header_emitted : w.encoder.output.sink ≡ sealed_header ∷ []
  pub counted : w.encoder.output.container_bytes ≡ length sealed_header
  pub no_slots : (w.encoder.output.window ≡ []) × (w.encoder.output.tags ≡ [])

-- A body of the right size whose reserved bytes are zero.
abbrev pub IsBody : List ℕ → Type 0
IsBody body =
    (length body ≡ header_body_size) × (from_bytes (slice 22 24 body) ≡ 0) × (get_or body 63 0 ≡ 0)

parse_accepted :
    (body : List ℕ) (h : StreamHeader)
    → unpack_header body ≡ h
    → IsBody body
    → layout_problem h.layout ≡ none
    → validate_untrusted h.kdf_params ≡ ok tt
    → parse_stream_header body ≡ ok h
unfolding parse_stream_header as_container_error
parse_accepted body h e (sized, reserved, padding) usable valid =
    let s : (length body == header_body_size) ≡ true = ground (arith, sized) in
    let r : (from_bytes (slice 22 24 body) == 0 && get_or body 63 0 == 0) ≡ true =
      rw (reserved, padding) refl in
    let u = ap (λ (g : StreamHeader). layout_problem g.layout) e ∙ usable in
    let v = ap (λ (g : StreamHeader). validate_untrusted g.kdf_params) e ∙ valid in
    rw (s, r, u, v) (ap ok e)

module _ (p : Primitives) (layout : StreamLayout) (params : KdfParams)
    (sealed_header : List ℕ) where
  abbrev IsNew : Writer → Type 0
  IsNew w =
      (layout_problem layout ≡ none)
      × (validate_untrusted params ≡ ok tt)
      × IsOpen p w
      × IsFresh layout sealed_header w

  made :
      (w : Writer) (m : Result (Unit {0}))
      → (m ≡ ok tt → IsNew w)
      → Ensures (Unit {0}) IsNew (m >>= λ u. ok w)
  made w (ok u) k = k refl
  made w (err e) k = tt

  new_writer-IsNew :
      (flags workers : ℕ)
      → Ensures (Unit {0}) IsNew (new_writer layout flags workers params sealed_header)
  unfolding new_writer check_arguments chunk_capacity emit
  new_writer-IsNew flags workers = elim (Bool-cases (is_none (layout_problem layout))) [
    | inr unusable ↦ rw unusable tt
    | inl usable ↦ elim (Bool-cases (leb flags 0xFFFF)) [
      | inr wide ↦ rw (usable, wide) tt
      | inl narrow ↦ elim (Bool-cases (leb 1 workers)) [
        | inr idle ↦ rw (usable, narrow, idle) tt
        | inl busy ↦
            rw (usable, narrow, busy)
              (made _ (validate_untrusted params) (λ valid.
                let sound = is_none_sound (layout_problem layout) usable in
                let u = layout_problem-IsUsable layout sound in
                (
                  sound,
                  valid,
                  record { not_closed = refl; roomy = omega (arith, u.roomy); short = omega arith },
                  record {
                    laid_out = refl;
                    empty = (refl, refl);
                    none_emitted = (refl, refl);
                    header_emitted = refl;
                    counted = omega arith;
                    no_slots = (refl, refl);
                  },
                )))
      ]
    ]
  ]

-- A writer is made only for arguments that a reader accepts: whatever header body says the same
-- layout and the same parameters of the key derivation, with its reserved bytes zero, is parsed.
-- The writer is open, has nothing pending, no slot and no tag, and has emitted its header only.
pub new_writer-IsOpen :
    (p : Primitives) (flags workers : ℕ) (sealed_header body : List ℕ) (h : StreamHeader)
    (w : Writer)
    → new_writer h.layout flags workers h.kdf_params sealed_header ≡ ok w
    → unpack_header body ≡ h
    → IsBody body
    → (parse_stream_header body ≡ ok h) × IsOpen p w × IsFresh h.layout sealed_header w
new_writer-IsOpen p flags workers sealed_header body h w e unpacked plain =
    let (usable, valid, opened, fresh) =
      Ensures-ok (Unit {0}) (IsNew p h.layout h.kdf_params sealed_header)
        (new_writer h.layout flags workers h.kdf_params sealed_header)
        (new_writer-IsNew p h.layout h.kdf_params sealed_header flags workers) e in
    (parse_accepted body h unpacked plain usable valid, opened, fresh)
