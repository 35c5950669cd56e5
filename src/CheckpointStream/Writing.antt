-- ===== src/CheckpointStream/Writing.antt =====
-- src/RSL/src/rsl.cpp: `RSLCheckpointStreamWriter::Write` keeps the file in blocks.
use rsl.Common.{ℕ, zero, suc, ◌+◌, ◌≤◌, ◌<◌, ◌≡◌, inl, inr, refl, ◌∙◌, sym, ap, subst, arith}
use rsl.Common.{true, not, ◌||◌, List, [], ◌∷◌, ◌++◌, length, take, drop}
use rsl.Common.{
  leb, ◌==◌, if◌then◌else◌, if-cases, Bool-cases, ==→eq, length-append, append_assoc, append-nil,
}
use rsl.Common.{Returns, Returns-bind, Returns-map, Returns-log_assert}
use rsl.CheckpointStream.{
  Fingerprint, checksum_size, min, Writer, data_size, open_writer, flushed, ended, commit,
  bytes_to_write, put, write, write_all, close, bytes_issued,
}
use rsl.CheckpointStream.Frames.{
  concat, take-drop, length-take-drop, All-snoc, concat-snoc, seals, seals-snoc, Holding, IsFramed,
  close-IsFramed, nil-length, checksum_of,
}

module _ (fp : Fingerprint) (block_size : ℕ) where
  module _ (available : ℕ → ℕ) (some_room : (n : ℕ) → 0 < available n) where
    -- There is room for more bytes.
    abbrev HasRoom : Writer → Type 0
    HasRoom w = (length w.buffer < w.available) × (w.data_written_offset < data_size block_size)

    ended-Holding :
        (bytes : List ℕ) (w : Writer)
        → 0 < data_size block_size
        → Holding fp block_size bytes w
        → w.data_written_offset ≡ data_size block_size
        → Holding fp block_size bytes (ended fp block_size available w)
          × HasRoom (ended fp block_size available w)
    unfolding ended
    ended-Holding bytes w pos k e = (
      record {
        blocks = k.blocks ++ (k.current ∷ []);
        current = [];
        full = All-snoc _ k.blocks k.current k.full (sym k.offset ∙ e);
        whole = append-nil _ ∙ concat-snoc fp block_size bytes w k;
        text =
            append-nil _
            ∙ seals-snoc fp block_size bytes w k (omega (arith, k.offset))
            ∙ sym (append-nil _);
        offset = refl;
        fits = omega arith;
        sum = inl refl;
        room = omega arith;
        fresh = λ _. refl;
      },
      (some_room _, pos),
    )

    flushed-Holding :
        (bytes : List ℕ) (w : Writer)
        → Holding fp block_size bytes w
        → w.data_written_offset < data_size block_size
        → Holding fp block_size bytes (flushed fp block_size available w)
          × HasRoom (flushed fp block_size available w)
    unfolding flushed
    flushed-Holding bytes w k e = (
      record {
        blocks = k.blocks;
        current = k.current;
        full = k.full;
        whole = k.whole;
        text = append-nil (w.file ++ w.buffer) ∙ k.text;
        offset = k.offset;
        fits = k.fits;
        sum = k.sum;
        room = omega arith;
        fresh = λ _. refl;
      },
      (some_room _, e),
    )

    commit-Holding :
        (bytes : List ℕ) (w : Writer)
        → 0 < data_size block_size
        → Holding fp block_size bytes w
        → Holding fp block_size bytes (commit fp block_size available w)
          × HasRoom (commit fp block_size available w)
    unfolding commit
    commit-Holding bytes w pos k =
        let P : Writer → Type 0 = λ v. Holding fp block_size bytes v × HasRoom v in
        let at = k.offset in
        let fits = k.fits in
        let room = k.room in
        if-cases P (w.data_written_offset == data_size block_size) _ _
          (λ e. ended-Holding bytes w pos k (ground arith))
          (λ e.
            let more : w.data_written_offset < data_size block_size = ground arith in
            if-cases P (w.available == length w.buffer) _ w (λ _. flushed-Holding bytes w k more)
              (λ f. (k, (ground arith, more))))

    -- What is written at once is something, and fits into the buffer and into the block.
    bytes_to_write-fits :
        (xs : List ℕ) (w : Writer)
        → 0 < length xs
        → HasRoom w
        → (0 < bytes_to_write fp block_size available w xs)
          × (bytes_to_write fp block_size available w xs ≤ length xs)
          × (length w.buffer + bytes_to_write fp block_size available w xs ≤ w.available)
          × (w.data_written_offset + bytes_to_write fp block_size available w xs
              ≤ data_size block_size)
    unfolding bytes_to_write min
    bytes_to_write-fits xs w pos room = ground arith

    at_start :
        (bytes : List ℕ) (w : Writer)
        → Holding fp block_size bytes w
        → (not (w.data_written_offset == 0) || length w.buffer == 0) ≡ true
    at_start bytes w k = elim (Bool-cases (w.data_written_offset == 0)) [
      | inl e ↦
          let empty = k.fresh (sym k.offset ∙ ==→eq w.data_written_offset 0 e) in rw (e, empty) refl
      | inr e ↦ rw e refl
    ]

    within :
        (bytes : List ℕ) (w : Writer)
        → Holding fp block_size bytes w
        → leb w.data_written_offset (data_size block_size) ≡ true
    within bytes w k = ground (arith, k.offset, k.fits)

    module _ (law : (xs ys : List ℕ) → fp.extend (fp.of xs) ys ≡ fp.of (xs ++ ys)) where
      put-checksum :
          (bytes chunk : List ℕ) (w : Writer) (k : Holding fp block_size bytes w)
          → (if w.data_written_offset == 0 then fp.of chunk else fp.extend w.checksum chunk)
            ≡ fp.of (k.current ++ chunk)
      put-checksum bytes chunk w k =
          if-cases (λ c. c ≡ fp.of (k.current ++ chunk)) (w.data_written_offset == 0) _ _
            (λ e.
              ap (λ c. fp.of (c ++ chunk))
                (sym (nil-length k.current (sym k.offset ∙ ==→eq w.data_written_offset 0 e))))
            (λ e.
              let at = k.offset in
              ap (λ c. fp.extend c chunk) (checksum_of fp block_size bytes w k (ground arith))
              ∙ law k.current chunk)

      put-Holding :
          (bytes chunk : List ℕ) (w : Writer)
          → Holding fp block_size bytes w
          → 0 < length chunk
          → length w.buffer + length chunk ≤ w.available
          → w.data_written_offset + length chunk ≤ data_size block_size
          → Returns (Holding fp block_size (bytes ++ chunk)) (put fp block_size available chunk w)
      unfolding put
      put-Holding bytes chunk w k pos room fits =
          Returns-log_assert (Holding fp block_size (bytes ++ chunk))
            (not (w.data_written_offset == 0) || length w.buffer == 0) _ (at_start bytes w k)
            (record {
              blocks = k.blocks;
              current = k.current ++ chunk;
              full = k.full;
              whole =
                  sym (append_assoc (concat k.blocks) k.current chunk)
                  ∙ ap (λ b. b ++ chunk) k.whole;
              text =
                  sym (append_assoc w.file w.buffer chunk)
                  ∙ ap (λ b. b ++ chunk) k.text
                  ∙ append_assoc (seals fp block_size k.blocks) k.current chunk;
              offset = ap (λ n. n + length chunk) k.offset ∙ sym (length-append k.current chunk);
              fits = omega (arith, k.offset, length-append k.current chunk);
              sum = inr (put-checksum bytes chunk w k);
              room = omega (arith, length-append w.buffer chunk);
              fresh = λ e.
                  let absurd : ⊥ = omega (arith, length-append k.current chunk) in elim absurd [ ];
            })

      write-Holding :
          (fuel : ℕ) (bytes xs : List ℕ) (w : Writer)
          → 0 < data_size block_size
          → length xs ≤ fuel
          → Holding fp block_size bytes w
          → Returns (Holding fp block_size (bytes ++ xs)) (write fp block_size available fuel xs w)
      unfolding write
      write-Holding fuel bytes [] w pos le k =
          Returns-log_assert (Holding fp block_size (bytes ++ []))
            (leb w.data_written_offset (data_size block_size)) _ (within bytes w k)
            (subst (λ b. Holding fp block_size b w) (sym (append-nil bytes)) k)
      write-Holding zero bytes (x ∷ xs) w pos le k = let absurd : ⊥ = omega arith in absurd
      write-Holding (suc fuel) bytes (x ∷ xs) w pos le k =
          let P = Holding fp block_size (bytes ++ (x ∷ xs)) in
          let c = commit fp block_size available w in
          let (kc, room) = commit-Holding bytes w pos k in
          let n = bytes_to_write fp block_size available c (x ∷ xs) in
          let (some, few, fits, in_block) = bytes_to_write-fits (x ∷ xs) c (omega arith) room in
          let (e, f) = length-take-drop n (x ∷ xs) few in
          Returns-log_assert P (leb w.data_written_offset (data_size block_size)) _
            (within bytes w k)
            (Returns-bind (Holding fp block_size (bytes ++ take n (x ∷ xs))) P
              (put fp block_size available (take n (x ∷ xs)) c) _
              (put-Holding bytes (take n (x ∷ xs)) c kc (omega (arith, e, some))
                (omega (arith, e, fits)) (omega (arith, e, in_block)))
              (λ v kv.
                subst
                  (λ b.
                    Returns (Holding fp block_size b)
                      (write fp block_size available fuel (drop n (x ∷ xs)) v))
                  (append_assoc bytes _ _ ∙ ap (λ b. bytes ++ b) (take-drop n (x ∷ xs)))
                  (write-Holding fuel (bytes ++ take n (x ∷ xs)) (drop n (x ∷ xs)) v pos
                    (omega (arith, f, some)) kv)))

      write_all-Holding :
          (bytes : List ℕ) (chunks : List (List ℕ)) (w : Writer)
          → 0 < data_size block_size
          → Holding fp block_size bytes w
          → Returns
              (Holding fp block_size (bytes ++ concat chunks))
              (write_all fp block_size available chunks w)
      unfolding write_all
      write_all-Holding bytes [] w pos k =
          subst (λ b. Holding fp block_size b w) (sym (append-nil bytes)) k
      write_all-Holding bytes (b ∷ bs) w pos k =
          Returns-bind (Holding fp block_size (bytes ++ b))
            (Holding fp block_size (bytes ++ concat (b ∷ bs)))
            (write fp block_size available (length b) b w) _
            (write-Holding (length b) bytes b w pos (omega arith) k)
            (λ v kv.
              subst
                (λ r. Returns (Holding fp block_size r) (write_all fp block_size available bs v))
                (append_assoc bytes b (concat bs)) (write_all-Holding (bytes ++ b) bs v pos kv))

      open_writer-Holding : Holding fp block_size [] (open_writer fp block_size available)
      unfolding open_writer seals
      open_writer-Holding = record {
        blocks = [];
        current = [];
        full = tt;
        whole = refl;
        text = refl;
        offset = refl;
        fits = omega arith;
        sum = inl refl;
        room = omega arith;
        fresh = λ _. refl;
      }

      -- Whatever the application writes, in whatever portions and into whatever buffers, no
      -- assertion fails, and the file that `Close` leaves holds it in blocks of the block size with
      -- a fingerprint behind each; and `BytesIssued` before `Close`, which goes into the header, is
      -- the size of that file. A block is larger than a fingerprint, the sequential file always
      -- offers a byte at least, and a fingerprint can be extended.
      pub write_all-IsFramed :
          (chunks : List (List ℕ))
          → checksum_size < block_size
          → Returns
              (λ w.
                IsFramed fp block_size (concat chunks) (close fp block_size w)
                × (length (close fp block_size w) ≡ bytes_issued fp block_size w))
              (write_all fp block_size available chunks (open_writer fp block_size available))
      write_all-IsFramed chunks big =
          Returns-map (Holding fp block_size (concat chunks)) _
            (write_all fp block_size available chunks (open_writer fp block_size available))
            (λ w k. close-IsFramed fp block_size (concat chunks) w (omega arith) k)
            (write_all-Holding [] chunks (open_writer fp block_size available) (omega arith)
              open_writer-Holding)
