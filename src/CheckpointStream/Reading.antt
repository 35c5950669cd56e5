-- ===== src/CheckpointStream/Reading.antt =====
-- src/RSL/src/rsl.cpp: what was written to a checkpoint's file is read back.
use rsl.Common.{ℕ, zero, suc, ◌+◌, ◌-◌, ◌%◌, ◌^◌, ◌≤◌, ◌<◌, ◌≡◌, refl, ◌∙◌, sym, ap, subst, arith}
use rsl.Common.{true, false, List, [], ◌∷◌, ◌++◌, length, take, drop, some}
use rsl.Common.{ltb, leb, ◌==◌, if-cases, ==_eq, ==→eq, length-append, append_assoc}
use rsl.Common.{append-nil, take-append_length, drop-append_length, drop-drop, length-drop}
use rsl.Common.{
  Outcome, ◌>>=◌, done, assert_failed, shut_down, stuck, Returns, Returns-bind, Returns-log_assert,
}
use rsl.Marshal.{to_le, from_le}
use rsl.Marshal.Reads.{length-to_le, from_le-to_le}
use rsl.CheckpointStream.{Fingerprint, checksum_size, data_size, min}
use rsl.CheckpointStream.Frames.{IsBlocks, concat, seals, IsFramed, take-drop, length-take-drop}
use rsl.CheckpointStream.Reader.{
  Reader, Result, got, end_of_file, crc_error, open_reader, check_block, load, read_next_block,
  give, serve, serve_from, get_data, keep_reading, read_all,
}

take_all : (n : ℕ) (xs : List ℕ) → length xs ≤ n → take n xs ≡ xs
take_all zero [] le = refl
take_all zero (x ∷ xs) le = let absurd : ⊥ = omega arith in elim absurd [ ]
take_all (suc n) [] le = refl
take_all (suc n) (x ∷ xs) le = ap (◌∷◌ x) (take_all n xs (omega arith))

Returns-into :
    {A B : Type 0} (P : A → Type 0) (m : Outcome A) (f : A → Outcome B) (b : B)
    → Returns P m
    → ((a : A) → P a → f a ≡ done b)
    → m >>= f ≡ done b
Returns-into P (done a) f b p k = k a p
Returns-into P assert_failed f b p k = elim p [ ]
Returns-into P shut_down f b p k = elim p [ ]
Returns-into P stuck f b p k = elim p [ ]

drop_all : (xs : List ℕ) → drop (length xs) xs ≡ []
drop_all [] = refl
drop_all (x ∷ xs) = drop_all xs

-- The bytes that the reader still has to give are `rest`.
module _ (fp : Fingerprint) (block_size : ℕ) where
  pub record Standing (rest : List ℕ) (r : Reader) : Type 0 where
    pub blocks : List (List ℕ)
    pub shape : IsBlocks (data_size block_size) blocks
    pub ahead : drop r.position r.body ≡ seals fp block_size blocks
    pub whole : drop r.read_offset r.block ++ concat blocks ≡ rest
    pub within : r.read_offset ≤ length r.block
    pub small : length r.block ≤ data_size block_size

  -- There is more to give, and the next bytes of it were given.
  abbrev Gives : List ℕ → Result (List ℕ) → Type 0
  Gives rest (got bytes r) =
      (0 < length bytes) × ((more : List ℕ) × (bytes ++ more ≡ rest) × Standing more r)
  Gives rest (end_of_file r) = rest ≡ []
  Gives rest (crc_error r) = ⊥

  give-Gives :
      (n : ℕ) (rest : List ℕ) (r : Reader)
      → 0 < n
      → block_size < 2 ^ 32
      → (k : Standing rest r) → r.read_offset + n ≤ length r.block
      → Returns (Gives rest) (give fp block_size n r)
  unfolding give
  give-Gives n rest r pos big k fits =
      let left = drop r.read_offset r.block in
      let up : (r.read_offset + n) % 2 ^ 32 ≡ r.read_offset + n = omega (arith, k.small) in
      let enough : n ≤ length left = omega (arith, length-drop r.read_offset r.block) in
      let next : drop ((r.read_offset + n) % 2 ^ 32) r.block ≡ drop n left =
        ap (λ m. drop m r.block) up ∙ drop-drop r.read_offset n r.block in
      Returns-log_assert (Gives rest) (leb ((r.read_offset + n) % 2 ^ 32) (length r.block)) _
        (ground (arith, up))
        (
          omega (arith, (length-take-drop n left enough).0),
          (
            drop n left ++ concat k.blocks,
            sym (append_assoc (take n left) (drop n left) (concat k.blocks))
                ∙ ap (λ d. d ++ concat k.blocks) (take-drop n left)
                ∙ k.whole,
            record {
              blocks = k.blocks;
              shape = k.shape;
              ahead = k.ahead;
              whole = ap (λ d. d ++ concat k.blocks) next;
              within = omega (arith, up);
              small = k.small;
            },
          ),
        )

  serve-Gives :
      (count : ℕ) (rest : List ℕ) (r : Reader)
      → 0 < count
      → block_size < 2 ^ 32
      → Standing rest r
      → r.read_offset < length r.block
      → Returns (Gives rest) (serve fp block_size count r)
  unfolding serve min
  serve-Gives count rest r pos big k more =
      let small = k.small in
      if-cases (λ n. Returns (Gives rest) (give fp block_size n r))
        (ltb count ((length r.block + 2 ^ 32 - r.read_offset) % 2 ^ 32)) count _
        (λ e. give-Gives count rest r pos big k (ground arith))
        (λ e. give-Gives _ rest r (omega arith) big k (omega arith))

  -- The block that is read next.
  abbrev Loads : List ℕ → Result (Unit {0}) → Type 0
  Loads rest (got u r) = Standing rest r × (r.read_offset < length r.block)
  Loads rest (end_of_file r) = rest ≡ []
  Loads rest (crc_error r) = ⊥

  module _ (law : (bytes : List ℕ) → fp.of bytes < 2 ^ 64) where
    load-Loads :
        (b : List ℕ) (bs : List (List ℕ)) (r : Reader)
        → 0 < length b
        → length b ≤ data_size block_size
        → IsBlocks (data_size block_size) bs
        → drop (r.position + length (b ++ to_le 8 (fp.of b))) r.body ≡ seals fp block_size bs
        → Returns (Loads (b ++ concat bs)) (load fp block_size (b ++ to_le 8 (fp.of b)) r)
    unfolding load check_block
    load-Loads b bs r pos fits shape ahead =
        let mark = to_le 8 (fp.of b) in
        let P = Returns (Loads (b ++ concat bs)) in
        let l : length (b ++ mark) ≡ length b + 8 =
          length-append b mark ∙ ap (λ n. length b + n) (length-to_le 8 (fp.of b)) in
        let size : length (b ++ mark) - 8 ≡ length b = omega (arith, l) in
        let front : take (length (b ++ mark) - 8) (b ++ mark) ≡ b =
          ap (λ n. take n (b ++ mark)) size ∙ take-append_length b mark in
        let back : drop (length (b ++ mark) - 8) (b ++ mark) ≡ mark =
          ap (λ n. drop n (b ++ mark)) size ∙ drop-append_length b mark in
        let fresh : (length (b ++ mark) == 0) ≡ false = ground (arith, l) in
        let long : ltb (length (b ++ mark)) 8 ≡ false = ground (arith, l) in
        let sound : (from_le (drop (length (b ++ mark) - 8) (b ++ mark))
              == fp.of (take (length (b ++ mark) - 8) (b ++ mark)))
            ≡ true =
          ==_eq _ _ (ap from_le back ∙ from_le-to_le 8 (fp.of b) (law b) ∙ ap fp.of (sym front)) in
        rw (fresh, long, sound)
          (Returns-log_assert (Loads (b ++ concat bs)) (ltb 0 (length (b ++ mark) - 8)) _
            (ground (arith, size))
            (
              record {
                blocks = bs;
                shape = shape;
                ahead = ahead;
                whole = ap (λ d. d ++ concat bs) front;
                within = omega arith;
                small = omega (arith, ap length front);
              },
              omega (arith, ap length front),
            ))

    -- The bytes of the block that stands at the head of the rest of the file.
    next_bytes :
        (b : List ℕ) (bs : List (List ℕ))
        → checksum_size < block_size
        → IsBlocks (data_size block_size) (b ∷ bs)
        → (take block_size (seals fp block_size (b ∷ bs)) ≡ b ++ to_le 8 (fp.of b))
          × (0 < length b)
          × (length b ≤ data_size block_size)
          × IsBlocks (data_size block_size) bs
    unfolding seals
    next_bytes b [] big (p, q) = (
      ap (take block_size) (append-nil (b ++ to_le 8 (fp.of b)))
          ∙ take_all block_size (b ++ to_le 8 (fp.of b))
              (omega (arith, length-append b (to_le 8 (fp.of b)), length-to_le 8 (fp.of b))),
      p,
      q,
      tt,
    )
    next_bytes b (c ∷ bs) big (f, shape) =
        let mark = to_le 8 (fp.of b) in
        let l : length (b ++ mark) ≡ block_size =
          omega (arith, length-append b mark, length-to_le 8 (fp.of b), f) in
        (
          ap (λ n. take n ((b ++ mark) ++ seals fp block_size (c ∷ bs))) (sym l)
              ∙ take-append_length (b ++ mark) (seals fp block_size (c ∷ bs)),
          omega (arith, f),
          omega (arith, f),
          shape,
        )

    at_end : (r : Reader) → Returns (Loads []) (load fp block_size [] r)
    unfolding load
    at_end r = refl

    serve_from-Gives :
        (count : ℕ) (rest : List ℕ) (x : Result (Unit {0}))
        → 0 < count
        → block_size < 2 ^ 32
        → Loads rest x
        → Returns (Gives rest) (serve_from fp block_size count x)
    unfolding serve_from
    serve_from-Gives count rest (got u r) pos small (k, more) =
        serve-Gives count rest r pos small k more
    serve_from-Gives count rest (end_of_file r) pos small l = l
    serve_from-Gives count rest (crc_error r) pos small l = l

    read_blocks-Loads :
        (blocks : List (List ℕ)) (r : Reader)
        → checksum_size < block_size
        → IsBlocks (data_size block_size) blocks
        → drop r.position r.body ≡ seals fp block_size blocks
        → Returns (Loads (concat blocks)) (read_next_block fp block_size r)
    unfolding read_next_block seals
    read_blocks-Loads [] r big shape ahead =
        subst (λ x. Returns (Loads []) (load fp block_size x r))
          (sym (ap (take block_size) ahead ∙ take_all block_size [] (omega arith))) (at_end r)
    read_blocks-Loads (b ∷ bs) r big shape ahead =
        let (raw, pos, fits, others) = next_bytes b bs big shape in
        let mark = to_le 8 (fp.of b) in
        subst (λ x. Returns (Loads (b ++ concat bs)) (load fp block_size x r))
          (sym (ap (take block_size) ahead ∙ raw))
          (load-Loads b bs r pos fits others (
            drop-drop r.position (length (b ++ mark)) r.body
            ∙ ap (drop (length (b ++ mark))) ahead
            ∙ drop-append_length (b ++ mark) (seals fp block_size bs)))

    get_data-Gives :
        (count : ℕ) (rest : List ℕ) (r : Reader)
        → 0 < count
        → checksum_size < block_size
        → block_size < 2 ^ 32
        → Standing rest r
        → Returns (Gives rest) (get_data fp block_size count r)
    unfolding get_data
    get_data-Gives count rest r pos big small k =
        let within = k.within in
        if-cases (Returns (Gives rest)) (r.read_offset == length r.block) _ _
          (λ e.
            let over : drop r.read_offset r.block ≡ [] =
              ap (λ n. drop n r.block) (==→eq _ _ e) ∙ drop_all r.block in
            let left : concat k.blocks ≡ rest =
              ap (λ d. d ++ concat k.blocks) (sym over) ∙ k.whole in
            Returns-bind (Loads rest) (Gives rest) (read_next_block fp block_size r)
              (serve_from fp block_size count)
              (subst (λ x. Returns (Loads x) (read_next_block fp block_size r)) left
                (read_blocks-Loads k.blocks r big k.shape k.ahead))
              (λ x l. serve_from-Gives count rest x pos small l))
          (λ e. serve-Gives count rest r pos small k (ground arith))

    keep_reading-all :
        (fuel count : ℕ) (rest : List ℕ) (x : Result (List ℕ))
        → ((more : List ℕ) (r : Reader)
            → length more < length rest
            → Standing more r
            → read_all fp block_size fuel count r ≡ done (some more))
        → Gives rest x
        → keep_reading fp block_size (read_all fp block_size fuel count) x ≡ done (some rest)
    unfolding keep_reading
    keep_reading-all fuel count rest (got bytes r) again (some_given, (more, e, k)) =
        let fewer : length more < length rest =
          omega (arith, ap length e, length-append bytes more) in
        rw (again more r fewer k) (ap (λ b. done (some b)) e)
    keep_reading-all fuel count rest (end_of_file r) again e = ap (λ b. done (some b)) (sym e)
    keep_reading-all fuel count rest (crc_error r) again wrong = elim wrong [ ]

    read_all-rest :
        (fuel count : ℕ) (rest : List ℕ) (r : Reader)
        → 0 < count
        → checksum_size < block_size
        → block_size < 2 ^ 32
        → length rest < fuel
        → Standing rest r
        → read_all fp block_size fuel count r ≡ done (some rest)
    unfolding read_all
    read_all-rest zero count rest r pos big small le k =
        let absurd : ⊥ = omega arith in elim absurd [ ]
    read_all-rest (suc fuel) count rest r pos big small le k =
        Returns-into (Gives rest) (get_data fp block_size count r)
          (keep_reading fp block_size (read_all fp block_size fuel count)) (some rest)
          (get_data-Gives count rest r pos big small k)
          (λ x g.
            keep_reading-all fuel count rest x
              (λ more s fewer ks. read_all-rest fuel count more s pos big small (omega arith) ks) g)

    open_reader-Standing :
        (bytes file : List ℕ)
        → IsFramed fp block_size bytes file
        → Standing bytes (open_reader fp block_size file)
    unfolding open_reader
    open_reader-Standing bytes file f = record {
      blocks = f.blocks;
      shape = f.shape;
      ahead = sym f.text;
      whole = f.whole;
      within = omega arith;
      small = omega arith;
    }

    -- A file in blocks, each with its fingerprint behind it, is read back: an application that asks
    -- for at most `count` bytes at a time is given all of the bytes that the blocks hold, in order,
    -- and no error, and the reading ends.
    pub read_all-IsFramed :
        (count : ℕ) (bytes file : List ℕ)
        → 0 < count
        → checksum_size < block_size
        → block_size < 2 ^ 32
        → IsFramed fp block_size bytes file
        → read_all fp block_size (suc (length bytes)) count (open_reader fp block_size file)
          ≡ done (some bytes)
    read_all-IsFramed count bytes file pos big small f =
        read_all-rest (suc (length bytes)) count bytes (open_reader fp block_size file) pos big
          small (omega arith) (open_reader-Standing bytes file f)
