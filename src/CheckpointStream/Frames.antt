-- ===== src/CheckpointStream/Frames.antt =====
-- src/RSL/src/rsl.cpp: the file that `RSLCheckpointStreamWriter` leaves.
use rsl.Common.{ℕ, zero, suc, ◌+◌, ◌≤◌, ◌<◌, ◌≡◌, ◌⊎◌, inl, inr, refl, ◌∙◌, sym, ap, arith}
use rsl.Common.{List, [], ◌∷◌, ◌++◌, All, length, take, drop}
use rsl.Common.{◌==◌, Bool-cases, length-append, append_assoc, append-nil}
use rsl.Marshal.{to_le}
use rsl.Marshal.Reads.{length-to_le}
use rsl.CheckpointStream.{Fingerprint, Writer, data_size, close, bytes_issued}

-- Blocks of `size` bytes, the last of which can be shorter but is not empty.
abbrev pub IsBlocks : ℕ → List (List ℕ) → Type 0
IsBlocks size [] = Unit {0}
IsBlocks size (b ∷ []) = (0 < length b) × (length b ≤ size)
IsBlocks size (b ∷ c ∷ bs) = (length b ≡ size) × IsBlocks size (c ∷ bs)

abbrev pub concat : List (List ℕ) → List ℕ
concat [] = []
concat (b ∷ bs) = b ++ concat bs

concat-append : (bs cs : List (List ℕ)) → concat (bs ++ cs) ≡ concat bs ++ concat cs
concat-append [] cs = refl
concat-append (b ∷ bs) cs = ap (λ r. b ++ r) (concat-append bs cs) ∙ sym (append_assoc b _ _)

pub take-drop : (n : ℕ) (xs : List ℕ) → take n xs ++ drop n xs ≡ xs
take-drop zero xs = refl
take-drop (suc n) [] = refl
take-drop (suc n) (x ∷ xs) = ap (◌∷◌ x) (take-drop n xs)

pub length-take-drop :
    (n : ℕ) (xs : List ℕ)
    → n ≤ length xs
    → (length (take n xs) ≡ n) × (length (drop n xs) + n ≡ length xs)
length-take-drop zero xs le = (refl, omega arith)
length-take-drop (suc n) [] le = (omega arith, omega arith)
length-take-drop (suc n) (x ∷ xs) le =
    let (p, q) = length-take-drop n xs (omega arith) in (omega (arith, p), omega (arith, q))

IsBlocks-snoc :
    (size : ℕ) (bs : List (List ℕ)) (c : List ℕ)
    → All (λ b. length b ≡ size) bs
    → 0 < length c
    → length c ≤ size
    → IsBlocks size (bs ++ (c ∷ []))
IsBlocks-snoc size [] c full p q = (p, q)
IsBlocks-snoc size (b ∷ []) c (f, full) p q = (f, (p, q))
IsBlocks-snoc size (b ∷ d ∷ bs) c (f, full) p q = (f, IsBlocks-snoc size (d ∷ bs) c full p q)

IsBlocks-full :
    (size : ℕ) (bs : List (List ℕ)) → 0 < size → All (λ b. length b ≡ size) bs → IsBlocks size bs
IsBlocks-full size [] pos full = tt
IsBlocks-full size (b ∷ []) pos (f, full) = (omega arith, omega arith)
IsBlocks-full size (b ∷ c ∷ bs) pos (f, full) = (f, IsBlocks-full size (c ∷ bs) pos full)

pub All-snoc :
    (P : List ℕ → Type 0) (bs : List (List ℕ)) (c : List ℕ)
    → All P bs
    → P c
    → All P (bs ++ (c ∷ []))
All-snoc P [] c ps p = (p, tt)
All-snoc P (b ∷ bs) c (q, ps) p = (q, All-snoc P bs c ps p)

pub nil-length : (xs : List ℕ) → length xs ≡ 0 → xs ≡ []
nil-length [] e = refl
nil-length (x ∷ xs) e = let absurd : ⊥ = omega arith in elim absurd [ ]

module _ (fp : Fingerprint) (block_size : ℕ) where
  unfoldable pub seals : List (List ℕ) → List ℕ
  seals [] = []
  seals (b ∷ bs) = (b ++ to_le 8 (fp.of b)) ++ seals bs

  seals-append : (bs cs : List (List ℕ)) → seals (bs ++ cs) ≡ seals bs ++ seals cs
  unfolding seals
  seals-append [] cs = refl
  seals-append (b ∷ bs) cs =
      ap (λ r. (b ++ to_le 8 (fp.of b)) ++ r) (seals-append bs cs)
      ∙ sym (append_assoc (b ++ to_le 8 (fp.of b)) _ _)

  -- The file holds the data in blocks, each with its fingerprint.
  pub record IsFramed (bytes file : List ℕ) : Type 0 where
    pub blocks : List (List ℕ)
    pub shape : IsBlocks (data_size block_size) blocks
    pub whole : concat blocks ≡ bytes
    pub text : seals blocks ≡ file

  -- The writer has taken `bytes`: full blocks, and the one that is being written.
  pub record Holding (bytes : List ℕ) (w : Writer) : Type 0 where
    pub blocks : List (List ℕ)
    pub current : List ℕ
    pub full : All (λ b. length b ≡ data_size block_size) blocks
    pub whole : concat blocks ++ current ≡ bytes
    pub text : w.file ++ w.buffer ≡ seals blocks ++ current
    pub offset : w.data_written_offset ≡ length current
    pub fits : length current ≤ data_size block_size
    pub sum : (length current ≡ 0) ⊎ (w.checksum ≡ fp.of current)
    pub room : length w.buffer ≤ w.available
    pub fresh : (length current ≡ 0) → w.buffer ≡ []

  pub checksum_of :
      (bytes : List ℕ) (w : Writer) (k : Holding bytes w)
      → 0 < length k.current
      → w.checksum ≡ fp.of k.current
  checksum_of bytes w k pos = elim k.sum [
    | inl z ↦ let none_left : ⊥ = omega arith in elim none_left [ ]
    | inr e ↦ e
  ]

  -- The block that is being written, with its fingerprint behind it.
  pub seals-snoc :
      (bytes : List ℕ) (w : Writer) (k : Holding bytes w)
      → 0 < length k.current
      → (w.file ++ w.buffer) ++ to_le 8 w.checksum ≡ seals (k.blocks ++ (k.current ∷ []))
  unfolding seals
  seals-snoc bytes w k pos =
      let mark = to_le 8 w.checksum in
      let same : seals (k.current ∷ []) ≡ k.current ++ mark =
        append-nil (k.current ++ to_le 8 (fp.of k.current))
        ∙ ap (λ c. k.current ++ to_le 8 c) (sym (checksum_of bytes w k pos)) in
      ap (λ t. t ++ mark) k.text
      ∙ append_assoc (seals k.blocks) k.current mark
      ∙ ap (λ r. seals k.blocks ++ r) (sym same)
      ∙ sym (seals-append k.blocks (k.current ∷ []))

  pub concat-snoc :
      (bytes : List ℕ) (w : Writer) (k : Holding bytes w)
      → concat (k.blocks ++ (k.current ∷ [])) ≡ bytes
  concat-snoc bytes w k =
      concat-append k.blocks (k.current ∷ [])
      ∙ ap (λ r. concat k.blocks ++ r) (append-nil k.current)
      ∙ k.whole

  IsFramed-at_block :
      (bytes : List ℕ) (w : Writer)
      → 0 < data_size block_size
      → Holding bytes w
      → w.data_written_offset ≡ 0
      → IsFramed bytes w.file
  IsFramed-at_block bytes w pos k e =
      let empty = nil-length k.current (sym k.offset ∙ e) in
      let kept = k.fresh (sym k.offset ∙ e) in
      record {
        blocks = k.blocks;
        shape = IsBlocks-full (data_size block_size) k.blocks pos k.full;
        whole =
            sym (append-nil (concat k.blocks))
            ∙ ap (λ c. concat k.blocks ++ c) (sym empty)
            ∙ k.whole;
        text =
            sym (append-nil (seals k.blocks))
            ∙ ap (λ c. seals k.blocks ++ c) (sym empty)
            ∙ sym k.text
            ∙ ap (λ b. w.file ++ b) kept
            ∙ append-nil w.file;
      }

  IsFramed-in_block :
      (bytes : List ℕ) (w : Writer)
      → Holding bytes w
      → 0 < w.data_written_offset
      → IsFramed bytes ((w.file ++ w.buffer) ++ to_le 8 w.checksum)
  IsFramed-in_block bytes w k e =
      let pos : 0 < length k.current = omega (arith, k.offset) in
      record {
        blocks = k.blocks ++ (k.current ∷ []);
        shape = IsBlocks-snoc (data_size block_size) k.blocks k.current k.full pos k.fits;
        whole = concat-snoc bytes w k;
        text = sym (seals-snoc bytes w k pos);
      }

  pub close-IsFramed :
      (bytes : List ℕ) (w : Writer)
      → 0 < data_size block_size
      → Holding bytes w
      → IsFramed bytes (close fp block_size w)
        × (length (close fp block_size w) ≡ bytes_issued fp block_size w)
  unfolding close bytes_issued
  close-IsFramed bytes w pos k = elim (Bool-cases (w.data_written_offset == 0)) [
    | inl e ↦ rw e (IsFramed-at_block bytes w pos k (ground arith), refl)
    | inr e ↦ rw e (
      IsFramed-in_block bytes w k (ground arith),
      omega (
        arith,
        length-append (w.file ++ w.buffer) (to_le 8 w.checksum),
        length-append w.file w.buffer,
        length-to_le 8 w.checksum,
      ),
    )
  ]
