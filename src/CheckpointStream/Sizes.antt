-- ===== src/CheckpointStream/Sizes.antt =====
-- src/RSL/src/rsl.cpp: the size of the data that `RSLCheckpointStreamReader::Init` computes.
use rsl.Common.{ℕ, ◌+◌, ◌-◌, ◌*◌, ◌/◌, ◌≤◌, ◌<◌, ◌≡◌, ◌∙◌, sym, ap, arith}
use rsl.Common.{List, [], ◌∷◌, ◌++◌, length, some, ◌==◌}
use rsl.Common.{inl, inr, Bool-cases, ==→eq, length-append}
use native.Mathlib.Nat.{div-eq_of_lt, div_self, add-div_left, zero-div, add-mul, one-mul, zero-mul}
use rsl.Marshal.{to_le}
use rsl.Marshal.Reads.{length-to_le}
use rsl.CheckpointStream.{Fingerprint, checksum_size, data_size}
use rsl.CheckpointStream.Frames.{IsBlocks, concat, seals, IsFramed}
use rsl.CheckpointStream.Reader.{size_with, size_of_data}

module _ (fp : Fingerprint) (block_size : ℕ) (big : checksum_size < block_size) where
  size_with-suc :
      (q l n : ℕ)
      → size_with fp block_size q l ≡ some n
      → size_with fp block_size (q + 1) l ≡ some (data_size block_size + n)
  unfolding size_with
  size_with-suc q l n e =
      ground (arith, add-mul q 1 (data_size block_size), one-mul (data_size block_size), e)

  -- One more full block in front.
  size_of_data-add :
      (total n : ℕ)
      → size_of_data fp block_size total ≡ some n
      → size_of_data fp block_size (block_size + total) ≡ some (data_size block_size + n)
  unfolding size_of_data
  size_of_data-add total n e =
      let up : (block_size + total) / block_size ≡ total / block_size + 1 =
        add-div_left total (omega (arith, big)) in
      let same : block_size + total - (block_size + total) / block_size * block_size
          ≡ total - total / block_size * block_size =
        ap (λ q. block_size + total - q * block_size) up
        ∙ omega (arith, add-mul (total / block_size) 1 block_size, one-mul block_size) in
      ap
        (λ q.
          size_with fp block_size q
            (block_size + total - (block_size + total) / block_size * block_size))
        up
      ∙ ap (size_with fp block_size (total / block_size + 1)) same
      ∙ size_with-suc (total / block_size) (total - total / block_size * block_size) n e

  size_of_data-short :
      (n : ℕ)
      → 0 < n
      → n ≤ data_size block_size
      → size_of_data fp block_size (n + checksum_size) ≡ some n
  unfolding size_of_data
  size_of_data-short n pos le = elim (Bool-cases (n + 8 == block_size)) [
    | inl e ↦
        let same : n + 8 ≡ block_size = ==→eq _ _ e in
        let whole : (n + 8) / block_size ≡ 1 =
          ap (λ b. b / block_size) same ∙ div_self (omega (arith, big)) in
        rw whole (ground (arith, same, one-mul block_size, one-mul (data_size block_size)))
    | inr e ↦
        let short : (n + 8) / block_size ≡ 0 = div-eq_of_lt (ground (arith, le)) in
        rw short (ground (arith, zero-mul block_size, zero-mul (data_size block_size)))
  ]

  size_of_data-none : size_of_data fp block_size 0 ≡ some 0
  unfolding size_of_data
  size_of_data-none =
      rw (zero-div block_size)
        (ground (arith, zero-mul block_size, zero-mul (data_size block_size)))

  size_of_data-blocks :
      (blocks : List (List ℕ))
      → IsBlocks (data_size block_size) blocks
      → size_of_data fp block_size (length (seals fp block_size blocks))
        ≡ some (length (concat blocks))
  unfolding seals
  size_of_data-blocks [] shape = size_of_data-none
  size_of_data-blocks (b ∷ []) (p, q) =
      let l = length-append b (to_le 8 (fp.of b)) in
      let m = length-to_le 8 (fp.of b) in
      let total : length ((b ++ to_le 8 (fp.of b)) ++ []) ≡ length b + 8 =
        omega (arith, l, m, length-append (b ++ to_le 8 (fp.of b)) []) in
      let bytes : length b ≡ length (b ++ []) = omega (arith, length-append b []) in
      ap (size_of_data fp block_size) total
      ∙ size_of_data-short (length b) p q
      ∙ ap (λ n. some n) bytes
  size_of_data-blocks (b ∷ c ∷ bs) (f, shape) =
      let rest = seals fp block_size (c ∷ bs) in
      let total : length ((b ++ to_le 8 (fp.of b)) ++ rest) ≡ block_size + length rest = omega (
        arith,
        f,
        length-append b (to_le 8 (fp.of b)),
        length-to_le 8 (fp.of b),
        length-append (b ++ to_le 8 (fp.of b)) rest,
      ) in
      let bytes : data_size block_size + length (concat (c ∷ bs)) ≡ length (b ++ concat (c ∷ bs)) =
        omega (arith, f, length-append b (concat (c ∷ bs))) in
      ap (size_of_data fp block_size) total
      ∙ size_of_data-add (length rest) (length (concat (c ∷ bs)))
          (size_of_data-blocks (c ∷ bs) shape)
      ∙ ap (λ n. some n) bytes

  -- For a file in blocks with a fingerprint behind each, `Init` computes the number of bytes that
  -- the blocks hold, and does not take the file for damaged.
  pub size_of_data-IsFramed :
      (bytes file : List ℕ)
      → IsFramed fp block_size bytes file
      → size_of_data fp block_size (length file) ≡ some (length bytes)
  size_of_data-IsFramed bytes file f =
      ap (λ x. size_of_data fp block_size (length x)) (sym f.text)
      ∙ size_of_data-blocks f.blocks f.shape
      ∙ ap (λ x. some (length x)) f.whole
