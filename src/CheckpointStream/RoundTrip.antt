-- ===== src/CheckpointStream/RoundTrip.antt =====
-- src/RSL/src/rsl.cpp: the writer and the reader of a checkpoint's file together.
use rsl.Common.{
  ℕ, suc, ◌^◌, ◌<◌, ◌≡◌, ◌∙◌, sym, ap, List, length, some, done, Returns, Returns-map, ◌++◌,
}
use rsl.CheckpointStream.{Fingerprint, checksum_size, open_writer, write_all, close, bytes_issued}
use rsl.CheckpointStream.Frames.{concat, IsFramed}
use rsl.CheckpointStream.Writing.{write_all-IsFramed}
use rsl.CheckpointStream.Reader.{open_reader, read_all, size_of_data}
use rsl.CheckpointStream.Reading.{read_all-IsFramed}
use rsl.CheckpointStream.Sizes.{size_of_data-IsFramed}

-- What an application saves it loads again: whatever portions it writes its state in, and however
-- many bytes it asks for at a time, `GetData` gives it back byte for byte until the file ends; and
-- from the size that goes into the header `Init` computes how much it is. A block is larger than a
-- fingerprint and smaller than UInt32 counts, the sequential file always offers a byte at least, and
-- fingerprints are UInt64 and can be extended.
pub write_all_round_trip :
    (fp : Fingerprint) (block_size count : ℕ) (available : ℕ → ℕ) (chunks : List (List ℕ))
    → checksum_size < block_size
    → block_size < 2 ^ 32
    → 0 < count
    → ((n : ℕ) → 0 < available n)
    → ((xs ys : List ℕ) → fp.extend (fp.of xs) ys ≡ fp.of (xs ++ ys))
    → ((bytes : List ℕ) → fp.of bytes < 2 ^ 64)
    → Returns
        (λ w.
          (read_all fp block_size
              (suc (length (concat chunks)))
              count
              (open_reader fp block_size (close fp block_size w))
            ≡ done (some (concat chunks)))
          × (size_of_data fp block_size (bytes_issued fp block_size w)
              ≡ some (length (concat chunks))))
        (write_all fp block_size available chunks (open_writer fp block_size available))
write_all_round_trip fp block_size count available chunks big small pos room extends law =
    Returns-map
      (λ w.
        IsFramed fp block_size (concat chunks) (close fp block_size w)
        × (length (close fp block_size w) ≡ bytes_issued fp block_size w))
      _ (write_all fp block_size available chunks (open_writer fp block_size available))
      (λ w (f, l). (
        read_all-IsFramed fp block_size law count (concat chunks) (close fp block_size w) pos big
            small f,
        ap (size_of_data fp block_size) (sym l)
            ∙ size_of_data-IsFramed fp block_size big (concat chunks) (close fp block_size w) f,
      ))
      (write_all-IsFramed fp block_size available room extends chunks big)
