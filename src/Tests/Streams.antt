-- ===== src/Tests/Streams.antt =====
-- The file of a checkpoint, written and read in blocks of ten bytes.
use rsl.Common.{ℕ, suc, ◌+◌, ◌%◌, ◌^◌, ◌≡◌, refl, arith, List, [], ◌∷◌, ◌++◌, length, some}
use rsl.Common.{done, Returns, replicate}
use rsl.Marshal.{from_le}
use rsl.CheckpointStream.{Fingerprint, open_writer, write_all, close, bytes_issued}
use rsl.CheckpointStream.Frames.{concat, IsFramed}
use rsl.CheckpointStream.Writing.{write_all-IsFramed}
use rsl.CheckpointStream.Reader.{
  Reader, get_data, got, crc_error, open_reader, read_all, size_of_data,
}
use rsl.CheckpointStream.RoundTrip.{write_all_round_trip}
use rsl.CheckpointStream.Damage.{after_block, get_data-damaged}

abbrev sum : List ℕ → ℕ
sum [] = 0
sum (x ∷ xs) = x + sum xs

sum-append : (xs ys : List ℕ) → sum (xs ++ ys) ≡ sum xs + sum ys
sum-append [] ys = omega arith
sum-append (x ∷ xs) ys = omega (arith, sum-append xs ys)

-- The sum of the bytes stands for the fingerprint.
abbrev summed : Fingerprint
summed = record { of = λ bytes. sum bytes % 2 ^ 64; extend = λ c bytes. (c + sum bytes) % 2 ^ 64 }

summed-extends : (xs ys : List ℕ) → summed.extend (summed.of xs) ys ≡ summed.of (xs ++ ys)
summed-extends xs ys = omega (arith, sum-append xs ys)

abbrev portions : List (List ℕ)
portions = (1 ∷ []) ∷ (2 ∷ 3 ∷ 4 ∷ 5 ∷ []) ∷ []

write_all-IsFramed_example :
    Returns
      (λ w.
        IsFramed summed 10 (concat portions) (close summed 10 w)
        × (length (close summed 10 w) ≡ bytes_issued summed 10 w))
      (write_all summed 10 (λ n. 4) portions (open_writer summed 10 (λ n. 4)))
write_all-IsFramed_example =
    write_all-IsFramed summed 10 (λ n. 4) (λ n. omega arith) summed-extends portions (omega arith)

write_all_round_trip_example :
    Returns
      (λ w.
        (read_all summed 10
            (suc (length (concat portions)))
            3
            (open_reader summed 10 (close summed 10 w))
          ≡ done (some (concat portions)))
        × (size_of_data summed 10 (bytes_issued summed 10 w) ≡ some (length (concat portions))))
      (write_all summed 10 (λ n. 4) portions (open_writer summed 10 (λ n. 4)))
write_all_round_trip_example =
    write_all_round_trip summed 10 3 (λ n. 4) portions (omega arith) (omega arith) (omega arith)
      (λ n. omega arith) summed-extends (λ bytes. omega arith)

-- The five bytes make three blocks.
written :
    Returns
      (λ w. length (close summed 10 w) ≡ 29)
      (write_all summed 10 (λ n. 4) portions (open_writer summed 10 (λ n. 4)))
unfolding write_all close open_writer
written = refl

-- A block whose fingerprint was overwritten with zeros.
abbrev damaged : Reader
damaged = record {
  body = 1 ∷ 2 ∷ replicate 8 0;
  position = 0;
  next_block = 0;
  block = [];
  read_offset = 0;
}

get_data-damaged_example :
    (get_data summed 10 2 damaged ≡ done (crc_error (after_block summed 10 damaged)))
    × (get_data summed 10 2 (after_block summed 10 damaged)
        ≡ done (got (1 ∷ 2 ∷ []) (record (after_block summed 10 damaged) { read_offset = 2 })))
unfolding from_le
get_data-damaged_example =
    get_data-damaged summed 10 2 damaged refl (omega arith) (omega arith) (omega arith) refl
