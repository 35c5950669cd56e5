-- ===== src/CheckpointStream/Damage.antt =====
-- src/RSL/src/rsl.cpp: what `RSLCheckpointStreamReader` gives after it has found a damaged block.
use rsl.Common.{ℕ, ◌+◌, ◌-◌, ◌%◌, ◌^◌, ◌≤◌, ◌<◌, ◌≡◌, refl, arith}
use rsl.Common.{true, false, List, length, take, drop, ltb, leb, ◌==◌, if◌then◌else◌, if-cases}
use rsl.Common.{done, le→leb, ==_eq}
use rsl.Marshal.{from_le}
use rsl.CheckpointStream.{Fingerprint, checksum_size, min}
use rsl.CheckpointStream.Frames.{length-take-drop}
use rsl.CheckpointStream.Reader.{
  Reader, got, crc_error, check_block, load, read_next_block, give, serve, serve_from, get_data,
}

module _ (fp : Fingerprint) (block_size : ℕ) where
  -- The bytes of the next block in the file, with its fingerprint.
  abbrev pub next_raw : Reader → List ℕ
  next_raw r = take block_size (drop r.position r.body)

  -- The data of that block, whatever its fingerprint.
  abbrev pub next_data : Reader → List ℕ
  next_data r = take (length (next_raw r) - checksum_size) (next_raw r)

  -- The reader after that block was loaded.
  abbrev pub after_block : Reader → Reader
  after_block r = record r {
    position = r.position + length (next_raw r);
    next_block = r.next_block + block_size;
    block = next_data r;
    read_offset = 0;
  }

  get_data-crc :
      (count : ℕ) (r : Reader)
      → r.read_offset ≡ length r.block
      → checksum_size < length (next_raw r)
      → (from_le (drop (length (next_raw r) - checksum_size) (next_raw r)) == fp.of (next_data r))
        ≡ false
      → get_data fp block_size count r ≡ done (crc_error (after_block r))
  unfolding get_data read_next_block load check_block serve_from
  get_data-crc count r e long bad =
      let at_end : (r.read_offset == length r.block) ≡ true = ==_eq _ _ e in
      let some_read : (length (next_raw r) == 0) ≡ false = ground arith in
      let enough : ltb (length (next_raw r)) checksum_size ≡ false = ground arith in
      rw (at_end, some_read, enough, bad) refl

  get_data-block :
      (count : ℕ) (r : Reader)
      → r.read_offset ≡ 0
      → 0 < count
      → count ≤ length r.block
      → length r.block < 2 ^ 32
      → get_data fp block_size count r
        ≡ done (got (take count (drop r.read_offset r.block)) (record r { read_offset = count }))
  unfolding get_data serve give min
  get_data-block count r e pos le small =
      let inside : (r.read_offset == length r.block) ≡ false = ground arith in
      let left = (length r.block + 2 ^ 32 - r.read_offset) % 2 ^ 32 in
      let all_asked : (if ltb count left then count else left) ≡ count =
        if-cases (λ n. n ≡ count) (ltb count left) count left (λ _. refl) (λ f. ground arith) in
      let up : (r.read_offset + count) % 2 ^ 32 ≡ count = omega arith in
      let fits : leb count (length r.block) ≡ true = le→leb _ _ le in
      rw (inside, all_asked, up, fits) refl

  -- `ReadNextDataBlock` leaves a block whose fingerprint does not fit where `GetData` serves it from:
  -- the call that finds the damage returns `ERROR_CRC`, and the next one returns the bytes of the
  -- damaged block with `NO_ERROR`. The reader stands at the end of a block, and the next one has at
  -- least the `count` bytes that are asked for.
  pub get_data-damaged :
      (count : ℕ) (r : Reader)
      → r.read_offset ≡ length r.block
      → 0 < count
      → count + checksum_size ≤ length (next_raw r)
      → length (next_raw r) < 2 ^ 32
      → (from_le (drop (length (next_raw r) - checksum_size) (next_raw r)) == fp.of (next_data r))
        ≡ false
      → (get_data fp block_size count r ≡ done (crc_error (after_block r)))
        × (get_data fp block_size count (after_block r)
            ≡ done
                (got (take count (next_data r)) (record (after_block r) { read_offset = count })))
  get_data-damaged count r e pos le small bad =
      let (l, _) =
        length-take-drop (length (next_raw r) - checksum_size) (next_raw r) (omega arith) in
      (
        get_data-crc count r e (omega arith) bad,
        get_data-block count (after_block r) refl pos (omega (arith, l)) (omega (arith, l)),
      )
