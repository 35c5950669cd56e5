-- ===== src/CheckpointStream/Reader.antt =====
-- src/RSL/src/rsl.cpp: `RSLCheckpointStreamReader` on a file whose header gives a block size.
use rsl.Common.{ℕ, zero, suc, ◌+◌, ◌-◌, ◌*◌, ◌/◌, ◌%◌, ◌^◌}
use rsl.Common.{List, [], ◌++◌, length, take, drop, Option, none, some}
use rsl.Common.{ltb, leb, ◌==◌, if◌then◌else◌, Outcome, ◌>>=◌, ◌>>◌, done, log_assert, stuck}
use rsl.Marshal.{from_le}
use rsl.CheckpointStream.{Fingerprint, checksum_size, data_size, min}

-- `body` is the file behind the header, `position` the place of the next read in it, and `next_block`
-- is `m_nextblockOffset`, also counted from the end of the header. `block` holds the data of the
-- block that was read last, `m_currentBlockSize` bytes.
pub record Reader : Type 0 where
  pub body : List ℕ
  pub position : ℕ
  pub next_block : ℕ
  pub block : List ℕ
  pub read_offset : ℕ

-- `NO_ERROR`, `ERROR_HANDLE_EOF` and `ERROR_CRC`, with the state that is left.
pub data Result (A : Type 0) : Type 0 where
  got : A → Reader → Result A
  end_of_file : Reader → Result A
  crc_error : Reader → Result A

module _ (fp : Fingerprint) (block_size : ℕ) where
  -- The checks of `Init`: the size of the data, where the sizes agree.
  unfoldable pub size_with : ℕ → ℕ → Option ℕ
  size_with full last =
      if last == 0
      then some (full * data_size block_size)
      else (if leb last checksum_size
          then none
          else some (full * data_size block_size + (last - checksum_size)))

  unfoldable pub size_of_data : ℕ → Option ℕ
  unfolding size_with
  size_of_data total = size_with (total / block_size) (total - total / block_size * block_size)

  unfoldable pub open_reader : List ℕ → Reader
  open_reader body = record {
    body = body;
    position = 0;
    next_block = 0;
    block = [];
    read_offset = 0;
  }

  -- A block whose fingerprint does not fit is left in place.
  unfoldable pub check_block : List ℕ → Reader → Outcome (Result (Unit {0}))
  unfolding from_le
  check_block raw r =
      let size = length raw - checksum_size in
      let next = record r { block = take size raw } in
      if from_le (drop size raw) == fp.of (take size raw)
      then (log_assert (ltb 0 size) >> done (got tt next))
      else done (crc_error next)

  -- With the bytes that the file gives, of a whole block at most.
  unfoldable pub load : List ℕ → Reader → Outcome (Result (Unit {0}))
  unfolding check_block
  load raw r =
      let s = record r {
        position = r.position + length raw;
        next_block = r.next_block + block_size;
        read_offset = 0;
      } in
      if length raw == 0
      then done (end_of_file (record s { block = [] }))
      else (if ltb (length raw) checksum_size
          then done (crc_error (record s { block = raw }))
          else check_block raw s)

  unfoldable pub read_next_block : Reader → Outcome (Result (Unit {0}))
  unfolding load
  read_next_block r = load (take block_size (drop r.position r.body)) r

  -- The next `n` bytes of the current block. They are copied when the assertion has passed.
  unfoldable pub give : ℕ → Reader → Outcome (Result (List ℕ))
  give n r =
      let s = record r { read_offset = (r.read_offset + n) % 2 ^ 32 } in
      log_assert (leb s.read_offset (length r.block))
      >> done (got (take n (drop r.read_offset r.block)) s)

  -- The bytes of the current block, `count` of them at most. The difference is one of UInt32.
  unfoldable pub serve : ℕ → Reader → Outcome (Result (List ℕ))
  unfolding give min
  serve count r = give (min ((length r.block + 2 ^ 32 - r.read_offset) % 2 ^ 32) count) r

  unfoldable pub serve_from : ℕ → Result (Unit {0}) → Outcome (Result (List ℕ))
  unfolding serve
  serve_from count (got u r) = serve count r
  serve_from count (end_of_file r) = done (end_of_file r)
  serve_from count (crc_error r) = done (crc_error r)

  -- `GetData` of at most `count` bytes.
  unfoldable pub get_data : ℕ → Reader → Outcome (Result (List ℕ))
  unfolding read_next_block serve serve_from
  get_data count r =
      if r.read_offset == length r.block
      then read_next_block r >>= serve_from count
      else serve count r

  unfoldable pub at_offset : ℕ → Result (Unit {0}) → Result (Unit {0})
  at_offset n (got u r) = got u (record r { read_offset = n })
  at_offset n (end_of_file r) = end_of_file (record r { read_offset = n })
  at_offset n (crc_error r) = crc_error (record r { read_offset = n })

  -- `Seek` to an offset in the data.
  unfoldable pub seek : ℕ → Reader → Outcome (Result (Unit {0}))
  unfolding read_next_block at_offset
  seek offset r =
      let blocks = offset / data_size block_size in
      let in_block = offset % data_size block_size in
      if r.next_block == (1 + blocks) * block_size
      then done (got tt (record r { read_offset = in_block }))
      else (do
        res ← read_next_block (record r {
          position = blocks * block_size;
          next_block = blocks * block_size;
          block = [];
        })
        done (at_offset in_block res))

  -- An application that asks for `count` bytes at a time until the file ends: the bytes, where no
  -- block is damaged. On fuel.
  unfoldable pub keep_reading :
      (Reader → Outcome (Option (List ℕ))) → Result (List ℕ) → Outcome (Option (List ℕ))
  keep_reading rest (got bytes r) = do
    more ← rest r
    done (elim more [ none ↦ none | some bs ↦ some (bytes ++ bs) ])
  keep_reading rest (end_of_file r) = done (some [])
  keep_reading rest (crc_error r) = done none

  unfoldable pub read_all : ℕ → ℕ → Reader → Outcome (Option (List ℕ))
  unfolding get_data keep_reading
  read_all zero count r = stuck
  read_all (suc fuel) count r =
      let rest : Reader → Outcome (Option (List ℕ)) = read_all fuel count in
      get_data count r >>= keep_reading rest
