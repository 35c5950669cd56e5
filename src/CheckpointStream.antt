-- ===== src/CheckpointStream.antt =====
-- src/RSL/src/rsl.cpp: the file of a checkpoint behind its header, `RSLCheckpointStreamWriter` and
-- `RSLCheckpointStreamReader`, where the header gives a block size: blocks of data, each with its
-- fingerprint behind it. The fingerprints are a parameter, and so is how much of its buffer the
-- sequential file offers; its reads and writes are taken to succeed.
pub mod Frames
pub mod Writing
pub mod Reader
pub mod Reading
pub mod Sizes
pub mod RoundTrip
pub mod Damage
use rsl.Common.{ℕ, zero, suc, ◌+◌, ◌-◌, ◌*◌, ◌/◌, ◌%◌, ◌^◌, Bool, true, false, not, ◌&&◌, ◌||◌}
use rsl.Common.{List, [], ◌∷◌, ◌++◌, length, take, drop, Option, none, some}
use rsl.Marshal.{to_le, from_le}
use rsl.Common.{ltb, leb, ◌==◌, if◌then◌else◌, Outcome, ◌>>=◌, ◌>>◌, done, log_assert, stuck}

-- `FingerPrint64`: of a list of bytes, and of the bytes that go on from a fingerprint.
pub record Fingerprint : Type 0 where
  pub of : List ℕ → ℕ
  pub extend : ℕ → List ℕ → ℕ

-- `CHECKSUM_SIZE`.
abbrev pub checksum_size : ℕ
checksum_size = 8

unfoldable pub min : ℕ → ℕ → ℕ
min a b = if ltb b a then b else a

-- `file` is what has been committed, and `buffer` the bytes written behind it, `m_written` of them.
pub record Writer : Type 0 where
  pub file : List ℕ
  pub buffer : List ℕ
  pub available : ℕ
  pub data_written_offset : ℕ
  pub checksum : ℕ

-- `dataOnlyBlockSize`.
abbrev pub data_size : ℕ → ℕ
data_size block_size = block_size - checksum_size

module _ (fp : Fingerprint) (block_size : ℕ) where
  module _ (available : ℕ → ℕ) where
    -- `Init`, behind the header; `GetAvailable` at a place in the file.
    unfoldable pub open_writer : Writer
    open_writer = record {
      file = [];
      buffer = [];
      available = available 0;
      data_written_offset = 0;
      checksum = 0;
    }

    -- `CommitAvailable` and `GetAvailable`.
    unfoldable pub flushed : Writer → Writer
    flushed w = record w {
      file = w.file ++ w.buffer;
      buffer = [];
      available = available (length (w.file ++ w.buffer));
    }

    -- At the end of a block the fingerprint is written in between.
    unfoldable pub ended : Writer → Writer
    unfolding to_le
    ended w =
        let file = (w.file ++ w.buffer) ++ to_le 8 w.checksum in
        record w {
          file = file;
          buffer = [];
          available = available (length file);
          data_written_offset = 0;
        }

    -- What makes room before more is written.
    unfoldable pub commit : Writer → Writer
    unfolding flushed ended
    commit w =
        if w.data_written_offset == data_size block_size
        then ended w
        else (if w.available == length w.buffer then flushed w else w)

    unfoldable pub bytes_to_write : Writer → List ℕ → ℕ
    unfolding min
    bytes_to_write w bytes =
        min (min (length bytes) (w.available - length w.buffer))
          (data_size block_size - w.data_written_offset)

    unfoldable pub put : List ℕ → Writer → Outcome Writer
    put chunk w = do
      log_assert (not (w.data_written_offset == 0) || length w.buffer == 0)
      done (record w {
        buffer = w.buffer ++ chunk;
        data_written_offset = w.data_written_offset + length chunk;
        checksum = if w.data_written_offset == 0 then fp.of chunk else fp.extend w.checksum chunk;
      })

    -- `Write`, on fuel: each turn of the loop writes a byte at least.
    unfoldable pub write : ℕ → List ℕ → Writer → Outcome Writer
    unfolding commit bytes_to_write put
    write fuel [] w = do log_assert (leb w.data_written_offset (data_size block_size)); done w
    write zero (x ∷ xs) w = stuck
    write (suc fuel) (x ∷ xs) w = do
      log_assert (leb w.data_written_offset (data_size block_size))
      let n = bytes_to_write (commit w) (x ∷ xs)
      v ← put (take n (x ∷ xs)) (commit w)
      write fuel (drop n (x ∷ xs)) v

    unfoldable pub write_all : List (List ℕ) → Writer → Outcome Writer
    unfolding write
    write_all [] w = done w
    write_all (b ∷ bs) w = do v ← write (length b) b w; write_all bs v

  -- `Close`: the bytes of the file behind the header.
  unfoldable pub close : Writer → List ℕ
  unfolding to_le
  close w =
      if w.data_written_offset == 0 then w.file else (w.file ++ w.buffer) ++ to_le 8 w.checksum

  -- `BytesIssued`, without the header.
  unfoldable pub bytes_issued : Writer → ℕ
  bytes_issued w =
      if w.data_written_offset == 0
      then length w.file
      else length w.file + (length w.buffer + checksum_size)
