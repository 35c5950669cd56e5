-- ===== src/Marshal/Faults.antt =====
-- The bounds tests of src/common/src/marshal.cpp, `readPointer + length > dataLen`, are UInt32 sums.
-- Where the sum wraps, the test passes for a length that no buffer holds.
use rsl.Common.{ℕ, ◌+◌, ◌≤◌, ◌<◌, ◌^◌, ◌≡◌, false, arith, length}
use rsl.Marshal.{Reader, fault, read_data}

-- The read pointer lies within the valid bytes, whose number is a UInt32.
pub record InBounds (r : Reader) : Type 0 where
  pub inside : r.read_ptr ≤ length r.bytes
  pub short : length r.bytes < 2 ^ 32

-- A length from the network that makes the sum wrap passes the test, and the copy runs past the
-- valid bytes.
pub read_data_wrap :
    (n : ℕ) (r : Reader)
    → InBounds r
    → r.overshoot ≡ false
    → n < 2 ^ 32
    → 2 ^ 32 ≤ r.read_ptr + n
    → read_data n r ≡ fault
unfolding read_data
read_data_wrap n r b h l w = ground arith
