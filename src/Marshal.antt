-- ===== src/Marshal.antt =====
-- src/common/src/marshal.cpp: `MarshalData` over a memory manager.
-- A write appends at the marshaled length, so it is modelled by the bytes that it appends. A read
-- works on the valid bytes of the buffer, the read pointer and the overshoot flag. UInt32 sums wrap,
-- in the bounds tests too: a test that passes only because its sum wrapped lets the read run past
-- the valid bytes, which is the result `fault`.
pub mod Reads
pub mod Faults
pub mod Safe
pub mod Buffers
use rsl.Common.{ℕ, zero, suc, ◌+◌, ◌*◌, ◌/◌, ◌%◌, ◌^◌, Bool, true, false, ◌||◌, not}
use rsl.Common.{List, [], ◌∷◌, length, take, drop, ltb, leb, ◌==◌, if◌then◌else◌}

pub record Reader : Type 0 where
  pub bytes : List ℕ
  pub read_ptr : ℕ
  pub overshoot : Bool

-- The end of a read: a value, `return false`, a read of memory past the valid bytes, or a failed
-- `LogAssert`.
pub data ReadResult (A : Type 0) : Type 0 where
  got : A → Reader → ReadResult A
  failed : Reader → ReadResult A
  fault asserted : ReadResult A

abbrev pub Read : Type 0 → Type 0
Read A = Reader → ReadResult A

infixl 5 ◌>>=◌ ◌>>◌
unfoldable pub ◌>>=◌ : {A B : Type 0} → Read A → (A → Read B) → Read B
◌>>=◌ m f r = elim (m r) [
  | got a r' ↦ f a r'
  | failed r' ↦ failed r'
  | fault ↦ fault
  | asserted ↦ asserted
]

-- `LogAssert(b)`.
unfoldable pub check : Bool → Read (Unit {0})
check b r = if b then got tt r else asserted

unfoldable pub ◌>>◌ : {B : Type 0} → Read (Unit {0}) → Read B → Read B
unfolding ◌>>=◌
m >> k = m >>= λ _. k

unfoldable pub return : {A : Type 0} → A → Read A
return a r = got a r

-- `if (!b) return false;`
unfoldable pub guard : Bool → Read (Unit {0})
guard b r = if b then got tt r else failed r

abbrev pub u32 : ℕ → ℕ
u32 n = n % 2 ^ 32

-- A pointer beyond the valid bytes falls back to 0.
unfoldable pub set_read_pointer : ℕ → Reader → Reader
set_read_pointer offset r =
    if ltb (length r.bytes) offset
    then record r { read_ptr = 0; overshoot = false }
    else record r { read_ptr = offset; overshoot = false }

unfoldable pub forward_read_pointer : ℕ → Read (Unit {0})
unfolding set_read_pointer
forward_read_pointer n r =
    if ltb (length r.bytes) (u32 (r.read_ptr + n))
    then got tt (set_read_pointer (length r.bytes) r)
    else got tt (set_read_pointer (u32 (r.read_ptr + n)) r)

unfoldable pub test_read_remaining : ℕ → Reader → Bool × Reader
test_read_remaining n r =
    if r.overshoot || ltb (length r.bytes) (u32 (r.read_ptr + n))
    then (false, record r { overshoot = true })
    else (true, r)

unfoldable pub read_data : ℕ → Read (List ℕ)
unfolding set_read_pointer
read_data n r =
    if r.overshoot || ltb (length r.bytes) (u32 (r.read_ptr + n))
    then failed (record r { overshoot = true })
    else if ltb (length r.bytes) (r.read_ptr + n)
    then fault
    else got (take n (drop r.read_ptr r.bytes)) (set_read_pointer (u32 (r.read_ptr + n)) r)

-- The pointer into the buffer, as the bytes at it: `fault` if they are not all valid ones.
unfoldable pub peek_data_pointer : ℕ → Read (List ℕ)
peek_data_pointer n r =
    if r.overshoot || ltb (length r.bytes) (u32 (r.read_ptr + n))
    then failed (record r { overshoot = true })
    else if ltb (length r.bytes) (r.read_ptr + n)
    then fault
    else got (take n (drop r.read_ptr r.bytes)) r

-- `(data[p + 0] << 0) | (data[p + 1] << 8) | …`: the bytes do not overlap, so `|` adds.
unfoldable pub from_le : List ℕ → ℕ
from_le [] = 0
from_le (b ∷ bs) = b + 256 * from_le bs

-- `data[w + i] = (val >> 8 * i) & 0xff` for `i` below the width.
unfoldable pub to_le : ℕ → ℕ → List ℕ
to_le zero v = []
to_le (suc k) v = (v % 256) ∷ to_le k (v / 256)

unfoldable pub read_uint8 : Read ℕ
unfolding read_data from_le ◌>>=◌ return
read_uint8 = do bs ← read_data 1; return (from_le bs)

unfoldable pub read_uint16 : Read ℕ
unfolding read_data from_le ◌>>=◌ return
read_uint16 = do bs ← read_data 2; return (from_le bs)

unfoldable pub read_uint32 : Read ℕ
unfolding read_data from_le ◌>>=◌ return
read_uint32 = do bs ← read_data 4; return (from_le bs)

unfoldable pub read_uint64 : Read ℕ
unfolding read_data from_le ◌>>=◌ return
read_uint64 = do bs ← read_data 8; return (from_le bs)

unfoldable pub read_bool : Read Bool
unfolding read_uint8 ◌>>=◌ return
read_bool = do b ← read_uint8; return (not (b == 0))

unfoldable pub write_uint8 : ℕ → List ℕ
unfolding to_le
write_uint8 = to_le 1

unfoldable pub write_uint16 : ℕ → List ℕ
unfolding to_le
write_uint16 = to_le 2

unfoldable pub write_uint32 : ℕ → List ℕ
unfolding to_le
write_uint32 = to_le 4

unfoldable pub write_uint64 : ℕ → List ℕ
unfolding to_le
write_uint64 = to_le 8

unfoldable pub write_bool : Bool → List ℕ
unfolding write_uint8
write_bool b = write_uint8 (if b then 1 else 0)

-- `WriteData(len, src)`, where `src` holds `len` bytes.
abbrev pub write_data : List ℕ → List ℕ
write_data src = src
