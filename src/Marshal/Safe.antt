-- ===== src/Marshal/Safe.antt =====
-- src/common/src/marshal.cpp: reads that stay within the valid bytes, whatever these are.
use rsl.Common.{ℕ, ◌+◌, ◌≤◌, ◌<◌, ◌^◌, ◌≡◌, arith, Bool, true, false, List, length}
use rsl.Common.{if◌then◌else◌, ltb, subst, ap}
use rsl.Marshal.{Reader, Read, ReadResult, got, failed, fault, asserted, ◌>>=◌, return, guard}
use rsl.Common.{Bool-cases, inl, inr, ◌||◌, ◌%◌}
use rsl.Marshal.{from_le, read_data, set_read_pointer, read_uint16, read_uint32, read_uint64}

-- The read pointer stands within the valid bytes.
pub record IsInside (bytes : List ℕ) (r : Reader) : Type 0 where
  pub same : r.bytes ≡ bytes
  pub inside : r.read_ptr ≤ length bytes

-- The read ended with a value or with `return false`, with the pointer within the valid bytes.
abbrev pub EndsInside : {A : Type 0} → List ℕ → ReadResult A → Type 0
EndsInside bytes (got a r) = IsInside bytes r
EndsInside bytes (failed r) = IsInside bytes r
EndsInside bytes fault = ⊥
EndsInside bytes asserted = ⊥

-- From a pointer within bytes of a buffer that ends 64 bytes before the largest UInt32.
abbrev pub IsSafe : {A : Type 0} → Read A → Type 0
IsSafe m =
    (bytes : List ℕ) (r : Reader)
    → length bytes + 64 < 2 ^ 32
    → IsInside bytes r
    → EndsInside bytes (m r)

EndsInside-next :
    {A B : Type 0} (f : A → Read B) (bytes : List ℕ) (x : ReadResult A)
    → EndsInside bytes x
    → ((a : A) (r : Reader) → IsInside bytes r → EndsInside bytes (f a r))
    → EndsInside {A = B} bytes
        (elim x [ got a r' ↦ f a r' | failed r' ↦ failed r' | fault ↦ fault | asserted ↦ asserted ])
EndsInside-next f bytes (got a r) h k = k a r h
EndsInside-next f bytes (failed r) h k = h
EndsInside-next f bytes fault h k = h
EndsInside-next f bytes asserted h k = h

pub IsSafe-bind :
    {A B : Type 0} (m : Read A) (f : A → Read B)
    → IsSafe m
    → ((a : A) → IsSafe (f a))
    → IsSafe (m >>= f)
unfolding ◌>>=◌
IsSafe-bind m f h k bytes r small i =
    EndsInside-next f bytes (m r) (h bytes r small i) (λ a t j. k a bytes t small j)

pub IsSafe-return : {A : Type 0} (a : A) → IsSafe (return a)
unfolding return
IsSafe-return a bytes r small i = i

pub IsSafe-guard : (b : Bool) → IsSafe (guard b)
unfolding guard
IsSafe-guard true bytes r small i = i
IsSafe-guard false bytes r small i = i

pub IsSafe-if :
    {A : Type 0} (b : Bool) (m k : Read A) → IsSafe m → IsSafe k → IsSafe (if b then m else k)
IsSafe-if true m k h j = h
IsSafe-if false m k h j = j

pub IsSafe-data : (n : ℕ) → n ≤ 64 → IsSafe (read_data n)
unfolding read_data set_read_pointer
IsSafe-data n le bytes r small i =
    let size : length r.bytes ≡ length bytes = ap length i.same in
    elim (Bool-cases (r.overshoot || ltb (length r.bytes) ((r.read_ptr + n) % 2 ^ 32))) [
      | inl over ↦ rw over (record { same = i.same; inside = i.inside })
      | inr fits ↦
          let test : ltb (length r.bytes) ((r.read_ptr + n) % 2 ^ 32) ≡ false = ground arith in
          let whole : (r.read_ptr + n) % 2 ^ 32 ≡ r.read_ptr + n =
            omega (arith, i.inside, small, le) in
          let valid : ltb (length r.bytes) (r.read_ptr + n) ≡ false =
            subst (λ t. ltb (length r.bytes) t ≡ false) whole test in
          let inside : (r.read_ptr + n) % 2 ^ 32 ≤ length bytes = ground (arith, size, test) in
          rw (fits, valid, test) (record { same = i.same; inside = inside })
    ]

pub IsSafe-uint16 : IsSafe read_uint16
unfolding read_uint16
IsSafe-uint16 =
    IsSafe-bind (read_data 2) _ (IsSafe-data 2 (omega arith)) (λ a. IsSafe-return (from_le a))

pub IsSafe-uint32 : IsSafe read_uint32
unfolding read_uint32
IsSafe-uint32 =
    IsSafe-bind (read_data 4) _ (IsSafe-data 4 (omega arith)) (λ a. IsSafe-return (from_le a))

pub IsSafe-uint64 : IsSafe read_uint64
unfolding read_uint64
IsSafe-uint64 =
    IsSafe-bind (read_data 8) _ (IsSafe-data 8 (omega arith)) (λ a. IsSafe-return (from_le a))
