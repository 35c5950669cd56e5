-- ===== src/Marshal/Reads.antt =====
-- What the reads of src/common/src/marshal.cpp return on bytes that the writes produced.
use native.Mathlib.Nat.{pow-suc}
use rsl.Common.{ℕ, zero, suc, ◌+◌, ◌/◌, ◌^◌, ◌≤◌, ◌<◌, ◌≡◌, refl, sym, ap, ◌∙◌, subst}
use rsl.Common.{
  Bool, true, false, arith, List, [], ◌++◌, append_assoc, append-nil, length, take, drop,
}
use rsl.Common.{length-append, take-append_length, drop-append_length, drop-drop}
use rsl.Marshal.{Reader, Read, got, ◌>>=◌, ◌>>◌, return, guard, check}
use rsl.Marshal.{read_data}
use rsl.Marshal.{from_le, to_le, read_uint8, read_uint16, read_uint32, read_uint64}
use rsl.Marshal.{write_uint8, write_uint16, write_uint32, write_uint64}

-- The reader stands before `xs`, the rest of the valid bytes.
pub record At (r : Reader) (xs : List ℕ) : Type 0 where
  pub no_overshoot : r.overshoot ≡ false
  pub ahead : drop r.read_ptr r.bytes ≡ xs
  pub fits : r.read_ptr + length xs ≡ length r.bytes
  pub short : length r.bytes < 2 ^ 32

-- On any input that begins with `enc`, the read returns `a` and stands behind `enc`.
pub record Reads {A : Type 0} (m : Read A) (enc : List ℕ) (a : A) : Type 0 where
  pub run :
      (r : Reader) (ys : List ℕ)
      → At r (enc ++ ys)
      → (r' : Reader) × (m r ≡ got a r') × At r' ys × (r'.bytes ≡ r.bytes)

pub Reads-return : {A : Type 0} (a : A) → Reads (return a) [] a
unfolding return
Reads-return a = record { run = λ r ys h. (r, refl, h, refl) }

pub Reads-guard : (b : Bool) → b ≡ true → Reads (guard b) [] tt
unfolding guard
Reads-guard b e = record { run = λ r ys h. (r, rw e, h, refl) }

pub bind-got :
    {A B : Type 0} (m : Read A) (f : A → Read B) (r r₁ : Reader) (a : A)
    → m r ≡ got a r₁
    → (m >>= f) r ≡ f a r₁
unfolding ◌>>=◌
bind-got m f r r₁ a p = rw (p, ◌>>=◌)

pub Reads-bind :
    {A B : Type 0} {m : Read A} (f : A → Read B) {e₁ e₂ : List ℕ} {a : A} {b : B}
    → Reads m e₁ a
    → Reads (f a) e₂ b
    → Reads (m >>= f) (e₁ ++ e₂) b
Reads-bind {m} f {e₁} {e₂} {a} h k = record {
  run = λ r ys before.
      let (r₁, p, at₁, b₁) = h.run r (e₂ ++ ys) (subst (At r) (append_assoc e₁ e₂ ys) before) in
      let (r₂, q, at₂, b₂) = k.run r₁ ys at₁ in (r₂, bind-got m f r r₁ a p ∙ q, at₂, b₂ ∙ b₁);
}

pub Reads-then :
    {B : Type 0} {m : Read (Unit {0})} {k : Read B} {e₁ e₂ : List ℕ} {b : B}
    → Reads m e₁ tt
    → Reads k e₂ b
    → Reads (m >> k) (e₁ ++ e₂) b
unfolding ◌>>◌
Reads-then {k} h r = Reads-bind (λ _. k) h r

-- A last read that needs no bytes of its own.
pub Reads-last :
    {A B : Type 0} {m : Read A} (f : A → Read B) {e : List ℕ} {a : A} {b : B}
    → Reads m e a
    → Reads (f a) [] b
    → Reads (m >>= f) e b
Reads-last {m} f {e} {b} h k = subst (λ t. Reads (m >>= f) t b) (append-nil e) (Reads-bind f h k)

pub Reads-check :
    {B : Type 0} (b : Bool) {k : Read B} {e : List ℕ} {a : B}
    → b ≡ true
    → Reads k e a
    → Reads (guard b >> k) e a
Reads-check b h r = Reads-then (Reads-guard b h) r

pub Reads-assert :
    {B : Type 0} (b : Bool) {k : Read B} {e : List ℕ} {a : B}
    → b ≡ true
    → Reads k e a
    → Reads (check b >> k) e a
unfolding check
Reads-assert b h r = Reads-then {e₁ = []} (record { run = λ x ys at. (x, rw h, at, refl) }) r

abbrev pub advance : ℕ → Reader → Reader
advance n r = record r { read_ptr = r.read_ptr + n; overshoot = false }

pub At-advance : (r : Reader) (xs ys : List ℕ) → At r (xs ++ ys) → At (advance (length xs) r) ys
At-advance r xs ys h = record {
  no_overshoot = refl;
  ahead =
      drop-drop r.read_ptr (length xs) r.bytes
      ∙ ap (drop (length xs)) h.ahead
      ∙ drop-append_length xs ys;
  fits = omega (arith, length-append xs ys, h.fits);
  short = h.short;
}

read_data_lem :
    (r : Reader) (n : ℕ)
    → r.overshoot ≡ false
    → r.read_ptr + n ≤ length r.bytes
    → length r.bytes < 2 ^ 32
    → read_data n r ≡ got (take n (drop r.read_ptr r.bytes)) (advance n r)
unfolding read_data
read_data_lem r n h k l = ground arith

pub Reads-data : (xs : List ℕ) (n : ℕ) → n ≡ length xs → Reads (read_data n) xs xs
Reads-data xs n e = record {
  run = λ r ys h. (
    advance n r,
    read_data_lem r n h.no_overshoot (omega (arith, length-append xs ys, h.fits)) h.short
        ∙ ap (λ t. got t (advance n r)) (rw (h.ahead, e) (take-append_length xs ys)),
    rw e (At-advance r xs ys h),
    refl,
  );
}

pub length-to_le : (k v : ℕ) → length (to_le k v) ≡ k
unfolding to_le
length-to_le zero v = refl
length-to_le (suc k) v = ap suc (length-to_le k (v / 256))

shrink : (k v : ℕ) → v < 256 ^ suc k → v / 256 < 256 ^ k
shrink k v h = omega (arith, pow-suc 256 k)

pub from_le-to_le : (k v : ℕ) → v < 256 ^ k → from_le (to_le k v) ≡ v
unfolding from_le to_le
from_le-to_le zero v h = omega arith
from_le-to_le (suc k) v h =
    let below : v / 256 < 256 ^ k = shrink k v h in omega (arith, from_le-to_le k (v / 256) below)

Reads-le : (k v : ℕ) → v < 256 ^ k → Reads (read_data k >>= λ bs. return (from_le bs)) (to_le k v) v
Reads-le k v h =
    let bound =
      Reads-bind (λ bs. return (from_le bs)) (Reads-data (to_le k v) k (sym (length-to_le k v)))
        (Reads-return (from_le (to_le k v))) in
    rw (append-nil, from_le-to_le k v h) at bound

-- A number that fits its width comes back as it was written.
pub Reads-uint8 : (v : ℕ) → v < 2 ^ 8 → Reads read_uint8 (write_uint8 v) v
unfolding read_uint8 write_uint8
Reads-uint8 v h = Reads-le 1 v (omega arith)

pub Reads-uint16 : (v : ℕ) → v < 2 ^ 16 → Reads read_uint16 (write_uint16 v) v
unfolding read_uint16 write_uint16
Reads-uint16 v h = Reads-le 2 v (omega arith)

pub Reads-uint32 : (v : ℕ) → v < 2 ^ 32 → Reads read_uint32 (write_uint32 v) v
unfolding read_uint32 write_uint32
Reads-uint32 v h = Reads-le 4 v (omega arith)

pub Reads-uint64 : (v : ℕ) → v < 2 ^ 64 → Reads read_uint64 (write_uint64 v) v
unfolding read_uint64 write_uint64
Reads-uint64 v h = Reads-le 8 v (omega arith)
