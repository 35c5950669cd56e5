-- ===== src/Marshal/Buffers.antt =====
-- src/common/src/marshal.cpp: reads that stand at the end of a buffer, or that skip and point into it.
use rsl.Common.{ℕ, ◌+◌, ◌^◌, ◌≤◌, ◌<◌, ◌≡◌, refl, ap, ◌∙◌, arith}
use rsl.Common.{false, List, ◌++◌, length, take, drop, length-append}
use rsl.Common.{take-append_length}
use rsl.Marshal.{Reader, Read, got, ◌>>=◌, ◌>>◌, return, peek_data_pointer, forward_read_pointer}
use rsl.Marshal.Reads.{At, Reads, bind-got, advance, At-advance}

-- On the rest `enc` of a buffer the read returns `a`. With a byte behind the end a UInt32 still counts.
abbrev pub Finishes : {A : Type 0} → Read A → List ℕ → A → Type 0
Finishes m enc a =
    (r : Reader) → At r enc → length r.bytes + 1 < 2 ^ 32 → (r' : Reader) × (m r ≡ got a r')

pub Finishes-bind :
    {A B : Type 0} (m : Read A) (f : A → Read B) (e₁ e₂ : List ℕ) (a : A) (b : B)
    → Reads m e₁ a
    → Finishes (f a) e₂ b
    → Finishes (m >>= f) (e₁ ++ e₂) b
Finishes-bind m f e₁ e₂ a b h k r at small =
    let (r₁, p, at₁, same) = h.run r e₂ at in
    let (r₂, q) = k r₁ at₁ (rw same small) in (r₂, bind-got m f r r₁ a p ∙ q)

-- A last step that reads no more.
pub Finishes-return :
    {A B : Type 0} (m : Read A) (f : A → B) (e : List ℕ) (a : A)
    → Finishes m e a
    → Finishes (m >>= λ x. return (f x)) e (f a)
unfolding return
Finishes-return m f e a h r at small =
    let (r₁, p) = h r at small in (r₁, bind-got m (λ x. return (f x)) r r₁ a p)

forward_lem :
    (r : Reader) (n : ℕ)
    → r.read_ptr + n ≤ length r.bytes
    → length r.bytes < 2 ^ 32
    → forward_read_pointer n r ≡ got tt (advance n r)
unfolding forward_read_pointer
forward_lem r n h k = ground arith

pub Reads-forward : (xs : List ℕ) (n : ℕ) → n ≡ length xs → Reads (forward_read_pointer n) xs tt
Reads-forward xs n e = record {
  run = λ r ys h. (
    advance n r,
    forward_lem r n (omega (arith, length-append xs ys, h.fits, e)) h.short,
    rw e (At-advance r xs ys h),
    refl,
  );
}

peek_lem :
    (r : Reader) (n : ℕ)
    → r.overshoot ≡ false
    → r.read_ptr + n ≤ length r.bytes
    → length r.bytes < 2 ^ 32
    → peek_data_pointer n r ≡ got (take n (drop r.read_ptr r.bytes)) r
unfolding peek_data_pointer
peek_lem r n h k l = ground arith

-- Pointing at the next bytes, and going behind them.
pub Reads-pointed :
    (xs : List ℕ)
    → Reads
        (peek_data_pointer (length xs) >>= λ bs. forward_read_pointer (length xs) >> return bs)
        xs
        xs
unfolding return ◌>>◌
Reads-pointed xs = record {
  run = λ r ys h.
      let n = length xs in
      let inside : r.read_ptr + n ≤ length r.bytes = omega (arith, length-append xs ys, h.fits) in
      let seen : peek_data_pointer n r ≡ got xs r =
        peek_lem r n h.no_overshoot inside h.short
        ∙ ap (λ t. got t r) (rw h.ahead (take-append_length xs ys)) in
      (
        advance n r,
        bind-got (peek_data_pointer n) (λ bs. forward_read_pointer n >>= λ _. return bs) r r xs seen
            ∙ bind-got (forward_read_pointer n) (λ _. return xs) r (advance n r) tt
                (forward_lem r n inside h.short),
        At-advance r xs ys h,
        refl,
      );
}

-- A new buffer.
pub At-start :
    (bytes : List ℕ)
    → length bytes < 2 ^ 32
    → At (record { bytes = bytes; read_ptr = 0; overshoot = false }) bytes
At-start bytes h = record { no_overshoot = refl; ahead = refl; fits = omega arith; short = h }
