-- ===== src/Message/CookieFault.antt =====
-- `PrimaryCookie::UnMarshal` of src/RSL/src/message.cpp trusts the length that it reads.
use rsl.Common.{ℕ, ◌+◌, ◌≤◌, ◌<◌, ◌^◌, ◌≡◌, ap, ◌∙◌, true, arith, List, ◌++◌, length}
use rsl.Common.{lt→ltb, length-append}
use rsl.Marshal.{Reader, fault, read_uint32, write_uint32}
use rsl.Marshal.Reads.{At, Reads-uint32, bind-got, length-to_le}
use rsl.Marshal.Faults.{read_data_wrap}
use rsl.Message.BodiesDecode.{cookie_data, un_marshal_cookie}

four : (n : ℕ) → length (write_uint32 n) ≡ 4
unfolding write_uint32
four n = length-to_le 4 n

positive :
    (r : Reader) (n : ℕ) (rest : List ℕ)
    → At r (write_uint32 n ++ rest)
    → 2 ^ 32 ≤ r.read_ptr + 4 + n
    → 0 < n
positive r n rest at w =
    omega (arith, at.fits, at.short, length-append (write_uint32 n) rest, four n)

-- A cookie whose length field makes the UInt32 sum with the read pointer wrap is not refused:
-- `UnMarshal` copies from beyond the valid bytes of the message.
pub un_marshal_cookie_fault :
    (r : Reader) (n : ℕ) (rest : List ℕ)
    → At r (write_uint32 n ++ rest)
    → n < 2 ^ 32
    → 2 ^ 32 ≤ r.read_ptr + 4 + n
    → un_marshal_cookie true r ≡ fault
unfolding un_marshal_cookie cookie_data
un_marshal_cookie_fault r n rest at h w =
    let (r₁, p, at₁, b) = (Reads-uint32 n h).run r rest at in
    bind-got read_uint32 _ r r₁ n p
    ∙ rw (lt→ltb 0 n (positive r n rest at w)) (
        read_data_wrap n r₁ (record { inside = omega (arith, at₁.fits); short = at₁.short })
          at₁.no_overshoot h
          (omega
            (arith, at.fits, at₁.fits, ap length b, length-append (write_uint32 n) rest, four n)))
