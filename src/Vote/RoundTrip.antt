-- ===== src/Vote/RoundTrip.antt =====
-- `UnMarshal` of the votes of src/RSL/src/message.cpp takes back what `Marshal` wrote.
use rsl.Common.{
  ℕ, zero, suc, ◌+◌, ◌%◌, ◌≤◌, ◌<◌, ◌^◌, ◌≡◌, refl, true, false, not, arith, All, Bool,
}
use rsl.Common.{List, [], ◌∷◌, ◌++◌, length, length-append, ltb, leb, ◌==◌, lt→ltb, if◌then◌else◌}
use rsl.Common.{Bool-cases, inl, inr}
use rsl.Marshal.{
  Reader, return, write_uint8, write_uint32, write_data, test_read_remaining, ◌>>=◌, read_uint8,
}
use rsl.Marshal.Reads.{At, Reads, Reads-bind, Reads-last, Reads-check, Reads-assert, Reads-return}
use rsl.Marshal.Reads.{Reads-uint8, Reads-uint32, length-to_le}
use rsl.Marshal.Buffers.{Finishes, Finishes-bind, Finishes-return, Reads-pointed}
use rsl.Message.Encode.{CRuntime}
use rsl.Message.Bodies.{PrimaryCookie, marshal_cookie}
use rsl.Message.BodiesDecode.{un_marshal_cookie, cookie_data}
use rsl.Vote.Encode.{marshal_requests, flag}
use rsl.Vote.Decode.{
  un_marshal_requests, un_marshal_request, un_marshal_vote_cookie, un_marshal_relinquish,
}

-- The data of a cookie is pointed at.
Reads-pointed_cookie :
    (cookie : PrimaryCookie)
    → length cookie < 2 ^ 32
    → Reads (un_marshal_cookie false) (marshal_cookie cookie) cookie
unfolding un_marshal_cookie marshal_cookie cookie_data
Reads-pointed_cookie [] h = Reads-bind _ (Reads-uint32 0 (omega arith)) (Reads-return [])
Reads-pointed_cookie (x ∷ xs) h =
    Reads-bind _ (Reads-uint32 (length (x ∷ xs)) h)
      (rw (lt→ltb 0 (length (x ∷ xs)) (omega arith)) (Reads-pointed (x ∷ xs)))

-- A request that has a byte, of a length that fits.
abbrev pub IsRequest : List ℕ → Type 0
IsRequest q = (0 < length q) × (length q < 2 ^ 32)

module _ (c : CRuntime) where
  pub Reads-vote_cookie :
      (version : ℕ) (cookie : PrimaryCookie)
      → length cookie < 2 ^ 32
      → Reads
          (un_marshal_vote_cookie c version)
          (if leb 2 version then marshal_cookie cookie else [])
          (if leb 2 version then cookie else [])
  unfolding un_marshal_vote_cookie
  Reads-vote_cookie version cookie h = elim (Bool-cases (leb 2 version)) [
    | inl new ↦ rw new (Reads-pointed_cookie cookie h)
    | inr old ↦ rw old (Reads-return [])
  ]

  pub Reads-relinquish :
      (version : ℕ) (b : Bool)
      → Reads
          (un_marshal_relinquish c version)
          (if leb 5 version then write_uint8 (flag b) else [])
          (if leb 5 version then b else false)
  unfolding un_marshal_relinquish flag
  Reads-relinquish version b = elim (Bool-cases (leb 5 version)) [
    | inl new ↦ rw new (by_flag b)
    | inr old ↦ rw old (Reads-return false)
  ]
    where
      by_flag :
          (b : Bool) → Reads (read_uint8 >>= λ x. return (not (x == 0))) (write_uint8 (flag b)) b
      by_flag true = Reads-last _ (Reads-uint8 1 (omega arith)) (Reads-return true)
      by_flag false = Reads-last _ (Reads-uint8 0 (omega arith)) (Reads-return false)

  Reads-request :
      (q : List ℕ)
      → IsRequest q
      → Reads (un_marshal_request c false) (write_uint32 (length q) ++ write_data q) q
  unfolding un_marshal_request
  Reads-request q h =
      let left : not (length q == 0) ≡ true = ground arith in
      Reads-assert _ refl
        (Reads-bind _ (Reads-uint32 (length q) h.1) (Reads-check _ left (Reads-pointed q)))

  -- A byte is left.
  more_lem :
      (r : Reader) (xs : List ℕ) → At r xs → 0 < length xs → test_read_remaining 1 r ≡ (true, r)
  unfolding test_read_remaining
  more_lem r xs h left = ground (arith, h.no_overshoot, h.fits, h.short)

  end_lem :
      (r : Reader)
      → At r []
      → length r.bytes + 1 < 2 ^ 32
      → test_read_remaining 1 r ≡ (false, record r { overshoot = true })
  unfolding test_read_remaining
  end_lem r h small =
      let past : ltb (length r.bytes) ((r.read_ptr + 1) % 2 ^ 32) ≡ true =
        lt→ltb (length r.bytes) ((r.read_ptr + 1) % 2 ^ 32) (omega (arith, h.fits, small)) in
      rw (h.no_overshoot, past) refl

  absurd_fuel : (q : List ℕ) (qs : List (List ℕ)) → length (q ∷ qs) ≤ 0 → ⊥
  absurd_fuel q qs l = omega arith

  pub Finishes-requests :
      (qs : List (List ℕ)) (fuel : ℕ)
      → All IsRequest qs
      → length qs ≤ fuel
      → Finishes (un_marshal_requests c fuel false) (marshal_requests qs) qs
  unfolding un_marshal_requests marshal_requests write_uint32
  Finishes-requests [] zero w l r at small = (r, refl)
  Finishes-requests [] (suc fuel) w l r at small =
      (record r { overshoot = true }, rw (end_lem r at small) refl)
  Finishes-requests (q ∷ qs) zero w l r at small = elim (absurd_fuel q qs l) [ ]
  Finishes-requests (q ∷ qs) (suc fuel) w l r at small =
      let left : 0 < length (marshal_requests (q ∷ qs)) = omega (
        arith,
        length-append (write_uint32 (length q) ++ write_data q) (marshal_requests qs),
        length-append (write_uint32 (length q)) (write_data q),
        length-to_le 4 (length q),
      ) in
      let (r', p) =
        Finishes-bind (un_marshal_request c false)
          (λ x. un_marshal_requests c fuel false >>= λ xs. return (x ∷ xs))
          (write_uint32 (length q) ++ write_data q) (marshal_requests qs) q (q ∷ qs)
          (Reads-request q w.0)
          (Finishes-return (un_marshal_requests c fuel false) (λ xs. q ∷ xs) (marshal_requests qs)
            qs (Finishes-requests qs fuel w.1 (omega arith)))
          r at small in
      (r', rw (more_lem r (marshal_requests (q ∷ qs)) at left) p)

  -- A reconfiguration has no requests.
  pub Finishes-un_marshal_requests :
      (b : Bool) (qs : List (List ℕ)) (fuel : ℕ)
      → (b ≡ true → qs ≡ [])
      → All IsRequest qs
      → length qs ≤ fuel
      → Finishes (un_marshal_requests c fuel b) (marshal_requests qs) qs
  unfolding un_marshal_requests marshal_requests
  Finishes-un_marshal_requests false qs fuel alone w l r at small =
      Finishes-requests qs fuel w l r at small
  Finishes-un_marshal_requests true [] zero alone w l r at small = (r, refl)
  Finishes-un_marshal_requests true [] (suc fuel) alone w l r at small =
      (record r { overshoot = true }, rw (end_lem r at small) refl)
  Finishes-un_marshal_requests true (q ∷ qs) fuel alone w l r at small =
      elim (not_empty q qs (alone refl)) [ ]
    where
      not_empty : (q : List ℕ) (qs : List (List ℕ)) → (q ∷ qs) ≡ [] → ⊥
      not_empty q qs e = cc

  pub length-marshal_requests : (qs : List (List ℕ)) → length qs ≤ length (marshal_requests qs)
  unfolding marshal_requests write_uint32
  length-marshal_requests [] = omega arith
  length-marshal_requests (q ∷ qs) = omega (
    arith,
    length-append (write_uint32 (length q) ++ write_data q) (marshal_requests qs),
    length-append (write_uint32 (length q)) (write_data q),
    length-to_le 4 (length q),
    length-marshal_requests qs,
  )
