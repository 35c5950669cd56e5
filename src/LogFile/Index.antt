-- ===== src/LogFile/Index.antt =====
-- The index of a log file stays in step with the votes that were added to it.
use rsl.Common.{ℕ, ◌+◌, ◌-◌, ◌%◌, ◌^◌, ◌≤◌, ◌<◌, ◌≡◌, arith, true, false, List, [], ◌∷◌}
use rsl.Common.{
  length, ◌==◌, ◌&&◌, subst, ap, done_injective, Bool-cases, ==→eq, ◌||◌, assert_failed, leb, ltb,
  done, inl, inr,
}
use rsl.Message.{next}
use rsl.LogFile.{LogFile, LogRecord, round_up_to_page, max_decree, has_decree, index_vote, add_vote}
use rsl.LogFile.{get_offset, get_length_of_decree, or_fail}

-- Offsets fall strictly from the end of the data.
abbrev pub Falling : ℕ → List ℕ → Type 0
Falling top [] = Unit {0}
Falling top (x ∷ xs) = (x < top) × Falling x xs

-- The offsets fall from the end of the data, and the decrees are UInt64 numbers.
pub record IsIndexed (f : LogFile) : Type 0 where
  pub falling : Falling f.data_len f.decree_offsets
  pub decrees : f.min_decree + length f.decree_offsets < 2 ^ 64

round_up-le : (x : ℕ) → x + 512 < 2 ^ 32 → x ≤ round_up_to_page x
unfolding round_up_to_page
round_up-le x h = omega arith

Falling-le : (a b : ℕ) (xs : List ℕ) → a ≤ b → Falling a xs → Falling b xs
Falling-le a b [] h f = tt
Falling-le a b (x ∷ xs) h f = (omega arith, f.1)

-- What holds of the file once decree `d`, of a marshaled length, is its last.
pub record IsLast (d start len : ℕ) (g : LogFile) : Type 0 where
  pub indexed : IsIndexed g
  pub last : max_decree g ≡ d
  pub found : has_decree d g ≡ true
  pub offset : get_offset d g ≡ done start
  pub extent : get_length_of_decree d g ≡ done (round_up_to_page len)

-- A file whose last vote starts at `start`.
vote_at-IsLast :
    (d start len min_decree : ℕ) (xs : List ℕ) (records : List LogRecord)
    → (min_decree + length xs) % 2 ^ 64 ≡ d
    → Falling start xs
    → min_decree + length xs + 1 < 2 ^ 64
    → 0 < len
    → len + 512 < 2 ^ 32
    → IsLast d start len (record {
      decree_offsets = start ∷ xs;
      data_len = start + round_up_to_page len;
      min_decree = min_decree;
      records = records;
    })
unfolding max_decree has_decree get_offset or_fail get_length_of_decree
vote_at-IsLast d start len min_decree xs records e f top pos short =
    let t : (leb min_decree d && leb d ((min_decree + length xs) % 2 ^ 64)) ≡ true = ground arith in
    let z : (min_decree + length xs) % 2 ^ 64 - d ≡ 0 = omega arith in
    let l : ltb d ((min_decree + length xs) % 2 ^ 64) ≡ false = ground arith in
    record {
      indexed = record {
        falling = (omega (arith, round_up-le len short), f);
        decrees = omega arith;
      };
      last = e;
      found = t;
      offset = rw (t, z);
      extent = rw (l, t, z) (ap done (omega arith));
    }

done_differs : {A : Type 0} {a : A} → assert_failed ≡ done a → ⊥
done_differs e = cc

-- `AddMessage` of a vote, for a file whose index has the vector `os`.
add_vote_by :
    (os : List ℕ) (d len data_len min_decree : ℕ) (records : List LogRecord) (g : LogFile)
    → Falling data_len os
    → min_decree + length os < 2 ^ 64
    → 0 < len
    → len + 512 < 2 ^ 32
    → d + 1 < 2 ^ 64
    → add_vote d len (record {
      decree_offsets = os;
      data_len = data_len;
      min_decree = min_decree;
      records = records;
    })
      ≡ done g
    → IsLast d data_len len g
unfolding add_vote index_vote max_decree
add_vote_by [] d len data_len min_decree records g f b pos short top e =
    subst (IsLast d data_len len) (done_injective e)
      (vote_at-IsLast d data_len len d [] records (omega arith) tt (omega arith) pos short)
add_vote_by (x ∷ xs) d len data_len min_decree records g f b pos short top e =
    let m : ℕ = (min_decree + length xs) % 2 ^ 64 in
    elim (Bool-cases (m == d)) [
      | inl same ↦
          let t : (d == m || d == next m) ≡ true = ground arith in
          subst (IsLast d data_len len) (done_injective (rw (t, same) at e)) (
            vote_at-IsLast d data_len len min_decree xs records (omega (arith, ==→eq m d same))
              (Falling-le x data_len xs (omega arith) f.1) (omega arith) pos short)
      | inr differs ↦ elim (Bool-cases (d == next m)) [
        | inl follows ↦
            let t : (d == m || d == next m) ≡ true = ground arith in
            subst (IsLast d data_len len) (done_injective (rw (t, differs) at e)) (
              vote_at-IsLast d data_len len min_decree (x ∷ xs) records
                (omega (arith, ==→eq d (next m) follows)) f
                (omega (arith, ==→eq d (next m) follows)) pos short)
        | inr neither ↦
            let t : (d == m || d == next m) ≡ false = ground arith in
            absurd (done_differs (rw t at e))
      ]
    ]

-- When `AddMessage` has taken a vote of a positive length into a file whose offsets fall strictly, its
-- decree is the file's last one and is found in it, the vote starts where the data ended and reaches
-- to the new end of the data in whole pages, and the offsets still fall strictly.
pub add_vote-IsLast :
    (d len : ℕ) (f g : LogFile)
    → IsIndexed f
    → 0 < len
    → len + 512 < 2 ^ 32
    → d + 1 < 2 ^ 64
    → add_vote d len f ≡ done g
    → IsLast d f.data_len len g
add_vote-IsLast d len f g v pos short top e =
    add_vote_by f.decree_offsets d len f.data_len f.min_decree f.records g v.falling v.decrees pos
      short top e
