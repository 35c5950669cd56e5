-- ===== src/LogFile.antt =====
-- src/RSL/src/logfile.cpp: the index that `LogFile` keeps of the votes in a log file. The vector
-- `m_decreeOffsets` is a list with its back first. `records` is what was written to the file.
pub mod Index
use rsl.Common.{ℕ, zero, suc, ◌+◌, ◌-◌, ◌*◌, ◌/◌, ◌%◌, ◌^◌, Bool, true, false, ◌||◌, ◌&&◌}
use rsl.Common.{List, [], ◌∷◌, length, get_elem?, Option, none, some, leb, ltb, ◌==◌}
use rsl.Common.{if◌then◌else◌, Outcome, ◌>>=◌, ◌>>◌, done, log_assert, assert_failed}
use rsl.Message.{Message, next}
use rsl.Vote.{Vote}

-- The three kinds of message that are logged.
pub data LogRecord : Type 0 where
  vote_record : Vote → LogRecord
  prepare_record decision_record : Message → LogRecord

pub record LogFile : Type 0 where
  pub decree_offsets : List ℕ
  pub data_len : ℕ
  pub min_decree : ℕ
  pub records : List LogRecord

abbrev pub page_size : ℕ
page_size = 512

-- `(x + 511) & ~511` on UInt32.
unfoldable pub round_up_to_page : ℕ → ℕ
round_up_to_page x = (x + (page_size - 1)) % 2 ^ 32 / page_size * page_size

-- A new file.
unfoldable pub new_log_file : LogFile
new_log_file = record { decree_offsets = []; data_len = 0; min_decree = 0; records = [] }

unfoldable pub write_message : LogRecord → LogFile → LogFile
write_message r f = record f { records = r ∷ f.records }

unfoldable pub max_decree : LogFile → ℕ
max_decree f = elim f.decree_offsets [ [] ↦ 0 | x ∷ xs ↦ (f.min_decree + length xs) % 2 ^ 64 ]

unfoldable pub has_decree : ℕ → LogFile → Bool
unfolding max_decree
has_decree d f = leb f.min_decree d && leb d (max_decree f)

-- A vote goes on the index behind the last one, or in its place if it has the same decree.
unfoldable pub index_vote : ℕ → ℕ → ℕ → List ℕ → Outcome (List ℕ)
index_vote d max_d data_len [] = done (data_len ∷ [])
index_vote d max_d data_len (x ∷ xs) = do
  log_assert (d == max_d || d == next max_d)
  done (if max_d == d then data_len ∷ xs else data_len ∷ x ∷ xs)

-- `AddMessage` of a vote, and of another message, of a marshaled length.
unfoldable pub add_vote : ℕ → ℕ → LogFile → Outcome LogFile
unfolding index_vote max_decree round_up_to_page
add_vote d len f = do
  offsets ← index_vote d (max_decree f) f.data_len f.decree_offsets
  done (record f {
    min_decree = elim f.decree_offsets [ [] ↦ d | _ ∷ _ ↦ f.min_decree ];
    decree_offsets = offsets;
    data_len = f.data_len + round_up_to_page len;
  })

unfoldable pub add_message : ℕ → LogFile → LogFile
unfolding round_up_to_page
add_message len f = record f { data_len = f.data_len + round_up_to_page len }

unfoldable pub or_fail : Option ℕ → Outcome ℕ
or_fail none = assert_failed
or_fail (some x) = done x

-- The offset of decree `d`, whose place in the vector is `d - m_minDecree`.
unfoldable pub get_offset : ℕ → LogFile → Outcome ℕ
unfolding max_decree or_fail
get_offset d f = do
  log_assert (leb f.min_decree d && leb d (max_decree f))
  elim f.decree_offsets [
    | [] ↦ done 0
    | _ ∷ _ ↦ or_fail (get_elem? f.decree_offsets (max_decree f - d))
  ]

unfoldable pub get_length_of_decree : ℕ → LogFile → Outcome ℕ
unfolding get_offset max_decree
get_length_of_decree d f =
    if ltb d (max_decree f)
    then (do after ← get_offset (next d) f; before ← get_offset d f; done (after - before))
    else (do before ← get_offset d f; done (f.data_len - before))
