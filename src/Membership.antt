-- ===== src/Membership.antt =====
-- src/RSL/src/rsl.cpp: `MemberSet`, the members of a configuration as a message or a log holds them:
-- their codec, length, lookup and verification.
pub mod Decode
pub mod RoundTrip
pub mod Valid
use rsl.Common.{
  ℕ, zero, suc, ◌+◌, ◌*◌, ◌%◌, ◌^◌, Bool, true, false, not, ◌&&◌, ◌||◌, List, [], ◌∷◌, ◌++◌,
}
use rsl.Common.{length, ltb, leb, ◌==◌, if◌then◌else◌, Outcome, ◌>>=◌, done}
use rsl.Ballot.{MemberId, id_eq}
use rsl.Marshal.{Read, return, guard, check, read_uint16, read_uint32, read_data}
use rsl.Marshal.{write_uint16, write_uint32, write_data}
use rsl.Message.{member_id_base_size}
use rsl.Message.Encode.{CRuntime, marshal_member_id, at_end}
use rsl.Message.Decode.{un_marshal_member_id}

-- The fields of `RSLNode` that are sent. A host name is its characters before the terminating NUL.
pub record MemberInfo : Type 0 where
  pub member_id : MemberId
  pub host_name : List ℕ
  pub ip : ℕ
  pub rsl_port : ℕ
  pub rsl_learn_port : ℕ
  pub app_port : ℕ

pub record MemberSet : Type 0 where
  pub members : List MemberInfo
  pub cookie : List ℕ

-- `sizeof(m_hostName)` and `s_MaxMemberSetCookieLength`.
abbrev pub host_name_size : ℕ
host_name_size = 256

abbrev pub max_cookie_length : ℕ
max_cookie_length = 8192

-- Up to version 3 the application's port stands where later versions have the port for learning.
unfoldable pub third_port : ℕ → MemberInfo → ℕ
third_port version n = if leb version 3 then n.app_port else n.rsl_learn_port

unfoldable pub includes_id : MemberId → List MemberInfo → Bool
includes_id id [] = false
includes_id id (n ∷ ns) = id_eq id n.member_id || includes_id id ns

module _ (c : CRuntime) (version : ℕ) where
  unfoldable pub marshal_member : MemberInfo → Outcome (List ℕ)
  unfolding third_port
  marshal_member n = do
    id ← marshal_member_id c n.member_id version
    done (
        id
        ++ (write_uint32 n.ip
            ++ (write_uint16 n.rsl_port
                ++ (write_uint16 (third_port version n)
                    ++ (write_uint16 (length n.host_name) ++ write_data n.host_name)))))

  unfoldable pub marshal_members : List MemberInfo → Outcome (List ℕ)
  unfolding marshal_member
  marshal_members [] = done []
  marshal_members (n ∷ ns) = do
    first ← marshal_member n
    rest ← marshal_members ns
    done (first ++ rest)

  unfoldable pub marshal_member_set : MemberSet → Outcome (List ℕ)
  unfolding marshal_members
  marshal_member_set s = do
    members ← marshal_members s.members
    done (
        write_uint16 (length s.members)
        ++ (members ++ (write_uint32 (length s.cookie) ++ write_data s.cookie)))

  unfoldable pub members_len : List MemberInfo → ℕ
  unfolding member_id_base_size
  members_len [] = 0
  members_len (n ∷ ns) =
      member_id_base_size version + 4 + 2 + 2 + 2 + length n.host_name + members_len ns

  unfoldable pub member_set_len : MemberSet → ℕ
  unfolding members_len
  member_set_len s = (members_len s.members + 6 + length s.cookie) % 2 ^ 32

-- `Verify`. `is_number` is the test of the ids up to version 3: the conversion reads all of the id.
unfoldable pub is_number : CRuntime → MemberId → Bool
is_number c id = let (value, rest) = c.strtoui64 id in length rest == 0

unfoldable pub verify_members : CRuntime → ℕ → List MemberInfo → Bool
unfolding includes_id is_number
verify_members c version [] = true
verify_members c version (n ∷ ns) =
    let rest = verify_members c version ns in
    if includes_id n.member_id ns
    then false
    else if n.rsl_port == 0
    then false
    else if ltb version 4 && not (is_number c n.member_id)
    then false
    else rest

unfoldable pub verify : CRuntime → ℕ → MemberSet → Bool
unfolding verify_members
verify c version s = if length s.members == 0 then false else verify_members c version s.members
