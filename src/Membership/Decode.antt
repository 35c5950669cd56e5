-- ===== src/Membership/Decode.antt =====
-- src/RSL/src/rsl.cpp: `MemberSet::UnMarshal`.
use rsl.Common.{ℕ, zero, suc, not, List, [], ◌∷◌, ltb, leb, ◌==◌, if◌then◌else◌}
use rsl.Marshal.{Read, ◌>>=◌, ◌>>◌, return, guard, check, read_uint16, read_uint32, read_data}
use rsl.Message.Encode.{CRuntime}
use rsl.Message.Decode.{un_marshal_member_id}
use rsl.Membership.{MemberInfo, MemberSet, host_name_size, max_cookie_length}

module _ (c : CRuntime) (version : ℕ) where
  -- The port that is not sent is that of a new `RSLNode`.
  unfoldable pub un_marshal_member : Read MemberInfo
  un_marshal_member = do
    id ← un_marshal_member_id c version
    ip ← read_uint32
    rsl_port ← read_uint16
    port ← read_uint16
    host_len ← read_uint16
    check (ltb host_len host_name_size)
    host_name ← read_data host_len
    return (record {
      member_id = id;
      host_name = host_name;
      ip = ip;
      rsl_port = rsl_port;
      rsl_learn_port = if leb version 3 then 0 else port;
      app_port = if leb version 3 then port else 0;
    })

  unfoldable pub un_marshal_members : ℕ → Read (List MemberInfo)
  unfolding un_marshal_member
  un_marshal_members zero = return []
  un_marshal_members (suc n) = do
    first ← un_marshal_member
    rest ← un_marshal_members n
    return (first ∷ rest)

  unfoldable pub un_marshal_set_cookie : ℕ → Read (List ℕ)
  un_marshal_set_cookie len = if len == 0 then return [] else read_data len

  unfoldable pub un_marshal_member_set : Read MemberSet
  unfolding un_marshal_members un_marshal_set_cookie
  un_marshal_member_set = do
    n ← read_uint16
    members ← un_marshal_members n
    cookie_len ← read_uint32
    guard (not (ltb max_cookie_length cookie_len))
    cookie ← un_marshal_set_cookie cookie_len
    return (record { members = members; cookie = cookie })
