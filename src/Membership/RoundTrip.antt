-- ===== src/Membership/RoundTrip.antt =====
-- `UnMarshal` of the member sets of src/RSL/src/rsl.cpp takes back what `Marshal` wrote.
use rsl.Common.{ℕ, ◌≤◌, ◌<◌, ◌^◌, ◌≡◌, refl, subst, true, false, not, arith, All}
use rsl.Common.{List, [], ◌∷◌, ◌++◌, length, ltb, leb, ◌==◌, lt→ltb, if◌then◌else◌, done}
use rsl.Common.{Bool-cases, inl, inr}
use rsl.Marshal.Reads.{
  Reads, Reads-bind, Reads-last, Reads-check, Reads-assert, Reads-return, Reads-data,
}
use rsl.Marshal.Reads.{Reads-uint16, Reads-uint32}
use rsl.Marshal.{return, write_uint16, write_uint32, write_data}
use rsl.Message.Encode.{CRuntime}
use rsl.Message.RoundTrip.{IsWireId, marshal_member_id_round_trip}
use rsl.Membership.{MemberInfo, MemberSet, third_port, marshal_member, marshal_members}
use rsl.Membership.{marshal_member_set, host_name_size, max_cookie_length}
use rsl.Membership.Decode.{un_marshal_member, un_marshal_members, un_marshal_set_cookie}
use rsl.Membership.Decode.{un_marshal_member_set}

module _ (c : CRuntime) (version : ℕ) where
  -- A member whose fields fit their types, with an id that the version can send.
  pub record IsWireMember (n : MemberInfo) : Type 0 where
    pub id : IsWireId c version n.member_id
    pub ip : n.ip < 2 ^ 32
    pub rsl_port : n.rsl_port < 2 ^ 16
    pub rsl_learn_port : n.rsl_learn_port < 2 ^ 16
    pub app_port : n.app_port < 2 ^ 16
    pub host_name : length n.host_name < host_name_size

  -- What the receiver knows of the ports.
  unfoldable pub received_member : MemberInfo → MemberInfo
  received_member n = record n {
    rsl_learn_port = if leb version 3 then 0 else n.rsl_learn_port;
    app_port = if leb version 3 then n.app_port else 0;
  }

  abbrev pub received_members : List MemberInfo → List MemberInfo
  received_members [] = []
  received_members (n ∷ ns) = received_member n ∷ received_members ns

  -- The ports as they are read.
  abbrev read_member : MemberInfo → MemberInfo
  read_member n = record n {
    rsl_learn_port = if leb version 3 then 0 else third_port version n;
    app_port = if leb version 3 then third_port version n else 0;
  }

  read_received : (n : MemberInfo) → read_member n ≡ received_member n
  unfolding received_member third_port
  read_received n = elim (Bool-cases (leb version 3)) [
    | inl old ↦ rw old refl
    | inr new ↦ rw new refl
  ]

  member_round_trip :
      (n : MemberInfo)
      → IsWireMember n
      → (bytes : List ℕ) × (marshal_member c version n ≡ done bytes)
        × Reads (un_marshal_member c version) bytes (received_member n)
  unfolding marshal_member un_marshal_member received_member third_port
  member_round_trip n w =
      let (id, p, r) = marshal_member_id_round_trip c version n.member_id w.id in
      let small : third_port version n < 2 ^ 16 = ground (arith, w.app_port, w.rsl_learn_port) in
      let host = w.host_name in
      (
        id
            ++ (write_uint32 n.ip
                ++ (write_uint16 n.rsl_port
                    ++ (write_uint16 (third_port version n)
                        ++ (write_uint16 (length n.host_name) ++ write_data n.host_name)))),
        rw p refl,
        Reads-bind _ r (
            Reads-bind _ (Reads-uint32 n.ip w.ip) (
              Reads-bind _ (Reads-uint16 n.rsl_port w.rsl_port) (
                Reads-bind _ (Reads-uint16 (third_port version n) small) (
                  Reads-bind _ (Reads-uint16 (length n.host_name) (omega arith)) (
                    Reads-assert _ (lt→ltb (length n.host_name) host_name_size host) (
                      Reads-last _ (Reads-data n.host_name (length n.host_name) refl) (
                        subst (Reads (return (read_member n)) []) (read_received n)
                          (Reads-return (read_member n))))))))),
      )

  members_round_trip :
      (ns : List MemberInfo)
      → All IsWireMember ns
      → (bytes : List ℕ) × (marshal_members c version ns ≡ done bytes)
        × Reads (un_marshal_members c version (length ns)) bytes (received_members ns)
  unfolding marshal_members un_marshal_members
  members_round_trip [] w = ([], refl, Reads-return [])
  members_round_trip (n ∷ ns) w =
      let (first, p, r) = member_round_trip n w.0 in
      let (rest, q, k) = members_round_trip ns w.1 in
      (first ++ rest, rw (p, q) refl, Reads-bind _ r (Reads-last _ k (Reads-return _)))

  Reads-set_cookie :
      (cookie : List ℕ) → Reads (un_marshal_set_cookie c version (length cookie)) cookie cookie
  unfolding un_marshal_set_cookie
  Reads-set_cookie [] = Reads-return []
  Reads-set_cookie (x ∷ xs) =
      let some : (length (x ∷ xs) == 0) ≡ false = ground arith in
      rw some (Reads-data (x ∷ xs) (length (x ∷ xs)) refl)

  -- A set of at most 65535 members whose fields fit their types, with ids that the version can send
  -- and a cookie of at most 8192 bytes, comes back as `Marshal` wrote it, in its order. Of the two
  -- ports that share a place on the wire, the one that the version does not send comes back as 0.
  pub marshal_member_set_round_trip :
      (s : MemberSet)
      → All IsWireMember s.members
      → length s.members < 2 ^ 16
      → length s.cookie ≤ max_cookie_length
      → (bytes : List ℕ) × (marshal_member_set c version s ≡ done bytes)
        × Reads
            (un_marshal_member_set c version)
            bytes
            (record s { members = received_members s.members })
  unfolding marshal_member_set un_marshal_member_set
  marshal_member_set_round_trip s w few small =
      let (members, p, r) = members_round_trip s.members w in
      let short : not (ltb max_cookie_length (length s.cookie)) ≡ true = ground arith in
      (
        write_uint16 (length s.members)
            ++ (members ++ (write_uint32 (length s.cookie) ++ write_data s.cookie)),
        rw p refl,
        Reads-bind _ (Reads-uint16 (length s.members) few) (
            Reads-bind _ r (
              Reads-bind _ (Reads-uint32 (length s.cookie) (omega arith))
                (Reads-check _ short (Reads-last _ (Reads-set_cookie s.cookie) (Reads-return _))))),
      )
