-- ===== src/Vote/Whole.antt =====
-- `Vote::UnMarshal` of src/RSL/src/message.cpp on a whole vote.
use rsl.Common.{ℕ, ◌+◌, ◌≤◌, ◌<◌, ◌^◌, ◌≡◌, refl, sym, ap, ◌∙◌, subst, true, false, not, arith, All}
use rsl.Common.{
  List, [], ◌++◌, length, length-append, leb, le→leb, ◌==◌, ==_eq, if◌then◌else◌, done, ◌||◌,
}
use rsl.Common.{Bool-cases, inl, inr, Option, none, some, append_assoc, done_injective}
use rsl.Marshal.{
  Reader, Read, got, write_uint8, ◌>>=◌, ◌>>◌, set_read_pointer, read_data, guard,
  forward_read_pointer,
}
use rsl.Marshal.Reads.{At, Reads, Reads-bind, Reads-last, Reads-check, Reads-return}
use rsl.Marshal.Reads.{Reads-data, Reads-uint8, bind-got}
use rsl.Marshal.Buffers.{Finishes, Finishes-bind, Finishes-return, Reads-forward, At-start}
use rsl.Message.{Message, MsgId, msg_code, base_size}
use rsl.Message.Encode.{CRuntime}
use rsl.Message.Decode.{un_marshal_message}
use rsl.Message.RoundTrip.{IsWire, received, marshal_message_round_trip}
use rsl.Message.Sizes.{length-marshal_message}
use rsl.Membership.{MemberSet, max_cookie_length}
use rsl.Membership.RoundTrip.{IsWireMember, received_members, marshal_member_set_round_trip}
use rsl.Message.Bodies.{marshal_cookie}
use rsl.Vote.Encode.{
  flag, VoteMsg, is_some, marshal_requests, marshal_reconfiguration, vote_body, marshal_vote,
}
use rsl.Vote.Decode.{un_marshal_reconfiguration, un_marshal_members_of, un_marshal_vote_cookie}
use rsl.Vote.Decode.{
  un_marshal_relinquish, un_marshal_requests, parse_vote, within, peek_message, un_marshal_vote,
}
use rsl.Vote.RoundTrip.{
  IsRequest, Reads-vote_cookie, Reads-relinquish, Finishes-un_marshal_requests,
  length-marshal_requests,
}

module _ (c : CRuntime) where
  -- What can be sent of a reconfiguration, and what arrives.
  abbrev pub IsWireSet : ℕ → Option MemberSet → Type 0
  IsWireSet version none = Unit
  IsWireSet version (some s) =
      All (IsWireMember c version) s.members
      × (length s.members < 2 ^ 16)
      × (length s.cookie ≤ max_cookie_length)
      × (3 ≤ version)

  abbrev pub received_set : ℕ → Option MemberSet → Option MemberSet
  received_set version none = none
  received_set version (some s) = some (record s { members = received_members c version s.members })

  Reads-reconfiguration :
      (version : ℕ) (o : Option MemberSet) (members : List ℕ)
      → IsWireSet version o
      → marshal_reconfiguration c version o ≡ done members
      → Reads
          (un_marshal_reconfiguration c version)
          (if leb 3 version then members else [])
          (received_set version o)
  unfolding un_marshal_reconfiguration marshal_reconfiguration un_marshal_members_of
  Reads-reconfiguration version none members w e = elim (Bool-cases (leb 3 version)) [
    | inl new ↦
        rw (new, sym (done_injective e))
          (Reads-last _ (Reads-uint8 0 (omega arith)) (Reads-return none))
    | inr old ↦ rw old (Reads-return none)
  ]
  Reads-reconfiguration version (some s) members w e =
      let (bytes, p, r) = marshal_member_set_round_trip c version s w.0 w.1 w.2 in
      let wrote : members ≡ write_uint8 1 ++ bytes = sym (done_injective (rw p at e)) in
      rw (le→leb 3 version w.3, wrote)
        (Reads-bind _ (Reads-uint8 1 (omega arith)) (Reads-last _ r (Reads-return _)))

  -- What can be sent of a vote: requests that are not empty, or a reconfiguration.
  pub record IsWireVote (v : VoteMsg) : Type 0 where
    pub header : IsWire c v.header
    pub kind : v.msg_id ≡ msg_code MsgId.vote
    pub cookie : length v.primary_cookie < 2 ^ 32
    pub set : IsWireSet v.version v.reconfiguration
    pub requests : All IsRequest v.requests
    pub alone : is_some (received_set v.version v.reconfiguration) ≡ true → v.requests ≡ []

  -- What the receiver holds: version 1 has no cookie, versions before 5 no request to step down.
  unfoldable pub received_vote : Message → VoteMsg → VoteMsg
  received_vote header v = record v {
    header = header;
    primary_cookie = if leb 2 v.version then v.primary_cookie else [];
    reconfiguration = received_set v.version v.reconfiguration;
    relinquish_primary = if leb 5 v.version then v.relinquish_primary else false;
  }

  Finishes-parse_vote :
      (v : VoteMsg) (h : Message) (members header : List ℕ) (fuel : ℕ)
      → IsWireVote v
      → h.version ≡ v.version
      → length header ≡ base_size v.version
      → marshal_reconfiguration c v.version v.reconfiguration ≡ done members
      → length v.requests ≤ fuel
      → Finishes (parse_vote c fuel h) (header ++ vote_body c v members) (received_vote h v)
  unfolding parse_vote vote_body received_vote ◌>>◌
  Finishes-parse_vote v h members header fuel w same size e l = rw same (
      Finishes-bind (forward_read_pointer (base_size v.version)) _ header _ tt _
        (Reads-forward header (base_size v.version) (sym size))
        (Finishes-bind (un_marshal_vote_cookie c v.version) _ _ _ _ _
          (Reads-vote_cookie c v.version v.primary_cookie w.cookie)
          (Finishes-bind (un_marshal_reconfiguration c v.version) _ _ _ _ _
            (Reads-reconfiguration v.version v.reconfiguration members w.set e)
            (Finishes-bind (un_marshal_relinquish c v.version) _ _ _ _ _
              (Reads-relinquish c v.version v.relinquish_primary)
              (Finishes-return
                (un_marshal_requests c fuel (is_some (received_set v.version v.reconfiguration))) _
                _ v.requests
                (Finishes-un_marshal_requests c (is_some (received_set v.version v.reconfiguration))
                  v.requests fuel w.alone w.requests l))))))

  Reads-within :
      {A : Type 0} (m : Read A) (bytes : List ℕ) (a : A)
      → Finishes m bytes a
      → length bytes + 1 < 2 ^ 32
      → Reads (within c m bytes) [] a
  unfolding within
  Reads-within m bytes a f small = record {
    run = λ r ys at.
        let start : Reader = record { bytes = bytes; read_ptr = 0; overshoot = false } in
        let (r₁, p) = f start (At-start bytes (omega arith)) small in
        (r, rw (within, p) refl, at, refl);
  }

  rewound :
      (r r₁ : Reader)
      → r₁.bytes ≡ r.bytes
      → r.overshoot ≡ false
      → r.read_ptr ≤ length r.bytes
      → set_read_pointer r.read_ptr r₁ ≡ r
  unfolding set_read_pointer
  rewound r r₁ same clear inside = ground arith

  peeked :
      (self h : Message) (header rest : List ℕ) (r : Reader)
      → Reads (un_marshal_message c self) header h
      → At r (header ++ rest)
      → peek_message c self r ≡ got h r
  unfolding peek_message
  peeked self h header rest r reads at =
      let (r₁, p, at₁, same) = reads.run r rest at in
      rw (peek_message, p) (ap (got h) (rewound r r₁ same at.no_overshoot (omega (arith, at.fits))))

  sendable :
      (version : ℕ) (o : Option MemberSet)
      → IsWireSet version o
      → (not (is_some o) || leb 3 version) ≡ true
  sendable version none w = refl
  sendable version (some s) w = le→leb 3 version w.3

  enough_fuel :
      (v : VoteMsg) (members header : List ℕ)
      → length v.requests ≤ length (header ++ vote_body c v members)
  unfolding vote_body
  enough_fuel v members header =
      let qs = marshal_requests v.requests in
      let step_down = (if leb 5 v.version then write_uint8 (flag v.relinquish_primary) else []) in
      let set = (if leb 3 v.version then members else []) in
      let cookie = (if leb 2 v.version then marshal_cookie v.primary_cookie else []) in
      omega (
        arith,
        length-marshal_requests c v.requests,
        length-append step_down qs,
        length-append set (step_down ++ qs),
        length-append cookie (set ++ (step_down ++ qs)),
        length-append header (cookie ++ (set ++ (step_down ++ qs))),
      )

  -- What follows when the header has been looked at.
  Reads-rest :
      (v : VoteMsg) (h : Message) (members header : List ℕ)
      → IsWireVote v
      → h.version ≡ v.version
      → h.msg_id ≡ v.msg_id
      → length header ≡ base_size v.version
      → h.un_marshal_len ≡ length (header ++ vote_body c v members)
      → marshal_reconfiguration c v.version v.reconfiguration ≡ done members
      → base_size v.version + length (vote_body c v members) + 1 < 2 ^ 32
      → Reads
          (guard (h.msg_id == msg_code MsgId.vote)
            >> (read_data h.un_marshal_len >>= λ bytes.
                within c (parse_vote c (length bytes) h) bytes))
          (header ++ vote_body c v members)
          (received_vote h v)
  Reads-rest v h members header w same kind size len e small =
      let all = header ++ vote_body c v members in
      Reads-check (h.msg_id == msg_code MsgId.vote)
        (==_eq h.msg_id (msg_code MsgId.vote) (kind ∙ w.kind))
        (Reads-last _ (Reads-data all h.un_marshal_len len) (
          Reads-within (parse_vote c (length all) h) all (received_vote h v)
            (Finishes-parse_vote v h members header (length all) w same size e
              (enough_fuel v members header))
            (omega (arith, length-append header (vote_body c v members), size, small))))

  -- A vote with fields in their ranges, ids that its version can send, and either requests that are not
  -- empty or a reconfiguration (from version 3 on) that fits a member set, comes back as `Marshal`
  -- wrote it, requests and members in their order, where the whole takes less than 4 GB less one byte.
  -- Version 1 has no cookie, and versions before 5 no request that the primary steps down.
  pub marshal_vote_round_trip :
      (self : Message) (v : VoteMsg) (members : List ℕ)
      → IsWireVote v
      → marshal_reconfiguration c v.version v.reconfiguration ≡ done members
      → base_size v.version + length (vote_body c v members) + 1 < 2 ^ 32
      → (bytes : List ℕ) × (marshal_vote c v ≡ done bytes)
        × Reads
            (un_marshal_vote c self)
            bytes
            (received_vote (received self (length bytes) v.header) v)
  unfolding marshal_vote un_marshal_vote received
  marshal_vote_round_trip self v members w e small =
      let body = vote_body c v members in
      let len : ℕ = base_size v.version + length body in
      let (header, p, r) =
        marshal_message_round_trip c self v.header len w.header (omega arith) (omega arith) in
      let size = length-marshal_message c v.header len header w.header p in
      let all = header ++ body in
      let whole : len ≡ length all = omega (arith, length-append header body, size) in
      let h : Message = received self len v.header in
      (
        all,
        rw (sendable v.version v.reconfiguration w.set, e, p) refl,
        subst (λ n. Reads (un_marshal_vote c self) all (received_vote (received self n v.header) v))
            whole
            (record {
              run = λ x ys at.
                  let seen =
                    peeked self h header (body ++ ys) x r
                      (subst (At x) (append_assoc header body ys) at) in
                  let (x₂, q, at₂, same) =
                    (Reads-rest v h members header w refl refl size whole e small).run x ys at in
                  (x₂, bind-got (peek_message c self) _ x x h seen ∙ q, at₂, same);
            }),
      )

  -- `GetMarshalLen` of a vote that can be sent is the number of bytes that `Marshal` writes.
  pub length-marshal_vote :
      (v : VoteMsg) (members bytes : List ℕ)
      → IsWireVote v
      → marshal_reconfiguration c v.version v.reconfiguration ≡ done members
      → base_size v.version + length (vote_body c v members) + 1 < 2 ^ 32
      → marshal_vote c v ≡ done bytes
      → length bytes ≡ base_size v.version + length (vote_body c v members)
  unfolding marshal_vote
  length-marshal_vote v members bytes w e small wrote =
      let body = vote_body c v members in
      let len : ℕ = base_size v.version + length body in
      let (header, p, r) =
        marshal_message_round_trip c v.header v.header len w.header (omega arith) (omega arith) in
      let size = length-marshal_message c v.header len header w.header p in
      let same : bytes ≡ header ++ body =
        sym (done_injective (rw (sendable v.version v.reconfiguration w.set, e, p) at wrote)) in
      ap length same ∙ omega (arith, length-append header body, size)
