-- ===== src/Message/RoundTrip.antt =====
-- `UnMarshal` of src/RSL/src/message.cpp takes back what `Marshal` wrote.
use rsl.Common.{ℕ, ◌-◌, ◌≤◌, ◌<◌, ◌^◌, ◌≡◌, refl, sym, ap, true, false, arith}
use rsl.Common.{
  List, [], ◌∷◌, ◌++◌, append-nil, length, length-append, All, some, ◌==◌, leb, leb→le, le→leb,
  ==_eq, lt→ltb, subst,
}
use rsl.Common.{if◌then◌else◌, done, Bool-cases, inl, inr, zero, suc}
use rsl.Ballot.{MemberId, BallotNumber, member_id_size}
use rsl.Marshal.{return}
use rsl.Marshal.{write_uint32, write_uint64}
use rsl.Marshal.Reads.{
  Reads, Reads-bind, Reads-then, Reads-return, Reads-guard, Reads-data, Reads-last, Reads-check,
}
use rsl.Marshal.Reads.{Reads-uint16, Reads-uint32, Reads-uint64}
use rsl.Message.{Message, is_version_valid, message_magic, base_size}
use rsl.Message.Encode.{CRuntime, stale_bytes, value_bytes, parse_member_id, marshal_member_id}
use rsl.Message.Encode.{marshal_ballot, marshal_message, layout}
use rsl.Message.Decode.{c_string, return_string, print_member_id, un_marshal_member_id}
use rsl.Message.Decode.{un_marshal_ballot, un_marshal_configuration, un_marshal_payload}
use rsl.Message.Decode.{un_marshal_message}

-- A string of a C buffer has no NUL inside.
abbrev pub IsCString : List ℕ → Type 0
IsCString = All (λ b. 0 < b)

c_string-append : (s rest : List ℕ) → IsCString s → c_string (s ++ (0 ∷ rest)) ≡ some s
unfolding c_string
c_string-append [] rest h = refl
c_string-append (b ∷ s) rest h = ground (arith, c_string-append s rest h.1)

module _ (c : CRuntime) where
  length-stale_bytes : (n : ℕ) → length (stale_bytes c n) ≡ n
  unfolding stale_bytes
  length-stale_bytes zero = refl
  length-stale_bytes (suc n) = ap suc (length-stale_bytes n)

  -- The ids that a protocol version can send: those that fit `m_value`, and up to version 3 only
  -- the empty one and those that are the decimal form of a UInt64 other than 0.
  pub record IsWireId (version : ℕ) (id : MemberId) : Type 0 where
    pub no_nul : IsCString id
    pub room : length id < member_id_size
    pub number : ℕ
    pub parsed : version ≤ 3 → parse_member_id c id ≡ done number
    pub in_range : number < 2 ^ 64
    pub printed : version ≤ 3 → (if number == 0 then [] else c.print_u64 number) ≡ id

  Reads-print_member_id :
      (n : ℕ) (id : MemberId)
      → length id < member_id_size
      → (if n == 0 then [] else c.print_u64 n) ≡ id
      → Reads (print_member_id c n) [] id
  unfolding print_member_id
  Reads-print_member_id n id h e = elim (Bool-cases (n == 0)) [
    | inl z ↦ rw z (subst (Reads (return []) []) (rw z at e) (Reads-return []))
    | inr z ↦
        let p : c.print_u64 n ≡ id = rw z at e in
        rw (z, p) (Reads-then (Reads-guard _ (lt→ltb _ _ h)) (Reads-return id))
  ]

  Reads-value_bytes :
      (id : MemberId)
      → IsCString id
      → length id < member_id_size
      → Reads (return_string (c_string (value_bytes c id))) [] id
  unfolding value_bytes return_string
  Reads-value_bytes id h k = rw (c_string-append id _ h) (Reads-return id)

  pub length-value_bytes :
      (id : MemberId) → length id < member_id_size → member_id_size ≡ length (value_bytes c id)
  unfolding value_bytes
  length-value_bytes id h = omega (
    arith,
    length-append id (0 ∷ stale_bytes c (member_id_size - 1 - length id)),
    length-stale_bytes (member_id_size - 1 - length id),
  )

  pub marshal_member_id_round_trip :
      (version : ℕ) (id : MemberId)
      → IsWireId version id
      → (bytes : List ℕ) × (marshal_member_id c id version ≡ done bytes)
        × Reads (un_marshal_member_id c version) bytes id
  unfolding marshal_member_id un_marshal_member_id
  marshal_member_id_round_trip version id w = elim (Bool-cases (leb version 3)) [
    | inl old ↦ (
      write_uint64 w.number,
      rw (old, w.parsed (leb→le _ _ old)),
      rw (old, sym (append-nil (write_uint64 w.number)))
          (Reads-bind _ (Reads-uint64 w.number w.in_range)
            (Reads-print_member_id w.number id w.room (w.printed (leb→le _ _ old)))),
    )
    | inr new ↦ (
      value_bytes c id,
      rw new,
      rw (new, sym (append-nil (value_bytes c id)))
          (Reads-bind _
            (Reads-data (value_bytes c id) member_id_size (length-value_bytes id w.room))
            (Reads-value_bytes id w.no_nul w.room)),
    )
  ]

  pub marshal_ballot_round_trip :
      (version : ℕ) (b : BallotNumber)
      → b.ballot_id < 2 ^ 32
      → IsWireId version b.member_id
      → (bytes : List ℕ) × (marshal_ballot c b version ≡ done bytes)
        × Reads (un_marshal_ballot c version) bytes b
  unfolding marshal_ballot un_marshal_ballot
  marshal_ballot_round_trip version b h w =
      let (id, p, r) = marshal_member_id_round_trip version b.member_id w in
      (
        write_uint32 b.ballot_id ++ id,
        rw p,
        Reads-bind _ (Reads-uint32 b.ballot_id h) (Reads-last _ r (Reads-return b)),
      )

Reads-configuration :
    (version n : ℕ)
    → n < 2 ^ 32
    → Reads
        (un_marshal_configuration version)
        (if leb 3 version then write_uint32 n else [])
        (if leb 3 version then n else 1)
unfolding un_marshal_configuration
Reads-configuration version n h = elim (Bool-cases (leb 3 version)) [
  | inl new ↦ rw new (Reads-uint32 n h)
  | inr old ↦ rw old (Reads-return 1)
]

Reads-payload :
    (version n : ℕ)
    → n < 2 ^ 64
    → Reads
        (un_marshal_payload version)
        (if leb 6 version then write_uint64 n else [])
        (if leb 6 version then n else 0)
unfolding un_marshal_payload
Reads-payload version n h = elim (Bool-cases (leb 6 version)) [
  | inl new ↦ rw new (Reads-uint64 n h)
  | inr old ↦ rw old (Reads-return 0)
]

valid_bounds : (v : ℕ) → is_version_valid v ≡ true → (1 ≤ v) × (v ≤ 6)
unfolding is_version_valid
valid_bounds v h = ground arith

pub nonzero : (v : ℕ) → is_version_valid v ≡ true → (v == 0) ≡ false
nonzero v h = ground (arith, valid_bounds v h)

-- What the receiver holds: versions before 3 have no configuration number, before 6 no payload.
unfoldable pub received : Message → ℕ → Message → Message
received self len m = record self {
  version = m.version;
  un_marshal_len = len;
  checksum = m.checksum;
  magic = m.magic;
  msg_id = m.msg_id;
  member_id = m.member_id;
  decree = m.decree;
  configuration_number = if leb 3 m.version then m.configuration_number else 1;
  ballot = m.ballot;
  payload = if leb 6 m.version then m.payload else 0;
}

module _ (c : CRuntime) where
  -- The fields are in the ranges of their C++ types, and the ids can be sent.
  pub record IsWire (m : Message) : Type 0 where
    pub version : is_version_valid m.version ≡ true
    pub checksum : m.checksum < 2 ^ 64
    pub magic : m.magic ≡ message_magic
    pub msg_id : m.msg_id < 2 ^ 16
    pub member_id : IsWireId c m.version m.member_id
    pub decree : m.decree < 2 ^ 64
    pub configuration_number : m.configuration_number < 2 ^ 32
    pub ballot_id : m.ballot.ballot_id < 2 ^ 32
    pub ballot_member : IsWireId c m.version m.ballot.member_id
    pub payload : m.payload < 2 ^ 64

  Reads-layout :
      (self m : Message) (len : ℕ) (id ballot : List ℕ)
      → IsWire m
      → base_size m.version ≤ len
      → len < 2 ^ 32
      → Reads (un_marshal_member_id c m.version) id m.member_id
      → Reads (un_marshal_ballot c m.version) ballot m.ballot
      → Reads (un_marshal_message c self) (layout len m id ballot) (received self len m)
  unfolding un_marshal_message received layout
  Reads-layout self m len id ballot w big small rid rb =
      Reads-bind _ (Reads-uint16 m.version (omega (arith, valid_bounds m.version w.version))) (
        Reads-then (Reads-guard _ w.version) (
          Reads-bind _ (Reads-uint32 len small) (
            Reads-bind _ (Reads-uint64 m.checksum w.checksum) (
              Reads-bind _ (Reads-uint32 m.magic (omega (arith, w.magic))) (
                Reads-bind _ (Reads-uint16 m.msg_id w.msg_id) (
                  Reads-bind _ rid (
                    Reads-bind _ (Reads-uint64 m.decree w.decree) (
                      Reads-bind _
                        (Reads-configuration m.version m.configuration_number
                          w.configuration_number)
                        (Reads-bind _ rb (
                          Reads-last _ (Reads-payload m.version m.payload w.payload) (
                            Reads-check _ (le→leb _ _ big)
                              (Reads-check _ (==_eq _ _ w.magic) (Reads-return _)))))))))))))

  -- For a message with fields in their ranges and ids that its version can send, whatever length of
  -- at least the base size is written, `Marshal` writes bytes from which `UnMarshal` returns the
  -- message, and stops behind them.
  pub marshal_message_round_trip :
      (self m : Message) (len : ℕ)
      → IsWire m
      → base_size m.version ≤ len
      → len < 2 ^ 32
      → (bytes : List ℕ) × (marshal_message c len m ≡ done bytes)
        × Reads (un_marshal_message c self) bytes (received self len m)
  unfolding marshal_message
  marshal_message_round_trip self m len w big small =
      let (id, p, rid) = marshal_member_id_round_trip c m.version m.member_id w.member_id in
      let (ballot, q, rb) =
        marshal_ballot_round_trip c m.version m.ballot w.ballot_id w.ballot_member in
      (
        layout len m id ballot,
        rw (nonzero m.version w.version, p, q),
        Reads-layout self m len id ballot w big small rid rb,
      )
