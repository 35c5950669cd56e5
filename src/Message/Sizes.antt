-- ===== src/Message/Sizes.antt =====
-- src/RSL/src/message.cpp: `GetBaseSize` is the number of bytes that `Message::Marshal` writes.
use rsl.Common.{ℕ, ◌<◌, ◌^◌, ◌≡◌, refl, ◌∙◌, sym, ap, arith}
use rsl.Common.{
  List, [], ◌++◌, length, length-append, leb, leb→le, if◌then◌else◌, Bool-cases, inl, inr, done,
}
use rsl.Common.{done_injective}
use rsl.Ballot.{MemberId, BallotNumber}
use rsl.Marshal.{write_uint16, write_uint32, write_uint64}
use rsl.Marshal.Reads.{length-to_le}
use rsl.Message.{Message, base_size, member_id_base_size, ballot_base_size}
use rsl.Message.Encode.{CRuntime, marshal_member_id, marshal_ballot, marshal_message, layout}
use rsl.Message.Encode.{value_bytes}
use rsl.Message.RoundTrip.{
  IsWireId, IsWire, nonzero, length-value_bytes, marshal_member_id_round_trip,
  marshal_ballot_round_trip,
}

module _ (c : CRuntime) where
  pub length-marshal_member_id :
      (version : ℕ) (id : MemberId) (bytes : List ℕ)
      → IsWireId c version id
      → marshal_member_id c id version ≡ done bytes
      → length bytes ≡ member_id_base_size version
  unfolding marshal_member_id member_id_base_size write_uint64
  length-marshal_member_id version id bytes w e = elim (Bool-cases (leb version 3)) [
    | inl old ↦
        let wrote : bytes ≡ write_uint64 w.number =
          sym (done_injective (rw (old, w.parsed (leb→le version 3 old)) at e)) in
        rw old (ap length wrote ∙ length-to_le 8 w.number)
    | inr new ↦
        let wrote : bytes ≡ value_bytes c id = sym (done_injective (rw new at e)) in
        rw new (ap length wrote ∙ sym (length-value_bytes c id w.room))
  ]

  pub length-marshal_ballot :
      (version : ℕ) (b : BallotNumber) (bytes : List ℕ)
      → b.ballot_id < 2 ^ 32
      → IsWireId c version b.member_id
      → marshal_ballot c b version ≡ done bytes
      → length bytes ≡ ballot_base_size version
  unfolding marshal_ballot ballot_base_size write_uint32
  length-marshal_ballot version b bytes h w e =
      let (id, p, r) = marshal_member_id_round_trip c version b.member_id w in
      let wrote : bytes ≡ write_uint32 b.ballot_id ++ id = sym (done_injective (rw p at e)) in
      ap length wrote
      ∙ omega (
        arith,
        length-append (write_uint32 b.ballot_id) id,
        length-to_le 4 b.ballot_id,
        length-marshal_member_id version b.member_id id w p,
      )

  configuration_width :
      (version n : ℕ)
      → length (if leb 3 version then write_uint32 n else []) ≡ (if leb 3 version then 4 else 0)
  unfolding write_uint32
  configuration_width version n = elim (Bool-cases (leb 3 version)) [
    | inl new ↦ rw new (length-to_le 4 n)
    | inr old ↦ rw old refl
  ]

  payload_width :
      (version n : ℕ)
      → length (if leb 6 version then write_uint64 n else []) ≡ (if leb 6 version then 8 else 0)
  unfolding write_uint64
  payload_width version n = elim (Bool-cases (leb 6 version)) [
    | inl new ↦ rw new (length-to_le 8 n)
    | inr old ↦ rw old refl
  ]

  length-layout :
      (m : Message) (len : ℕ) (id ballot : List ℕ)
      → length id ≡ member_id_base_size m.version
      → length ballot ≡ ballot_base_size m.version
      → length (layout len m id ballot) ≡ base_size m.version
  unfolding layout base_size write_uint16 write_uint32 write_uint64
  length-layout m len id ballot h k =
      let payload = (if leb 6 m.version then write_uint64 m.payload else []) in
      let number = (if leb 3 m.version then write_uint32 m.configuration_number else []) in
      let e₁ = ballot ++ payload in
      let e₂ = number ++ e₁ in
      let e₃ = write_uint64 m.decree ++ e₂ in
      let e₄ = id ++ e₃ in
      let e₅ = write_uint16 m.msg_id ++ e₄ in
      let e₆ = write_uint32 m.magic ++ e₅ in
      let e₇ = write_uint64 m.checksum ++ e₆ in
      let e₈ = write_uint32 len ++ e₇ in
      omega (
        arith,
        h,
        k,
        length-append ballot payload,
        length-append number e₁,
        length-append (write_uint64 m.decree) e₂,
        length-append id e₃,
        length-append (write_uint16 m.msg_id) e₄,
        length-append (write_uint32 m.magic) e₅,
        length-append (write_uint64 m.checksum) e₆,
        length-append (write_uint32 len) e₇,
        length-append (write_uint16 m.version) e₈,
        length-to_le 2 m.version,
        length-to_le 4 len,
        length-to_le 8 m.checksum,
        length-to_le 4 m.magic,
        length-to_le 2 m.msg_id,
        length-to_le 8 m.decree,
        configuration_width m.version m.configuration_number,
        payload_width m.version m.payload,
      )

  -- For a message with ids that its version can send, `GetBaseSize` is the number of bytes that
  -- `Message::Marshal` writes, whatever length it is told to write.
  pub length-marshal_message :
      (m : Message) (len : ℕ) (bytes : List ℕ)
      → IsWire c m
      → marshal_message c len m ≡ done bytes
      → length bytes ≡ base_size m.version
  unfolding marshal_message
  length-marshal_message m len bytes w e =
      let (id, p, r) = marshal_member_id_round_trip c m.version m.member_id w.member_id in
      let (ballot, q, t) =
        marshal_ballot_round_trip c m.version m.ballot w.ballot_id w.ballot_member in
      let wrote : bytes ≡ layout len m id ballot =
        sym (done_injective (rw (nonzero m.version w.version, p, q) at e)) in
      ap length wrote
      ∙ length-layout m len id ballot
          (length-marshal_member_id m.version m.member_id id w.member_id p)
          (length-marshal_ballot m.version m.ballot ballot w.ballot_id w.ballot_member q)
