-- ===== src/Packet/Tests.antt =====
-- Runs of the codec, among them those of tests/test-packet.cpp, and the theorems at concrete input.
use mathlib.Core.Option
use hula.Common.{ℕ, ◌≡◌, ◌≢◌, refl, true, false, some, none, List, [], ◌∷◌, arith}
use hula.Buffer.{list_mem}
use hula.Endian.{k_ntohs}
use hula.Packet.{
  Decoded, write, create_connection, code, opcode_of, unnamed, fill_header, read_length, cut_frame,
  decode_header, decode_packet, encode_packet, encode_packet_header, decode_all_packet,
}
use hula.Packet.Frame.{parse_frame}
use hula.Packet.Decode.{view, decode_packet-parse_frame}
use hula.Packet.RoundTrip.{received, decode_packet-encode_packet}
use hula.Packet.Loop.{view_all, decode_all_packet-ne-none}
use hula.Packet.Stream.{decode_all_packet-frames}

-- packet_decode_test(ROBuf("\xff\xee", 2), ROBuf("\02\x33\x33\x33", 4), 2, 1, 0xff, 0xee)
decode_split :
    decode_packet list_mem true (0xff ∷ 0xee ∷ []) (2 ∷ 0x33 ∷ 0x33 ∷ 0x34 ∷ [])
    ≡ some (received list_mem true (unnamed 0xff) 0xee (0x33 ∷ 0x33 ∷ []) (0x34 ∷ []))
unfolding decode_packet decode_header cut_frame read_length fill_header opcode_of
decode_split = refl

-- A 16-bit length below 0xfe is an error.
decode_long_too_short :
    Option.map
      (λ (d : Decoded (List ℕ)). d.no_error)
      (decode_packet list_mem true (0xff ∷ 0xee ∷ []) (0xfe ∷ 0 ∷ 3 ∷ 1 ∷ 2 ∷ 3 ∷ []))
    ≡ some false
unfolding decode_packet decode_header cut_frame read_length fill_header k_ntohs
decode_long_too_short = refl

abbrev hello : List ℕ
hello = 104 ∷ 105 ∷ []

encode_hello : encode_packet list_mem true create_connection 5 hello ≡ some (1 ∷ 5 ∷ 2 ∷ hello)
unfolding encode_packet encode_packet_header code
encode_hello = refl

-- An id from 64 on fails the assertion.
encode_large_id : encode_packet list_mem true write 64 hello ≡ none
unfolding encode_packet encode_packet_header code
encode_large_id = refl

decode_packet-parse_frame_example :
    Option.map (view list_mem true) (decode_packet list_mem true (0 ∷ []) (7 ∷ 1 ∷ 9 ∷ 8 ∷ []))
    ≡ some (parse_frame (0 ∷ 7 ∷ 1 ∷ 9 ∷ 8 ∷ []))
decode_packet-parse_frame_example =
    decode_packet-parse_frame list_mem true (0 ∷ []) (7 ∷ 1 ∷ 9 ∷ 8 ∷ []) (omega arith)
      (omega arith)

decode_packet-encode_packet_example :
    Option.map
      (view list_mem true)
      (decode_packet list_mem true (1 ∷ 5 ∷ []) (2 ∷ 104 ∷ 105 ∷ 0 ∷ []))
    ≡ some (received list_mem true create_connection 5 hello (0 ∷ []))
decode_packet-encode_packet_example =
    decode_packet-encode_packet list_mem true create_connection 5 hello (1 ∷ 5 ∷ 2 ∷ hello)
      (1 ∷ 5 ∷ []) (2 ∷ 104 ∷ 105 ∷ 0 ∷ []) (0 ∷ []) tt (omega arith) (omega arith) (omega arith)
      (omega arith) encode_hello refl (omega arith)

decode_all_packet-ne-none_example :
    decode_all_packet list_mem true [] (0xff ∷ 1 ∷ 0xfe ∷ 0 ∷ 0 ∷ []) ≢ none
decode_all_packet-ne-none_example =
    decode_all_packet-ne-none list_mem true [] (0xff ∷ 1 ∷ 0xfe ∷ 0 ∷ 0 ∷ []) (omega arith)
      (omega arith)

-- Two frames and the first byte of a third, cut inside the first.
decode_all_packet-frames_example :
    Option.map
      (view_all list_mem true)
      (decode_all_packet list_mem true (0 ∷ 7 ∷ []) (1 ∷ 9 ∷ 1 ∷ 5 ∷ 2 ∷ 104 ∷ 105 ∷ 3 ∷ []))
    ≡ some (record {
      ok = true;
      packets = (9 ∷ [], write, 7) ∷ (hello, create_connection, 5) ∷ [];
      rest = 3 ∷ [];
    })
unfolding code parse_frame
decode_all_packet-frames_example =
    decode_all_packet-frames list_mem true
      (record { opcode = write; id = 7; payload = 9 ∷ [] }
        ∷ record { opcode = create_connection; id = 5; payload = hello }
        ∷ [])
      (3 ∷ []) (0 ∷ 7 ∷ []) (1 ∷ 9 ∷ 1 ∷ 5 ∷ 2 ∷ 104 ∷ 105 ∷ 3 ∷ []) (omega arith) refl refl
      (omega arith) (omega arith)
