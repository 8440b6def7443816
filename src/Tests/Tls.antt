-- ===== src/Tests/Tls.antt =====
-- The record walk on a small ClientHello that two records carry.
use resocks.Base.{◌≡◌, refl, true, some, [], ◌∷◌, ◌++◌}
use resocks.Rust.Text.{Bytes}
use resocks.Tls.Records.Assembly.{assemble_handshake_message-stream_of}
use resocks.Tls.Records.Stream.{is_whole, message_len}
use resocks.Tls.Records.Growth.{assemble_handshake_message-append}
use resocks.Tls.Records.{walk_from, walk_records, AssembledHandshake, assemble_handshake_message}

-- A body of two bytes; the header and a byte in the first record, a byte and another message in the
-- second.
abbrev two_records : Bytes
two_records =
    0x16 ∷ 3 ∷ 1 ∷ 0 ∷ 5 ∷ 1 ∷ 0 ∷ 0 ∷ 2 ∷ 0xAA ∷ 0x16 ∷ 3 ∷ 1 ∷ 0 ∷ 3 ∷ 0xBB ∷ 11 ∷ 0 ∷ []

abbrev hello : AssembledHandshake
hello = record { message = 1 ∷ 0 ∷ 0 ∷ 2 ∷ 0xAA ∷ 0xBB ∷ []; complete = true }

assemble_handshake_message-stream_of_example : assemble_handshake_message two_records ≡ some hello
unfolding walk_from walk_records is_whole message_len
assemble_handshake_message-stream_of_example = assemble_handshake_message-stream_of two_records

two_records_complete : assemble_handshake_message two_records ≡ some hello
unfolding walk_from walk_records is_whole message_len
two_records_complete = assemble_handshake_message-stream_of two_records

assemble_handshake_message-append_example :
    assemble_handshake_message (two_records ++ 7 ∷ 8 ∷ []) ≡ some hello
assemble_handshake_message-append_example =
    assemble_handshake_message-append two_records (7 ∷ 8 ∷ []) hello two_records_complete refl
