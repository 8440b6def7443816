-- ===== src/Tls/Records/Assembly.antt =====
-- tls_records.rs: what the walk assembles, against the concatenated payloads.
use mathlib.Core.List.{append-nil}
use resocks.Base.{
  ℕ, zero, suc, ◌-◌, ◌≤◌, min, ◌≡◌, refl, sym, ap, ◌∙◌, inl, inr, true, false, none, some, List, [],
  ◌∷◌, ◌++◌, length, length-append, take, leb, ◌==◌, if◌then◌else◌, Bool-cases, arith,
}
use resocks.Rust.Text.{Bytes}
use resocks.Tls.Records.{
  handshake, TlsRecord, walk_records, HandshakePrefix, Scan, first, scan, start, another_kind,
  handshake_prefix, ended, prefix_of, gather, message_bytes, first_bytes, AssembledHandshake,
  assemble_handshake_message,
}
use resocks.Tls.Records.Stream.{
  stream_of, begins_with_handshake, is_whole, message_len, take-append, take-clipped, scan-Reads,
  start-IsAt, message_len-le,
}

payloads : List TlsRecord → Bytes
payloads [] = []
payloads (r ∷ rs) = r.payload ++ payloads rs

take-nil : (n : ℕ) → take {A = ℕ} n [] ≡ []
take-nil zero = refl
take-nil (suc n) = refl

gather-zero : (rs : List TlsRecord) → gather 0 rs ≡ []
unfolding gather
gather-zero [] = refl
gather-zero (r ∷ rs) = let e : min (length r.payload) 0 ≡ 0 = omega arith in rw e refl

gather-payloads : (len : ℕ) (rs : List TlsRecord) → gather len rs ≡ take len (payloads rs)
unfolding gather payloads
gather-payloads len [] = sym (take-nil len)
gather-payloads len (r ∷ rs) =
    let left : len - min (length r.payload) len ≡ len - length r.payload = omega arith in
    rw
      (
        take-append len r.payload (payloads rs),
        ← gather-payloads (len - length r.payload) rs,
        left,
        take-clipped len r.payload,
      )
      (elim (Bool-cases (len == min (length r.payload) len)) [
        | inr more ↦ rw more refl
        | inl last ↦
            let none_left : len - length r.payload ≡ 0 = ground arith in
            rw (last, none_left, gather-zero rs, append-nil (take len r.payload)) refl
      ])

take-stream_of :
    (len : ℕ) (rs : List TlsRecord)
    → len ≤ length (stream_of rs)
    → take len (payloads rs) ≡ take len (stream_of rs)
unfolding payloads
take-stream_of len [] h = refl
take-stream_of len (r ∷ rs) h = elim (Bool-cases (r.content_type == handshake)) [
  | inr other ↦ let h' = rw other at h in let empty : len ≡ 0 = omega arith in rw empty refl
  | inl same ↦
      rw (same, take-append len r.payload (payloads rs), take-append len r.payload (stream_of rs))
        (ap (◌++◌ (take len r.payload)) (
          take-stream_of (len - length r.payload) rs
            (omega (arith, rw same at h, length-append r.payload (stream_of rs)))))
]

first_bytes-stream_of :
    (len : ℕ) (rs : List TlsRecord)
    → begins_with_handshake rs ≡ true
    → len ≤ length (stream_of rs)
    → first_bytes len rs ≡ some (take len (stream_of rs))
unfolding first_bytes
first_bytes-stream_of len [] b h = cc
first_bytes-stream_of len (r ∷ rs) b h = elim (Bool-cases (leb len (length r.payload))) [
  | inr more ↦ rw more (ap some (gather-payloads len (r ∷ rs) ∙ take-stream_of len (r ∷ rs) h))
  | inl enough ↦
      let none_left : len - length r.payload ≡ 0 = ground arith in
      rw
        (
          enough,
          b,
          take-append len r.payload (stream_of rs),
          none_left,
          append-nil (take len r.payload),
        )
        refl
]

-- `message_len s` of the stream's bytes.
abbrev pub first_message : Bytes → AssembledHandshake
first_message s = record { message = take (message_len s) s; complete = is_whole s }

ended-fields :
    (s : Scan)
    → ((ended s).len ≡ s.prefix.len)
      × ((ended s).complete ≡ s.prefix.complete)
      × ((ended s).kind ≡ s.prefix.kind)
ended-fields s = elim (Bool-cases (another_kind s.next_header)) [
  | inl other ↦ rw other (refl, refl, refl)
  | inr same ↦ rw same (refl, refl, refl)
]

-- What a buffer whose first record is a handshake record gives.
pub prefix_of-stream_of :
    (rs : List TlsRecord)
    → begins_with_handshake rs ≡ true
    → (p : HandshakePrefix) × (prefix_of rs ≡ some p)
      × (p.len ≡ message_len (stream_of rs))
      × (p.kind ≡ first (stream_of rs))
      × (p.complete ≡ is_whole (stream_of rs))
unfolding prefix_of
prefix_of-stream_of [] b = cc
prefix_of-stream_of (r ∷ rs) b =
    let reads = scan-Reads [] (start r) (r ∷ rs) (start-IsAt r) (unfold is_whole in refl) in
    let (l, c, k) = ended-fields (scan (start r) (r ∷ rs)) in
    (
      ended (scan (start r) (r ∷ rs)),
      rw b refl,
      l ∙ reads.len_read,
      k ∙ reads.kind_read,
      c ∙ reads.complete_read,
    )

pub prefix_of-absent :
    (rs : List TlsRecord) → begins_with_handshake rs ≡ false → prefix_of rs ≡ none
unfolding prefix_of
prefix_of-absent [] b = refl
prefix_of-absent (r ∷ rs) b = rw b refl

-- For every buffer: if its first record is a handshake record, the message is what the payloads of
-- the leading handshake records begin with, up to the length that their first four bytes announce, or all of
-- them while that many bytes are not there; it is complete exactly when they are. Otherwise there
-- is no message. Nothing panics.
pub assemble_handshake_message-stream_of :
    (bytes : Bytes)
    → assemble_handshake_message bytes ≡ (
        if begins_with_handshake (walk_records bytes)
        then some (first_message (stream_of (walk_records bytes)))
        else none)
unfolding assemble_handshake_message handshake_prefix message_bytes
assemble_handshake_message-stream_of bytes =
    let rs = walk_records bytes in
    elim (Bool-cases (begins_with_handshake rs)) [
      | inr absent ↦
          rw (prefix_of-absent rs absent, absent, assemble_handshake_message, handshake_prefix) refl
      | inl present ↦
          let (p, e, l, k, c) = prefix_of-stream_of rs present in
          let read : message_bytes bytes p.len
              ≡ some (take (message_len (stream_of rs)) (stream_of rs)) =
            rw l (
              first_bytes-stream_of (message_len (stream_of rs)) rs present
                (message_len-le (stream_of rs))) in
          rw (e, present, read, assemble_handshake_message, handshake_prefix) (rw c refl)
    ]
