-- ===== src/Tls/Records/Growth.antt =====
-- tls_records.rs: a buffer that grows as more of the stream arrives.
use mathlib.Core.List.{append_assoc, append-nil}
use resocks.Base.{
  ℕ, zero, suc, ◌+◌, ◌-◌, ◌*◌, ◌<◌, ◌≡◌, refl, sym, ap, ◌∙◌, inl, inr, true, ◌&&◌, some, [], ◌∷◌,
  ◌++◌, length, take, leb, ◌==◌, Bool-cases, arith,
}
use resocks.Rust.Text.{Bytes}
use resocks.Tls.Records.Assembly.{
  first_message, prefix_of-stream_of, prefix_of-absent, assemble_handshake_message-stream_of,
}
use resocks.Tls.Records.Stream.{
  stream_of, begins_with_handshake, is_whole, message_len, message_len-le, is_whole-append,
  take-append,
}
use resocks.Tls.Records.{
  handshake, walk_from, walk_records, first, kind_is_hello, AssembledHandshake,
  assemble_handshake_message, handshake_prefix, client_hello_is_complete,
}

walk_from-short : (n : ℕ) (bytes : Bytes) → length bytes < n → walk_from n bytes ≡ []
unfolding walk_from
walk_from-short zero bytes h = elim h [ ]
walk_from-short (suc n) [] h = refl
walk_from-short (suc n) (x ∷ xs) h = walk_from-short n xs (omega arith)

-- More bytes only extend the stream.
abbrev Extends : Bytes → Bytes → Type 0
Extends s s' = (t : Bytes) × (s' ≡ s ++ t)

payload-Extends :
    (len : ℕ) (rest more : Bytes)
    → Extends (stream_of (walk_from len rest)) (stream_of (walk_from len (rest ++ more)))
    → Extends
        (take len rest ++ stream_of (walk_from len rest))
        (take len (rest ++ more) ++ stream_of (walk_from len (rest ++ more)))
payload-Extends len rest more (t, e) = elim (Bool-cases (leb len (length rest))) [
  | inl here ↦
      let none_left : len - length rest ≡ 0 = ground arith in
      (
        t,
        rw (take-append len rest more, none_left, append-nil (take len rest), e)
            (sym (append_assoc (take len rest) (stream_of (walk_from len rest)) t)),
      )
  | inr clipped ↦
      let none_yet = walk_from-short len rest (ground arith) in
      (
        take (len - length rest) more ++ stream_of (walk_from len (rest ++ more)),
        rw (take-append len rest more, none_yet, append-nil (take len rest))
            (append_assoc (take len rest) (take (len - length rest) more)
              (stream_of (walk_from len (rest ++ more)))),
      )
]

stream_of-Extends :
    (n : ℕ) (bytes more : Bytes)
    → Extends (stream_of (walk_from n bytes)) (stream_of (walk_from n (bytes ++ more)))
unfolding walk_from
stream_of-Extends zero [] more = (stream_of (walk_from 0 more), refl)
stream_of-Extends zero (a ∷ []) more = (stream_of (walk_from 0 (a ∷ more)), refl)
stream_of-Extends zero (a ∷ b ∷ []) more = (stream_of (walk_from 0 (a ∷ b ∷ more)), refl)
stream_of-Extends zero (a ∷ b ∷ c ∷ []) more = (stream_of (walk_from 0 (a ∷ b ∷ c ∷ more)), refl)
stream_of-Extends zero (a ∷ b ∷ c ∷ d ∷ []) more =
    (stream_of (walk_from 0 (a ∷ b ∷ c ∷ d ∷ more)), refl)
stream_of-Extends zero (kind ∷ a ∷ b ∷ high ∷ low ∷ rest) more =
    let later = stream_of-Extends (high * 256 + low) rest more in
    elim (Bool-cases (kind == handshake)) [
      | inr other ↦ rw other ([], refl)
      | inl same ↦ rw same (payload-Extends (high * 256 + low) rest more later)
    ]
stream_of-Extends (suc n) [] more = (stream_of (walk_from (suc n) more), refl)
stream_of-Extends (suc n) (x ∷ xs) more = stream_of-Extends n xs more

begins-append :
    (bytes more : Bytes)
    → begins_with_handshake (walk_records bytes) ≡ true
    → begins_with_handshake (walk_records (bytes ++ more)) ≡ true
unfolding walk_records walk_from
begins-append (kind ∷ a ∷ b ∷ c ∷ d ∷ rest) more h = h
begins-append (a ∷ b ∷ c ∷ d ∷ []) more h = cc
begins-append (a ∷ b ∷ c ∷ []) more h = cc
begins-append (a ∷ b ∷ []) more h = cc
begins-append (a ∷ []) more h = cc
begins-append [] more h = cc

first_message-append : (s t : Bytes) → is_whole s ≡ true → first_message (s ++ t) ≡ first_message s
first_message-append s t w =
    let (whole, len) = is_whole-append s t w in
    let none_left : message_len s - length s ≡ 0 = omega (arith, message_len-le s) in
    rw
      (
        whole,
        w,
        len,
        take-append (message_len s) s t,
        none_left,
        append-nil (take (message_len s) s),
      )
      refl

stream-append :
    (bytes more : Bytes)
    → Extends (stream_of (walk_records bytes)) (stream_of (walk_records (bytes ++ more)))
unfolding walk_records
stream-append bytes more = stream_of-Extends 0 bytes more

assemble-present :
    (bytes : Bytes)
    → begins_with_handshake (walk_records bytes) ≡ true
    → assemble_handshake_message bytes ≡ some (first_message (stream_of (walk_records bytes)))
assemble-present bytes b = rw b at (assemble_handshake_message-stream_of bytes)

-- A complete message is the message of every longer buffer, too.
pub assemble_handshake_message-append :
    (bytes more : Bytes) (m : AssembledHandshake)
    → assemble_handshake_message bytes ≡ some m
    → m.complete ≡ true
    → assemble_handshake_message (bytes ++ more) ≡ some m
assemble_handshake_message-append bytes more m e c =
    let s = stream_of (walk_records bytes) in
    let (t, grown) = stream-append bytes more in
    elim (Bool-cases (begins_with_handshake (walk_records bytes))) [
      | inr absent ↦ cc (rw absent at (assemble_handshake_message-stream_of bytes), e)
      | inl present ↦
          let now = sym (assemble-present bytes present) ∙ e in
          let same : first_message s ≡ m = cc now in
          let whole : is_whole s ≡ true = ap (λ a. a.complete) same ∙ c in
          assemble-present (bytes ++ more) (begins-append bytes more present)
          ∙ ap some (ap first_message grown ∙ first_message-append s t whole ∙ same)
    ]

-- A buffer holds a complete ClientHello exactly when its first record is a handshake record, the
-- payloads of the leading handshake records hold as many bytes as their first four bytes announce, and
-- the first of these bytes is the ClientHello's kind.
pub client_hello_is_complete-stream_of :
    (bytes : Bytes)
    → client_hello_is_complete bytes ≡ (
        begins_with_handshake (walk_records bytes)
        && is_whole (stream_of (walk_records bytes))
        && kind_is_hello (first (stream_of (walk_records bytes))))
unfolding client_hello_is_complete handshake_prefix
client_hello_is_complete-stream_of bytes =
    let rs = walk_records bytes in
    elim (Bool-cases (begins_with_handshake rs)) [
      | inr absent ↦
          rw (prefix_of-absent rs absent, absent, client_hello_is_complete, handshake_prefix) refl
      | inl present ↦
          let (p, e, l, k, c) = prefix_of-stream_of rs present in
          rw (e, present, client_hello_is_complete, handshake_prefix) (rw (k, c) refl)
    ]
