-- ===== src/Tls/Records/Stream.antt =====
-- tls_records.rs: the loop of `handshake_prefix`, against the concatenated payloads.
use mathlib.Core.List.{append_assoc, append-nil}
use resocks.Base.{
  ℕ, zero, suc, ◌+◌, ◌-◌, ◌*◌, ◌^◌, ◌≤◌, min, ◌≡◌, refl, sym, ap, ◌∙◌, inl, inr, Bool, true, false,
  Option, none, some, List, [], ◌∷◌, ◌++◌, length, length-append, length-take, take, leb, ◌==◌,
  if◌then◌else◌, Bool-cases, Option-cases, arith, leb→le, subst,
}
use resocks.Rust.Text.{Bytes, is_empty}
use resocks.Tls.Records.{
  handshake, TlsRecord, declared, Scan, first, absorb, satisfied, finished, scan, start,
}

-- The payloads of the leading handshake records, one after the other.
abbrev pub stream_of : List TlsRecord → Bytes
stream_of [] = []
stream_of (r ∷ rs) = if r.content_type == handshake then r.payload ++ stream_of rs else []

abbrev pub begins_with_handshake : List TlsRecord → Bool
begins_with_handshake [] = false
begins_with_handshake (r ∷ rs) = r.content_type == handshake

abbrev fits : Option ℕ → ℕ → Bool
fits none len = false
fits (some n) len = leb n len

abbrev cut : Option ℕ → ℕ → ℕ
cut none len = len
cut (some n) len = min n len

-- The length of the message with its header, from the 24 bits behind the first byte.
abbrev announced : Bytes → Option ℕ
announced (kind ∷ a ∷ b ∷ c ∷ _) = some (4 + (a * 2 ^ 16 + b * 2 ^ 8 + c))
announced _ = none

-- The message header announces a length, and that many bytes are there.
unfoldable pub is_whole : Bytes → Bool
is_whole s = fits (announced s) (length s)

-- The length that the header announces, or all there is.
unfoldable pub message_len : Bytes → ℕ
message_len s = cut (announced s) (length s)

pub take-append : (n : ℕ) (xs ys : Bytes) → take n (xs ++ ys) ≡ take n xs ++ take (n - length xs) ys
take-append zero xs ys = let e : 0 - length xs ≡ 0 = omega arith in rw e
take-append (suc n) [] ys = let e : suc n - 0 ≡ suc n = omega arith in rw e
take-append (suc n) (x ∷ xs) ys =
    let e : suc n - suc (length xs) ≡ n - length xs = omega arith in
    rw e (ap (◌∷◌ x) (take-append n xs ys))

pub take-clipped : (n : ℕ) (xs : Bytes) → take (min (length xs) n) xs ≡ take n xs
take-clipped zero xs = let e : min (length xs) 0 ≡ 0 = omega arith in rw e
take-clipped (suc n) [] = let e : min 0 (suc n) ≡ 0 = omega arith in rw e
take-clipped (suc n) (x ∷ xs) =
    let e : min (suc (length xs)) (suc n) ≡ suc (min (length xs) n) = omega arith in
    rw e (ap (◌∷◌ x) (take-clipped n xs))

announced-append :
    (s t : Bytes) (n : ℕ) → announced s ≡ some n → (4 ≤ length s) × (announced (s ++ t) ≡ some n)
announced-append (a ∷ b ∷ c ∷ d ∷ s) t n e = (omega arith, e)
announced-append (a ∷ b ∷ c ∷ []) t n e = cc
announced-append (a ∷ b ∷ []) t n e = cc
announced-append (a ∷ []) t n e = cc
announced-append [] t n e = cc

-- The loop's four bytes declare the same length.
declared-announced : (s : Bytes) → declared (take 4 s) ≡ announced s
declared-announced (a ∷ b ∷ c ∷ d ∷ s) = refl
declared-announced (a ∷ b ∷ c ∷ []) = refl
declared-announced (a ∷ b ∷ []) = refl
declared-announced (a ∷ []) = refl
declared-announced [] = refl

-- A whole message stays whole, and as long, whatever follows it.
pub is_whole-append :
    (s t : Bytes)
    → is_whole s ≡ true
    → (is_whole (s ++ t) ≡ true) × (message_len (s ++ t) ≡ message_len s)
unfolding is_whole message_len
is_whole-append s t w = elim (Option-cases (announced s)) [
  | inl none_yet ↦ cc (rw none_yet at w)
  | inr (n, e) ↦
      let (long, later) = announced-append s t n e in
      let w' = rw e at w in
      rw (later, e)
        (
          ground (arith, length-append s t),
          omega (arith, leb→le n (length s) w', length-append s t),
        )
]

-- The loop's variables after the payloads `done`, none of which completed the message.
pub record IsAt (done : Bytes) (s : Scan) : Type 0 where
  pub len_at : s.prefix.len ≡ length done
  pub header_at : s.header ≡ take 4 done
  pub kind_at : s.prefix.kind ≡ first done
  pub open_at : s.prefix.complete ≡ false

header_step :
    (done p : Bytes)
    → take 4 done ++ take (min (length p) (4 - length (take 4 done))) p ≡ take 4 (done ++ p)
header_step done p =
    let left : 4 - length (take 4 done) ≡ 4 - length done = omega (arith, length-take 4 done) in
    rw (take-clipped (4 - length (take 4 done)) p, left) (sym (take-append 4 done p))

kind_step :
    (done p : Bytes) (kind : Option ℕ)
    → kind ≡ first done
    → (if is_empty (take 4 (done ++ p)) then kind else first (take 4 (done ++ p)))
      ≡ first (done ++ p)
kind_step (x ∷ done) p kind e = refl
kind_step [] (x ∷ p) kind e = refl
kind_step [] [] kind e = e

absorb-IsAt :
    (done : Bytes) (s : Scan) (r : TlsRecord) → IsAt done s → IsAt (done ++ r.payload) (absorb s r)
absorb-IsAt done s r a = record {
  len_at = omega (arith, a.len_at, length-append done r.payload);
  header_at = rw a.header_at (header_step done r.payload);
  kind_at =
      rw (a.header_at, header_step done r.payload)
        (kind_step done r.payload s.prefix.kind a.kind_at);
  open_at = a.open_at;
}

-- What the loop returns, by all the payloads that it passes over.
pub record Reads (all : Bytes) (s : Scan) : Type 0 where
  pub len_read : s.prefix.len ≡ message_len all
  pub kind_read : s.prefix.kind ≡ first all
  pub complete_read : s.prefix.complete ≡ is_whole all

fits-cut : (o : Option ℕ) (len : ℕ) → fits o len ≡ false → cut o len ≡ len
fits-cut none len h = refl
fits-cut (some n) len h = ground arith

partial_len : (s : Bytes) → is_whole s ≡ false → message_len s ≡ length s
unfolding is_whole message_len
partial_len s h = fits-cut (announced s) (length s) h

satisfied-IsAt :
    (done : Bytes) (s : Scan) → IsAt done s → satisfied s (declared s.header) ≡ is_whole done
unfolding is_whole
satisfied-IsAt done s a = rw (a.header_at, declared-announced done) (same (announced done))
  where
    same : (o : Option ℕ) → satisfied s o ≡ fits o (length done)
    same none = refl
    same (some n) = rw a.len_at

finished-len :
    (s : Scan) (o : Option ℕ) (len : ℕ)
    → fits o len ≡ true
    → ((finished s o).prefix.len ≡ cut o len)
      × ((finished s o).prefix.complete ≡ true)
      × ((finished s o).prefix.kind ≡ s.prefix.kind)
finished-len s none len h = cc
finished-len s (some n) len h = (ground arith, refl, refl)

whole_long : (s : Bytes) → is_whole s ≡ true → 4 ≤ length s
unfolding is_whole
whole_long s w = elim (Option-cases (announced s)) [
  | inl none_yet ↦ cc (rw none_yet at w)
  | inr (n, e) ↦ (announced-append s [] n e).0
]

at_end : (done : Bytes) (s : Scan) → IsAt done s → is_whole done ≡ false → Reads done s
at_end done s a w = record {
  len_read = a.len_at ∙ sym (partial_len done w);
  kind_read = a.kind_at;
  complete_read = cc (a.open_at, w);
}

first-append : (s t : Bytes) → 1 ≤ length s → first (s ++ t) ≡ first s
first-append [] t h = elim h [ ]
first-append (x ∷ s) t h = refl

finished-Reads :
    (done later : Bytes) (s : Scan)
    → IsAt done s
    → is_whole done ≡ true
    → Reads (done ++ later) (finished s (declared s.header))
unfolding is_whole message_len
finished-Reads done later s a w =
    let (whole, len) = is_whole-append done later w in
    let (n, c, k) = finished-len s (announced done) (length done) w in
    subst (λ o. Reads (done ++ later) (finished s o))
      (sym (ap declared a.header_at ∙ declared-announced done))
      (record {
        len_read = n ∙ sym len;
        kind_read =
            k ∙ a.kind_at ∙ sym (first-append done later (omega (arith, whole_long done w)));
        complete_read = c ∙ sym whole;
      })

pub scan-Reads :
    (done : Bytes) (s : Scan) (rs : List TlsRecord)
    → IsAt done s
    → is_whole done ≡ false
    → Reads (done ++ stream_of rs) (scan s rs)
unfolding scan
scan-Reads done s [] a w = rw (append-nil done) (at_end done s a w)
scan-Reads done s (r ∷ rs) a w = elim (Bool-cases (r.content_type == handshake)) [
  | inr other ↦
      rw (other, append-nil done)
        (at_end done (record s { prefix = record s.prefix { extendable = false } })
          (record {
            len_at = a.len_at;
            header_at = a.header_at;
            kind_at = a.kind_at;
            open_at = a.open_at;
          })
          w)
  | inl same ↦
      let a' = absorb-IsAt done s r a in
      rw
        (
          same,
          satisfied-IsAt (done ++ r.payload) (absorb s r) a',
          ← append_assoc done r.payload (stream_of rs),
        )
        (elim (Bool-cases (is_whole (done ++ r.payload))) [
          | inl whole ↦
              rw whole (finished-Reads (done ++ r.payload) (stream_of rs) (absorb s r) a' whole)
          | inr partial ↦ rw partial (scan-Reads (done ++ r.payload) (absorb s r) rs a' partial)
        ])
]

pub start-IsAt : (r : TlsRecord) → IsAt [] (start r)
start-IsAt r = record { len_at = refl; header_at = refl; kind_at = refl; open_at = refl }

pub message_len-le : (s : Bytes) → message_len s ≤ length s
unfolding message_len
message_len-le s = go (announced s)
  where
    go : (o : Option ℕ) → cut o (length s) ≤ length s
    go none = omega arith
    go (some n) = omega arith
