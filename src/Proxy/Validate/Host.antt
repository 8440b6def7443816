-- ===== src/Proxy/Validate/Host.antt =====
-- validate.rs, `is_host_char_forbidden`, and the bytes of an HTTP Basic pair: what the scans look for,
-- stated of the characters of the text.
use resocks.Base.{
  ℕ, ◌≤◌, ◌<◌, ◌≡◌, ◌≢◌, ◌∙◌, refl, ap, sym, inl, inr, ◌↔◌, Bool, true, false, ◌||◌, [], ◌∷◌, ◌++◌,
  All, Bool-cases, arith, ltb, ◌==◌,
}
use resocks.Proxy.Validate.{forbidden_in_host}
use resocks.Rust.Space.Char.{IsWhiteSpace, encode_utf8, has_space-at, has_space-found}
use resocks.Rust.Text.{Bytes, any, contains, is_ascii_control}

-- A character that no host may have.
pub data IsForbidden (c : ℕ) : Type 0 where
  control : c < 0x20 → IsForbidden c
  delete : c ≡ 0x7F → IsForbidden c
  slash : c ≡ b'/' → IsForbidden c
  at_sign : c ≡ b'@' → IsForbidden c
  white_space : IsWhiteSpace c → IsForbidden c

-- The bytes of no forbidden character stand anywhere in the host.
abbrev pub AllowedHost : Bytes → Type 0
AllowedHost host =
    (c : ℕ) → IsForbidden c → (before behind : Bytes) → host ≢ before ++ (encode_utf8 c ++ behind)

module _ (p : ℕ → Bool) where
  any-at : (a b : Bytes) (x : ℕ) → p x ≡ true → any p (a ++ x ∷ b) ≡ true
  unfolding any
  any-at [] b x h = rw h
  any-at (y ∷ a) b x h = ground (arith, any-at a b x)

  record Finds (s : Bytes) : Type 0 where
    found : ℕ
    passes : p found ≡ true
    before : Bytes
    behind : Bytes
    split : s ≡ before ++ found ∷ behind

  any-found : (s : Bytes) → any p s ≡ true → Finds s
  unfolding any
  any-found [] h = cc
  any-found (x ∷ s) h = elim (Bool-cases (p x)) [
    | inl here ↦ record { found = x; passes = here; before = []; behind = s; split = refl }
    | inr later ↦
        let f = any-found s (ground arith) in
        record {
          found = f.found;
          passes = f.passes;
          before = x ∷ f.before;
          behind = f.behind;
          split = ap (λ t. x ∷ t) f.split;
        }
  ]

abbrev is_plain_forbidden : ℕ → Bool
is_plain_forbidden c = is_ascii_control c || (c == b'/') || (c == b'@')

encode_ascii : (c : ℕ) (b : Bytes) → c < 0x80 → encode_utf8 c ++ b ≡ c ∷ b
encode_ascii c b h = ground arith

ascii-at :
    (c : ℕ) (a b : Bytes)
    → c < 0x80
    → is_plain_forbidden c ≡ true
    → forbidden_in_host (a ++ (encode_utf8 c ++ b)) ≡ true
unfolding forbidden_in_host
ascii-at c a b small h =
    rw (encode_ascii c b small) (ground (arith, any-at is_plain_forbidden a b c h))

forbidden-at :
    (c : ℕ) (a b : Bytes) → IsForbidden c → forbidden_in_host (a ++ (encode_utf8 c ++ b)) ≡ true
unfolding is_ascii_control
forbidden-at c a b (control h) = ascii-at c a b (omega arith) (ground arith)
forbidden-at c a b (delete e) = ascii-at c a b (omega arith) (ground arith)
forbidden-at c a b (slash e) = ascii-at c a b (omega arith) (ground arith)
forbidden-at c a b (at_sign e) = ascii-at c a b (omega arith) (ground arith)
forbidden-at c a b (white_space w) =
    unfold forbidden_in_host in ground (arith, has_space-at c a b w)

plain-IsForbidden : (c : ℕ) → is_plain_forbidden c ≡ true → IsForbidden c
unfolding is_ascii_control
plain-IsForbidden c h = elim (Bool-cases (c == b'/')) [
  | inl e ↦ slash (ground arith)
  | inr no_slash ↦ elim (Bool-cases (c == b'@')) [
    | inl e ↦ at_sign (ground arith)
    | inr no_at ↦ elim (Bool-cases (ltb c 0x20)) [
      | inl e ↦ control (ground arith)
      | inr printed ↦ delete (ground arith)
    ]
  ]
]

plain-small : (c : ℕ) → is_plain_forbidden c ≡ true → c < 0x80
unfolding is_ascii_control
plain-small c h = ground arith

not-forbidden : (host : Bytes) → AllowedHost host → forbidden_in_host host ≢ true
not-forbidden host allowed h = elim (Bool-cases (any is_plain_forbidden host)) [
  | inl plain ↦
      let f = any-found is_plain_forbidden host plain in
      let small = plain-small f.found f.passes in
      allowed f.found (plain-IsForbidden f.found f.passes) f.before f.behind
        (f.split ∙ ap (λ t. f.before ++ t) (sym (encode_ascii f.found f.behind small)))
  | inr printed ↦
      let f = has_space-found host (unfold forbidden_in_host in ground arith) in
      allowed f.char (white_space f.white) f.before f.behind f.split
]

pub forbidden_in_host-AllowedHost :
    (host : Bytes) → (forbidden_in_host host ≡ false) ↔ AllowedHost host
forbidden_in_host-AllowedHost host = (
  λ h c w a b e. cc (h, ap forbidden_in_host e, forbidden-at c a b w),
  λ allowed. elim (Bool-cases (forbidden_in_host host)) [
    | inl bad ↦ absurd (not-forbidden host allowed bad)
    | inr good ↦ good
  ],
)

-- A byte that is no control character.
abbrev pub IsPrinted : ℕ → Type 0
IsPrinted c = (0x20 ≤ c) × (c ≢ 0x7F)

pub any_control-All : (s : Bytes) → (any is_ascii_control s ≡ false) ↔ All IsPrinted s
unfolding any is_ascii_control
any_control-All [] = (λ _. tt, λ _. refl)
any_control-All (x ∷ s) =
    let ih = any_control-All s in
    (λ h. ((ground arith, ground arith), ih.0 (ground arith)), λ a. ground (arith, ih.1 a.1))

pub contains-All : (c : ℕ) (s : Bytes) → (contains c s ≡ false) ↔ All (λ x. x ≢ c) s
unfolding contains
contains-All c [] = (λ _. tt, λ _. refl)
contains-All c (x ∷ s) =
    let ih = contains-All c s in
    (λ h. (ground arith, ih.0 (ground arith)), λ a. ground (arith, ih.1 a.1))
