-- ===== src/Address/RoundTrip.antt =====
-- host_port.rs: what `format` writes, `parse` reads.
use resocks.Base.{
  subst, ℕ, ◌≤◌, ◌≡◌, refl, inl, inr, true, false, ◌⊎◌, none, some, ◌∷◌, ◌++◌, [], arith,
  Bool-cases, Option-cases, ◌==◌,
}
use resocks.Rust.Net.{is_ipv6}
use resocks.Rust.Net.Separators.{is_ipv6-bracket}
use resocks.Rust.Number.{
  parse_u16, decimal, parse_u16-decimal, parse_unsigned-le, decimal-absent, u16_max,
}
use resocks.Rust.Text.{
  Bytes, contains, contains-append, is_empty, split_once, rsplit_once, strip_prefix,
  starts_with_byte, split_once-append, rsplit_once-append, is_ascii_digit,
  rsplit_once-starts_with_byte,
}
use resocks.Address.{HostPort, with_port, parse_bracketed, parse_bare, parse, format}

-- A host that `format` writes without brackets, and that `parse` reads back from there.
pub record IsPlainHost (host : Bytes) : Type 0 where
  pub nonempty : is_empty host ≡ false
  pub no_colon : contains b':' host ≡ false
  pub no_bracket : starts_with_byte b'[' host ≡ false

-- The host is an IPv6 address or a plain host, and the port is a `u16`.
abbrev pub IsAddress : Bytes → ℕ → Type 0
IsAddress host port = ((is_ipv6 host ≡ true) ⊎ IsPlainHost host) × (port ≤ u16_max)

with_port-decimal :
    (host : Bytes) (port : ℕ)
    → port ≤ u16_max
    → with_port host (decimal port) ≡ some (record { host = host; port = port })
unfolding with_port
with_port-decimal host port h = rw (parse_u16-decimal port h, with_port)

parse-bracketed :
    (host : Bytes) (port : ℕ)
    → is_ipv6 host ≡ true
    → port ≤ u16_max
    → parse (b'[' ∷ (host ++ b']' ∷ b':' ∷ decimal port))
      ≡ some (record { host = host; port = port })
unfolding parse
parse-bracketed host port v h =
    rw (split_once-append b']' host (b':' ∷ decimal port) (is_ipv6-bracket host v), parse_bracketed)
      (rw v (with_port-decimal host port h))

strip_prefix-absent : (x c : ℕ) (xs : Bytes) → (x == c) ≡ false → strip_prefix c (x ∷ xs) ≡ none
strip_prefix-absent x c xs h = rw h

parse_bare-plain :
    (host : Bytes) (port : ℕ)
    → IsPlainHost host
    → port ≤ u16_max
    → parse_bare (host ++ b':' ∷ decimal port) ≡ some (record { host = host; port = port })
unfolding parse_bare is_ascii_digit
parse_bare-plain host port v h =
    rw (rsplit_once-append b':' host (decimal port) (decimal-absent port b':' refl), parse_bare)
      (rw (v.no_colon, v.nonempty) (with_port-decimal host port h))

parse-plain :
    (host : Bytes) (port : ℕ)
    → IsPlainHost host
    → port ≤ u16_max
    → parse (host ++ b':' ∷ decimal port) ≡ some (record { host = host; port = port })
unfolding parse
parse-plain [] port v h = cc v.nonempty
parse-plain (x ∷ host) port v h =
    rw (strip_prefix-absent x b'[' (host ++ b':' ∷ decimal port) v.no_bracket, parse)
      (parse_bare-plain (x ∷ host) port v h)

-- What `format` writes for an address, `parse` reads back: the same host without brackets and the
-- same port.
pub parse-format :
    (host : Bytes) (port : ℕ)
    → IsAddress host port
    → parse (format host port) ≡ some (record { host = host; port = port })
unfolding format
parse-format host port (v, h) = elim (Bool-cases (is_ipv6 host)) [
  | inl address ↦ rw address (parse-bracketed host port address h)
  | inr name ↦ rw name (elim v [ inl address ↦ cc | inr plain ↦ parse-plain host port plain h ])
]

-- A host without `@` is written without one.
pub format-at :
    (host : Bytes) (port : ℕ)
    → contains b'@' host ≡ false
    → contains b'@' (format host port) ≡ false
unfolding format is_ascii_digit contains
format-at host port h = elim (Bool-cases (is_ipv6 host)) [
  | inl address ↦
      rw (address, contains-append b'@' host (b']' ∷ b':' ∷ decimal port), h)
        (decimal-absent port b'@' refl)
  | inr name ↦
      rw (name, contains-append b'@' host (b':' ∷ decimal port), h) (decimal-absent port b'@' refl)
]

with_port-IsAddress :
    (host port : Bytes) (hp : HostPort)
    → ((is_ipv6 host ≡ true) ⊎ IsPlainHost host)
    → with_port host port ≡ some hp
    → IsAddress hp.host hp.port
unfolding with_port
with_port-IsAddress host port hp v e = elim (Option-cases (parse_u16 port)) [
  | inl absent ↦ cc (rw (absent, with_port) at e)
  | inr (n, read) ↦
      let fits = parse_unsigned-le u16_max port read in
      let same : record { host = host; port = n } ≡ hp = cc (rw (read, with_port) at e) in
      subst (λ r. IsAddress r.host r.port) same (v, fits)
]

parse_bracketed-IsAddress :
    (rest : Bytes) (hp : HostPort) → parse_bracketed rest ≡ some hp → IsAddress hp.host hp.port
unfolding parse_bracketed
parse_bracketed-IsAddress rest hp e = elim (Option-cases (split_once b']' rest)) [
  | inl absent ↦ cc (rw (absent, parse_bracketed) at e)
  | inr ((host, after), split) ↦
      let e' = rw (split, parse_bracketed) at e in
      elim (Bool-cases (is_ipv6 host)) [
        | inr name ↦ cc (rw name at e')
        | inl address ↦ elim (Option-cases (strip_prefix b':' after)) [
          | inl no_port ↦ cc (rw (address, no_port) at e')
          | inr (port, found) ↦
              with_port-IsAddress host port hp (inl address) (rw (address, found) at e')
        ]
      ]
]

strip_prefix-none : (c : ℕ) (s : Bytes) → strip_prefix c s ≡ none → starts_with_byte c s ≡ false
strip_prefix-none c [] n = refl
strip_prefix-none c (x ∷ s) n = ground arith

no_bracket_before :
    (s host port : Bytes)
    → strip_prefix b'[' s ≡ none
    → rsplit_once b':' s ≡ some (host, port)
    → starts_with_byte b'[' host ≡ false
no_bracket_before s host port n split = elim (Bool-cases (starts_with_byte b'[' host)) [
  | inr plain ↦ plain
  | inl bracket ↦
      cc (
        rsplit_once-starts_with_byte b':' s host port b'[' split bracket,
        strip_prefix-none b'[' s n,
      )
]

parse_bare-IsAddress :
    (s : Bytes) (hp : HostPort)
    → strip_prefix b'[' s ≡ none
    → parse_bare s ≡ some hp
    → IsAddress hp.host hp.port
unfolding parse_bare
parse_bare-IsAddress s hp n e = elim (Option-cases (rsplit_once b':' s)) [
  | inl absent ↦ cc (rw (absent, parse_bare) at e)
  | inr ((host, port), split) ↦
      let e' = rw (split, parse_bare) at e in
      elim (Bool-cases (contains b':' host)) [
        | inl colon ↦ elim (Bool-cases (is_ipv6 host)) [
          | inr name ↦ cc (rw (colon, name) at e')
          | inl address ↦ with_port-IsAddress host port hp (inl address) (rw (colon, address) at e')
        ]
        | inr plain ↦ elim (Bool-cases (is_empty host)) [
          | inl empty ↦ cc (rw (plain, empty) at e')
          | inr nonempty ↦
              with_port-IsAddress host port hp
                (inr (record {
                  nonempty = nonempty;
                  no_colon = plain;
                  no_bracket = no_bracket_before s host port n split;
                }))
                (rw (plain, nonempty) at e')
        ]
      ]
]

-- Whatever `parse` accepts is an address.
pub parse-IsAddress : (s : Bytes) (hp : HostPort) → parse s ≡ some hp → IsAddress hp.host hp.port
unfolding parse
parse-IsAddress s hp e = elim (Option-cases (strip_prefix b'[' s)) [
  | inl bare ↦ parse_bare-IsAddress s hp bare (rw (bare, parse) at e)
  | inr (rest, bracketed) ↦ parse_bracketed-IsAddress rest hp (rw (bracketed, parse) at e)
]

-- So an accepted text, in any of its forms, keeps its host and port when it is formatted and
-- parsed again.
pub parse-format-parse :
    (s : Bytes) (hp : HostPort) → parse s ≡ some hp → parse (format hp.host hp.port) ≡ some hp
parse-format-parse s hp e = parse-format hp.host hp.port (parse-IsAddress s hp e)
