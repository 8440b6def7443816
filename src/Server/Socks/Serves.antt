-- ===== src/Server/Socks/Serves.antt =====
-- server/mod.rs, `socks`: a client that keeps to the protocol is served.
use resocks.Base.{
  ℕ, ◌+◌, ◌*◌, ◌≤◌, ◌≡◌, refl, ◌∙◌, Bool, true, false, not, ◌&&◌, Option, none, some, [], ◌∷◌, ◌++◌,
  length, ◌==◌, arith,
}
use resocks.Rust.Text.{Bytes, contains}
use resocks.Rust.Utf8
use resocks.Server.Wire.Succeeds.{
  Succeeds, map-Succeeds, Succeeds-ok, skip-Succeeds, and_then-Succeeds, read_exact-Succeeds,
  authenticate-Succeeds, send-Succeeds,
}
use resocks.Server.Wire.{Credentials, Wire, ok, read_exact, read_u8, read_u16, authenticate, send}
use resocks.Server.Socks.{
  ServerOptions, IncomingRequest, choose, decode, credentials_of, verify_fields, subnegotiate,
  bad_domain, with_port, read_domain, read_target, request, incoming, socks,
}

-- The CONNECT request for a domain, and what follows it.
abbrev pub request_bytes : ℕ → Bytes → ℕ → ℕ → Bytes → Bytes
request_bytes reserved domain high low rest =
    5 ∷ 1 ∷ reserved ∷ 3 ∷ length domain ∷ (domain ++ high ∷ low ∷ rest)

-- A field with its length in front.
abbrev pub field : Bytes → Bytes → Bytes
field s rest = length s ∷ (s ++ rest)

module _ (reserved : ℕ) (domain : Bytes) (high low : ℕ) (rest : Bytes) where
  abbrev Asks : ℕ → Wire → Bytes → Wire → Type 0
  Asks polls w target w' =
      (target ≡ with_port domain (high * 256 + low))
      × (w'.input ≡ rest)
      × (w.polls ≤ w'.polls + polls)

  request-Asks :
      (w : Wire)
      → w.input ≡ request_bytes reserved domain high low rest
      → 4 ≤ w.polls
      → Utf8.is_utf8 domain ≡ true
      → bad_domain domain (high * 256 + low) ≡ false
      → Succeeds (Asks 4 w) (request w)
  unfolding request read_target read_domain
  request-Asks w e p u d =
      let Q = Asks 4 w in
      and_then-Succeeds Q (read_exact 4 w) _ (
        read_exact-Succeeds _ (5 ∷ 1 ∷ reserved ∷ 3 ∷ [])
          (length domain ∷ (domain ++ high ∷ low ∷ rest)) w e (omega arith)
          λ w1 (e1, p1). and_then-Succeeds Q (read_u8 w1) _ (
            and_then-Succeeds _ (read_exact 1 w1) _ (
              read_exact-Succeeds _ (length domain ∷ []) (domain ++ high ∷ low ∷ rest) w1 e1
                (omega arith)
                λ w2 (e2, p2). and_then-Succeeds Q (read_exact (length domain) w2) _ (
                  read_exact-Succeeds _ domain (high ∷ low ∷ rest) w2 e2 (omega arith)
                    λ w3 (e3, p3). and_then-Succeeds Q (read_u16 w3) _ (
                      and_then-Succeeds _ (read_exact 2 w3) _ (
                        read_exact-Succeeds _ (high ∷ low ∷ []) rest w3 e3 (omega arith)
                          λ w4 (e4, p4).
                            skip-Succeeds Q (not (Utf8.is_utf8 domain)) _ _ w4 (ground arith) (
                              skip-Succeeds Q (bad_domain domain (high * 256 + low)) _ _ w4 d
                                (refl, e4, omega arith))))))))

  module _ (o : ServerOptions) (verify : Credentials → Bool) (user password : Bytes) where
    abbrev pub submitted : Credentials
    submitted = credentials_of (user, none) (password, none)

    abbrev Verifies : Bytes → Wire → Option Credentials → Wire → Type 0
    Verifies later w verified w' =
        (verified ≡ some submitted) × (w'.input ≡ later) × (w.polls ≤ w'.polls + 7)

    verify_fields-Succeeds :
        (Q : Option Credentials → Wire → Type 0) (w : Wire)
        → 3 ≤ w.polls
        → Utf8.is_utf8 user ≡ true
        → Utf8.is_utf8 password ≡ true
        → verify submitted ≡ true
        → ((w' : Wire) → w'.input ≡ w.input → w.polls ≤ w'.polls + 3 → Q (some submitted) w')
        → Succeeds Q (verify_fields o verify user password w)
    unfolding verify_fields decode
    verify_fields-Succeeds Q w p u v g h =
        rw (u, v, verify_fields)
          (and_then-Succeeds Q (authenticate verify submitted w) _ (
            authenticate-Succeeds _ verify submitted w (omega arith) λ w1 (e1, p1).
              skip-Succeeds Q (not (verify submitted)) _ _ w1 (ground arith) (
                and_then-Succeeds Q (send (1 ∷ 0 ∷ []) w1) _ (
                  send-Succeeds _ (1 ∷ 0 ∷ []) w1 (omega arith)
                    λ w2 e2 p2. h w2 (e2 ∙ e1) (omega arith)))))

    subnegotiate-Verifies :
        (later : Bytes) (w : Wire)
        → w.input ≡ 1 ∷ field user (field password later)
        → 7 ≤ w.polls
        → 1 ≤ length user
        → 1 ≤ length password
        → Utf8.is_utf8 user ≡ true
        → Utf8.is_utf8 password ≡ true
        → verify submitted ≡ true
        → Succeeds (Verifies later w) (subnegotiate o verify w)
    unfolding subnegotiate
    subnegotiate-Verifies later w e p lu lp u v g =
        let Q = Verifies later w in
        and_then-Succeeds Q (read_exact 2 w) _ (
          read_exact-Succeeds _ (1 ∷ length user ∷ []) (user ++ field password later) w e
            (omega arith)
            λ w1 (e1, p1). skip-Succeeds Q (length user == 0) _ _ w1 (ground arith) (
              and_then-Succeeds Q (read_exact (length user) w1) _ (
                read_exact-Succeeds _ user (field password later) w1 e1 (omega arith) λ w2 (e2, p2).
                  and_then-Succeeds Q (read_u8 w2) _ (
                    and_then-Succeeds _ (read_exact 1 w2) _ (
                      read_exact-Succeeds _ (length password ∷ []) (password ++ later) w2 e2
                        (omega arith)
                        λ w3 (e3, p3).
                          skip-Succeeds Q (length password == 0) _ _ w3 (ground arith) (
                            and_then-Succeeds Q (read_exact (length password) w3) _ (
                              read_exact-Succeeds _ password later w3 e3 (omega arith)
                                λ w4 (e4, p4).
                                  verify_fields-Succeeds Q w4 (omega arith) u v g
                                    λ w5 e5 p5. (refl, e5 ∙ e4, omega arith))))))))

    -- What a client sends that offers the password method and asks for a domain.
    abbrev pub client_bytes : Bytes → Bytes
    client_bytes methods =
        field methods
          (1 ∷ field user (field password (request_bytes reserved domain high low rest)))

    -- Served, with nothing behind the request read.
    abbrev pub Done : IncomingRequest → Wire → Type 0
    Done r w' =
        (r ≡ incoming o (some submitted) (with_port domain (high * 256 + low))) × (w'.input ≡ rest)

    socks-Done :
        (methods : Bytes) (w : Wire)
        → w.input ≡ client_bytes methods
        → 15 ≤ w.polls
        → (o.password && contains 2 methods) ≡ true
        → 1 ≤ length user
        → 1 ≤ length password
        → Utf8.is_utf8 user ≡ true
        → Utf8.is_utf8 password ≡ true
        → verify submitted ≡ true
        → Utf8.is_utf8 domain ≡ true
        → bad_domain domain (high * 256 + low) ≡ false
        → Succeeds Done (socks o verify w)
    unfolding socks choose
    socks-Done methods w e p offered lu lp u v g ud d =
        let two : choose o methods ≡ 2 = rw offered refl in
        let rest_bytes = request_bytes reserved domain high low rest in
        let after_methods = 1 ∷ field user (field password rest_bytes) in
        and_then-Succeeds Done (read_u8 w) _ (
          and_then-Succeeds _ (read_exact 1 w) _ (
            read_exact-Succeeds _ (length methods ∷ []) (methods ++ after_methods) w e (omega arith)
              λ w1 (e1, p1). and_then-Succeeds Done (read_exact (length methods) w1) _ (
                read_exact-Succeeds _ methods after_methods w1 e1 (omega arith) λ w2 (e2, p2).
                  rw two (
                    and_then-Succeeds Done (send (5 ∷ 2 ∷ []) w2) _ (
                      send-Succeeds _ (5 ∷ 2 ∷ []) w2 (omega arith) λ w3 e3 p3.
                        and_then-Succeeds Done (subnegotiate o verify w3) _ (
                          map-Succeeds (Verifies rest_bytes w3) _ (subnegotiate o verify w3)
                            (λ verified w4 (is, e4, p4). and_then-Succeeds Done (request w4) _ (
                              map-Succeeds (Asks 4 w4) _ (request w4)
                                (λ target w5 (at_target, e5, _). (rw (is, at_target) refl, e5))
                                (request-Asks w4 e4 (omega arith) ud d)))
                            (subnegotiate-Verifies rest_bytes w3 (e3 ∙ e2) (omega arith) lu lp u v
                              g)))))))

    -- A client is served that offers the password method to a server with password access, submits
    -- a user and a password that are not empty and are UTF-8 and that the closure grants, and asks
    -- for a domain that is one: if it sends all these bytes, and fifteen awaits complete before the
    -- handshake is cut short, the request is accepted with this user and this target, and the bytes
    -- behind it are left on the stream.
    pub socks-serves :
        (methods : Bytes) (w : Wire)
        → w.input ≡ client_bytes methods
        → 15 ≤ w.polls
        → (o.password && contains 2 methods) ≡ true
        → 1 ≤ length user
        → 1 ≤ length password
        → Utf8.is_utf8 user ≡ true
        → Utf8.is_utf8 password ≡ true
        → verify submitted ≡ true
        → Utf8.is_utf8 domain ≡ true
        → bad_domain domain (high * 256 + low) ≡ false
        → (r : IncomingRequest) × (w' : Wire) × (socks o verify w ≡ ok r w') × Done r w'
    socks-serves methods w e p offered lu lp u v g ud d =
        Succeeds-ok Done (socks o verify w) (socks-Done methods w e p offered lu lp u v g ud d)
