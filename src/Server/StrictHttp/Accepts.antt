-- ===== src/Server/StrictHttp/Accepts.antt =====
-- strict_http.rs: the target of an accepted request.
use resocks.Address.Forms.{parse-of_bracketed, parse-of_bare}
use resocks.Address.{HostPort, parse}
use resocks.Base.{
  ℕ, ◌≤◌, ◌≡◌, refl, inl, inr, Bool, true, false, not, ◌&&◌, ◌||◌, none, some, length, ltb, leb,
  if◌then◌else◌, Option-cases, arith,
}
use resocks.Rust.Net.{is_ipv6}
use resocks.Rust.Number.{parse_unsigned, parse_u16, parse_unsigned-limit, u16_max}
use resocks.Rust.Text.{Bytes, all, is_ascii_digit, is_empty, strip_prefix, split_once, rsplit_once}
use resocks.Server.StrictHttp.{
  Reason, Verdict, accepted, bad, bad_port, not_ipv6, no_port, check_port, check_target,
}

pub accepted_only_if :
    (b : Bool) (reason : Reason) (v : Verdict)
    → (if b then bad reason else v) ≡ accepted
    → (b ≡ false) × (v ≡ accepted)
accepted_only_if true reason v e = cc
accepted_only_if false reason v e = (refl, e)

-- A port that a `u16` reads, and that is not 0.
ReadsPort : Bytes → Type 0
ReadsPort port = (n : ℕ) × (parse_u16 port ≡ some n) × (1 ≤ n) × (n ≤ u16_max)

abbrev bad_digits : Bytes → Bool
bad_digits port = is_empty port || ltb 5 (length port) || not (all is_ascii_digit port)

check_port-ReadsPort : (port : Bytes) → check_port port ≡ accepted → ReadsPort port
unfolding check_port ReadsPort
check_port-ReadsPort port e = elim (Option-cases (parse_unsigned 4294967295 port)) [
  | inl absent ↦
      cc ((accepted_only_if (bad_digits port) bad_port (bad bad_port) (rw absent at e)).1)
  | inr (n, read) ↦
      let (_, e') =
        accepted_only_if (bad_digits port) bad_port
          (if not (leb 1 n && leb n 65535) then bad bad_port else accepted) (rw read at e) in
      (
        n,
        parse_unsigned-limit 4294967295 u16_max n port read (ground arith),
        ground arith,
        ground arith,
      )
]

-- The target is an authority that `HostPort::parse` accepts, too, with a port other than 0.
abbrev pub IsAuthority : Bytes → Type 0
IsAuthority target = (hp : HostPort) × (parse target ≡ some hp) × (1 ≤ hp.port)

bracketed-IsAuthority :
    (target rest : Bytes)
    → strip_prefix b'[' target ≡ some rest
    → check_target target ≡ accepted
    → IsAuthority target
unfolding check_target ReadsPort
bracketed-IsAuthority target rest s e =
    let e0 = rw (s, check_target) at e in
    elim (Option-cases (split_once b']' rest)) [
      | inl open_bracket ↦ cc (rw open_bracket at e0)
      | inr ((inside, after), parted) ↦
          let e1 = rw parted at e0 in
          elim (Option-cases (strip_prefix b':' after)) [
            | inl missing ↦ cc (
                (accepted_only_if (not (is_ipv6 inside)) not_ipv6 (bad no_port)
                  (rw missing at e1)).1)
            | inr (port, found) ↦
                let (v6, e2) = accepted_only_if _ _ _ (rw found at e1) in
                let (n, read, pos, _) = check_port-ReadsPort port e2 in
                (
                  record { host = inside; port = n },
                  parse-of_bracketed target rest inside after port n s parted (ground arith) found
                      read,
                  pos,
                )
          ]
    ]

bare-IsAuthority :
    (target : Bytes)
    → strip_prefix b'[' target ≡ none
    → check_target target ≡ accepted
    → IsAuthority target
unfolding check_target ReadsPort
bare-IsAuthority target s e =
    let e0 = rw (s, check_target) at e in
    elim (Option-cases (rsplit_once b':' target)) [
      | inl no_colon ↦ cc (rw no_colon at e0)
      | inr ((host, port), parted) ↦
          let (nonempty, e1) = accepted_only_if _ _ _ (rw parted at e0) in
          let (plain, e2) = accepted_only_if _ _ _ e1 in
          let (_, e3) = accepted_only_if _ _ _ e2 in
          let (n, read, pos, _) = check_port-ReadsPort port e3 in
          (
            record { host = host; port = n },
            parse-of_bare target host port n s parted nonempty plain read,
            pos,
          )
    ]

pub check_target-IsAuthority :
    (target : Bytes) → check_target target ≡ accepted → IsAuthority target
check_target-IsAuthority target e = elim (Option-cases (strip_prefix b'[' target)) [
  | inl bare ↦ bare-IsAuthority target bare e
  | inr (rest, bracketed) ↦ bracketed-IsAuthority target rest bracketed e
]
