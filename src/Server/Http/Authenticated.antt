-- ===== src/Server/Http/Authenticated.antt =====
-- server/mod.rs, `http` and `accept`: what an accepted request has written, asked and read.
use mathlib.Core.List.{append_assoc}
use resocks.Address.{is_some_host_port}
use resocks.Address
use resocks.Base.{
  ℕ, ◌+◌, ◌-◌, ◌≡◌, refl, ◌∙◌, ap, sym, inl, inr, ◌⊎◌, Bool, true, not, Option, none, some, List,
  [], ◌∷◌, ◌++◌, take, drop, length, ◌≤◌, ◌==◌, if◌then◌else◌, Bool-cases, Option-cases, arith,
}
use resocks.Rust.Text.{Bytes}
use resocks.Server.Http.Delimiter.{find_end-split, find_end-keep, find_end-le, drop-front}
use resocks.Server.Http.Header.{Found, read_header-Post, http_fail-Post}
use resocks.Rust.Utf8.{is_utf8}
use resocks.Server.StrictHttp.{validate}
use resocks.Server.Http.{
  RequestLine, utf8_credentials, decode_value, authorize, line_error, split_line, request_error,
  strict_error, or_status, incoming, find_auth, respond, read_header, byte_lines, first_line,
  other_lines, http_request, delimiter, find_end,
}
use resocks.Server.Socks.{ServerOptions, IncomingRequest, http}
use resocks.Server.Wire.Post.{Post, if-Post, then-Post, map-Post, unless-Post}
use resocks.Server.Wire.{Credentials, asked, Wire, ok, authenticate, authentication, protocol}

or_status-none : (a b : Option ℕ) → or_status a b ≡ none → b ≡ none
or_status-none none b e = e
or_status-none (some status) b e = cc

line_error-authority :
    (r : RequestLine) → line_error r ≡ none → is_some_host_port (Address.parse r.target) ≡ true
unfolding line_error
line_error-authority r e = ground arith

module _ (o : ServerOptions) (verify : Credentials → Bool) where
  -- Who is let in, and what was asked for it.
  abbrev Allowed : Wire → Option Credentials → Wire → Type 0
  Allowed w none w' = (o.anonymous ≡ true) × (w'.log ≡ w.log) × (w'.input ≡ w.input)
  Allowed w (some c) w' =
      (o.password ≡ true) × (verify c ≡ true) × (w'.log ≡ asked c ∷ w.log) × (w'.input ≡ w.input)

  authenticate-Asked :
      (Q : Bool → Wire → Type 0) (c : Credentials) (w : Wire)
      → ((w' : Wire) → w'.log ≡ asked c ∷ w.log → w'.input ≡ w.input → Q (verify c) w')
      → Post Q (authenticate verify c w)
  unfolding authenticate
  authenticate-Asked Q c w h = unless-Post Q (w.polls == 0) w.cut _ _ λ _. h _ refl refl

  module _ (decode64 : Bytes → Option Bytes) where
    authorize-Allowed :
        (value : Option Bytes) (w : Wire) → Post (Allowed w) (authorize o verify decode64 value w)
    unfolding authorize
    authorize-Allowed none w =
        if-Post (Allowed w) (not o.anonymous) _ _ w
          (λ _. http_fail-Post (Allowed w) 407 authentication w)
          λ open_access. (ground arith, refl, refl)
    authorize-Allowed (some value) w = elim (Option-cases (decode_value decode64 value)) [
      | inl broken ↦ rw (broken, authorize) (http_fail-Post (Allowed w) 407 authentication w)
      | inr ((user, password), e) ↦
          let c = utf8_credentials user password in
          rw (e, authorize)
            (if-Post (Allowed w) (not o.password) _ _ w
              (λ _. http_fail-Post (Allowed w) 407 authentication w)
              λ enabled. then-Post (Allowed w) (authenticate verify c w) _ (
                authenticate-Asked _ c w λ w1 log input.
                  if-Post (Allowed w) (not (verify c)) _ _ w1
                    (λ _. http_fail-Post (Allowed w) 407 authentication w1)
                    λ granted. (ground arith, ground arith, log, input)))
    ]

    -- The request is that of somebody let in, for a target that is an authority.
    pub record Admitted (w : Wire) (pipeline : Bytes) (r : IncomingRequest) (w' : Wire)
        : Type 0 where
      pub of_http : r.protocol ≡ http
      pub authority : is_some_host_port (Address.parse r.target) ≡ true
      pub admission :
          ((o.anonymous ≡ true) × (r.username ≡ none) × (r.credentials ≡ none) × (w'.log ≡ w.log))
          ⊎ ((c : Credentials) × (o.password ≡ true)
              × (verify c ≡ true)
              × (r.username ≡ some c.username)
              × (r.credentials ≡ (if o.retain_credentials then some c else none))
              × (w'.log ≡ asked c ∷ w.log))
      pub over_read : r.pipeline ≡ pipeline
      pub input_kept : w'.input ≡ w.input

    request_error-authority :
        (line : Bytes) (headers : List Bytes)
        → request_error o line headers ≡ none
        → is_some_host_port (Address.parse (split_line line).target) ≡ true
    unfolding request_error
    request_error-authority line headers e = elim (Bool-cases (not (is_utf8 line))) [
      | inl no_text ↦ cc (rw (no_text, request_error) at e)
      | inr text ↦ line_error-authority (split_line line) (
          or_status-none (if o.strict_http then strict_error (validate line headers) else none) _
            (rw (text, request_error) at e))
    ]

    same_branches : (a : Option Credentials) → (if o.retain_credentials then a else a) ≡ a
    same_branches a = elim (Bool-cases o.retain_credentials) [
      | inl keep ↦ rw keep refl
      | inr leave ↦ rw leave refl
    ]

    respond-Admitted :
        (line : Bytes) (headers : List Bytes) (pipeline : Bytes) (w : Wire)
        → Post (Admitted w pipeline) (respond o verify decode64 line headers pipeline w)
    unfolding respond
    respond-Admitted line headers pipeline w = elim (Option-cases (request_error o line headers)) [
      | inr (status, bad_request) ↦
          rw (bad_request, respond) (http_fail-Post (Admitted w pipeline) status protocol w)
      | inl passes ↦
          rw (passes, respond)
            (then-Post (Admitted w pipeline) (authorize o verify decode64 (find_auth headers) w) _ (
              map-Post (Allowed w) _ (authorize o verify decode64 (find_auth headers) w)
                (λ verified w1 a.
                  finish verified w1 a (request_error-authority line headers passes))
                (authorize-Allowed (find_auth headers) w)))
    ]
      where
        finish :
            (verified : Option Credentials) (w1 : Wire)
            → Allowed w verified w1
            → is_some_host_port (Address.parse (split_line line).target) ≡ true
            → Admitted w pipeline (incoming o verified (split_line line).target pipeline) w1
        finish none w1 (open_access, log, input) t = record {
          of_http = refl;
          authority = t;
          admission = inl (open_access, refl, same_branches none, log);
          over_read = refl;
          input_kept = input;
        }
        finish (some c) w1 (enabled, granted, log, input) t = record {
          of_http = refl;
          authority = t;
          admission = inr (c, enabled, granted, refl, refl, log);
          over_read = refl;
          input_kept = input;
        }

    -- The header ends with the first delimiter of all the bytes that the client sends, and those
    -- behind it are read exactly once: they are the request's pipeline and what is still to come.
    pub record Served (first : ℕ) (w : Wire) (r : IncomingRequest) (w' : Wire) : Type 0 where
      pub front : Bytes
      pub read_once : front ++ (delimiter ++ (r.pipeline ++ w'.input)) ≡ first ∷ w.input
      pub first_delimiter :
          (a b : Bytes) → a ++ (delimiter ++ b) ≡ first ∷ w.input → length front ≤ length a
      pub before : Wire
      pub quiet : before.log ≡ w.log
      pub request : Admitted before r.pipeline r w'

    pub http_request-Served :
        (first : ℕ) (w : Wire) → Post (Served first w) (http_request o verify decode64 first w)
    unfolding http_request
    http_request-Served first w = then-Post (Served first w) (read_header (first ∷ []) w) _ (
        map-Post (Found (first ∷ w.input) w.log) _ (read_header (first ∷ []) w)
          (λ (end, buf) w1 found.
            let lines = byte_lines [] (take (end - 4) buf) in
            map-Post (Admitted w1 (drop end buf)) (Served first w)
              (respond o verify decode64 (first_line lines) (other_lines lines) (drop end buf) w1)
              (λ r w2 a. served end buf w1 r w2 found a)
              (respond-Admitted (first_line lines) (other_lines lines) (drop end buf) w1))
          (read_header-Post first w))
      where
        served :
            (end : ℕ) (buf : Bytes) (w1 : Wire) (r : IncomingRequest) (w2 : Wire)
            → Found (first ∷ w.input) w.log (end, buf) w1
            → Admitted w1 (drop end buf) r w2
            → Served first w r w2
        served end buf w1 r w2 found a =
            let (front, rest, at_pos, split) = find_end-split buf found.pos found.first_delimiter in
            let behind : drop end buf ≡ rest =
              ap (λ n. drop n buf) (found.end_behind ∙ ap (λ n. n + 4) (sym at_pos))
              ∙ ap (λ s. drop (length front + 4) s) split
              ∙ drop-front front rest in
            let whole : front ++ (delimiter ++ (rest ++ w1.input)) ≡ first ∷ w.input =
              sym (append_assoc front (delimiter ++ rest) w1.input)
              ∙ ap (λ s. s ++ w1.input) (sym split)
              ∙ found.all_bytes in
            record {
              front = front;
              read_once = rw (a.over_read, a.input_kept, behind) whole;
              first_delimiter = λ x y e.
                  let kept = find_end-keep buf w1.input found.pos found.first_delimiter in
                  let here = ap find_end (e ∙ sym found.all_bytes) ∙ kept in
                  omega (arith, find_end-le x y found.pos here, at_pos);
              before = w1;
              quiet = found.quiet;
              request = record {
                of_http = a.of_http;
                authority = a.authority;
                admission = a.admission;
                over_read = refl;
                input_kept = a.input_kept;
              };
            }

    -- A CONNECT request that is accepted: its target is an authority; its user is let in as the
    -- options and the closure allow, and nothing has been written; and the bytes that the client
    -- sends are those before their first empty line, that line's delimiter, then the request's
    -- pipeline, then what is still to come: none behind the header is lost and none is read twice.
    pub http_request-serves :
        (first : ℕ) (w w' : Wire) (r : IncomingRequest)
        → http_request o verify decode64 first w ≡ ok r w'
        → Served first w r w'
    http_request-serves first w w' r e = rw e at (http_request-Served first w)
