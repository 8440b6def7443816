-- ===== src/Server/Http/Accept.antt =====
-- server/mod.rs, `accept`: nobody is let in unasked, on either protocol.
use resocks.Base.{
  ℕ, ◌≡◌, ◌∙◌, ap, inl, inr, ◌⊎◌, Bool, true, Option, none, some, List, [], ◌∷◌, ◌==◌,
  if◌then◌else◌,
}
use resocks.Rust.Text.{Bytes, is_ascii_alphabetic, is_empty}
use resocks.Server.Http.Authenticated.{Served, http_request-Served}
use resocks.Server.Http.Header.{read-Post}
use resocks.Server.Http.{http_request, accept, first_byte}
use resocks.Server.Socks.Authenticated.{Anonymous, Verified, socks-Admitted}
use resocks.Server.Socks.Authenticated
use resocks.Server.Socks.{ServerOptions, IncomingRequest, socks}
use resocks.Server.Wire.Post.{Post, if-Post, then-Post, map-Post, unless-Post}
use resocks.Server.Wire.{Credentials, Event, wrote, asked, Wire, ok, Cmd, phase, read}

-- The credentials that the closure was asked about, the last first.
abbrev pub asked_of : List Event → List Credentials
asked_of [] = []
asked_of (wrote s ∷ log) = asked_of log
asked_of (asked c ∷ log) = c ∷ asked_of log

phase-Post :
    {A : Type 0} (Q : A → Wire → Type 0) (m : Cmd A) (w : Wire) → Post Q (m w) → Post Q (phase m w)
unfolding phase
phase-Post Q m w h = unless-Post Q _ _ w (m w) λ _. h

module _ (o : ServerOptions) (verify : Credentials → Bool) (decode64 : Bytes → Option Bytes) where
  abbrev pub LetIn : Wire → IncomingRequest → Wire → Type 0
  LetIn w r w' =
      ((o.anonymous ≡ true)
        × (r.username ≡ none)
        × (r.credentials ≡ none)
        × (asked_of w'.log ≡ asked_of w.log))
      ⊎ ((c : Credentials) × (o.password ≡ true)
          × (verify c ≡ true)
          × (r.username ≡ some c.username)
          × (r.credentials ≡ (if o.retain_credentials then some c else none))
          × (asked_of w'.log ≡ c ∷ asked_of w.log))

  socks-LetIn :
      (w w1 : Wire) (r : IncomingRequest) (w' : Wire)
      → w1.log ≡ w.log
      → Authenticated.Admitted o verify w1 r w'
      → LetIn w r w'
  socks-LetIn w w1 r w' e (inl (open_access, user, kept, log)) =
      inl (open_access, user, kept, ap asked_of log ∙ ap asked_of e)
  socks-LetIn w w1 r w' e (inr (c, enabled, granted, user, kept, log)) =
      inr (c, enabled, granted, user, kept, ap asked_of log ∙ ap (λ l. c ∷ asked_of l) e)

  http-LetIn :
      (first : ℕ) (w w1 : Wire) (r : IncomingRequest) (w' : Wire)
      → w1.log ≡ w.log
      → Served o verify decode64 first w1 r w'
      → LetIn w r w'
  http-LetIn first w w1 r w' e s = go s.request.admission
    where
      go :
          (((o.anonymous ≡ true)
              × (r.username ≡ none)
              × (r.credentials ≡ none)
              × (w'.log ≡ s.before.log))
            ⊎ ((c : Credentials) × (o.password ≡ true)
                × (verify c ≡ true)
                × (r.username ≡ some c.username)
                × (r.credentials ≡ (if o.retain_credentials then some c else none))
                × (w'.log ≡ asked c ∷ s.before.log)))
          → LetIn w r w'
      go (inl (open_access, user, kept, log)) =
          inl (open_access, user, kept, ap asked_of (log ∙ s.quiet ∙ e))
      go (inr (c, enabled, granted, user, kept, log)) = inr (
        c,
        enabled,
        granted,
        user,
        kept,
        ap asked_of log ∙ ap (λ l. c ∷ asked_of l) (s.quiet ∙ e),
      )

  first_byte-Post :
      (Q : ℕ → Wire → Type 0) (w : Wire)
      → ((first : ℕ) (w' : Wire) → w'.log ≡ w.log → Q first w')
      → Post Q (first_byte w)
  first_byte-Post Q w h =
      then-Post Q (read 1 w) _
        (read-Post _ 1 w λ s w1 log _. if-Post Q (is_empty s) _ _ w1 (λ _. tt) λ _. h _ w1 log)

  accept-LetIn : (w : Wire) → Post (LetIn w) (accept o verify decode64 w)
  unfolding accept
  accept-LetIn w = then-Post (LetIn w) (phase first_byte w) _ (
      phase-Post _ first_byte w (
        first_byte-Post _ w λ first w1 log.
          if-Post (LetIn w) (first == 5) _ _ w1
            (λ _. phase-Post (LetIn w) (socks o verify) w1 (
              map-Post (Authenticated.Admitted o verify w1) (LetIn w) (socks o verify w1)
                (λ r w2 a. socks-LetIn w w1 r w2 log a) (socks-Admitted o verify w1)))
            λ _.
              if-Post (LetIn w) (is_ascii_alphabetic first) _ _ w1
                (λ _. phase-Post (LetIn w) (http_request o verify decode64 first) w1 (
                  map-Post (Served o verify decode64 first w1) (LetIn w)
                    (http_request o verify decode64 first w1)
                    (λ r w2 s. http-LetIn first w w1 r w2 log s)
                    (http_request-Served o verify decode64 first w1)))
                λ _. tt))

  -- On either protocol, and wherever the deadline falls, a request is only accepted in one of two
  -- ways. Either anonymous access is allowed, the closure was not asked, and the request names no
  -- user and keeps no credentials; or password access is allowed, the closure was asked once and
  -- granted the credentials, and the request names their user and keeps them exactly when they are
  -- to be retained.
  pub accept-authenticates :
      (w w' : Wire) (r : IncomingRequest) → accept o verify decode64 w ≡ ok r w' → LetIn w r w'
  accept-authenticates w w' r e = rw e at (accept-LetIn w)
