-- ===== src/Server/Socks/Authenticated.antt =====
-- server/mod.rs, `socks`: what a successful handshake has written and asked.
use resocks.Base.{
  ℕ, ◌≡◌, refl, ◌∙◌, ap, inl, inr, ◌⊎◌, Bool, true, false, not, ◌&&◌, Option, none, some, List, [],
  ◌∷◌, ◌==◌, if◌then◌else◌, Bool-cases, Option-cases, arith, subst,
}
use resocks.Rust.Text.{Bytes, contains}
use resocks.Rust.Utf8
use resocks.Server.Wire.Post.{
  Post, if-Post, then-Post, map-Post, send-Post, refuse-Post, read_exact-Post, authenticate-Post,
}
use resocks.Server.Wire.{
  send, Credentials, Event, wrote, asked, Wire, ok, pure, ◌>>=◌, ◌>>◌, read_exact, read_u8,
  read_u16, at, authenticate, protocol, authentication,
}
use resocks.Server.Socks.{
  ServerOptions, IncomingRequest, auth_failure, choose, decode, credentials_of, verify_fields,
  subnegotiate, failure, bad_domain, read_domain, read_target, request, incoming, socks,
}

-- Nothing is written or asked.
abbrev Quiet : {A : Type 0} → Wire → A → Wire → Type 0
Quiet w a w' = w'.log ≡ w.log

read_u16-Post :
    (Q : ℕ → Wire → Type 0) (w : Wire)
    → ((n : ℕ) (w' : Wire) → w'.log ≡ w.log → Q n w')
    → Post Q (read_u16 w)
read_u16-Post Q w h = then-Post Q (read_exact 2 w) _ (read_exact-Post _ 2 w λ s w1 e1. h _ w1 e1)

read_u8-Post :
    (Q : ℕ → Wire → Type 0) (w : Wire)
    → ((n : ℕ) (w' : Wire) → w'.log ≡ w.log → Q n w')
    → Post Q (read_u8 w)
read_u8-Post Q w h = then-Post Q (read_exact 1 w) _ (read_exact-Post _ 1 w λ s w1 e1. h _ w1 e1)

read_domain-Quiet : (w : Wire) → Post (Quiet w) (read_domain w)
unfolding read_domain
read_domain-Quiet w = then-Post (Quiet w) (read_u8 w) _ (
    read_u8-Post _ w λ len w1 e1. then-Post (Quiet w) (read_exact len w1) _ (
      read_exact-Post _ len w1 λ domain w2 e2. then-Post (Quiet w) (read_u16 w2) _ (
        read_u16-Post _ w2 λ port w3 e3.
          if-Post (Quiet w) (not (Utf8.is_utf8 domain)) _ _ w3 (λ _. tt)
            λ _.
              if-Post (Quiet w) (bad_domain domain port) _ _ w3
                (λ _. refuse-Post (Quiet w) (failure 4) protocol w3) λ _. (e3 ∙ e2 ∙ e1))))

read_target-Quiet : (kind : ℕ) (w : Wire) → Post (Quiet w) (read_target kind w)
unfolding read_target
read_target-Quiet kind w =
    if-Post (Quiet w) (kind == 1) _ _ w
      (λ _. then-Post (Quiet w) (read_exact 4 w) _ (
        read_exact-Post _ 4 w λ ip w1 e1.
          then-Post (Quiet w) (read_u16 w1) _ (read_u16-Post _ w1 λ port w2 e2. (e2 ∙ e1))))
      λ _.
        if-Post (Quiet w) (kind == 4) _ _ w
          (λ _. then-Post (Quiet w) (read_exact 16 w) _ (
            read_exact-Post _ 16 w λ ip w1 e1.
              then-Post (Quiet w) (read_u16 w1) _ (read_u16-Post _ w1 λ port w2 e2. (e2 ∙ e1))))
          λ _.
            if-Post (Quiet w) (kind == 3) _ _ w (λ _. read_domain-Quiet w)
              λ _. refuse-Post (Quiet w) (failure 8) protocol w

request-Quiet : (w : Wire) → Post (Quiet w) (request w)
unfolding request
request-Quiet w = then-Post (Quiet w) (read_exact 4 w) _ (
    read_exact-Post _ 4 w λ header w1 e1.
      if-Post (Quiet w) (not (at header 0 == 5)) _ _ w1 (λ _. tt)
        λ _.
          if-Post (Quiet w) (not (at header 1 == 1)) _ _ w1
            (λ _. refuse-Post (Quiet w) (failure 7) protocol w1)
            λ _.
              map-Post (Quiet w1) (Quiet w) (read_target (at header 3) w1) (λ _ _ e2. (e2 ∙ e1))
                (read_target-Quiet (at header 3) w1))

same_branches : {A : Type 0} (b : Bool) (a : A) → (if b then a else a) ≡ a
same_branches true a = refl
same_branches false a = refl

module _ (o : ServerOptions) (verify : Credentials → Bool) where
  -- The closure was asked about the credentials that are returned, it granted them, and success was
  -- written behind that.
  Granted : List Event → Option Credentials → Wire → Type 0
  Granted log none w' = ⊥
  Granted log (some c) w' = (verify c ≡ true) × (w'.log ≡ wrote (1 ∷ 0 ∷ []) ∷ asked c ∷ log)

  verify_fields-Granted :
      (user password : Bytes) (w : Wire)
      → Post (Granted w.log) (verify_fields o verify user password w)
  unfolding verify_fields Granted
  verify_fields-Granted user password w = elim (Option-cases (decode o user)) [
    | inl no_text ↦
        rw (no_text, verify_fields) (refuse-Post (Granted w.log) auth_failure authentication w)
    | inr (user', e) ↦ elim (Option-cases (decode o password)) [
      | inl no_text ↦
          rw (e, no_text, verify_fields) (refuse-Post (Granted w.log) auth_failure authentication w)
      | inr (password', e') ↦
          let c = credentials_of user' password' in
          rw (e, e', verify_fields)
            (then-Post (Granted w.log) (authenticate verify c w) _ (
              authenticate-Post _ verify c w λ w1 e1.
                if-Post (Granted w.log) (not (verify c)) _ _ w1
                  (λ _. refuse-Post (Granted w.log) auth_failure authentication w1)
                  λ granted. then-Post (Granted w.log) (send (1 ∷ 0 ∷ []) w1) _ (
                    send-Post _ (1 ∷ 0 ∷ []) w1
                      λ w2 e2. (ground arith, e2 ∙ ap (◌∷◌ (wrote (1 ∷ 0 ∷ []))) e1))))
    ]
  ]

  subnegotiate-Granted : (w : Wire) → Post (Granted w.log) (subnegotiate o verify w)
  unfolding subnegotiate
  subnegotiate-Granted w = then-Post (Granted w.log) (read_exact 2 w) _ (
      read_exact-Post _ 2 w λ header w1 e1.
        if-Post (Granted w.log) (not (at header 0 == 1)) _ _ w1 (λ _. tt)
          λ _.
            if-Post (Granted w.log) (at header 1 == 0) _ _ w1
              (λ _. refuse-Post (Granted w.log) auth_failure authentication w1)
              λ _. then-Post (Granted w.log) (read_exact (at header 1) w1) _ (
                read_exact-Post _ (at header 1) w1 λ user w2 e2.
                  then-Post (Granted w.log) (read_u8 w2) _ (
                    read_u8-Post _ w2 λ plen w3 e3.
                      if-Post (Granted w.log) (plen == 0) _ _ w3
                        (λ _. refuse-Post (Granted w.log) auth_failure authentication w3)
                        λ _. then-Post (Granted w.log) (read_exact plen w3) _ (
                          read_exact-Post _ plen w3 λ password w4 e4.
                            subst
                              (λ log. Post (Granted log) (verify_fields o verify user password w4))
                              (e4 ∙ e3 ∙ e2 ∙ e1) (verify_fields-Granted user password w4)))))

  abbrev pub Anonymous : Wire → IncomingRequest → Wire → Type 0
  Anonymous w r w' =
      (o.anonymous ≡ true)
      × (r.username ≡ none)
      × (r.credentials ≡ none)
      × (w'.log ≡ wrote (5 ∷ 0 ∷ []) ∷ w.log)

  abbrev pub Verified : Wire → IncomingRequest → Wire → Type 0
  Verified w r w' =
      (c : Credentials) × (o.password ≡ true)
      × (verify c ≡ true)
      × (r.username ≡ some c.username)
      × (r.credentials ≡ (if o.retain_credentials then some c else none))
      × (w'.log ≡ wrote (1 ∷ 0 ∷ []) ∷ asked c ∷ wrote (5 ∷ 2 ∷ []) ∷ w.log)

  abbrev pub Admitted : Wire → IncomingRequest → Wire → Type 0
  Admitted w r w' = Anonymous w r w' ⊎ Verified w r w'

  choose-cases :
      (methods : Bytes)
      → ((choose o methods ≡ 2) × (o.password ≡ true))
        ⊎ ((choose o methods ≡ 0) × (o.anonymous ≡ true))
        ⊎ (choose o methods ≡ 255)
  unfolding choose
  choose-cases methods = elim (Bool-cases (o.password && contains 2 methods)) [
    | inl secret ↦ inl (rw secret refl, ground arith)
    | inr open_only ↦ elim (Bool-cases (o.anonymous && contains 0 methods)) [
      | inl open_method ↦ inr (inl (rw (open_only, open_method) refl, ground arith))
      | inr neither ↦ inr (inr (rw (open_only, neither) refl))
    ]
  ]

  finish-Post :
      (verified : Option Credentials) (w w1 : Wire)
      → ((target : Bytes) (w' : Wire)
          → w'.log ≡ w1.log
          → Admitted w (incoming o verified target) w')
      → Post (Admitted w) ((request >>= λ target. pure (incoming o verified target)) w1)
  finish-Post verified w w1 h =
      then-Post (Admitted w) (request w1) _
        (map-Post (Quiet w1) _ (request w1) (λ target w2 e. h target w2 e) (request-Quiet w1))

  anonymous-Post :
      (w w2 : Wire)
      → o.anonymous ≡ true
      → w2.log ≡ w.log
      → Post
          (Admitted w)
          ((send (5 ∷ 0 ∷ []) >> (request >>= λ target. pure (incoming o none target))) w2)
  anonymous-Post w w2 h e = then-Post (Admitted w) (send (5 ∷ 0 ∷ []) w2) _ (
      send-Post _ (5 ∷ 0 ∷ []) w2 λ w3 e3. finish-Post none w w3 λ target w4 e4. inl (
        h,
        refl,
        same_branches o.retain_credentials none,
        e4 ∙ e3 ∙ ap (◌∷◌ (wrote (5 ∷ 0 ∷ []))) e,
      ))

  password-Post :
      (w w2 : Wire)
      → o.password ≡ true
      → w2.log ≡ w.log
      → Post (Admitted w) (
          (send (5 ∷ 2 ∷ [])
              >> (subnegotiate o verify >>= λ verified.
                  (request >>= λ target. pure (incoming o verified target))))
            w2)
  unfolding Granted
  password-Post w w2 h e = then-Post (Admitted w) (send (5 ∷ 2 ∷ []) w2) _ (
      send-Post _ (5 ∷ 2 ∷ []) w2 λ w3 e3. then-Post (Admitted w) (subnegotiate o verify w3) _ (
        map-Post (Granted w3.log) _ (subnegotiate o verify w3)
          (λ verified w4 g. granted verified w3 w4 (e3 ∙ ap (◌∷◌ (wrote (5 ∷ 2 ∷ []))) e) g)
          (subnegotiate-Granted w3)))
    where
      granted :
          (verified : Option Credentials) (w3 w4 : Wire)
          → w3.log ≡ wrote (5 ∷ 2 ∷ []) ∷ w.log
          → Granted w3.log verified w4
          → Post (Admitted w) ((request >>= λ target. pure (incoming o verified target)) w4)
      granted none w3 w4 e3 g = absurd g
      granted (some c) w3 w4 e3 (yes_c, e4) = finish-Post (some c) w w4 λ target w5 e5.
          inr (c, h, yes_c, refl, refl, e5 ∙ e4 ∙ ap (λ log. wrote (1 ∷ 0 ∷ []) ∷ asked c ∷ log) e3)

  pub socks-Admitted : (w : Wire) → Post (Admitted w) (socks o verify w)
  unfolding socks
  socks-Admitted w = then-Post (Admitted w) (read_u8 w) _ (
      read_u8-Post _ w λ n w1 e1. then-Post (Admitted w) (read_exact n w1) _ (
        read_exact-Post _ n w1 λ methods w2 e2. elim (choose-cases methods) [
          | inl (two, h) ↦ rw two (password-Post w w2 h (e2 ∙ e1))
          | inr (inl (zero_method, h)) ↦ rw zero_method (anonymous-Post w w2 h (e2 ∙ e1))
          | inr (inr no_method) ↦
              rw no_method (refuse-Post (Admitted w) (5 ∷ 255 ∷ []) authentication w2)
        ]))

  -- A SOCKS5 request is only accepted in one of two ways. Either anonymous access is allowed, the
  -- request names no user and keeps no credentials, and nothing but the method 0 has been written
  -- and nobody asked; or password access is allowed, and after the method 2 was written the closure
  -- was asked once, granted the credentials, and success was written behind that: the request names
  -- their user and keeps them exactly when they are to be retained.
  pub socks-authenticates :
      (w w' : Wire) (r : IncomingRequest)
      → socks o verify w ≡ ok r w'
      → Anonymous w r w' ⊎ Verified w r w'
  socks-authenticates w w' r e = rw e at (socks-Admitted w)
