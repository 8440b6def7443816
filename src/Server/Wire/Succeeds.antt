-- ===== src/Server/Wire/Succeeds.antt =====
-- server/mod.rs: commands that succeed, when the bytes are there and the awaits are left.
use resocks.Base.{
  suc, ◌<◌, ◌≡◌, refl, ◌∙◌, ap, Bool, true, false, [], ◌∷◌, ◌++◌, length, length-append, take, drop,
  ltb, ◌==◌, if◌then◌else◌, arith,
}
use resocks.Rust.Text.{Bytes}
use resocks.Server.Wire.{
  Credentials, Wire, Run, ok, err, Cmd, and_then, poll, read_exact, write_all, authenticate, send,
  flush,
}

module _ {A : Type 0} (Q : A → Wire → Type 0) where
  abbrev pub Succeeds : Run A → Type 0
  Succeeds (ok a w) = Q a w
  Succeeds (err e w) = ⊥

  pub skip-Succeeds :
      (b : Bool) (c d : Cmd A) (w : Wire)
      → b ≡ false
      → Succeeds (d w)
      → Succeeds ((if b then c else d) w)
  skip-Succeeds true c d w e h = cc
  skip-Succeeds false c d w e h = h

module _ {A B : Type 0} (Q : B → Wire → Type 0) where
  pub and_then-Succeeds :
      (r : Run A) (k : A → Cmd B)
      → Succeeds (λ a w. Succeeds Q (k a w)) r
      → Succeeds Q (and_then r k)
  and_then-Succeeds (ok a w) k h = h
  and_then-Succeeds (err e w) k h = absurd h

pub map-Succeeds :
    {A : Type 0} (P Q : A → Wire → Type 0) (r : Run A)
    → ((a : A) (w : Wire) → P a w → Q a w)
    → Succeeds P r
    → Succeeds Q r
map-Succeeds P Q (ok a w) h p = h a w p
map-Succeeds P Q (err e w) h p = absurd p

-- What succeeds with a result gives one.
pub Succeeds-ok :
    {A : Type 0} (Q : A → Wire → Type 0) (r : Run A)
    → Succeeds Q r
    → (a : A) × (w : Wire) × (r ≡ ok a w) × Q a w
Succeeds-ok Q (ok a w) h = (a, w, refl, h)
Succeeds-ok Q (err e w) h = absurd h

take-exact : (s rest : Bytes) → take (length s) (s ++ rest) ≡ s
take-exact [] rest = refl
take-exact (x ∷ s) rest = ap (◌∷◌ x) (take-exact s rest)

drop-exact : (s rest : Bytes) → drop (length s) (s ++ rest) ≡ rest
drop-exact [] rest = refl
drop-exact (x ∷ s) rest = drop-exact s rest

-- One await fewer, and these bytes still to come.
abbrev pub Leaves : Wire → Bytes → Wire → Type 0
Leaves w rest w' = (w'.input ≡ rest) × (suc w'.polls ≡ w.polls)

pub read_exact-Succeeds :
    (Q : Bytes → Wire → Type 0) (s rest : Bytes) (w : Wire)
    → w.input ≡ s ++ rest
    → 0 < w.polls
    → ((w' : Wire) → Leaves w rest w' → Q s w')
    → Succeeds Q (read_exact (length s) w)
unfolding read_exact
read_exact-Succeeds Q s rest w e p h =
    let left : (w.polls == 0) ≡ false = ground arith in
    let enough : ltb (length w.input) (length s) ≡ false =
      rw e (ground (arith, length-append s rest)) in
    let taken : take (length s) w.input ≡ s = ap (take (length s)) e ∙ take-exact s rest in
    rw (left, enough, taken) (h _ (ap (drop (length s)) e ∙ drop-exact s rest, omega arith))

pub poll-Succeeds :
    (Q : Unit → Wire → Type 0) (w : Wire)
    → 0 < w.polls
    → ((w' : Wire) → Leaves w w.input w' → Q tt w')
    → Succeeds Q (poll w)
unfolding poll
poll-Succeeds Q w p h =
    let left : (w.polls == 0) ≡ false = ground arith in rw left (h _ (refl, omega arith))

pub write_all-Succeeds :
    (Q : Unit → Wire → Type 0) (s : Bytes) (w : Wire)
    → 0 < w.polls
    → ((w' : Wire) → Leaves w w.input w' → Q tt w')
    → Succeeds Q (write_all s w)
unfolding write_all
write_all-Succeeds Q s w p h =
    let left : (w.polls == 0) ≡ false = ground arith in rw left (h _ (refl, omega arith))

pub authenticate-Succeeds :
    (Q : Bool → Wire → Type 0) (verify : Credentials → Bool) (c : Credentials) (w : Wire)
    → 0 < w.polls
    → ((w' : Wire) → Leaves w w.input w' → Q (verify c) w')
    → Succeeds Q (authenticate verify c w)
unfolding authenticate
authenticate-Succeeds Q verify c w p h =
    let left : (w.polls == 0) ≡ false = ground arith in rw left (h _ (refl, omega arith))

pub send-Succeeds :
    (Q : Unit → Wire → Type 0) (s : Bytes) (w : Wire)
    → 1 < w.polls
    → ((w' : Wire) → w'.input ≡ w.input → suc (suc w'.polls) ≡ w.polls → Q tt w')
    → Succeeds Q (send s w)
send-Succeeds Q s w p h =
    and_then-Succeeds Q (write_all s w) (λ _. flush)
      (write_all-Succeeds _ s w (omega arith)
        λ w1 (e1, p1). poll-Succeeds Q w1 (omega arith) λ w2 (e2, p2). h w2 (e2 ∙ e1) (omega arith))
