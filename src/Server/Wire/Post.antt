-- ===== src/Server/Wire/Post.antt =====
-- server/mod.rs: what holds when a command succeeds.
use resocks.Base.{ℕ, ◌≡◌, refl, ◌∙◌, Bool, true, false, ◌∷◌, length, ltb, ◌==◌, if◌then◌else◌}
use resocks.Rust.Text.{Bytes}
use resocks.Server.Wire.{
  Credentials, ServerError, wrote, asked, Wire, Run, ok, err, Cmd, and_then, poll, read_exact,
  write_all, authenticate, send, fail, flush, ◌>>◌,
}

module _ {A : Type 0} (Q : A → Wire → Type 0) where
  abbrev pub Post : Run A → Type 0
  Post (ok a w) = Q a w
  Post (err e w) = Unit

  pub if-Post :
      (b : Bool) (c d : Cmd A) (w : Wire)
      → (b ≡ true → Post (c w))
      → (b ≡ false → Post (d w))
      → Post ((if b then c else d) w)
  if-Post true c d w h k = h refl
  if-Post false c d w h k = k refl

  pub unless-Post :
      (b : Bool) (e : ServerError) (w' : Wire) (r : Run A)
      → (b ≡ false → Post r)
      → Post (if b then err e w' else r)
  unless-Post true e w' r h = tt
  unless-Post false e w' r h = h refl

module _ {A B : Type 0} (Q : B → Wire → Type 0) where
  pub then-Post :
      (r : Run A) (k : A → Cmd B) → Post (λ a w. Post Q (k a w)) r → Post Q (and_then r k)
  then-Post (ok a w) k h = h
  then-Post (err e w) k h = tt

-- A weaker promise.
pub map-Post :
    {A : Type 0} (P Q : A → Wire → Type 0) (r : Run A)
    → ((a : A) (w : Wire) → P a w → Q a w)
    → Post P r
    → Post Q r
map-Post P Q (ok a w) h p = h a w p
map-Post P Q (err e w) h p = tt

pub read_exact-Post :
    (Q : Bytes → Wire → Type 0) (n : ℕ) (w : Wire)
    → ((s : Bytes) (w' : Wire) → w'.log ≡ w.log → Q s w')
    → Post Q (read_exact n w)
unfolding read_exact
read_exact-Post Q n w h =
    unless-Post Q (w.polls == 0) w.cut w _
      λ _. unless-Post Q (ltb (length w.input) n) _ _ _ λ _. h _ _ refl

pub poll-Post :
    (Q : Unit → Wire → Type 0) (w : Wire)
    → ((w' : Wire) → w'.log ≡ w.log → Q tt w')
    → Post Q (poll w)
unfolding poll
poll-Post Q w h = unless-Post Q (w.polls == 0) w.cut w _ λ _. h _ refl

pub write_all-Post :
    (Q : Unit → Wire → Type 0) (s : Bytes) (w : Wire)
    → ((w' : Wire) → w'.log ≡ wrote s ∷ w.log → Q tt w')
    → Post Q (write_all s w)
unfolding write_all
write_all-Post Q s w h = unless-Post Q (w.polls == 0) w.cut _ _ λ _. h _ refl

pub authenticate-Post :
    (Q : Bool → Wire → Type 0) (verify : Credentials → Bool) (c : Credentials) (w : Wire)
    → ((w' : Wire) → w'.log ≡ asked c ∷ w.log → Q (verify c) w')
    → Post Q (authenticate verify c w)
unfolding authenticate
authenticate-Post Q verify c w h = unless-Post Q (w.polls == 0) w.cut _ _ λ _. h _ refl

pub send-Post :
    (Q : Unit → Wire → Type 0) (s : Bytes) (w : Wire)
    → ((w' : Wire) → w'.log ≡ wrote s ∷ w.log → Q tt w')
    → Post Q (send s w)
send-Post Q s w h =
    then-Post Q (write_all s w) (λ _. flush)
      (write_all-Post _ s w λ w1 e1. poll-Post Q w1 λ w2 e2. h w2 (e2 ∙ e1))

-- A refusal succeeds never.
pub refuse-Post :
    {A : Type 0} (Q : A → Wire → Type 0) (s : Bytes) (e : ServerError) (w : Wire)
    → Post Q ((send s >> fail e) w)
refuse-Post Q s e w = then-Post Q (send s w) (λ _. fail e) (send-Post _ s w λ _ _. tt)
