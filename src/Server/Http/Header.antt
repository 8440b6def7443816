-- ===== src/Server/Http/Header.antt =====
-- server/mod.rs: the end of the header, found as the bytes arrive.
use mathlib.Core.List.{append_assoc}
use resocks.Base.{
  ℕ, zero, suc, ◌+◌, ◌-◌, ◌≤◌, ◌≡◌, refl, ◌∙◌, ap, sym, inl, inr, false, Option, none, some, List,
  [], ◌∷◌, ◌++◌, length, drop, take-append-drop, ltb, ◌==◌, Bool-cases, Option-cases, arith,
}
use resocks.Rust.Text.{Bytes, starts_with, is_empty}
use resocks.Server.Http.Delimiter.{find_end-cons, same_start}
use resocks.Server.Http.{
  delimiter, find_end, header_loop, read_header, max_header_bytes, plus_one, http_fail,
}
use resocks.Server.Wire.Post.{Post, then-Post, if-Post, unless-Post, refuse-Post}
use resocks.Server.Wire.{Event, Wire, ok, read, ServerError, header_too_large}

abbrev shifted : ℕ → Option ℕ → Option ℕ
shifted n none = none
shifted n (some pos) = some (n + pos)

shifted-suc : (n : ℕ) (o : Option ℕ) → plus_one (shifted n o) ≡ shifted (suc n) o
shifted-suc n none = refl
shifted-suc n (some pos) = ap some (omega arith)

shifted-zero : (o : Option ℕ) → shifted 0 o ≡ o
shifted-zero none = refl
shifted-zero (some pos) = ap some (omega arith)

plus_one-none : (o : Option ℕ) → plus_one o ≡ none → o ≡ none
plus_one-none none e = refl
plus_one-none (some n) e = cc

find_end-none :
    (x : ℕ) (xs : Bytes)
    → find_end (x ∷ xs) ≡ none
    → (starts_with delimiter (x ∷ xs) ≡ false) × (find_end xs ≡ none)
unfolding find_end
find_end-none x xs h = elim (Bool-cases (starts_with delimiter (x ∷ xs))) [
  | inl here ↦ cc (rw here at h)
  | inr later ↦ (later, plus_one-none (find_end xs) (rw later at h))
]

-- A buffer that holds no delimiter needs to be searched from its last three bytes on only, when
-- more bytes arrive.
find_end-append :
    (buf s : Bytes)
    → find_end buf ≡ none
    → find_end (buf ++ s) ≡ shifted (length buf - 3) (find_end (drop (length buf - 3) (buf ++ s)))
find_end-append (a ∷ b ∷ c ∷ d ∷ buf) s h =
    let (absent, rest) = find_end-none a (b ∷ c ∷ d ∷ buf) h in
    let n = length buf in
    let left : suc (suc (suc (suc n))) - 3 ≡ suc (suc (suc (suc n)) - 3) = omega arith in
    rw left (
      find_end-cons a (b ∷ c ∷ d ∷ (buf ++ s)) (same_start a b c d (buf ++ s) buf ∙ absent)
      ∙ ap plus_one (find_end-append (b ∷ c ∷ d ∷ buf) s rest)
      ∙ shifted-suc (suc (suc (suc n)) - 3)
          (find_end (drop (suc (suc (suc n)) - 3) (b ∷ c ∷ d ∷ (buf ++ s)))))
find_end-append [] s h = sym (shifted-zero (find_end s))
find_end-append (a ∷ []) s h = sym (shifted-zero (find_end (a ∷ s)))
find_end-append (a ∷ b ∷ []) s h = sym (shifted-zero (find_end (a ∷ b ∷ s)))
find_end-append (a ∷ b ∷ c ∷ []) s h = sym (shifted-zero (find_end (a ∷ b ∷ c ∷ s)))

-- What the loop gives: the end of the buffer's first delimiter, within the limit; the buffer and the
-- bytes still to come are all the bytes there were, and nothing was written or asked.
pub record Found (all : Bytes) (log : List Event) (a : ℕ × Bytes) (w : Wire) : Type 0 where
  pub pos : ℕ
  pub first_delimiter : find_end a.1 ≡ some pos
  pub end_behind : a.0 ≡ pos + 4
  pub within_limit : a.0 ≤ max_header_bytes
  pub all_bytes : a.1 ++ w.input ≡ all
  pub quiet : w.log ≡ log

pub read-Post :
    (Q : Bytes → Wire → Type 0) (n : ℕ) (w : Wire)
    → ((s : Bytes) (w' : Wire) → w'.log ≡ w.log → s ++ w'.input ≡ w.input → Q s w')
    → Post Q (read n w)
unfolding read
read-Post Q n w h =
    unless-Post Q (w.polls == 0) w.cut w _ λ _. h _ _ refl (take-append-drop _ w.input)

pub http_fail-Post :
    {A : Type 0} (Q : A → Wire → Type 0) (status : ℕ) (e : ServerError) (w : Wire)
    → Post Q (http_fail status e w)
http_fail-Post Q status e w = refuse-Post Q _ e w

header_loop-Found :
    (polls : ℕ) (buf : Bytes) (w : Wire)
    → find_end buf ≡ none
    → Post (Found (buf ++ w.input) w.log) (header_loop polls buf w)
unfolding header_loop
header_loop-Found zero buf w h = tt
header_loop-Found (suc polls) buf w h =
    let Q = Found (buf ++ w.input) w.log in
    then-Post Q (read 1024 w) _ (
      read-Post _ 1024 w λ s w1 log all.
        if-Post Q (is_empty s) _ _ w1 (λ _. tt)
          λ _.
            let same : (buf ++ s) ++ w1.input ≡ buf ++ w.input =
              append_assoc buf s w1.input ∙ ap (◌++◌ buf) all in
            let searched = find_end-append buf s h in
            elim (Option-cases (find_end (drop (length buf - 3) (buf ++ s)))) [
              | inl absent ↦ rw absent (
                  if-Post Q (ltb max_header_bytes (length (buf ++ s))) _ _ w1
                    (λ _. http_fail-Post Q 431 header_too_large w1)
                    λ _.
                      rw (← same, ← log)
                        (header_loop-Found polls (buf ++ s) w1 (rw absent at searched)))
              | inr (pos, here) ↦ rw here (
                  if-Post Q (ltb max_header_bytes (length buf - 3 + pos + 4)) _ _ w1
                    (λ _. http_fail-Post Q 431 header_too_large w1)
                    λ fits. (record {
                      pos = length buf - 3 + pos;
                      first_delimiter = rw here at searched;
                      end_behind = refl;
                      within_limit = ground arith;
                      all_bytes = same;
                      quiet = log;
                    }))
            ])

no_end : (x : ℕ) → find_end (x ∷ []) ≡ none
unfolding find_end starts_with
no_end x = ground arith

pub read_header-Post :
    (first : ℕ) (w : Wire) → Post (Found (first ∷ w.input) w.log) (read_header (first ∷ []) w)
unfolding read_header
read_header-Post first w = header_loop-Found w.polls (first ∷ []) w (no_end first)

-- However the bytes are cut into reads: if the header is read, it ends with the first delimiter of
-- all the bytes that were read, searched from the start, and is at most 16 KiB long; the bytes read
-- and those still to come are together the bytes that the client sends; and until then nothing is
-- written and nobody asked. The first byte, which was read before, is not a delimiter.
pub read_header-Found :
    (first end : ℕ) (buf : Bytes) (w w' : Wire)
    → read_header (first ∷ []) w ≡ ok (end, buf) w'
    → Found (first ∷ w.input) w.log (end, buf) w'
read_header-Found first end buf w w' e = rw e at (read_header-Post first w)
