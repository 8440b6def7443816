-- ===== src/Server/StrictHttp/Counts.antt =====
-- strict_http.rs: what the loop over the header lines counts.
use resocks.Base.{
  ℕ, suc, ◌+◌, ◌≡◌, refl, inl, inr, Bool, true, false, ◌||◌, none, some, List, [], ◌∷◌, map,
  if◌then◌else◌, Bool-cases, Option-cases, arith,
}
use resocks.Rust.Text.{
  Bytes, to_ascii_lowercase, codes, bytes_eq, bytes_eq_sound, split_once, starts_with_byte,
}
use resocks.Server.StrictHttp.{
  Checked, fine, broken, Headers, is_named, count, field_error, check_line, check_lines,
}

-- The header line is of this name, which stands in front of its first colon.
abbrev pub is_header : Bytes → Bytes → Bool
is_header text line = elim (split_once b':' line) [
  | none ↦ false
  | some (name, _) ↦ is_named text name
]

pub occurrences : Bytes → List Bytes → ℕ
occurrences text [] = 0
occurrences text (line ∷ lines) =
    let rest = occurrences text lines in if is_header text line then suc rest else rest

-- Both counters, after so many lines of each name.
unfoldable pub Counted : Headers → Headers → ℕ → ℕ → Type 0
Counted h h' hosts auths =
    (h'.host_count ≡ h.host_count + hosts) × (h'.proxy_auth_count ≡ h.proxy_auth_count + auths)

abbrev one_if : Bool → ℕ
one_if true = 1
one_if false = 0

host_is_not_auth :
    (name : Bytes)
    → is_named (codes "host") name ≡ true
    → is_named (codes "proxy-authorization") name ≡ false
unfolding is_named bytes_eq
host_is_not_auth name h =
    let e = bytes_eq_sound (map to_ascii_lowercase name) (codes "host") h in rw e refl

count-Counted :
    (h : Headers) (name value : Bytes)
    → Counted h
        (count h name value)
        (one_if (is_named (codes "host") name))
        (one_if (is_named (codes "proxy-authorization") name))
unfolding count Counted
count-Counted h name value = elim (Bool-cases (is_named (codes "host") name)) [
  | inl host ↦ rw (host, host_is_not_auth name host) (omega arith, omega arith)
  | inr other ↦ elim (Bool-cases (is_named (codes "proxy-authorization") name)) [
    | inl auth ↦ rw (other, auth) (omega arith, omega arith)
    | inr neither ↦ rw (other, neither) (omega arith, omega arith)
  ]
]

-- What the checked lines add to both counters.
unfoldable pub Adds : Headers → ℕ → ℕ → Checked → Type 0
unfolding Counted
Adds h hosts auths (fine h') = Counted h h' hosts auths
Adds h hosts auths (broken reason) = Unit

Adds-append :
    (h h1 : Headers) (a b x y : ℕ) (c : Checked)
    → Counted h h1 a b
    → Adds h1 x y c
    → Adds h (a + x) (b + y) c
unfolding Adds Counted
Adds-append h h1 a b x y (broken reason) k t = tt
Adds-append h h1 a b x y (fine h2) (k, l) (m, n) = (omega arith, omega arith)

is_header-parted :
    (text line name value : Bytes)
    → split_once b':' line ≡ some (name, value)
    → is_header text line ≡ is_named text name
is_header-parted text line name value e = rw (e, is_header) refl

check_line-Adds :
    (h : Headers) (line : Bytes)
    → Adds h
        (one_if (is_header (codes "host") line))
        (one_if (is_header (codes "proxy-authorization") line))
        (check_line h line)
unfolding check_line Adds
check_line-Adds h line =
    elim (Bool-cases (starts_with_byte b' ' line || starts_with_byte b'\t' line)) [
      | inl folded ↦ rw folded tt
      | inr plain ↦ elim (Option-cases (split_once b':' line)) [
        | inl absent ↦ rw (plain, absent, check_line) tt
        | inr ((name, value), parted) ↦
            rw
              (
                is_header-parted (codes "host") line name value parted,
                is_header-parted (codes "proxy-authorization") line name value parted,
              )
              (elim (Option-cases (field_error name value)) [
                | inr (reason, found) ↦ rw (plain, parted, check_line) (rw found tt)
                | inl good ↦ rw (plain, parted, check_line) (rw good (count-Counted h name value))
              ])
      ]
    ]

occurrences-cons :
    (text line : Bytes) (lines : List Bytes)
    → occurrences text (line ∷ lines) ≡ one_if (is_header text line) + occurrences text lines
unfolding occurrences
occurrences-cons text line lines = elim (Bool-cases (is_header text line)) [
  | inl yes_it_is ↦ rw yes_it_is (omega arith)
  | inr other ↦ rw other (omega arith)
]

pub check_lines-Adds :
    (h : Headers) (lines : List Bytes)
    → Adds h
        (occurrences (codes "host") lines)
        (occurrences (codes "proxy-authorization") lines)
        (check_lines h lines)
unfolding check_lines Adds
check_lines-Adds h [] = unfold occurrences in unfold Counted in (omega arith, omega arith)
check_lines-Adds h (line ∷ lines) =
    rw
      (
        occurrences-cons (codes "host") line lines,
        occurrences-cons (codes "proxy-authorization") line lines,
      )
      (step (check_line h line) (λ h1. check_lines-Adds h1 lines) (check_line-Adds h line))
  where
    step :
        (c : Checked)
        → ((h1 : Headers)
            → Adds h1
                (occurrences (codes "host") lines)
                (occurrences (codes "proxy-authorization") lines)
                (check_lines h1 lines))
        → Adds h
            (one_if (is_header (codes "host") line))
            (one_if (is_header (codes "proxy-authorization") line))
            c
        → Adds h
            (one_if (is_header (codes "host") line) + occurrences (codes "host") lines)
            (one_if (is_header (codes "proxy-authorization") line)
              + occurrences (codes "proxy-authorization") lines)
            (elim c as (λ _. Checked) [
              | broken reason ↦ broken reason
              | fine h' ↦ check_lines h' lines
            ])
    step (broken reason) later t = tt
    step (fine h1) later t = Adds-append h h1 _ _ _ _ (check_lines h1 lines) t (later h1)
