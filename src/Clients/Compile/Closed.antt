-- ===== src/Clients/Compile/Closed.antt =====
-- `compile_allowed_clients`: it fails closed.
use resocks.Base.{
  ◌≡◌, refl, sym, subst, inl, inr, Bool, true, false, none, some, List, [], ◌∷◌, ◌++◌, Bool-cases,
  Option-cases, if◌then◌else◌,
}
use resocks.Clients.Compile.{split, element, elements, parse_element, compile_allowed_clients}
use resocks.Clients.{AllowedClients}
use resocks.Rust.Space.{trim}
use resocks.Rust.Text.{Bytes, codes, bytes_eq, is_empty}

-- What an element of a rule must be: `*`, or one that `parse_element` reads.
abbrev pub is_element : Bytes → Bool
is_element elem =
    if is_empty elem
    then false
    else if bytes_eq elem (codes "*")
    then true
    else elim (parse_element elem) [ none ↦ false | some r ↦ true ]

element-refused :
    (raw : Bytes) (c : AllowedClients) → is_element (trim raw) ≡ false → element raw c ≡ none
unfolding element
element-refused raw c bad = elim (Bool-cases (is_empty (trim raw))) [
  | inl blank ↦ rw (blank, element) refl
  | inr some_byte ↦ elim (Bool-cases (bytes_eq (trim raw) (codes "*"))) [
    | inl star ↦ let wrong : true ≡ false = rw (some_byte, star, is_element) at bad in cc
    | inr other ↦ elim (Option-cases (parse_element (trim raw))) [
      | inl unread ↦ rw (some_byte, other, unread, element) refl
      | inr (r, read) ↦
          let wrong : true ≡ false = rw (some_byte, other, read, is_element) at bad in cc
    ]
  ]
]

elements-refused :
    (before : List Bytes) (raw : Bytes) (behind : List Bytes) (c : AllowedClients)
    → is_element (trim raw) ≡ false
    → elements (before ++ raw ∷ behind) c ≡ none
unfolding elements
elements-refused [] raw behind c bad = rw (element-refused raw c bad, elements) refl
elements-refused (p ∷ before) raw behind c bad = elim (Option-cases (element p c)) [
  | inl refused ↦ rw (refused, elements) refl
  | inr (c', good) ↦ rw (good, elements) (elements-refused before raw behind c' bad)
]

-- One element between the commas that is neither `*` nor what `parse_element` reads, white space
-- around it aside, refuses the whole rule, whatever stands before and behind it.
pub compile_allowed_clients_closed :
    (spec : Bytes) (before : List Bytes) (raw : Bytes) (behind : List Bytes)
    → split b',' spec ≡ before ++ raw ∷ behind
    → is_element (trim raw) ≡ false
    → compile_allowed_clients spec ≡ none
unfolding compile_allowed_clients
compile_allowed_clients_closed spec before raw behind cut bad =
    let start : AllowedClients = record { allow_all = false; rules = [] } in
    let refused : elements (split b',' spec) start ≡ none =
      subst (λ ps. elements ps start ≡ none) (sym cut)
        (elements-refused before raw behind start bad) in
    rw (refused, compile_allowed_clients) refl
