-- ===== src/Clients/Compile.antt =====
-- crates/resocks5/src/config/allowed_clients.rs: `compile_allowed_clients`, with `none` for each of
-- its errors.
use resocks.Base.{
  ℕ, zero, suc, ◌+◌, ◌-◌, ◌*◌, Bool, true, false, not, ◌&&◌, ◌||◌, Option, none, some, List, [],
  ◌∷◌, ◌++◌, map, length, drop, ltb, leb, ◌==◌, if◌then◌else◌,
}
use resocks.Clients.{
  AllowedClients, Rule, exact, loopback, mask, Mask, octets, groups, IpAddr, v4, v6,
  normalize_mapped,
}
use resocks.Rust.Net.Values.{parse_ip, parse_ipv6}
use resocks.Rust.Net.{to_digit}
use resocks.Rust.Number.{parse_unsigned}
use resocks.Rust.Space.{trim}
use resocks.Rust.Text.{
  Bytes, codes, bytes_eq, contains, is_empty, starts_with_byte, all, is_ascii_digit,
  is_ascii_hexdigit, to_ascii_lowercase,
}
pub mod Closed

abbrev onto_first : ℕ → List Bytes → List Bytes
onto_first c [] = (c ∷ []) ∷ []
onto_first c (p ∷ ps) = (c ∷ p) ∷ ps

-- `text.split(separator)`.
unfoldable pub split : ℕ → Bytes → List Bytes
split separator [] = [] ∷ []
split separator (c ∷ cs) =
    let rest = split separator cs in if c == separator then [] ∷ rest else onto_first c rest

-- `ends_with`, of one byte.
ends_with_byte : ℕ → Bytes → Bool
ends_with_byte b [] = false
ends_with_byte b (c ∷ cs) = let rest = ends_with_byte b cs in if is_empty cs then c == b else rest

-- `match_indices("::").count()`; `pending` is a colon that no match has taken.
count_double : Bool → Bytes → ℕ
count_double pending [] = 0
count_double pending (c ∷ cs) =
    let colon = c == b':' in
    let rest = count_double (colon && not pending) cs in if colon && pending then suc rest else rest

-- `contains(":::")`, behind so many colons.
has_triple : ℕ → Bytes → Bool
has_triple colons [] = false
has_triple colons (c ∷ cs) =
    let now = if c == b':' then suc colons else 0 in leb 3 now || has_triple now cs

abbrev cons_left : ℕ → Option (Bytes × Bytes) → Option (Bytes × Bytes)
cons_left c none = none
cons_left c (some (l, r)) = some (c ∷ l, r)

-- `split_once("::")`.
split_double : Bytes → Option (Bytes × Bytes)
split_double [] = none
split_double (c ∷ cs) =
    let rest = split_double cs in
    if (c == b':') && starts_with_byte b':' cs then some ([], drop 1 cs) else cons_left c rest

abbrev onto_all {ℓ} : {A : Type ℓ} → Option A → Option (List A) → Option (List A)
onto_all none rest = none
onto_all (some a) none = none
onto_all (some a) (some rest) = some (a ∷ rest)

abbrev traverse {ℓ} : {A : Type ℓ} → (Bytes → Option A) → List Bytes → Option (List A)
traverse f [] = some []
traverse f (p ∷ ps) = onto_all (f p) (traverse f ps)

abbrev of_values : List ℕ → Option IpAddr
of_values (a ∷ b ∷ c ∷ d ∷ []) = some (v4 a b c d)
of_values (s ∷ t ∷ u ∷ v ∷ w ∷ x ∷ y ∷ z ∷ []) = some (v6 s t u v w x y z)
of_values _ = none

abbrev exact_of : (IpAddr → IpAddr) → Option (List ℕ) → Option Rule
exact_of f none = none
exact_of f (some vs) = elim (of_values vs) [ none ↦ none | some ip ↦ some (exact (f ip)) ]

abbrev masked : (List (Option ℕ) → Mask) → Option (List (Option ℕ)) → Option Rule
masked f none = none
masked f (some segs) = some (mask (f segs))

abbrev fixed : Option ℕ → Option (Option ℕ)
fixed none = none
fixed (some v) = some (some v)

octet_mask : Bytes → Option (Option ℕ)
unfolding bytes_eq contains all is_ascii_digit parse_unsigned
octet_mask p =
    if bytes_eq p (codes "*")
    then some none
    else if contains b'*' p || is_empty p || not (all is_ascii_digit p)
    then none
    else if ltb 1 (length p) && starts_with_byte b'0' p
    then none
    else fixed (parse_unsigned 255 p)

parse_v4 : Bytes → Option Rule
unfolding contains parse_ip split octet_mask
parse_v4 elem =
    let parts = split b'.' elem in
    if not (contains b'*' elem)
    then exact_of (λ ip. ip) (parse_ip elem)
    else if not (length parts == 4)
    then none
    else masked octets (traverse octet_mask parts)

hex_value : ℕ → Bytes → Option ℕ
unfolding to_digit
hex_value value [] = some value
hex_value value (c ∷ cs) = elim (to_digit 16 c) [
  | none ↦ none
  | some d ↦ hex_value (value * 16 + d) cs
]

group_mask : Bytes → Option (Option ℕ)
unfolding bytes_eq contains all is_ascii_hexdigit hex_value
group_mask g =
    if bytes_eq g (codes "*")
    then some none
    else if contains b'*' g || is_empty g
    then none
    else if not (all is_ascii_hexdigit g)
    then none
    else if ltb 4 (length g)
    then none
    else fixed (hex_value 0 g)

finish_v6_groups : List Bytes → Option Rule
unfolding group_mask
finish_v6_groups gs = masked groups (traverse group_mask gs)

abbrev pieces : Bytes → List Bytes
unfolding split
pieces s = if is_empty s then [] else split b':' s

abbrev any_empty : List Bytes → Bool
any_empty [] = false
any_empty (p ∷ ps) = is_empty p || any_empty ps

abbrev repeat_n : ℕ → List Bytes
repeat_n zero = []
repeat_n (suc n) = codes "0" ∷ repeat_n n

-- The groups before and behind `::`, and whether it is there.
mask_v6 : Bool → List Bytes → List Bytes → Option Rule
unfolding finish_v6_groups
mask_v6 compressed head tail =
    let explicit = length head + length tail in
    if any_empty head || any_empty tail
    then none
    else if ltb 8 explicit
    then none
    else if compressed
    then (if explicit == 8
        then none
        else finish_v6_groups (head ++ repeat_n (8 - explicit) ++ tail))
    else if not (explicit == 8)
    then none
    else finish_v6_groups head

parse_v6 : Bytes → Option Rule
unfolding contains parse_ipv6 normalize_mapped ends_with_byte count_double has_triple split_double
    mask_v6 pieces
parse_v6 elem =
    if contains b'%' elem
    then none
    else if starts_with_byte b'[' elem || ends_with_byte b']' elem
    then none
    else if not (contains b'*' elem)
    then exact_of normalize_mapped (parse_ipv6 elem)
    else if ltb 1 (count_double false elem)
    then none
    else if has_triple 0 elem
    then none
    else elim (split_double elem) [
      | some (h, t) ↦ mask_v6 true (pieces h) (pieces t)
      | none ↦ mask_v6 false (pieces elem) []
    ]

unfoldable pub parse_element : Bytes → Option Rule
unfolding bytes_eq to_ascii_lowercase contains parse_v4 parse_v6
parse_element elem =
    if bytes_eq (map to_ascii_lowercase elem) (codes "loopback")
    then some loopback
    else if contains b':' elem
    then parse_v6 elem
    else if contains b'.' elem
    then parse_v4 elem
    else none

-- What an element adds to the rule.
abbrev added : AllowedClients → Option Rule → Option AllowedClients
added c none = none
added c (some r) = some (record c { rules = c.rules ++ r ∷ [] })

element : Bytes → AllowedClients → Option AllowedClients
unfolding trim bytes_eq parse_element
element raw c =
    let elem = trim raw in
    if is_empty elem
    then none
    else if bytes_eq elem (codes "*")
    then some (record c { allow_all = true })
    else added c (parse_element elem)

elements : List Bytes → AllowedClients → Option AllowedClients
unfolding element
elements [] c = some c
elements (raw ∷ raws) c = elim (element raw c) [ none ↦ none | some c' ↦ elements raws c' ]

abbrev no_rules : List Rule → Bool
no_rules [] = true
no_rules (r ∷ rs) = false

unfoldable pub compile_allowed_clients : Bytes → Option AllowedClients
unfolding split elements
compile_allowed_clients spec =
    elim (elements (split b',' spec) (record { allow_all = false; rules = [] })) [
      | none ↦ none
      | some c ↦ if no_rules c.rules && not c.allow_all then none else some c
    ]
