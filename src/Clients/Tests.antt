-- ===== src/Clients/Tests.antt =====
-- The theorems on allowed clients on concrete rules.
use resocks.Base.{◌≡◌, refl, false, none, some, List, [], ◌∷◌, arith}
use resocks.Clients.{v4, v6, groups, octets, Rule, mask, exact, loopback, matches}
use resocks.Clients.Compile.Closed.{is_element, compile_allowed_clients_closed}
use resocks.Clients.Compile.{compile_allowed_clients, parse_element, split}
use resocks.Rust.Space.{trim}
use resocks.Clients.Spellings.{matches-segments}
use resocks.Rust.Text.{codes, bytes_eq}

abbrev three_rules : List Rule
three_rules =
    exact (v4 10 0 0 1) ∷ loopback ∷ mask (octets (some 10 ∷ none ∷ some 2 ∷ some 3 ∷ [])) ∷ []

matches-segments_example :
    matches (record { allow_all = false; rules = three_rules }) (v4 10 1 2 3)
    ≡ matches (record { allow_all = false; rules = three_rules }) (v6 0 0 0 0 0 65535 2561 515)
matches-segments_example =
    matches-segments (record { allow_all = false; rules = three_rules }) (v4 10 1 2 3)
      (v6 0 0 0 0 0 65535 2561 515) (omega arith, omega arith, omega arith, omega arith) tt refl

three_elements :
    compile_allowed_clients (codes "::ffff:1.2.3.4, LoopBack,10.*.2.30,2001:DB8::*")
    ≡ some (record {
      allow_all = false;
      rules =
          exact (v4 1 2 3 4)
          ∷ loopback
          ∷ mask (octets (some 10 ∷ none ∷ some 2 ∷ some 30 ∷ []))
          ∷ mask (
              groups
                (some 8193 ∷ some 3512 ∷ some 0 ∷ some 0 ∷ some 0 ∷ some 0 ∷ some 0 ∷ none ∷ []))
          ∷ [];
    })
unfolding compile_allowed_clients
three_elements = refl

partial_star : compile_allowed_clients (codes "*,1*.2.3.4") ≡ none
unfolding compile_allowed_clients
partial_star = refl

empty_element : compile_allowed_clients (codes "*,,10.0.0.1") ≡ none
unfolding compile_allowed_clients
empty_element = refl

zone : compile_allowed_clients (codes "fe80::1%eth0") ≡ none
unfolding compile_allowed_clients
zone = refl

full_compression : compile_allowed_clients (codes "1:2:3:4::5:6:7:*") ≡ none
unfolding compile_allowed_clients
full_compression = refl

three_pieces :
    split b',' (codes "*, 1*.2.3.4,::1") ≡ codes "*" ∷ codes " 1*.2.3.4" ∷ codes "::1" ∷ []
unfolding split
three_pieces = refl

partial_star_refused : is_element (trim (codes " 1*.2.3.4")) ≡ false
unfolding trim bytes_eq parse_element
partial_star_refused = refl

compile_allowed_clients_closed_example : compile_allowed_clients (codes "*, 1*.2.3.4,::1") ≡ none
compile_allowed_clients_closed_example =
    compile_allowed_clients_closed (codes "*, 1*.2.3.4,::1") (codes "*" ∷ []) (codes " 1*.2.3.4")
      (codes "::1" ∷ []) three_pieces partial_star_refused
