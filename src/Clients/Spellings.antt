-- ===== src/Clients/Spellings.antt =====
-- allowed_clients.rs, `matches`: the two spellings of an IPv4 address.
use resocks.Base.{
  ℕ, ◌+◌, ◌*◌, ◌/◌, ◌%◌, ◌<◌, ◌≡◌, refl, ap, sym, ◌∙◌, inl, inr, Bool-cases, true, Option, List, [],
  ◌∷◌, ◌||◌, false, arith,
}
use resocks.Clients.{
  IpAddr, v4, v6, groups, Rule, mask, AllowedClients, to_ipv6_mapped, is_mapped, normalize_mapped,
  all_match, segments, rule_matches, matches,
}

-- Octets are below 256.
abbrev pub IsAddress : IpAddr → Type 0
IsAddress (v4 a b c d) = (a < 256) × (b < 256) × (c < 256) × (d < 256)
IsAddress (v6 s t u v w x y z) = Unit

normalize_mapped-mapped :
    (a b c d : ℕ) → IsAddress (v4 a b c d) → normalize_mapped (to_ipv6_mapped a b c d) ≡ v4 a b c d
unfolding normalize_mapped
normalize_mapped-mapped a b c d (ha, hb, hc, hd) =
    let ea : (a * 256 + b) / 256 ≡ a = omega arith in
    let eb : (a * 256 + b) % 256 ≡ b = omega arith in
    let ec : (c * 256 + d) / 256 ≡ c = omega arith in
    let ed : (c * 256 + d) % 256 ≡ d = omega arith in rw (ea, eb, ec, ed) refl

is_mapped-segments :
    (s t u v w x : ℕ)
    → is_mapped s t u v w x ≡ true
    → (s ≡ 0) × (t ≡ 0) × (u ≡ 0) × (v ≡ 0) × (w ≡ 0) × (x ≡ 65535)
is_mapped-segments s t u v w x h = ground arith

segments-normalize_mapped : (ip : IpAddr) → segments (normalize_mapped ip) ≡ segments ip
unfolding normalize_mapped
segments-normalize_mapped (v4 a b c d) = refl
segments-normalize_mapped (v6 s t u v w x y z) = elim (Bool-cases (is_mapped s t u v w x)) [
  | inl mapped ↦
      let (es, et, eu, ev, ew, ex) = is_mapped-segments s t u v w x mapped in
      let ey : y / 256 * 256 + y % 256 ≡ y = omega arith in
      let ez : z / 256 * 256 + z % 256 ≡ z = omega arith in
      rw (mapped, es, et, eu, ev, ew, ex, ey, ez) refl
  | inr other ↦ rw other refl
]

-- The address that these eight segments stand for.
abbrev of_segments : List ℕ → IpAddr
of_segments (s ∷ t ∷ u ∷ v ∷ w ∷ x ∷ y ∷ z ∷ []) = normalize_mapped (v6 s t u v w x y z)
of_segments _ = v4 0 0 0 0

normalize_mapped-of_segments :
    (ip : IpAddr) → IsAddress ip → normalize_mapped ip ≡ of_segments (segments ip)
unfolding normalize_mapped
normalize_mapped-of_segments (v4 a b c d) h = sym (normalize_mapped-mapped a b c d h)
normalize_mapped-of_segments (v6 s t u v w x y z) h = refl

-- Two spellings with the same eight segments, such as an IPv4 address and its mapped form, are
-- both admitted or both refused, whatever the rules are.
pub matches-segments :
    (c : AllowedClients) (ip ip' : IpAddr)
    → IsAddress ip
    → IsAddress ip'
    → segments ip ≡ segments ip'
    → matches c ip ≡ matches c ip'
unfolding matches
matches-segments c ip ip' h h' same =
    let normal : normalize_mapped ip ≡ normalize_mapped ip' =
      normalize_mapped-of_segments ip h
      ∙ ap of_segments same
      ∙ sym (normalize_mapped-of_segments ip' h') in
    rw normal refl

-- An IPv6 mask in front of the rules admits exactly the addresses that have its groups among their
-- eight segments, those of an IPv4 address being the segments of its mapped form; the others are
-- left to the rules behind it.
pub matches-groups :
    (segs : List (Option ℕ)) (rules : List Rule) (ip : IpAddr)
    → matches (record { allow_all = false; rules = mask (groups segs) ∷ rules }) ip
      ≡ (all_match segs (segments ip) || matches (record { allow_all = false; rules = rules }) ip)
unfolding matches rule_matches
matches-groups segs rules ip = rw (segments-normalize_mapped ip) refl
