-- ===== src/Proxy/Chain/Identity.antt =====
-- chain.rs, `ChainKey`: equality of chains and what is hashed.
use mathlib.Core.List.{map-append}
use mathlib.Core.Path.{ap₂}
use resocks.Base.{
  ℕ, ◌≤◌, ◌≡◌, ◌≢◌, ◌↔◌, refl, sym, ap, ◌∙◌, Bool, true, false, ◌&&◌, Option, none, some, List, [],
  ◌∷◌, ◌++◌, map, length, length-append, length-map, arith, ◌==◌,
}
use resocks.Rust.Text.{Bytes, bytes_eq, bytes_eq_refl, bytes_eq_sound}
use resocks.Proxy.{ProxyProtocol, socks5, http, https, Node, ProxyConfig, direct, through, nodes}
use resocks.Proxy.Chain.{outside_in, nodes-outside_in}

-- `mem::discriminant(&node.protocol)`.
abbrev pub discriminant : ProxyProtocol → ℕ
discriminant socks5 = 0
discriminant http = 1
discriminant https = 2

unfoldable pub option_eq : Option Bytes → Option Bytes → Bool
option_eq none none = true
option_eq (some a) (some b) = bytes_eq a b
option_eq _ _ = false

node_eq : Node → Node → Bool
unfolding option_eq
node_eq a b =
    (discriminant a.protocol == discriminant b.protocol)
    && bytes_eq a.host b.host
    && (a.port == b.port)
    && option_eq a.user b.user
    && option_eq a.password b.password
    && (a.gate_level == b.gate_level)

-- The loop of `eq`, from the exits outwards.
pub chain_key_eq : ProxyConfig → ProxyConfig → Bool
unfolding node_eq
chain_key_eq (direct a) (direct b) = node_eq a b
chain_key_eq (through a gate) (through b other) = node_eq a b && chain_key_eq gate other
chain_key_eq _ _ = false

-- What `hash` feeds of one node to the hasher.
pub record NodeKey : Type 0 where
  pub protocol : ℕ
  pub host : Bytes
  pub port : ℕ
  pub user : Option Bytes
  pub password : Option Bytes
  pub gate_level : ℕ

abbrev node_key : Node → NodeKey
node_key n = record {
  protocol = discriminant n.protocol;
  host = n.host;
  port = n.port;
  user = n.user;
  password = n.password;
  gate_level = n.gate_level;
}

-- What `hash` feeds to the hasher: the number of nodes, then each node.
pub hash_input : ProxyConfig → ℕ × List NodeKey
hash_input c = (length (nodes c), map node_key (nodes c))

option_eq_iff : (a b : Option Bytes) → (option_eq a b ≡ true) ↔ (a ≡ b)
unfolding option_eq
option_eq_iff none none = (λ _. refl, λ _. refl)
option_eq_iff (some a) (some b) =
    (λ h. ap some (bytes_eq_sound a b h), λ e. ground (arith, bytes_eq_refl a))
option_eq_iff none (some b) = (λ h. cc, λ e. cc)
option_eq_iff (some a) none = (λ h. cc, λ e. cc)

node_eq_sound : (a b : Node) → node_eq a b ≡ true → node_key a ≡ node_key b
unfolding node_eq
node_eq_sound a b h = ground (
  arith,
  bytes_eq_sound a.host b.host,
  (option_eq_iff a.user b.user).0,
  (option_eq_iff a.password b.password).0,
)

node_eq_complete : (a b : Node) → node_key a ≡ node_key b → node_eq a b ≡ true
unfolding node_eq
node_eq_complete a b e = ground (
  arith,
  bytes_eq_refl a.host,
  (option_eq_iff a.user b.user).1,
  (option_eq_iff a.password b.password).1,
)

abbrev keys : ProxyConfig → List NodeKey
keys c = map node_key (outside_in c)

keys-through :
    (n : Node) (gate : ProxyConfig) → keys (through n gate) ≡ keys gate ++ node_key n ∷ []
keys-through n gate = map-append node_key (outside_in gate) (n ∷ [])

concat-injective :
    (xs ys : List NodeKey) (x y : NodeKey) → xs ++ x ∷ [] ≡ ys ++ y ∷ [] → (xs ≡ ys) × (x ≡ y)
concat-injective [] [] x y e = (refl, cc)
concat-injective (a ∷ xs) (b ∷ ys) x y e =
    let heads : a ≡ b = cc in
    let tails : xs ++ x ∷ [] ≡ ys ++ y ∷ [] = cc in ground (arith, concat-injective xs ys x y tails)
concat-injective [] (b ∷ []) x y e = cc
concat-injective [] (b ∷ b' ∷ ys) x y e = cc
concat-injective (a ∷ []) [] x y e = cc
concat-injective (a ∷ a' ∷ xs) [] x y e = cc

keys-pos : (c : ProxyConfig) → 1 ≤ length (keys c)
keys-pos (direct n) = omega arith
keys-pos (through n gate) =
    omega (arith, ap length (keys-through n gate), length-append (keys gate) (node_key n ∷ []))

keys-ne : (gate : ProxyConfig) (x y : NodeKey) → keys gate ++ x ∷ [] ≢ y ∷ []
keys-ne gate x y e =
    absurd (omega (arith, ap length e, length-append (keys gate) (x ∷ []), keys-pos gate))

chain_key_eq_sound : (c d : ProxyConfig) → chain_key_eq c d ≡ true → keys c ≡ keys d
unfolding chain_key_eq
chain_key_eq_sound (direct a) (direct b) h = rw (node_eq_sound a b h)
chain_key_eq_sound (through a gate) (through b other) h =
    keys-through a gate
    ∙ ap₂ (λ ks k. ks ++ k ∷ []) (chain_key_eq_sound gate other (ground arith))
        (node_eq_sound a b (ground arith))
    ∙ sym (keys-through b other)
chain_key_eq_sound (direct a) (through b other) h = cc
chain_key_eq_sound (through a gate) (direct b) h = cc

chain_key_eq_complete : (c d : ProxyConfig) → keys c ≡ keys d → chain_key_eq c d ≡ true
unfolding chain_key_eq
chain_key_eq_complete (direct a) (direct b) e = node_eq_complete a b cc
chain_key_eq_complete (through a gate) (through b other) e =
    let (gates, ends) =
      concat-injective (keys gate) (keys other) (node_key a) (node_key b)
        (sym (keys-through a gate) ∙ e ∙ keys-through b other) in
    ground (arith, node_eq_complete a b ends, chain_key_eq_complete gate other gates)
chain_key_eq_complete (direct a) (through b other) e =
    absurd (keys-ne other (node_key b) (node_key a) (sym (keys-through b other) ∙ sym e))
chain_key_eq_complete (through a gate) (direct b) e =
    absurd (keys-ne gate (node_key a) (node_key b) (sym (keys-through a gate) ∙ e))

-- Two keys are equal exactly when they feed the same to the hasher: chains of the same length whose
-- nodes agree, in order, on protocol, host, port, credentials and gate level.
pub chain_key_eq-hash_input :
    (c d : ProxyConfig) → (chain_key_eq c d ≡ true) ↔ (hash_input c ≡ hash_input d)
unfolding hash_input
chain_key_eq-hash_input c d =
    let c_length = length-map node_key (outside_in c) in
    let d_length = length-map node_key (outside_in d) in
    rw (nodes-outside_in c, nodes-outside_in d)
      (
        λ h. let e = chain_key_eq_sound c d h in cc (e, c_length, d_length),
        λ e. chain_key_eq_complete c d cc,
      )
