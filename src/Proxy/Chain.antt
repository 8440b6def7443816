-- ===== src/Proxy/Chain.antt =====
-- crates/resocks5-net/src/types/chain.rs: chains of proxies and their identity.
use mathlib.Core.List.{append_assoc, append-nil, map-append}
use resocks.Base.{
  ℕ, zero, suc, ◌+◌, ◌≡◌, ◌≢◌, ◌↔◌, refl, sym, ap, ◌∙◌, inl, inr, Bool, true, false, ◌&&◌, Option,
  none, some, List, [], ◌∷◌, ◌++◌, map, length, length-append, length-map, arith, ◌==◌, ==_iff,
  if◌then◌else◌, Bool-cases,
}
use resocks.Rust.Text.{Bytes, bytes_eq, bytes_eq_refl, bytes_eq_sound}
use resocks.Proxy.{
  ProxyProtocol, socks5, http, https, Node, ProxyConfig, direct, through, own, pushed, reversed,
  nodes,
}
pub mod Identity

-- One round of the loop of `chain`: the node without its own gate, behind the chain so far.
link : Option ProxyConfig → ProxyConfig → ProxyConfig
link none c = direct (own c)
link (some chain) c = through (own c) chain

link_all : Option ProxyConfig → List ProxyConfig → Option ProxyConfig
unfolding link
link_all chain [] = chain
link_all chain (c ∷ cs) = link_all (some (link chain c)) cs

pub chain : List ProxyConfig → Option ProxyConfig
unfolding link_all
chain cs = link_all none cs

chain_len_from : ℕ → ProxyConfig → ℕ
chain_len_from len (direct n) = len + 1
chain_len_from len (through n gate) = chain_len_from (len + 1) gate

pub chain_len : ProxyConfig → ℕ
unfolding chain_len_from
chain_len c = chain_len_from 0 c

-- What `nodes` gives, without its loop.
abbrev pub outside_in : ProxyConfig → List Node
outside_in (direct n) = n ∷ []
outside_in (through n gate) = outside_in gate ++ n ∷ []

reversed-concat :
    (done xs : List Node) (n : Node) → reversed done (xs ++ n ∷ []) ≡ n ∷ reversed done xs
reversed-concat done [] n = refl
reversed-concat done (x ∷ xs) n = reversed-concat (x ∷ done) xs n

reversed-pushed :
    (c : ProxyConfig) (seen : List Node)
    → reversed [] (pushed seen c) ≡ outside_in c ++ reversed [] seen
unfolding pushed
reversed-pushed (direct n) seen = reversed-concat [] seen n
reversed-pushed (through n gate) seen =
    reversed-pushed gate (seen ++ n ∷ [])
    ∙ ap (◌++◌ (outside_in gate)) (reversed-concat [] seen n)
    ∙ sym (append_assoc (outside_in gate) (n ∷ []) (reversed [] seen))

pub nodes-outside_in : (c : ProxyConfig) → nodes c ≡ outside_in c
unfolding nodes
nodes-outside_in c = reversed-pushed c [] ∙ append-nil (outside_in c)

abbrev nodes_so_far : Option ProxyConfig → List Node
nodes_so_far none = []
nodes_so_far (some c) = outside_in c

outside_in-link :
    (chain : Option ProxyConfig) (c : ProxyConfig)
    → outside_in (link chain c) ≡ nodes_so_far chain ++ own c ∷ []
unfolding link
outside_in-link none c = refl
outside_in-link (some chain) c = refl

-- A chain that is not empty links all of its nodes, in order.
link_all-outside_in :
    (chain : Option ProxyConfig) (cs : List ProxyConfig)
    → nodes_so_far (link_all chain cs) ≡ nodes_so_far chain ++ map own cs
unfolding link_all
link_all-outside_in chain [] = sym (append-nil _)
link_all-outside_in chain (c ∷ cs) =
    link_all-outside_in (some (link chain c)) cs
    ∙ ap (λ seen. seen ++ map own cs) (outside_in-link chain c)
    ∙ append_assoc (nodes_so_far chain) (own c ∷ []) (map own cs)

link_all-some :
    (c : ProxyConfig) (cs : List ProxyConfig) → (d : ProxyConfig) × (link_all (some c) cs ≡ some d)
unfolding link_all
link_all-some c [] = (c, refl)
link_all-some c (x ∷ cs) = link_all-some (link (some c) x) cs

chain_len_from-outside_in :
    (len : ℕ) (c : ProxyConfig) → chain_len_from len c ≡ len + length (outside_in c)
unfolding chain_len_from
chain_len_from-outside_in len (direct n) = omega arith
chain_len_from-outside_in len (through n gate) =
    omega
      (arith, chain_len_from-outside_in (len + 1) gate, length-append (outside_in gate) (n ∷ []))

-- `chain` of at least one node succeeds, and `chain_nodes` gives back exactly those nodes,
-- outermost first, whatever gates they had; `chain_len` is their number.
pub nodes-chain :
    (c : ProxyConfig) (cs : List ProxyConfig)
    → (d : ProxyConfig) × (chain (c ∷ cs) ≡ some d)
      × (nodes d ≡ map own (c ∷ cs))
      × (chain_len d ≡ length (c ∷ cs))
unfolding chain
nodes-chain c cs =
    let (d, made) = link_all-some (direct (own c)) cs in
    let all : outside_in d ≡ map own (c ∷ cs) = rw made at (link_all-outside_in none (c ∷ cs)) in
    (
      d,
      made,
      nodes-outside_in d ∙ all,
      unfold chain_len in
          (chain_len_from-outside_in 0 d ∙ omega (arith, ap length all, length-map own cs)),
    )

link_all-concat :
    (chain : Option ProxyConfig) (xs : List Node) (n : Node)
    → link_all chain (map direct (xs ++ n ∷ []))
      ≡ some (link (link_all chain (map direct xs)) (direct n))
unfolding link_all
link_all-concat chain [] n = refl
link_all-concat chain (x ∷ xs) n = link_all-concat (some (link chain (direct x))) xs n

link_all-rebuild : (c : ProxyConfig) → link_all none (map direct (outside_in c)) ≡ some c
unfolding link
link_all-rebuild (direct n) = unfold link_all in refl
link_all-rebuild (through n gate) =
    link_all-concat none (outside_in gate) n ∙ rw (link_all-rebuild gate)

-- Taking any configuration apart and chaining its nodes again gives it back.
pub chain-nodes : (c : ProxyConfig) → chain (map direct (nodes c)) ≡ some c
unfolding chain
chain-nodes c = rw (nodes-outside_in c) (link_all-rebuild c)
