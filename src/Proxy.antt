-- ===== src/Proxy.antt =====
-- crates/resocks5-net/src/types: the description of an upstream proxy and of a chain of them.
use resocks.Base.{
  ◌≡◌, refl, ℕ, zero, suc, Bool, true, false, ◌&&◌, Option, none, some, List, [], ◌∷◌, ◌++◌, map,
  max, ltb, if◌then◌else◌,
}
use resocks.Rust.Text.{Bytes, starts_with_byte}
pub mod Chain
pub mod Validate
pub mod Line

pub data ProxyProtocol : Type 0 where
  socks5 http https : ProxyProtocol

-- A `ProxyConfig` without its `gate`. A text is a list of bytes.
pub record Node : Type 0 where
  pub protocol : ProxyProtocol
  pub host : Bytes
  pub port : ℕ
  pub user : Option Bytes
  pub password : Option Bytes
  pub gate_level : ℕ
  pub is_gate : Bool

-- `gate` is `None`, or the configuration that this one is reached through.
pub data ProxyConfig : Type 0 where
  direct : Node → ProxyConfig
  through : Node → ProxyConfig → ProxyConfig

abbrev pub own : ProxyConfig → Node
own (direct n) = n
own (through n gate) = n

ends_with_byte : Bytes → Bool
ends_with_byte [] = false
ends_with_byte (x ∷ []) = starts_with_byte b']' (x ∷ [])
ends_with_byte (x ∷ y ∷ s) = ends_with_byte (y ∷ s)

-- `String::pop`, whose result is dropped.
pop : Bytes → Bytes
pop [] = []
pop (x ∷ []) = []
pop (x ∷ y ∷ s) = x ∷ pop (y ∷ s)

-- `host.len() >= 2 && host.starts_with('[') && host.ends_with(']')`, and then the middle.
pub strip_brackets : Bytes → Bytes
unfolding ends_with_byte pop
strip_brackets [] = []
strip_brackets (x ∷ []) = x ∷ []
strip_brackets (x ∷ y ∷ s) =
    if starts_with_byte b'[' (x ∷ y ∷ s) && ends_with_byte (x ∷ y ∷ s)
    then pop (y ∷ s)
    else x ∷ y ∷ s

unfoldable pub new : ProxyProtocol → Bytes → ℕ → Node
unfolding strip_brackets
new protocol host port = record {
  protocol = protocol;
  host = strip_brackets host;
  port = port;
  user = none;
  password = none;
  gate_level = 0;
  is_gate = false;
}

pub with_auth : Node → Bytes → Bytes → Node
with_auth n user password = record n { user = some user; password = some password }

pub as_gate : Node → Node
as_gate n = record n { gate_level = max n.gate_level 1; is_gate = true }

pub with_gate_level : Node → ℕ → Node
with_gate_level n level = record n { gate_level = level; is_gate = ltb 0 level }

pub with_gate : ProxyConfig → ProxyConfig → ProxyConfig
with_gate c gate = through (own c) gate

-- The loop of `nodes`, from the exit outwards; each node is pushed behind those pushed before.
pushed : List Node → ProxyConfig → List Node
pushed nodes (direct n) = nodes ++ n ∷ []
pushed nodes (through n gate) = pushed (nodes ++ n ∷ []) gate

abbrev reversed : List Node → List Node → List Node
reversed done [] = done
reversed done (n ∷ rest) = reversed (n ∷ done) rest

-- Outermost first, exit last.
pub nodes : ProxyConfig → List Node
unfolding pushed
nodes c = reversed [] (pushed [] c)

pub outermost : ProxyConfig → Node
outermost (direct n) = n
outermost (through n gate) = outermost gate

-- A host with no opening bracket in front is kept.
pub strip_brackets-plain :
    (host : Bytes) → starts_with_byte b'[' host ≡ false → strip_brackets host ≡ host
unfolding strip_brackets
strip_brackets-plain [] h = refl
strip_brackets-plain (x ∷ []) h = refl
strip_brackets-plain (x ∷ y ∷ s) h = rw h
