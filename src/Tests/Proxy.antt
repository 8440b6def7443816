-- ===== src/Tests/Proxy.antt =====
-- The theorems on addresses, chains and upstream lines on concrete texts.
use resocks.Address.RoundTrip.{IsPlainHost, IsAddress, parse-format}
use resocks.Address.{parse, format}
use resocks.Base.{◌≡◌, ◌↔◌, ◌⊎◌, refl, inr, true, false, Option, none, some, arith, All}
use resocks.Proxy.Chain.Identity.{chain_key_eq, hash_input, chain_key_eq-hash_input}
use resocks.Proxy.Line.RoundTrip.{IsUnmarked, markers, line_text, parse_proxy_str-line_text}
use resocks.Proxy.Line.{ok, parse_proxy_str}
use resocks.Proxy.Validate.First.{
  IsValidNode, FailsFirst, IsGoodNode, validate-FailsFirst, validate_node-IsGoodNode,
}
use resocks.Proxy.Validate.{ChainConfigError, validate, validate_node}
use resocks.Proxy.{socks5, http, Node, ProxyConfig, direct, through, nodes}
use resocks.Rust.Space.{is_blank}
use resocks.Rust.Text.{Bytes, codes, contains}

abbrev host_name : Bytes
host_name = codes "gate.net"

host_name-IsPlainHost : IsPlainHost host_name
unfolding contains
host_name-IsPlainHost = record { nonempty = refl; no_colon = refl; no_bracket = refl }

host_name-IsAddress : IsAddress host_name 1080
host_name-IsAddress = (inr host_name-IsPlainHost, omega arith)

parse-format_example :
    parse (format host_name 1080) ≡ some (record { host = host_name; port = 1080 })
parse-format_example = parse-format host_name 1080 host_name-IsAddress

abbrev inner_node : Node
inner_node = record {
  protocol = http;
  host = host_name;
  port = 1080;
  user = none;
  password = none;
  gate_level = 0;
  is_gate = false;
}

abbrev outer_node : Node
outer_node = record inner_node { protocol = socks5; host = codes "10.0.0.1" }

abbrev two_hops : ProxyConfig
two_hops = through inner_node (direct outer_node)

chain_key_eq-hash_input_example :
    (chain_key_eq two_hops (direct inner_node) ≡ true)
    ↔ (hash_input two_hops ≡ hash_input (direct inner_node))
chain_key_eq-hash_input_example = chain_key_eq-hash_input two_hops (direct inner_node)

validate-FailsFirst_example :
    ((validate two_hops ≡ none) × All IsValidNode (nodes two_hops))
    ⊎ ((e : ChainConfigError) × (validate two_hops ≡ some e)
        × FailsFirst (nodes two_hops) e.node e.kind)
validate-FailsFirst_example = validate-FailsFirst two_hops

validate_node-IsGoodNode_example : (validate_node inner_node ≡ none) ↔ IsGoodNode inner_node
validate_node-IsGoodNode_example = validate_node-IsGoodNode inner_node

abbrev login : Option (Bytes × Bytes)
login = some (codes "anna", codes "s3:cret")

login_line-IsUnmarked : IsUnmarked (line_text login host_name 1080)
unfolding is_blank format
login_line-IsUnmarked = record {
  not_blank = refl;
  not_comment = refl;
  no_marker = refl;
  nonempty = refl;
}

abbrev login_node : Node
login_node = record inner_node {
  user = some (codes "anna");
  password = some (codes "s3:cret");
  gate_level = 2;
  is_gate = true;
}

host_name-at : contains b'@' host_name ≡ false
unfolding contains
host_name-at = refl

-- `**anna:s3:cret@gate.net:1080`.
parse_proxy_str-line_text_example :
    parse_proxy_str (markers 2 (line_text login host_name 1080)) http ≡ ok login_node
unfolding contains
parse_proxy_str-line_text_example =
    parse_proxy_str-line_text http 2 login host_name 1080 (omega arith) host_name-IsAddress
      host_name-at (refl, refl, refl) login_line-IsUnmarked
