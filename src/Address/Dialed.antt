-- ===== src/Address/Dialed.antt =====
-- The address that a node is given, parsed by node-manager/src/node.rs, made a URL by proxy.rs, and
-- read by ln-websocket-proxy/src/main.rs.
use mutiny_web_poc.Prelude.{
  ℕ, false, Option, some, [], ◌∷◌, ◌++◌, Bytes, codes, if◌then◌else◌, ◌≡◌, refl, arith,
  partial_eq_nat,
}
use mutiny_web_poc.Prelude.Assoc.{contains}
use mutiny_web_poc.Prelude.Outcome.{ok, err}
use mutiny_web_poc.Address.{
  with_pubkey, peer_info_parse_failed, split, replace, tcp_proxy_to_url, format_addr_from_url,
  split_peer_connection_string, parse_peer_info,
}

split-whole : (c : ℕ) (s : Bytes) → contains c s ≡ false → split c s ≡ s ∷ []
unfolding split contains
split-whole c [] h = refl
split-whole c (x ∷ xs) h = ground (arith, split-whole c xs)

split-append :
    (c : ℕ) (s rest : Bytes) → contains c s ≡ false → split c (s ++ (c ∷ rest)) ≡ s ∷ split c rest
unfolding split contains
split-append c [] rest h = ground arith
split-append c (x ∷ xs) rest h = ground (arith, split-append c xs rest)

replace-replace : (a b : ℕ) (s : Bytes) → contains b s ≡ false → replace b a (replace a b s) ≡ s
unfolding replace contains
replace-replace a b [] h = refl
replace-replace a b (x ∷ xs) h = ground (arith, replace-replace a b xs)

-- The relay dials what the node was told: a host without `:` and `_` and a port without `:` go into
-- the two last parts of the URL, and the relay puts the same address together from them.
pub tcp_proxy_to_url-format_addr_from_url :
    (proxy_url host port : Bytes)
    → contains b':' host ≡ false
    → contains b'_' host ≡ false
    → contains b':' port ≡ false
    → (ip : Bytes) × (tcp_proxy_to_url proxy_url (host ++ (b':' ∷ port))
        ≡ ok (proxy_url ++ (codes "/v1/" ++ (ip ++ (b'/' ∷ port)))))
      × (format_addr_from_url ip port ≡ host ++ (b':' ∷ port))
unfolding tcp_proxy_to_url format_addr_from_url
tcp_proxy_to_url-format_addr_from_url proxy_url host port no_colon no_underscore one_port = (
  replace b'.' b'_' host,
  rw (split-append b':' host port no_colon, split-whole b':' port one_port) refl,
  rw (replace-replace b'.' b'_' host no_underscore) refl,
)

-- A public key that can be read, an `@` and an address: the key comes back with the address, which
-- gets the port 9735 exactly if it has none. Without an `@` the text is refused.
pub parse_peer_info-parts :
    {PublicKey : Type 0} (from_str : Bytes → Option PublicKey) (p : PublicKey) (pubkey addr : Bytes)
    → from_str pubkey ≡ some p
    → contains b'@' pubkey ≡ false
    → contains b'@' addr ≡ false
    → (parse_peer_info from_str (pubkey ++ (b'@' ∷ addr))
        ≡ ok (p, (if contains b':' addr then addr else addr ++ codes ":9735")))
      × (parse_peer_info from_str pubkey ≡ err peer_info_parse_failed)
unfolding parse_peer_info split_peer_connection_string
parse_peer_info-parts from_str p pubkey addr parses no_at no_more = (
  rw (split-append b'@' pubkey addr no_at, split-whole b'@' addr no_more, with_pubkey, parses) refl,
  rw (split-whole b'@' pubkey no_at) refl,
)
