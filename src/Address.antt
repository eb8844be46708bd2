-- ===== src/Address.antt =====
-- Addresses of peers: parse_peer_info of node-manager/src/node.rs, the URLs of
-- node-manager/src/proxy.rs, and what ln-websocket-proxy/src/main.rs reads out of them.
pub mod Dialed
pub mod Tests
use mutiny_web_poc.Prelude.{
  ℕ, Bool, true, false, Option, none, some, List, [], ◌∷◌, ◌++◌, Bytes, map, codes, if◌then◌else◌,
  ◌==◌, partial_eq_nat,
}
use mutiny_web_poc.Prelude.Assoc.{contains}
use mutiny_web_poc.Prelude.Outcome.{Outcome, ok, err, panic, ◌>>=◌}
use mutiny_web_poc.Errors.{MutinyError, peer_info_parse_failed}

abbrev pub push_front : ℕ → List Bytes → List Bytes
push_front x [] = (x ∷ []) ∷ []
push_front x (p ∷ ps) = (x ∷ p) ∷ ps

-- `str::split` at a character: one piece more than there are separators.
unfoldable pub split : ℕ → Bytes → List Bytes
split c [] = [] ∷ []
split c (x ∷ xs) = let rest = split c xs in if x == c then [] ∷ rest else push_front x rest

-- `str::replace` of one character by another.
unfoldable pub replace : ℕ → ℕ → Bytes → Bytes
replace from to s = map (λ x. if x == from then to else x) s

-- The first two pieces, each by `next().ok_or(...)?`.
abbrev pub two_pieces : List Bytes → Outcome MutinyError (Bytes × Bytes)
two_pieces [] = err peer_info_parse_failed
two_pieces (first ∷ []) = err peer_info_parse_failed
two_pieces (first ∷ second ∷ rest) = ok (first, second)

abbrev pub tcp_url : Bytes → Bytes × Bytes → Outcome MutinyError Bytes
tcp_url proxy_url (host, port) =
    ok (proxy_url ++ (codes "/v1/" ++ (replace b'.' b'_' host ++ (b'/' ∷ port))))

unfoldable pub tcp_proxy_to_url : Bytes → Bytes → Outcome MutinyError Bytes
unfolding split replace
tcp_proxy_to_url proxy_url peer_addr = two_pieces (split b':' peer_addr) >>= tcp_url proxy_url

unfoldable pub mutiny_conn_proxy_to_url : Bytes → Bytes → Bytes
mutiny_conn_proxy_to_url proxy_url peer_pubkey = proxy_url ++ (codes "/v1/mutiny/" ++ peer_pubkey)

-- The address that the relay dials for the parts of such a URL.
unfoldable pub format_addr_from_url : Bytes → Bytes → Bytes
unfolding replace
format_addr_from_url ip port = replace b'_' b'.' ip ++ (b':' ∷ port)

module _ {PublicKey : Type 0} (from_str : Bytes → Option PublicKey) where
  abbrev pub with_pubkey : Bytes × Bytes → Outcome MutinyError (PublicKey × Bytes)
  with_pubkey (pubkey, peer_addr_str) = elim (from_str pubkey) [
    | none ↦ err peer_info_parse_failed
    | some p ↦ ok (p, peer_addr_str)
  ]

  unfoldable pub split_peer_connection_string : Bytes → Outcome MutinyError (PublicKey × Bytes)
  unfolding split
  split_peer_connection_string peer_pubkey_and_ip_addr =
      two_pieces (split b'@' peer_pubkey_and_ip_addr) >>= with_pubkey

  abbrev pub with_port : PublicKey × Bytes → Outcome MutinyError (PublicKey × Bytes)
  with_port (pubkey, peer_addr_str) = ok (
    pubkey,
    (if contains b':' peer_addr_str then peer_addr_str else peer_addr_str ++ codes ":9735"),
  )

  unfoldable pub parse_peer_info : Bytes → Outcome MutinyError (PublicKey × Bytes)
  unfolding split_peer_connection_string contains
  parse_peer_info peer_pubkey_and_ip_addr =
      split_peer_connection_string peer_pubkey_and_ip_addr >>= with_port
