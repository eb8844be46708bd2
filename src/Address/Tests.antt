-- ===== src/Address/Tests.antt =====
-- Addresses of node-manager/src/proxy.rs and node.rs at the ones of their tests.
use mutiny_web_poc.Prelude.{codes, ◌≡◌, refl, partial_eq_nat}
use mutiny_web_poc.Prelude.Outcome.{ok}
use mutiny_web_poc.Address.{tcp_proxy_to_url, format_addr_from_url}

test_proxy_to_url :
    tcp_proxy_to_url (codes "ws://127.0.0.1:3001") (codes "127.0.0.1:4000")
    ≡ ok (codes "ws://127.0.0.1:3001/v1/127_0_0_1/4000")
unfolding tcp_proxy_to_url
test_proxy_to_url = refl

test_format_addr_from_url :
    format_addr_from_url (codes "127_0_0_1") (codes "9000") ≡ codes "127.0.0.1:9000"
unfolding format_addr_from_url
test_format_addr_from_url = refl
