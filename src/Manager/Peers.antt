-- ===== src/Manager/Peers.antt =====
-- The peers of a wallet: MutinyPeer, its order, and list_peers of
-- node-manager/src/nodemanager.rs. The conversion of a list to a value of JavaScript is left out.
use mutiny_web_poc.Prelude.{
  Bool, true, false, List, [], ◌∷◌, ◌++◌, Bytes, codes, if◌then◌else◌, ◌==◌, ◌||◌, PartialEq, ltb,
}
use mutiny_web_poc.Prelude.Assoc.{contains}
use mutiny_web_poc.Prelude.Outcome.{Outcome, ok, ◌>>=◌, unwrap}
use mutiny_web_poc.Storage.{KeyValue}
use mutiny_web_poc.Errors.Js.{MutinyJsError}
use mutiny_web_poc.Payment.{Formats}
use mutiny_web_poc.Payment.Persister.{list_peer_connection_info}
use mutiny_web_poc.Node.{Lightning, Node}

-- `std::cmp::Ordering`
pub data Ordering : Type 0 where
  less : Ordering
  equal : Ordering
  greater : Ordering

abbrev pub then_with : Ordering → Ordering → Ordering
then_with equal o = o
then_with o _ = o

abbrev pub cmp_bool : Bool → Bool → Ordering
cmp_bool false true = less
cmp_bool true false = greater
cmp_bool _ _ = equal

-- `Ord` of a string: byte by byte.
abbrev pub cmp_bytes : Bytes → Bytes → Ordering
cmp_bytes [] [] = equal
cmp_bytes [] (y ∷ ys) = less
cmp_bytes (x ∷ xs) [] = greater
cmp_bytes (x ∷ xs) (y ∷ ys) =
    let rest = cmp_bytes xs ys in if ltb x y then less else if ltb y x then greater else rest

-- `MutinyPeer`
pub record MutinyPeer (PublicKey : Type 0) : Type 0 where
  pub pubkey : PublicKey
  pub connection_string : Bytes
  pub is_connected : Bool

abbrev pub is_greater : Ordering → Bool
is_greater greater = true
is_greater _ = false

module _ {PublicKey : Type 0} ⦃pubkey_eq : PartialEq PublicKey⦄
    (cmp_pubkey : PublicKey → PublicKey → Ordering) where
  -- `Ord` of `MutinyPeer`
  unfoldable pub cmp : MutinyPeer PublicKey → MutinyPeer PublicKey → Ordering
  cmp a b =
      then_with (cmp_bool a.is_connected b.is_connected) (
        then_with (cmp_pubkey a.pubkey b.pubkey)
          (cmp_bytes a.connection_string b.connection_string))

  abbrev pub insert_peer :
      MutinyPeer PublicKey → List (MutinyPeer PublicKey) → List (MutinyPeer PublicKey)
  insert_peer p [] = p ∷ []
  insert_peer p (q ∷ qs) =
      let rest = insert_peer p qs in if is_greater (cmp p q) then q ∷ rest else p ∷ q ∷ qs

  -- `sort`: equal peers stay in their order.
  unfoldable pub sort_peers : List (MutinyPeer PublicKey) → List (MutinyPeer PublicKey)
  unfolding cmp
  sort_peers [] = []
  sort_peers (p ∷ ps) = insert_peer p (sort_peers ps)

  -- A stored peer is connected if LDK has its public key.
  abbrev pub stored_peers : List PublicKey → List (PublicKey × Bytes) → List (MutinyPeer PublicKey)
  stored_peers connected [] = []
  stored_peers connected ((pubkey, connection_string) ∷ stored) =
      record {
        pubkey = pubkey;
        connection_string = connection_string;
        is_connected = contains pubkey connected;
      }
      ∷ stored_peers connected stored

  -- `any(|p| p.pubkey == peer)`
  abbrev pub lists : PublicKey → List (MutinyPeer PublicKey) → Bool
  lists peer [] = false
  lists peer (p ∷ ps) = (p.pubkey == peer) || lists peer ps

  -- The connected peers that are not stored.
  abbrev pub missing_peers :
      List (MutinyPeer PublicKey) → List PublicKey → List (MutinyPeer PublicKey)
  missing_peers storage_peers [] = []
  missing_peers storage_peers (peer ∷ peers) =
      let rest = missing_peers storage_peers peers in
      if lists peer storage_peers
      then rest
      else (record { pubkey = peer; connection_string = codes "unknown"; is_connected = true }
          ∷ rest)

  unfoldable pub merge_peers :
      List PublicKey → List (PublicKey × Bytes) → List (MutinyPeer PublicKey)
  unfolding sort_peers contains
  merge_peers connected stored =
      sort_peers
        (stored_peers connected stored ++ missing_peers (stored_peers connected stored) connected)

module _ (kv : KeyValue) (f : Formats) (l : Lightning f) ⦃pubkey_eq : PartialEq f.PublicKey⦄
    (cmp_pubkey : f.PublicKey → f.PublicKey → Ordering) where
  -- The stored peers of all nodes.
  unfoldable pub all_stored :
      List (Bytes × Node f l) → kv.Store → Outcome MutinyJsError (List (f.PublicKey × Bytes))
  all_stored [] s = ok []
  all_stored ((k, node) ∷ nodes) s =
      unwrap (list_peer_connection_info kv f node.node_id s) >>= λ here.
      all_stored nodes s >>= λ rest. ok (here ++ rest)

  -- `connected` are the identifiers that LDK's peer managers give.
  unfoldable pub list_peers :
      List (Bytes × Node f l)
      → List f.PublicKey
      → kv.Store
      → Outcome MutinyJsError (List (MutinyPeer f.PublicKey))
  unfolding all_stored merge_peers
  list_peers nodes connected s =
      all_stored nodes s >>= λ stored. ok (merge_peers cmp_pubkey connected stored)
