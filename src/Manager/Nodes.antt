-- ===== src/Manager/Nodes.antt =====
-- The seed and the nodes of a wallet: generate_seed of node-manager/src/keymanager.rs, NodeManager::new
-- and create_new_node_from_node_manager of nodemanager.rs.
use mutiny_web_poc.Prelude.{
  ℕ, ◌+◌, ◌%◌, ◌^◌, Option, none, some, List, [], ◌∷◌, Bytes, leb, if◌then◌else◌, partial_eq_bytes,
  ◌==◌, partial_eq_nat,
}
use mutiny_web_poc.Prelude.Assoc
use mutiny_web_poc.Prelude.Outcome.{Outcome, ok, err, panic, Action, ◌>>=◌, ◌>>>◌, map_err, unwrap}
use mutiny_web_poc.Storage.{Serde}
use mutiny_web_poc.Storage.Encrypt.{Crypto}
use mutiny_web_poc.Storage.Local.{Browser, Local}
use mutiny_web_poc.Storage.Seed.{
  Bip39, NodeIndex, NodeStorage, insert_mnemonic, get_mnemonic, get_nodes, insert_nodes,
}
use mutiny_web_poc.Errors.{
  MutinyError, persistence_failed, read_error, seed_generation_failed, invalid_mnemonic, js_from,
}
use mutiny_web_poc.Errors.Js.{MutinyJsError}

-- `v.child_index + 1` of a `u32`, which wraps around, and 0 where there are no nodes. Of the nodes
-- that `max_by_key` may choose from only the index is read.
unfoldable pub max_child_index : List (Bytes × NodeIndex) → ℕ
max_child_index [] = 0
max_child_index ((k, v) ∷ m) =
    let rest = max_child_index m in if leb rest v.child_index then v.child_index else rest

unfoldable pub next_node_index : List (Bytes × NodeIndex) → ℕ
unfolding max_child_index
next_node_index [] = 0
next_node_index (n ∷ m) = (max_child_index (n ∷ m) + 1) % 2 ^ 32

-- The new node under the next index.
abbrev pub next_node : Bytes → List (Bytes × NodeIndex) → NodeIndex
next_node uuid existing = record { uuid = uuid; child_index = next_node_index existing }

-- `NodeIdentity`
pub record NodeIdentity : Type 0 where
  pub uuid : Bytes
  pub pubkey : Bytes

module _ (b : Browser) (c : Serde NodeStorage) (Node : Type 0)
    (start : NodeIndex → Outcome MutinyError (Bytes × Node)) where
  -- The browser's storage, and the two maps of the manager. `start` is Node::new, with the text of
  -- the new node's public key.
  pub record NodeManager : Type 0 where
    pub storage : Local b
    pub node_storage : List (Bytes × NodeIndex)
    pub nodes : List (Bytes × Node)

  abbrev pub Managed {ℓ} : Type ℓ → Type ℓ
  Managed A = Action MutinyError NodeManager A

  unfoldable pub read_nodes : Managed (List (Bytes × NodeIndex))
  read_nodes m = (map_err read_error (get_nodes b c m.storage) >>= λ existing. ok existing.nodes, m)

  -- The list with the new node is stored in the browser, and then kept.
  unfoldable pub store_nodes : List (Bytes × NodeIndex) → Managed (Unit {0})
  store_nodes nodes m =
      let r = insert_nodes b c (record { nodes = nodes }) m.storage in
      (map_err persistence_failed r.0, record m { storage = r.1 })

  unfoldable pub keep_nodes : List (Bytes × NodeIndex) → Managed (Unit {0})
  keep_nodes nodes m = (ok tt, record m { node_storage = nodes })

  unfoldable pub start_node : NodeIndex → Managed NodeIdentity
  start_node index m = elim (start index) [
    | ok (pubkey, node) ↦ (
      ok (record { uuid = index.uuid; pubkey = pubkey }),
      record m { nodes = Assoc.insert pubkey node m.nodes },
    )
    | err e ↦ (err e, m)
    | panic ↦ (panic, m)
  ]

  -- The text of the new identifier is `Uuid::new_v4`'s answer.
  unfoldable pub create_new_node : Bytes → Managed NodeIdentity
  unfolding read_nodes store_nodes keep_nodes start_node next_node_index
  create_new_node uuid = read_nodes >>> λ existing.
      store_nodes (Assoc.insert uuid (next_node uuid existing) existing) >>> λ _.
      keep_nodes (Assoc.insert uuid (next_node uuid existing) existing) >>> λ _.
      start_node (next_node uuid existing)

  -- The nodes that are stored are started one after the other, under their public keys; the first
  -- that fails ends the start.
  unfoldable pub start_nodes :
      List (Bytes × NodeIndex) → List (Bytes × Node) → Outcome MutinyError (List (Bytes × Node))
  start_nodes [] nodes_map = ok nodes_map
  start_nodes ((k, index) ∷ rest) nodes_map =
      start index >>= λ r. start_nodes rest (Assoc.insert r.0 r.1 nodes_map)

module _ (b : Browser) (x : Crypto) (password : Bytes) (p : Bip39) where
  -- A mnemonic of as many bytes, where `getrandom` and bip39 give one.
  unfoldable pub generate_seed : (ℕ → Option p.Mnemonic) → ℕ → Outcome MutinyError p.Mnemonic
  generate_seed random num_words =
      if num_words == 12
      then seed (random 16)
      else if num_words == 24
      then seed (random 32)
      else err seed_generation_failed
    where
      seed : Option p.Mnemonic → Outcome MutinyError p.Mnemonic
      seed none = err seed_generation_failed
      seed (some m) = ok m

  -- A mnemonic is stored; an error of the storage is a panic inside.
  unfoldable pub keep_mnemonic : p.Mnemonic → Local b → Outcome MutinyJsError p.Mnemonic × Local b
  keep_mnemonic m s =
      (unwrap (insert_mnemonic b x password p m s).0, (insert_mnemonic b x password p m s).1)

  unfoldable pub first_mnemonic :
      Outcome MutinyError p.Mnemonic → Local b → Outcome MutinyJsError p.Mnemonic × Local b
  unfolding keep_mnemonic
  first_mnemonic (ok seed) s = keep_mnemonic seed s
  first_mnemonic (err e) s = (err (js_from e), s)
  first_mnemonic panic s = (panic, s)

  -- The mnemonic of NodeManager::new: the given one, the stored one, or a new one of 12 words.
  unfoldable pub choose_mnemonic :
      (ℕ → Option p.Mnemonic) → Option Bytes → Local b → Outcome MutinyJsError p.Mnemonic × Local b
  unfolding keep_mnemonic first_mnemonic generate_seed
  choose_mnemonic random (some m) s = elim (p.from_str m) [
    | none ↦ (err (js_from invalid_mnemonic), s)
    | some seed ↦ keep_mnemonic seed s
  ]
  choose_mnemonic random none s = elim (get_mnemonic b x password p s) [
    | ok mnemonic ↦ (ok mnemonic, s)
    | err e ↦ first_mnemonic (generate_seed random 12) s
    | panic ↦ (panic, s)
  ]
