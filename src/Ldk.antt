-- ===== src/Ldk.antt =====
-- What `MutinyNodePersister` of node-manager/src/ldkstorage.rs keeps for LDK: the channel manager,
-- the channel monitors, the network graph and the scorer.
pub mod Restart
pub mod Tests
use mutiny_web_poc.Prelude.{
  ℕ, Bool, true, false, Option, none, some, List, [], ◌∷◌, ◌++◌, Bytes, codes, ◌≡◌,
}
use mutiny_web_poc.Prelude.Outcome.{Outcome, ok, err, panic, Action, ◌>>=◌, map_err, unwrap}
use mutiny_web_poc.Storage
use mutiny_web_poc.Storage.{Serde, KeyValue, MutinyStorageError}
use mutiny_web_poc.Errors.{MutinyError, read_error, chain_access_failed}
use mutiny_web_poc.Payment.{IoError, other_error}
use mutiny_web_poc.Payment.Persister.{get_key}

abbrev pub network_key : Bytes
network_key = codes "network"

abbrev pub prob_scorer_key : Bytes
prob_scorer_key = codes "prob_scorer"

abbrev pub channel_manager_key : Bytes
channel_manager_key = codes "manager"

abbrev pub monitors_prefix_key : Bytes
monitors_prefix_key = codes "monitors/"

-- LDK's objects, how it reads them from bytes, and the ones that it starts with. A monitor comes
-- with the hash of its block. A manager is read with the node's monitors, and started at a block.
pub record Codec : Type 1 where
  pub Network : Type 0
  pub NetworkGraph : Type 0
  pub Scorer : Type 0
  pub Monitor : Type 0
  pub ChannelManager : Type 0
  pub read_graph : Bytes → Option NetworkGraph
  pub new_graph : Bytes → NetworkGraph
  pub read_scorer : Bytes → NetworkGraph → Option Scorer
  pub new_scorer : NetworkGraph → Scorer
  pub read_monitor : Bytes → Option (Bytes × Monitor)
  pub read_manager : Bytes → List (Bytes × Monitor) → Option ChannelManager
  pub new_manager : Network → Bytes → ℕ → ChannelManager
  pub bytes : Serde Bytes

-- `io::ErrorKind::InvalidData`
pub data InvalidData : Type 0 where
  invalid_data : InvalidData

-- `ReadChannelManager`
pub record ReadChannelManager (c : Codec) : Type 0 where
  pub channel_manager : c.ChannelManager
  pub is_restarting : Bool
  pub channel_monitors : List (Bytes × c.Monitor)

module _ (kv : KeyValue) (c : Codec) (node_id : Bytes) where
  -- `KVStorePersister::persist`, of an object's bytes.
  unfoldable pub persist : Bytes → Bytes → Action IoError kv.Store (Unit {0})
  persist key encoded s =
      let r = kv.set Bytes c.bytes (get_key node_id key) encoded s in (map_err other_error r.0, r.1)

  unfoldable pub read_value : Bytes → kv.Store → Outcome MutinyError Bytes
  read_value key s = map_err read_error (kv.get Bytes c.bytes (get_key node_id key) s)

  -- What was read, or a new object where nothing was read or it cannot be decoded.
  unfoldable pub or_new :
      {A : Type 0} → (Bytes → Option A) → A → Outcome MutinyError Bytes → Outcome MutinyError A
  or_new read new (ok kv_value) = elim (read kv_value) [ some a ↦ ok a | none ↦ ok new ]
  or_new read new (err e) = ok new
  or_new read new panic = panic

  unfoldable pub read_network_graph : Bytes → kv.Store → Outcome MutinyError c.NetworkGraph
  unfolding or_new read_value
  read_network_graph genesis_hash s =
      or_new c.read_graph (c.new_graph genesis_hash) (read_value network_key s)

  unfoldable pub read_scorer : c.NetworkGraph → kv.Store → Outcome MutinyError c.Scorer
  unfolding or_new read_value
  read_scorer graph s =
      or_new (λ b. c.read_scorer b graph) (c.new_scorer graph) (read_value prob_scorer_key s)

  abbrev pub decode_monitor : Bytes → Outcome InvalidData (Bytes × c.Monitor)
  decode_monitor buffer = elim (c.read_monitor buffer) [
    | some monitor ↦ ok monitor
    | none ↦ err invalid_data
  ]

  -- The monitors of a map; the first that cannot be decoded is an error.
  unfoldable pub decode_monitors :
      List (Bytes × Bytes) → Outcome InvalidData (List (Bytes × c.Monitor))
  decode_monitors [] = ok []
  decode_monitors ((k, buffer) ∷ list) =
      decode_monitor buffer >>= λ monitor. decode_monitors list >>= λ rest. ok (monitor ∷ rest)

  unfoldable pub read_channel_monitors : kv.Store → Outcome InvalidData (List (Bytes × c.Monitor))
  unfolding decode_monitors
  read_channel_monitors s =
      unwrap (kv.scan Bytes c.bytes monitors_prefix_key (some node_id) s) >>= decode_monitors

  -- A stored manager, read with the monitors.
  abbrev pub stored_manager :
      Option c.ChannelManager
      → List (Bytes × c.Monitor)
      → Outcome MutinyError (ReadChannelManager c)
  stored_manager none channel_monitors = err (read_error Storage.other)
  stored_manager (some manager) channel_monitors = ok (record {
    channel_manager = manager;
    is_restarting = true;
    channel_monitors = channel_monitors;
  })

  -- A new manager, where the explorer gives the height and the hash of the tip.
  abbrev pub fresh_manager :
      c.Network
      → Option ℕ
      → Option Bytes
      → List (Bytes × c.Monitor)
      → Outcome MutinyError (ReadChannelManager c)
  fresh_manager network (some height) (some hash) channel_monitors = ok (record {
    channel_manager = c.new_manager network hash height;
    is_restarting = false;
    channel_monitors = channel_monitors;
  })
  fresh_manager network _ _ channel_monitors = err chain_access_failed

  unfoldable pub read_channel_manager :
      c.Network
      → Option ℕ
      → Option Bytes
      → List (Bytes × c.Monitor)
      → kv.Store
      → Outcome MutinyError (ReadChannelManager c)
  unfolding read_value
  read_channel_manager network height hash channel_monitors s =
      elim (read_value channel_manager_key s) [
        | ok kv_value ↦ stored_manager (c.read_manager kv_value channel_monitors) channel_monitors
        | err e ↦ fresh_manager network height hash channel_monitors
        | panic ↦ panic
      ]
