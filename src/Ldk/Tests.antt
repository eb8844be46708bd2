-- ===== src/Ldk/Tests.antt =====
-- A restart with the objects of node-manager/src/ldkstorage.rs at concrete inputs: LDK's objects are
-- their bytes.
use mutiny_web_poc.Prelude.Assoc
use mutiny_web_poc.Prelude.{
  true, none, some, List, [], ◌∷◌, ◌++◌, Bytes, ◌≡◌, refl, codes, partial_eq_bytes,
}
use mutiny_web_poc.Prelude.Outcome.{Outcome, ok, ◌>>>◌}
use mutiny_web_poc.Storage.Local
use mutiny_web_poc.Storage.Encrypt.{
  encrypt, cipher_for, derive_key, open_sealed, slice, split_buffer, decrypt,
}
use mutiny_web_poc.Storage.Local.{open_text, seal_text, write}
use mutiny_web_poc.Storage.Text.{key_matches, starts_with, ends_with, strip_prefix, strip_suffix}
use mutiny_web_poc.Prelude.Assoc
use mutiny_web_poc.Prelude.Lists.{take, drop}
use mathlib.Core.List.{Mem}
use mutiny_web_poc.Storage.Local.Tests.{wallet_store, fresh_store}
use mutiny_web_poc.Storage.Memory.{bytes_serde}
use mutiny_web_poc.Payment.{IoError}
use mutiny_web_poc.Payment.Persister.{get_key}
use mutiny_web_poc.Ldk.{
  monitors_prefix_key, read_channel_monitors, decode_monitors, Codec, persist, read_channel_manager,
  channel_manager_key,
}
use mutiny_web_poc.Ldk.Restart.{persist-read_channel_monitors, persist-restart}

abbrev codec : Codec
codec = record {
  Network = Unit {0};
  NetworkGraph = Bytes;
  Scorer = Bytes;
  Monitor = Bytes;
  ChannelManager = Bytes;
  read_graph = some;
  new_graph = λ hash. hash;
  read_scorer = λ b graph. some b;
  new_scorer = λ graph. graph;
  read_monitor = λ b. some (b, b);
  read_manager = λ b monitors. some b;
  new_manager = λ network hash height. height ∷ hash;
  bytes = bytes_serde;
}

abbrev saved : Outcome IoError (Unit {0}) × wallet_store.Store
saved = persist wallet_store codec (codes "n1") channel_manager_key (codes "mgr") fresh_store

abbrev monitored : Outcome IoError (Unit {0}) × wallet_store.Store
monitored =
    persist wallet_store codec (codes "n1") (monitors_prefix_key ++ codes "op") (codes "mon")
      fresh_store

abbrev restored : List (Bytes × Bytes)
restored = elim (read_channel_monitors wallet_store codec (codes "n1") monitored.1) [
  | ok ms ↦ ms
  | _ ↦ []
]

persist-read_channel_monitors_example : Mem (codes "mon", codes "mon") restored
unfolding persist Local.set ◌>>>◌ encrypt cipher_for derive_key read_channel_monitors Local.scan
    Local.scan_keys Assoc.insert Assoc.remove key_matches starts_with ends_with strip_prefix
    strip_suffix Local.get Assoc.get decrypt split_buffer open_sealed get_key drop take slice
    open_text seal_text write decode_monitors
persist-read_channel_monitors_example =
    persist-read_channel_monitors wallet_store codec (codes "n1") (codes "op") (codes "mon")
      (codes "mon", codes "mon") fresh_store monitored.1 restored refl refl refl

abbrev watched : Outcome IoError (Unit {0}) × wallet_store.Store
watched =
    persist wallet_store codec (codes "n1") (monitors_prefix_key ++ codes "op") (codes "mon")
      saved.1

abbrev together : List (Bytes × Bytes)
together = elim (read_channel_monitors wallet_store codec (codes "n1") watched.1) [
  | ok ms ↦ ms
  | _ ↦ []
]

persist-restart_example :
    Mem (codes "mon", codes "mon") together
    × (read_channel_manager wallet_store codec (codes "n1") tt (some 7) none together watched.1
        ≡ ok (record {
          channel_manager = codes "mgr";
          is_restarting = true;
          channel_monitors = together;
        }))
unfolding persist Local.set ◌>>>◌ encrypt cipher_for derive_key read_channel_monitors Local.scan
    Local.scan_keys Assoc.insert Assoc.remove key_matches starts_with ends_with strip_prefix
    strip_suffix Local.get Assoc.get decrypt split_buffer open_sealed get_key drop take slice
    open_text seal_text write decode_monitors
persist-restart_example =
    persist-restart wallet_store codec (codes "n1") (codes "op") (codes "mon") (codes "mgr")
      (codes "mon", codes "mon") (codes "mgr") together fresh_store saved.1 watched.1 tt (some 7)
      none refl refl refl refl refl
