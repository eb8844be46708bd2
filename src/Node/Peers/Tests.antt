-- ===== src/Node/Peers/Tests.antt =====
-- Connections of node-manager/src/node.rs at concrete inputs.
use mutiny_web_poc.Prelude.Assoc
use mutiny_web_poc.Prelude.{
  false, none, some, [], Bytes, codes, ◌≡◌, refl, inr, ◌⊎◌, partial_eq_bytes,
}
use mutiny_web_poc.Prelude.Assoc.{contains}
use mutiny_web_poc.Prelude.Outcome.{Outcome, ok, err, panic, ◌>>>◌}
use mutiny_web_poc.Storage.Local
use mutiny_web_poc.Storage.Encrypt.{encrypt, cipher_for, derive_key}
use mutiny_web_poc.Storage.Local.Tests.{wallet_store, fresh_store}
use mutiny_web_poc.Errors.{MutinyError}
use mutiny_web_poc.Payment.{IoError}
use mutiny_web_poc.Payment.Sample.{sample_formats}
use mutiny_web_poc.Payment.Persister.{read_peer_connection_info, persist_peer_connection_info}
use mutiny_web_poc.Node.Tests.{sample_lightning, sample_node}
use mutiny_web_poc.Node.Peers.{PubkeyConnectionInfo, mutiny, connect_peer}
use mutiny_web_poc.Node.Peers.Saved.{connect_peer-read}

abbrev peer : PubkeyConnectionInfo Bytes
peer = record {
  pubkey = codes "02a";
  connection_type = mutiny (codes "ws");
  original_connection_string = codes "mutiny:02a@ws";
}

abbrev stored : Outcome IoError (Unit {0}) × wallet_store.Store
stored =
    persist_peer_connection_info wallet_store sample_formats (codes "n1") (codes "02a")
      (codes "mutiny:02a@ws") fresh_store

abbrev dialed : PubkeyConnectionInfo Bytes → Outcome MutinyError (Unit {0})
dialed info = ok tt

connect_peer-read_example :
    ((e : MutinyError) × (dialed peer ≡ err e)
      × (contains (codes "02a") [] ≡ false)
      × (connect_peer wallet_store sample_formats sample_lightning sample_node dialed [] peer
            fresh_store
          ≡ (err e, fresh_store)))
    ⊎ ((dialed peer ≡ panic)
        × (contains (codes "02a") [] ≡ false)
        × (connect_peer wallet_store sample_formats sample_lightning sample_node dialed [] peer
              fresh_store
            ≡ (panic, fresh_store)))
    ⊎ (((connect_peer wallet_store sample_formats sample_lightning sample_node dialed [] peer
            fresh_store).0
          ≡ ok tt)
        × (read_peer_connection_info wallet_store sample_formats
              (codes "n1")
              (codes "02a")
              (connect_peer wallet_store sample_formats sample_lightning sample_node dialed [] peer
                fresh_store).1
            ≡ ok (some (codes "mutiny:02a@ws"))))
unfolding persist_peer_connection_info read_peer_connection_info Local.set ◌>>>◌ encrypt cipher_for
    derive_key Local.get Assoc.get
connect_peer-read_example =
    connect_peer-read wallet_store sample_formats sample_lightning sample_node dialed [] peer none
      fresh_store refl (inr (stored.1, refl))
