-- ===== src/Ldk/Restart.antt =====
-- What LDK's objects of node-manager/src/ldkstorage.rs are after a restart.
use mutiny_web_poc.Prelude.{
  ℕ, true, false, Option, some, List, [], ◌∷◌, ◌++◌, Bytes, ◌==◌, ◌≡◌, refl, sym, ap, ◌∙◌, arith,
  partial_eq_bytes, Bool-cases, inl, inr,
}
use mathlib.Core.List.{append_assoc, Mem, mem-cons_self, mem-cons_of_mem}
use mutiny_web_poc.Prelude.Assoc
use mutiny_web_poc.Prelude.Outcome.{Outcome, ok, err, panic, >>=-eq-ok, map_err, unwrap}
use mutiny_web_poc.Storage.{KeyValue, MutinyStorageError}
use mutiny_web_poc.Storage.Text.{key_matches, key_matches-both}
use mutiny_web_poc.Payment.{other_error}
use mutiny_web_poc.Payment.Persister.{get_key}
use mutiny_web_poc.Ldk.{
  Codec, persist, read_value, decode_monitor, decode_monitors, read_channel_monitors,
  read_channel_manager, channel_manager_key, monitors_prefix_key, InvalidData,
}

module _ (kv : KeyValue) (c : Codec) (node_id : Bytes) where
  map_err-ok :
      (r : Outcome MutinyStorageError (Unit {0})) → map_err other_error r ≡ ok tt → r ≡ ok tt
  map_err-ok (ok a) h = ground arith
  map_err-ok (err e) h = absurd (ground arith)
  map_err-ok panic h = absurd (ground arith)

  persist-set :
      (key encoded : Bytes) (s u : kv.Store)
      → persist kv c node_id key encoded s ≡ (ok tt, u)
      → kv.set Bytes c.bytes (get_key node_id key) encoded s ≡ (ok tt, u)
  unfolding persist
  persist-set key encoded s u h =
      ground (arith, map_err-ok (kv.set Bytes c.bytes (get_key node_id key) encoded s).0)

  -- A channel manager that was persisted, and whose bytes LDK reads with the monitors, is the
  -- manager after a restart, with the monitors given and without a call of the explorer; after the
  -- record of another key was persisted it still is.
  pub persist-read_channel_manager :
      (encoded : Bytes) (manager : c.ChannelManager) (monitors : List (Bytes × c.Monitor))
      (s u : kv.Store) (network : c.Network) (height : Option ℕ) (hash : Option Bytes)
      (key other : Bytes)
      → persist kv c node_id channel_manager_key encoded s ≡ (ok tt, u)
      → c.read_manager encoded monitors ≡ some manager
      → (get_key node_id key == get_key node_id channel_manager_key) ≡ false
      → (read_channel_manager kv c node_id network height hash monitors u
          ≡ ok (record {
            channel_manager = manager;
            is_restarting = true;
            channel_monitors = monitors;
          }))
        × (read_channel_manager kv c node_id network height hash monitors
              (persist kv c node_id key other u).1
            ≡ ok (record {
              channel_manager = manager;
              is_restarting = true;
              channel_monitors = monitors;
            }))
  unfolding read_channel_manager read_value persist
  persist-read_channel_manager encoded manager monitors s u network height hash key other h reads
        apart =
      let put = persist-set channel_manager_key encoded s u h in
      let got =
        kv.get-set_self Bytes c.bytes (get_key node_id channel_manager_key) encoded s u put in
      (
        rw (read_channel_manager, read_value, got, reads) refl,
        rw
            (
              read_channel_manager,
              read_value,
              kv.get-set_other Bytes Bytes c.bytes c.bytes (get_key node_id key)
                  (get_key node_id channel_manager_key) other u apart,
              got,
              reads,
            )
            refl,
      )

  -- Where the storage answers with any error for the manager, also for one that is stored but cannot
  -- be decrypted, and the explorer gives a height and a hash, the node starts with a new manager.
  pub read_channel_manager-fresh :
      (e : MutinyStorageError) (monitors : List (Bytes × c.Monitor)) (s : kv.Store)
      (network : c.Network) (height : ℕ) (hash : Bytes)
      → kv.get Bytes c.bytes (get_key node_id channel_manager_key) s ≡ err e
      → read_channel_manager kv c node_id network (some height) (some hash) monitors s
        ≡ ok (record {
          channel_manager = c.new_manager network hash height;
          is_restarting = false;
          channel_monitors = monitors;
        })
  unfolding read_channel_manager read_value
  read_channel_manager-fresh e monitors s network height hash h =
      rw (read_channel_manager, read_value, h) refl

  decode_monitors-mem :
      (list : List (Bytes × Bytes)) (ms : List (Bytes × c.Monitor)) (k buffer : Bytes)
      (monitor : Bytes × c.Monitor)
      → Assoc.get k list ≡ some buffer
      → c.read_monitor buffer ≡ some monitor
      → decode_monitors kv c node_id list ≡ ok ms
      → Mem monitor ms
  unfolding Assoc.get decode_monitors
  decode_monitors-mem [] ms k buffer monitor got reads h = absurd (ground arith)
  decode_monitors-mem ((j, d) ∷ list) ms k buffer monitor got reads h =
      let (m, first, h1) = >>=-eq-ok (decode_monitor kv c node_id d) _ h in
      let (rest, tail, h2) = >>=-eq-ok (decode_monitors kv c node_id list) _ h1 in
      let whole : ms ≡ m ∷ rest = ground arith in
      rw whole (elim (Bool-cases (j == k)) [
        | inl eq ↦
            let value : d ≡ buffer = ground arith in
            let decoded : decode_monitor kv c node_id buffer ≡ ok monitor =
              rw (decode_monitor, reads) refl in
            let here : m ≡ monitor =
              ground (arith, first, decoded, ap (decode_monitor kv c node_id) value) in
            rw here mem-cons_self
        | inr ne ↦
            mem-cons_of_mem m
              (decode_monitors-mem list rest k buffer monitor (ground arith) reads tail)
      ])

  matches-monitor_key :
      (name : Bytes)
      → key_matches monitors_prefix_key
          (some node_id)
          (get_key node_id (monitors_prefix_key ++ name))
        ≡ true
  unfolding get_key
  matches-monitor_key name =
      key_matches-both monitors_prefix_key (name ++ (b'_' ∷ node_id)) node_id _
        (append_assoc monitors_prefix_key name (b'_' ∷ node_id))
        ((monitors_prefix_key ++ name) ++ (b'_' ∷ []))
        (sym (append_assoc (monitors_prefix_key ++ name) (b'_' ∷ []) node_id))

  unwrap-ok :
      (r : Outcome MutinyStorageError (List (Bytes × Bytes))) (m : List (Bytes × Bytes))
      → unwrap {F = InvalidData} r ≡ ok m
      → r ≡ ok m
  unwrap-ok (ok a) m h = ground arith
  unwrap-ok (err e) m h = absurd (ground arith)
  unwrap-ok panic m h = absurd (ground arith)

  -- A monitor that was persisted under a name, and whose bytes LDK reads, is among the monitors that
  -- a restart reads, if it can read them all.
  pub persist-read_channel_monitors :
      (name encoded : Bytes) (monitor : Bytes × c.Monitor) (s u : kv.Store)
      (ms : List (Bytes × c.Monitor))
      → persist kv c node_id (monitors_prefix_key ++ name) encoded s ≡ (ok tt, u)
      → c.read_monitor encoded ≡ some monitor
      → read_channel_monitors kv c node_id u ≡ ok ms
      → Mem monitor ms
  unfolding read_channel_monitors
  persist-read_channel_monitors name encoded monitor s u ms h reads all =
      let key : Bytes = get_key node_id (monitors_prefix_key ++ name) in
      let (list, scanned, decoded) =
        >>=-eq-ok (unwrap (kv.scan Bytes c.bytes monitors_prefix_key (some node_id) u))
          (decode_monitors kv c node_id) all in
      let scan =
        unwrap-ok (kv.scan Bytes c.bytes monitors_prefix_key (some node_id) u) list scanned in
      let got : Assoc.get key list ≡ some encoded =
        kv.scan-matches Bytes c.bytes monitors_prefix_key (some node_id) u list key scan
          (matches-monitor_key name)
        ∙ rw
            (kv.get-set_self Bytes c.bytes key encoded s u
              (persist-set (monitors_prefix_key ++ name) encoded s u h))
            refl in
      decode_monitors-mem list ms key encoded monitor got reads decoded

  apart-monitor_key :
      (name : Bytes)
      → (get_key node_id (monitors_prefix_key ++ name) == get_key node_id channel_manager_key)
        ≡ false
  unfolding get_key
  apart-monitor_key name = refl

  -- After a channel manager and then a channel monitor, under any name, were persisted: where the
  -- monitors can be read, and LDK reads the bytes of both, the monitor is among the monitors, and
  -- the manager that is read with these is the one that was persisted, as a restarted one; what the
  -- explorer answers makes no difference.
  pub persist-restart :
      (name buffer encoded : Bytes) (monitor : Bytes × c.Monitor) (manager : c.ChannelManager)
      (ms : List (Bytes × c.Monitor)) (s u v : kv.Store) (network : c.Network) (height : Option ℕ)
      (hash : Option Bytes)
      → persist kv c node_id channel_manager_key encoded s ≡ (ok tt, u)
      → persist kv c node_id (monitors_prefix_key ++ name) buffer u ≡ (ok tt, v)
      → read_channel_monitors kv c node_id v ≡ ok ms
      → c.read_monitor buffer ≡ some monitor
      → c.read_manager encoded ms ≡ some manager
      → Mem monitor ms
        × (read_channel_manager kv c node_id network height hash ms v
            ≡ ok
                (record { channel_manager = manager; is_restarting = true; channel_monitors = ms }))
  persist-restart name buffer encoded monitor manager ms s u v network height hash stored watched
        all reads_monitor reads =
      (
        persist-read_channel_monitors name buffer monitor u v ms watched reads_monitor all,
        ap (λ t. read_channel_manager kv c node_id network height hash ms t)
              (sym (ap (λ r. r.1) watched))
            ∙ (persist-read_channel_manager encoded manager ms s u network height hash
                (monitors_prefix_key ++ name) buffer stored reads (apart-monitor_key name)).1,
      )
