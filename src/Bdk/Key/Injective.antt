-- ===== src/Bdk/Key/Injective.antt =====
-- Keys of node-manager/src/bdkstorage.rs that store a value are told apart by their text.
use mutiny_web_poc.Prelude.{
  partial_eq_bytes, bytes_eqb_iff, Bool-cases, inl, inr, bytes_eqb_iff, inl, inr, Bool-cases, false,
  ◌==◌, ◌≢◌, ℕ, ◌^◌, ◌<◌, some, none, [], ◌∷◌, ◌++◌, ◌≡◌, refl, ap, arith, Bytes,
}
use mutiny_web_poc.Bdk.Key.{
  Bitcoin, MapKey, path, script, utxo, raw_tx, transaction, last_index, sync_time,
  descriptor_checksum, to_be_bytes, as_prefix, serialize_content, as_map_key,
}

-- A key of one value: every part is given, and a path is a `u32`.
abbrev pub IsFull : (x : Bitcoin) → MapKey x → Type 0
IsFull x (path (some st) (some child)) = child < 2 ^ 32
IsFull x (path st child) = ⊥
IsFull x (script (some s)) = Unit {0}
IsFull x (script none) = ⊥
IsFull x (utxo (some o)) = Unit {0}
IsFull x (utxo none) = ⊥
IsFull x (raw_tx (some t)) = Unit {0}
IsFull x (raw_tx none) = ⊥
IsFull x (transaction (some t)) = Unit {0}
IsFull x (transaction none) = ⊥
IsFull x (last_index st) = Unit {0}
IsFull x sync_time = Unit {0}
IsFull x (descriptor_checksum st) = Unit {0}

to_be_bytes_injective : (a b : ℕ) → a < 2 ^ 32 → b < 2 ^ 32 → to_be_bytes a ≡ to_be_bytes b → a ≡ b
unfolding to_be_bytes
to_be_bytes_injective a b p q h = ground arith

abbrev head : Bytes → ℕ
head [] = 0
head (c ∷ k) = c

-- The bytes of a key before they become hex digits.
abbrev raw : (x : Bitcoin) → MapKey x → Bytes
raw x k = as_prefix x k ++ serialize_content x k

raw_injective : (x : Bitcoin) (a b : MapKey x) → IsFull x a → IsFull x b → raw x a ≡ raw x b → a ≡ b
unfolding as_prefix serialize_content
raw_injective x (path (some st) (some c)) (path (some st') (some c')) fa fb h =
    ground (arith, x.as_byte_injective st st', to_be_bytes_injective c c' fa fb)
raw_injective x (script (some s)) (script (some s')) fa fb h =
    ground (arith, x.serialize_script_injective s s')
raw_injective x (utxo (some o)) (utxo (some o')) fa fb h =
    ground (arith, x.serialize_outpoint_injective o o')
raw_injective x (raw_tx (some t)) (raw_tx (some t')) fa fb h =
    ground (arith, x.serialize_txid_injective t t')
raw_injective x (transaction (some t)) (transaction (some t')) fa fb h =
    ground (arith, x.serialize_txid_injective t t')
raw_injective x (last_index st) (last_index st') fa fb h =
    ground (arith, x.as_byte_injective st st', x.as_ref-as_byte st, x.as_ref-as_byte st')
raw_injective x sync_time sync_time fa fb h = refl
raw_injective x (descriptor_checksum st) (descriptor_checksum st') fa fb h =
    ground (arith, x.as_byte_injective st st', x.as_ref-as_byte st, x.as_ref-as_byte st')
raw_injective x _ _ fa fb h = absurd (ground (arith, ap head h))

-- Two keys of one value each (every part given, a path a `u32`) that have the same text are the
-- same key.
pub as_map_key_injective :
    (x : Bitcoin) (a b : MapKey x)
    → IsFull x a
    → IsFull x b
    → as_map_key x a ≡ as_map_key x b
    → a ≡ b
unfolding as_map_key
as_map_key_injective x a b fa fb h = raw_injective x a b fa fb (x.to_hex_injective _ _ h)

-- So a write under one key leaves what stands under another.
pub as_map_key-ne :
    (x : Bitcoin) (a b : MapKey x)
    → IsFull x a
    → IsFull x b
    → a ≢ b
    → (as_map_key x a == as_map_key x b) ≡ false
as_map_key-ne x a b fa fb apart = elim (Bool-cases (as_map_key x a == as_map_key x b)) [
  | inr ne ↦ ne
  | inl eq ↦ absurd (apart (as_map_key_injective x a b fa fb ((bytes_eqb_iff _ _).0 eq)))
]
