-- ===== src/Payment/Persister/Keys.antt =====
-- The keys of payment records in node-manager/src/ldkstorage.rs are apart.
use mutiny_web_poc.Prelude.{
  Bool, true, false, ◌∷◌, ◌++◌, Bytes, ◌==◌, ◌≡◌, ◌≢◌, arith, refl, partial_eq_bytes, bytes_eqb_iff,
  Bool-cases, inl, inr,
}
use mathlib.Core.List.{append_cancel_left, append_cancel_right}
use mutiny_web_poc.Payment.{Formats}
use mutiny_web_poc.Payment.Persister.{record_key, payment_prefix}

-- Records of the two directions never share a key, whatever their hashes and nodes.
pub record_key-direction :
    (f : Formats) (node node' : Bytes) (inbound inbound' : Bool) (hash hash' : Bytes)
    → record_key f node inbound hash ≡ record_key f node' inbound' hash'
    → inbound ≡ inbound'
unfolding record_key
record_key-direction f node node' true true hash hash' h = refl
record_key-direction f node node' false false hash hash' h = refl
record_key-direction f node node' _ _ hash hash' h = absurd (ground arith)

-- Of one node and one direction, the key gives the hash away.
pub record_key_injective :
    (f : Formats) (node : Bytes) (inbound : Bool) (hash hash' : Bytes)
    → record_key f node inbound hash ≡ record_key f node inbound hash'
    → hash ≡ hash'
unfolding record_key
record_key_injective f node inbound hash hash' h = f.to_hex_injective hash hash' (
    append_cancel_left (payment_prefix inbound) (f.to_hex hash) (f.to_hex hash') (
      append_cancel_right (payment_prefix inbound ++ f.to_hex hash)
        (payment_prefix inbound ++ f.to_hex hash') (b'_' ∷ node) h))

pub record_key-ne :
    (f : Formats) (node : Bytes) (hash hash' : Bytes)
    → hash ≢ hash'
    → (inbound : Bool) → (record_key f node inbound hash == record_key f node inbound hash') ≡ false
record_key-ne f node hash hash' apart inbound =
    elim (Bool-cases (record_key f node inbound hash == record_key f node inbound hash')) [
      | inr ne ↦ ne
      | inl eq ↦
          absurd (apart (record_key_injective f node inbound hash hash' ((bytes_eqb_iff _ _).0 eq)))
    ]

pub record_key-ne_direction :
    (f : Formats) (node node' : Bytes) (hash hash' : Bytes) (inbound inbound' : Bool)
    → inbound ≢ inbound'
    → (record_key f node inbound hash == record_key f node' inbound' hash') ≡ false
record_key-ne_direction f node node' hash hash' inbound inbound' apart =
    elim (Bool-cases (record_key f node inbound hash == record_key f node' inbound' hash')) [
      | inr ne ↦ ne
      | inl eq ↦ absurd (
          apart (
            record_key-direction f node node' inbound inbound' hash hash'
              ((bytes_eqb_iff _ _).0 eq)))
    ]
