-- ===== src/Wallet/Tests.antt =====
-- The wallet of node-manager/src/wallet.rs at concrete inputs.
use mutiny_web_poc.Prelude.{ℕ, true, some, [], ◌∷◌, Bytes, codes, ◌≡◌, refl, ◌⊎◌}
use mutiny_web_poc.Prelude.Outcome.{◌>>>◌, ok}
use mutiny_web_poc.Node.{testnet}
use mutiny_web_poc.Wallet.{Bdk, add_recipient, drain_to, Recipient, send_to_address}
use mutiny_web_poc.Wallet.Sends.{Sends, send_to_address-Sends}

abbrev script_of : Recipient → Bytes
script_of (add_recipient script amount) = amount ∷ script
script_of (drain_to script) = script

-- A transaction is the script that it pays, an address its text.
abbrev sample : Bdk
sample = record {
  Address = Bytes;
  Rate = ℕ;
  FeeRate = ℕ;
  Psbt = Bytes;
  Tx = Bytes;
  Details = Bytes;
  network = testnet;
  address_from_str = some;
  address_network = λ a. testnet;
  script_pubkey = λ a. a;
  from_sat_per_vb = some;
  estimate_fee = λ n. ok n;
  build_tx = λ recipient rate. ok (script_of recipient);
  sign = λ psbt. ok (psbt, true);
  extract_tx = λ psbt. psbt;
  txid = λ tx. tx;
  broadcast = λ tx. ok tt;
  list_transactions = λ raw. ok [];
  details_txid = λ d. d;
}

send_to_address-Sends_example :
    ((send_to_address sample testnet (codes "tb1q") 7 (some 2) []).1 ≡ [])
    ⊎ Sends sample testnet
        (codes "tb1q")
        (λ script. add_recipient script 7)
        []
        (send_to_address sample testnet (codes "tb1q") 7 (some 2) []).1
send_to_address-Sends_example = send_to_address-Sends sample testnet (codes "tb1q") 7 (some 2) []

pays : (send_to_address sample testnet (codes "tb1q") 7 (some 2) []).1 ≡ (7 ∷ codes "tb1q") ∷ []
unfolding send_to_address ◌>>>◌
pays = refl
