-- ===== src/Manager/Tests.antt =====
-- The node manager of node-manager/src/nodemanager.rs at concrete inputs.
use mutiny_web_poc.Payment.Persister.{list_payment_info, persist_payment_info}
use mutiny_web_poc.Prelude.{
  ℕ, ◌⊎◌, true, false, none, some, List, [], ◌∷◌, ◌++◌, Bytes, ◌≡◌, ◌≢◌, refl, codes, arith,
  partial_eq_bytes,
}
use mutiny_web_poc.Prelude.Assoc
use mutiny_web_poc.Prelude.Outcome.{Outcome, ok, err, panic, map_err, ◌>>>◌}
use mutiny_web_poc.Storage.Local
use mutiny_web_poc.Storage.Local.{Local}
use mutiny_web_poc.Storage.Memory.{memory}
use mutiny_web_poc.Storage.Seed.{NodeIndex, get_nodes, insert_nodes}
use mutiny_web_poc.Manager.Nodes.{NodeManager, create_new_node, next_node}
use mutiny_web_poc.Manager.Numbered.{IsNumbered, create_new_node-IsNumbered}
use mutiny_web_poc.Manager.Sample.{nodes_serde}
use mutiny_web_poc.Storage.Encrypt.{encrypt, cipher_for, derive_key}
use mutiny_web_poc.Storage.Local.Tests.{wallet_store, fresh_store}
use mutiny_web_poc.Errors.{MutinyError, js_from}
use mutiny_web_poc.Errors.Js
use mutiny_web_poc.Errors.Js.{MutinyJsError}
use mutiny_web_poc.Payment.Sample.{sample_formats}
use mutiny_web_poc.Node.{
  Node, testnet, MutinyInvoice, from_invoice, to_msats, currency_from_network,
}
use mutiny_web_poc.Node.Tests.{sample_lightning, sample_node, start, tea}
use mutiny_web_poc.Node.Invoices
use mutiny_web_poc.Node.Invoices.{NodeWorld}
use mutiny_web_poc.Node.Payments
use mutiny_web_poc.Node.Paying.{asked, payments_of}
use mutiny_web_poc.Manager.Invoices.{
  create_invoice, get_invoice, get_invoice_by_hash, list_invoices, pay_invoice, is_currency,
}
use mutiny_web_poc.Manager.Found.{
  get_invoice_by_hash-list_invoices, create_invoice-get_invoice_text,
}
use mutiny_web_poc.Manager.Peers.{MutinyPeer, cmp_bytes, merge_peers}
use mutiny_web_poc.Manager.Paying.{pay_invoice-payments}

abbrev nodes : List (Bytes × Node sample_formats sample_lightning)
nodes = (codes "02a", sample_node) ∷ []

abbrev creation :
    Outcome MutinyJsError MutinyInvoice × NodeWorld wallet_store sample_formats sample_lightning
creation =
    create_invoice wallet_store sample_formats sample_lightning testnet nodes 20 21 (some 3)
      (codes "tea") start

create_invoice-get_invoice_text_example :
    (text : Bytes) × ((from_invoice sample_lightning tea).bolt11 ≡ some text)
    × (get_invoice wallet_store sample_formats sample_lightning testnet nodes text creation.1.store
        ≡ ok (from_invoice sample_lightning tea))
    × (creation.1.payments ≡ [])
unfolding create_invoice ◌>>>◌ Invoices.create_invoice persist_payment_info Local.set encrypt
    cipher_for derive_key from_invoice to_msats
create_invoice-get_invoice_text_example =
    create_invoice-get_invoice_text wallet_store sample_formats sample_lightning testnet nodes 20 21
      (some 3) (codes "tea") start creation.1 (from_invoice sample_lightning tea) refl

get_invoice_by_hash-list_invoices_example :
    get_invoice_by_hash wallet_store sample_formats sample_lightning testnet nodes 20
      (codes "h")
      fresh_store
    ≡ err Js.invoice_invalid
unfolding list_invoices Invoices.list_invoices list_payment_info Local.scan
get_invoice_by_hash-list_invoices_example =
    get_invoice_by_hash-list_invoices wallet_store sample_formats sample_lightning testnet nodes 20
      (codes "h") fresh_store [] refl

pay_invoice-payments_example :
    ((some tea ≡ none)
      × (pay_invoice wallet_store sample_formats sample_lightning testnet nodes 30
            (codes "02a")
            tea
            none
            start
          ≡ (err Js.invoice_invalid, start)))
    ⊎ ((invoice : Bytes) × (some tea ≡ some invoice)
        × (((is_currency (sample_lightning.currency invoice) (currency_from_network testnet)
                ≡ false)
              × (pay_invoice wallet_store sample_formats sample_lightning testnet nodes 30
                    (codes "02a")
                    tea
                    none
                    start
                  ≡ (err Js.incorrect_network, start)))
            ⊎ ((Assoc.get (codes "02a") nodes ≡ none)
                × (pay_invoice wallet_store sample_formats sample_lightning testnet nodes 30
                      (codes "02a")
                      tea
                      none
                      start
                    ≡ (panic, start)))
            ⊎ ((node : Node sample_formats sample_lightning) × (Assoc.get (codes "02a") nodes
                  ≡ some node)
                × (is_currency (sample_lightning.currency invoice) (currency_from_network testnet)
                    ≡ true)
                × ((pay_invoice wallet_store sample_formats sample_lightning testnet nodes 30
                      (codes "02a")
                      tea
                      none
                      start).1.payments
                    ≡ start.payments
                      ++ payments_of sample_lightning (
                          asked sample_lightning invoice
                            (sample_lightning.amount_milli_satoshis invoice)
                            none))
                × (pay_invoice wallet_store sample_formats sample_lightning testnet nodes 30
                      (codes "02a")
                      tea
                      none
                      start
                    ≡ (
                      map_err js_from
                          (Payments.pay wallet_store sample_formats sample_lightning node 30 invoice
                            none start).0,
                      (Payments.pay wallet_store sample_formats sample_lightning node 30 invoice
                          none start).1,
                    )))))
pay_invoice-payments_example =
    pay_invoice-payments wallet_store sample_formats sample_lightning testnet nodes 30 (codes "02a")
      tea none start

-- A node starts with its identifier as its public key.
abbrev start_node : NodeIndex → Outcome MutinyError (Bytes × Unit {0})
start_node index = ok (index.uuid, tt)

abbrev one_node : List (Bytes × NodeIndex)
one_node = (codes "n1", record { uuid = codes "n1"; child_index = 0 }) ∷ []

abbrev wallet : NodeManager memory nodes_serde (Unit {0}) start_node
wallet = record {
  storage = (insert_nodes memory nodes_serde (record { nodes = one_node }) fresh_store).1;
  node_storage = one_node;
  nodes = [];
}

abbrev grown : Local memory
grown =
    (insert_nodes memory nodes_serde
      (record { nodes = Assoc.insert (codes "n2") (next_node (codes "n2") one_node) one_node })
      wallet.storage).1

create_new_node-IsNumbered_example :
    (nodes : List (Bytes × NodeIndex)) × (index : ℕ) × (get_nodes memory nodes_serde
        (create_new_node memory nodes_serde (Unit {0}) start_node (codes "n2") wallet).1.storage
      ≡ ok (record { nodes = nodes }))
    × IsNumbered nodes
    × (Assoc.get (codes "n2") nodes ≡ some (record { uuid = codes "n2"; child_index = index }))
    × ((k : Bytes) → codes "n2" ≢ k → Assoc.get k nodes ≡ Assoc.get k one_node)
    × ((create_new_node memory nodes_serde (Unit {0}) start_node (codes "n2") wallet).1.node_storage
        ≡ nodes)
unfolding get_nodes Assoc.get insert_nodes Assoc.insert
create_new_node-IsNumbered_example =
    create_new_node-IsNumbered memory nodes_serde (Unit {0}) start_node (codes "n2") wallet one_node
      grown refl refl refl (omega arith) ((tt, tt), (omega arith, tt))

abbrev listed_peers : List (MutinyPeer Bytes)
listed_peers =
    merge_peers cmp_bytes (codes "02b" ∷ codes "02c" ∷ [])
      ((codes "02c", codes "02c@h:1") ∷ (codes "02a", codes "02a@h:2") ∷ [])

abbrev pubkeys : List (MutinyPeer Bytes) → List Bytes
pubkeys [] = []
pubkeys (p ∷ ps) = p.pubkey ∷ pubkeys ps

peers_in_order : pubkeys listed_peers ≡ codes "02a" ∷ codes "02b" ∷ codes "02c" ∷ []
unfolding merge_peers
peers_in_order = refl
