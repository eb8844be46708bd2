-- ===== src/Lib.antt =====
-- The parts of mutiny-web that keep a wallet's money and messages straight: the relay through
-- which wallets reach each other, the sockets of a node over it, the encrypted storage in the
-- browser, the two databases on that storage, the events of payments, the invoices and payments
-- of its nodes, the numbering of the nodes, the synchronization with the block chain, the
-- addresses that are dialed, and the errors that reach JavaScript.
--
-- - Prelude: lists, byte strings, association lists for the hash maps, and Outcome for a Rust
--   function that returns, fails or panics. An Action keeps what was written before a failure.
-- - Relay: ln-websocket-proxy/src/main.rs and lib.rs, the handler of /v1/mutiny. A handler task
--   goes by a number, which stands for its channel and its broadcast in the map of identifiers. A
--   turn of a task is a function on the server (open_ws, on_socket, on_channel, listener_fires),
--   and Step lets the environment choose the turns. Valid, Turns, Routing, Takeover and Deadlock
--   hold the proofs.
-- - Socket: node-manager/src/socket.rs. A subsocket goes by a number, for the channel and the
--   stop flag that its clones share. on_read is the connection reader of listen, forward_pending
--   its channel reader, descriptor_turn a reader of schedule_descriptor_read. Demux, Closing,
--   Valid and Turns hold the proofs.
-- - Storage: Encrypt is node-manager/src/encrypt.rs, Local is localstorage.rs, Text the functions
--   on strings that they and their clients call, Seed the mnemonic and the nodes of
--   localstorage.rs, Memory a browser and a cipher at which the assumptions hold. KeyValue is
--   what the clients rely on, and Local.Laws shows that localstorage.rs keeps it.
-- - Bdk: node-manager/src/bdkstorage.rs over KeyValue. Key is MapKey, Database the traits
--   BatchOperations and Database.
-- - Payment: the records of node-manager/src/event.rs, Persister for payments and peers in
--   ldkstorage.rs over KeyValue, Events for handle_event, Sample a printer of records for the
--   tests.
-- - Node: the invoices and payments of node-manager/src/node.rs over Payment's records, and
--   connections. Invoices is create_invoice, get_invoice and list_invoices, Payments pay_invoice
--   and keysend; a method acts on the store and on the list of payments that LDK was asked for.
--   Created, Sending, Paying and Listed hold the proofs. Peers is PubkeyConnectionInfo and both
--   functions connect_peer, that of Node for any answer of the other, over the strings that
--   Payment.Persister stores, and Peers.Saved its proofs.
-- - Manager: node-manager/src/nodemanager.rs. Nodes is the seed and
--   create_new_node_from_node_manager over Storage.Seed, Invoices the calls on invoices and
--   payments over Node, Peers the list of peers, Connections the calls on a peer, Channels the
--   channels and balances, Onchain the addresses. Numbered, Found, Paying, Merged, Closing and
--   Balances hold the proofs, Sample a text form of the list of nodes for the tests.
-- - Chain: node-manager/src/chain.rs. Sync and Loop are MutinyChain::sync and what it calls;
--   every call of the block explorer has a number, by which its answers may change, and LDK's
--   objects may register transactions at every notice. Tracked, Asking, Kept, Ending, Steady,
--   Rounds, Ends and Order hold the proofs, Fees is the fee estimator.
-- - Ldk: what node-manager/src/ldkstorage.rs persists and reads for LDK, over KeyValue. Restart
--   holds the proofs.
-- - Wallet: node-manager/src/wallet.rs and the two calls of nodemanager.rs that send from it,
--   with bdk as a record of its answers. The state is the list of broadcast transactions. Sends
--   holds the proofs.
-- - Errors: node-manager/src/error.rs.
-- - Address: parse_peer_info of node-manager/src/node.rs, the URLs of proxy.rs, and
--   format_addr_from_url of the relay.
--
-- Numbers are natural numbers. The index that bdkstorage.rs counts is taken modulo 2 ^ 32, and
-- the sleep of event.rs likewise. The channel of a relay handler holds 32 commands, as in the
-- code; the channels of subsockets have no bound. Amounts are 64-bit numbers whose products wrap
-- around, as in a release build. The loop of MutinyChain::sync has no bound of its own and runs
-- on fuel, one unit for a round; with a steady explorer and an LDK that registers nothing two
-- rounds are enough. All other loops recur on the list that the code iterates over.
--
-- Parameters stand for code outside the repository: the JSON and hex of the wire, the cipher,
-- hash and base64 of encrypt.rs, the browser's storage, the encodings of bitcoin types, the
-- answers of LDK, and the peer manager. Their laws are that what was printed is read back, what
-- was sealed is opened, and what was stored is found until it is overwritten or deleted. tokio
-- and crossbeam channels, hash maps and locks are modelled by their documented behaviour. A turn
-- of the relay that would wait for room in a channel is blocked and is no step.
--
-- Not modelled: the TCP tunnel of the proxy, the fee estimates in localstorage.rs, starting a
-- node and its sockets in node.rs, list_onchain and the calls of nodemanager.rs that only pass
-- values on, the constructor and the synchronization of wallet.rs, and the files invoice.rs and
-- background.rs, which are adapted copies of LDK's, most of keymanager.rs and peermanager.rs of
-- node-manager/src, which mostly call LDK, bdk and the browser. Log lines are left out. A call
-- that lists invoices reads the clock for each node and direction; here it is one time. The
-- transactions that sort_unstable_by takes for equal stay in their order here.
pub mod Prelude
pub mod Relay
pub mod Storage
pub mod Bdk
pub mod Payment
pub mod Socket
pub mod Errors
pub mod Address
pub mod Node
pub mod Manager
pub mod Chain
pub mod Ldk
pub mod Wallet
