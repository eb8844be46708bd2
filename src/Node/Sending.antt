-- ===== src/Node/Sending.antt =====
-- What pay_invoice and keysend of node-manager/src/node.rs send, store and return.
use mutiny_web_poc.Prelude.{
  Bool, true, false, some, [], ◌∷◌, ◌++◌, Bytes, ◌≡◌, refl, ◌∙◌, if◌then◌else◌, ap,
}
use mutiny_web_poc.Prelude.Outcome.{Outcome, ok, err, ◌>>>◌, >>>-ok, >>>-keeps}
use mutiny_web_poc.Storage.{KeyValue}
use mutiny_web_poc.Errors.{MutinyError, routing_failed}
use mutiny_web_poc.Payment.{PaymentInfo, HtlcStatus, in_flight, failed, IoError, Formats}
use mutiny_web_poc.Payment.Persister.{persist_payment_info, read_payment_info}
use mutiny_web_poc.Payment.Persister.Records.{read-persist}
use mutiny_web_poc.Node.{Lightning, MutinyInvoice, Node, Payment}
use mutiny_web_poc.Node.Invoices.{NodeWorld, persist, return, send, from_io_error}
use mutiny_web_poc.Node.Payments.{send_and_persist}

module _ (kv : KeyValue) (f : Formats) (l : Lightning f) (node : Node f l)
    (w : NodeWorld kv f l) where
  abbrev pub after : kv.Store → Payment f l → NodeWorld kv f l
  after s payment = record { store = s; payments = w.payments ++ payment ∷ [] }

  persist-payments :
      (convert : IoError → MutinyError) (hash : Bytes) (info : PaymentInfo) (inbound : Bool)
      (v : NodeWorld kv f l)
      → (persist kv f l node convert hash info inbound v).1.payments ≡ v.payments
  unfolding persist
  persist-payments convert hash info inbound v = refl

  persist-from :
      (hash : Bytes) (info : PaymentInfo) (s u : kv.Store) (payment : Payment f l)
      → persist_payment_info kv f node.node_id hash info false s ≡ (ok tt, u)
      → persist kv f l node from_io_error hash info false (after s payment)
        ≡ (ok tt, after u payment)
  unfolding persist
  persist-from hash info s u payment h = rw h refl

  abbrev finish :
      Bool
      → Bytes
      → PaymentInfo
      → MutinyInvoice
      → NodeWorld kv f l
      → Outcome MutinyError MutinyInvoice × NodeWorld kv f l
  finish sent hash info result =
      if sent
      then return kv f l node (ok result)
      else (persist kv f l node from_io_error hash info false >>> λ _.
          return kv f l node (err routing_failed))

  finish-payments :
      (sent : Bool) (hash : Bytes) (info : PaymentInfo) (result : MutinyInvoice)
      (v : NodeWorld kv f l)
      → (finish sent hash info result v).1.payments ≡ v.payments
  unfolding return
  finish-payments true hash info result v = refl
  finish-payments false hash info result v =
      >>>-keeps (λ x. x.payments) (persist kv f l node from_io_error hash info false)
        (λ _. return kv f l node (err routing_failed))
        (persist-payments from_io_error hash info false) (λ _ x. refl) v

  pub sends_once :
      (payment : Payment f l) (hash : Bytes) (info : HtlcStatus → PaymentInfo)
      (result : MutinyInvoice)
      → (send_and_persist kv f l node payment hash info result w).1.payments
        ≡ w.payments ++ payment ∷ []
  unfolding send_and_persist send
  sends_once payment hash info result =
      ap (λ x. x.1.payments)
        (>>>-ok (send kv f l node payment)
          (λ sent. persist kv f l node from_io_error hash (info in_flight) false >>> λ _.
            finish sent hash (info failed) result)
          w (after w.store payment) (node.is_sent payment) refl)
      ∙ >>>-keeps (λ x. x.payments) (persist kv f l node from_io_error hash (info in_flight) false)
          (λ _. finish (node.is_sent payment) hash (info failed) result)
          (persist-payments from_io_error hash (info in_flight) false)
          (λ _. finish-payments (node.is_sent payment) hash (info failed) result)
          (after w.store payment)

  until_stored :
      (payment : Payment f l) (hash : Bytes) (info : HtlcStatus → PaymentInfo)
      (result : MutinyInvoice) (u : kv.Store)
      → persist_payment_info kv f node.node_id hash (info in_flight) false w.store ≡ (ok tt, u)
      → send_and_persist kv f l node payment hash info result w
        ≡ finish (node.is_sent payment) hash (info failed) result (after u payment)
  unfolding send_and_persist send
  until_stored payment hash info result u stored =
      >>>-ok (send kv f l node payment)
        (λ sent. persist kv f l node from_io_error hash (info in_flight) false >>> λ _.
          finish sent hash (info failed) result)
        w (after w.store payment) (node.is_sent payment) refl
      ∙ >>>-ok (persist kv f l node from_io_error hash (info in_flight) false)
          (λ _. finish (node.is_sent payment) hash (info failed) result) (after w.store payment)
          (after u payment) tt (persist-from hash (info in_flight) w.store u payment stored)

  pub send-accepted :
      (payment : Payment f l) (hash : Bytes) (info : HtlcStatus → PaymentInfo)
      (result : MutinyInvoice) (u : kv.Store)
      → persist_payment_info kv f node.node_id hash (info in_flight) false w.store ≡ (ok tt, u)
      → node.is_sent payment ≡ true
      → (send_and_persist kv f l node payment hash info result w ≡ (ok result, after u payment))
        × (read_payment_info kv f node.node_id hash false u ≡ ok (some (info in_flight)))
  unfolding return
  send-accepted payment hash info result u stored sent = (
    until_stored payment hash info result u stored
        ∙ ap (λ b. finish b hash (info failed) result (after u payment)) sent,
    (read-persist kv f node.node_id hash (info in_flight) false w.store u stored).0,
  )

  pub send-refused :
      (payment : Payment f l) (hash : Bytes) (info : HtlcStatus → PaymentInfo)
      (result : MutinyInvoice) (u v : kv.Store)
      → persist_payment_info kv f node.node_id hash (info in_flight) false w.store ≡ (ok tt, u)
      → persist_payment_info kv f node.node_id hash (info failed) false u ≡ (ok tt, v)
      → node.is_sent payment ≡ false
      → (send_and_persist kv f l node payment hash info result w
          ≡ (err routing_failed, after v payment))
        × (read_payment_info kv f node.node_id hash false v ≡ ok (some (info failed)))
  unfolding return
  send-refused payment hash info result u v stored again sent = (
    until_stored payment hash info result u stored
        ∙ ap (λ b. finish b hash (info failed) result (after u payment)) sent
        ∙ >>>-ok (persist kv f l node from_io_error hash (info failed) false)
            (λ _. return kv f l node (err routing_failed)) (after u payment) (after v payment) tt
            (persist-from hash (info failed) u v payment again),
    (read-persist kv f node.node_id hash (info failed) false u v again).0,
  )
