-- ===== src/Manager/Paying.antt =====
-- Which payments the node manager of node-manager/src/nodemanager.rs asks for.
use mutiny_web_poc.Prelude.{
  ℕ, true, false, Option, none, some, List, ◌++◌, Bytes, ◌≡◌, refl, inl, inr, Option-cases,
  Bool-cases, partial_eq_bytes, ◌⊎◌,
}
use mutiny_web_poc.Prelude.Assoc
use mutiny_web_poc.Prelude.Outcome.{err, panic, map_err, ◌>>>◌}
use mutiny_web_poc.Storage.{KeyValue}
use mutiny_web_poc.Errors.{js_from}
use mutiny_web_poc.Errors.Js
use mutiny_web_poc.Errors.Js.{MutinyJsError}
use mutiny_web_poc.Payment.{Formats}
use mutiny_web_poc.Node.{Network, Lightning, Node, currency_from_network}
use mutiny_web_poc.Node.Invoices.{NodeWorld}
use mutiny_web_poc.Node.Payments
use mutiny_web_poc.Node.Paying.{asked, payments_of, pay-payments}
use mutiny_web_poc.Manager.Invoices.{answer, call_node, parse_invoice, pay_invoice, is_currency}

module _ (kv : KeyValue) (f : Formats) (l : Lightning f) (network : Network)
    (nodes : List (Bytes × Node f l)) (now : l.Duration) (from_node text : Bytes)
    (amt_sats : Option ℕ) (w : NodeWorld kv f l) where
  -- Where the text is an invoice of another network pay_invoice returns IncorrectNetwork, where it
  -- is no invoice InvoiceInvalid, where the node is unknown it panics, and in these cases nothing is
  -- stored or sent; otherwise LDK is asked for the payments that the node asks for: one of this
  -- invoice, or none, and the call does what the node's pay_invoice does, with its result and its
  -- error converted.
  pub pay_invoice-payments :
      ((l.from_str text ≡ none)
        × (pay_invoice kv f l network nodes now from_node text amt_sats w
            ≡ (err Js.invoice_invalid, w)))
      ⊎ ((invoice : l.Invoice) × (l.from_str text ≡ some invoice)
          × (((is_currency (l.currency invoice) (currency_from_network network) ≡ false)
                × (pay_invoice kv f l network nodes now from_node text amt_sats w
                    ≡ (err Js.incorrect_network, w)))
              ⊎ ((Assoc.get from_node nodes ≡ none)
                  × (pay_invoice kv f l network nodes now from_node text amt_sats w ≡ (panic, w)))
              ⊎ ((node : Node f l) × (Assoc.get from_node nodes ≡ some node)
                  × (is_currency (l.currency invoice) (currency_from_network network) ≡ true)
                  × ((pay_invoice kv f l network nodes now from_node text amt_sats w).1.payments
                      ≡ w.payments
                        ++ payments_of l
                            (asked l invoice (l.amount_milli_satoshis invoice) amt_sats))
                  × (pay_invoice kv f l network nodes now from_node text amt_sats w ≡ (
                    map_err js_from (Payments.pay kv f l node now invoice amt_sats w).0,
                    (Payments.pay kv f l node now invoice amt_sats w).1,
                  )))))
  unfolding pay_invoice parse_invoice answer call_node ◌>>>◌
  pay_invoice-payments = elim (Option-cases (l.from_str text)) [
    | inl e ↦ inl (e, rw (pay_invoice, e) refl)
    | inr (invoice, e) ↦ inr (
      invoice,
      e,
      elim (Bool-cases (is_currency (l.currency invoice) (currency_from_network network))) [
        | inr d ↦ inl (d, rw (pay_invoice, e, d) refl)
        | inl d ↦ elim (Option-cases (Assoc.get from_node nodes)) [
          | inl n ↦ inr (inl (n, rw (pay_invoice, e, d, n) refl))
          | inr (node, n) ↦ inr (
              inr (
                node,
                n,
                d,
                rw (pay_invoice, e, d, n) (pay-payments kv f l node w now invoice amt_sats),
                rw (pay_invoice, e, d, n) refl,
              ))
        ]
      ],
    )
  ]
