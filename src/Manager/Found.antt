-- ===== src/Manager/Found.antt =====
-- What the calls of node-manager/src/nodemanager.rs find and pay.
use mutiny_web_poc.Prelude.{
  sym, ℕ, Bool, Option, none, some, List, [], ◌∷◌, ◌++◌, Bytes, ◌≡◌, refl, arith, inl, inr,
  Option-cases, Bool-cases, ap, partial_eq_bytes, ◌==◌,
}
use mutiny_web_poc.Prelude.Outcome.{
  Outcome, ok, err, panic, >>>-eq-ok, map_err, Outcome-cases, ◌>>=◌, >>=-eq-ok,
}
use mutiny_web_poc.Storage.{KeyValue}
use mutiny_web_poc.Errors.{MutinyError, js_from}
use mutiny_web_poc.Errors.Js
use mutiny_web_poc.Errors.Js.{MutinyJsError}
use mutiny_web_poc.Payment.{Formats}
use mutiny_web_poc.Node.{Network, Lightning, MutinyInvoice, Node, from_invoice}
use mutiny_web_poc.Node.Invoices
use mutiny_web_poc.Node.Invoices.{NodeWorld, Method}
use mutiny_web_poc.Node.Created.{create_invoice-get_invoice}
use mutiny_web_poc.Manager.Invoices.{
  answer, call_node, route_hints, create_invoice, find_invoice, first_invoice, get_invoice,
  find_by_hash, get_invoice_by_hash, collect_invoices, list_invoices, or_err, find,
}

map_err-eq-ok :
    {A : Type 0} (r : Outcome MutinyError A) (a : A) → map_err js_from r ≡ ok a → r ≡ ok a
map_err-eq-ok (ok x) a h = ground arith
map_err-eq-ok (err e) a h = absurd (ground arith)
map_err-eq-ok panic a h = absurd (ground arith)

module _ {A : Type 0} (test : A → Bool) where
  find-append :
      (xs ys : List A)
      → find test (xs ++ ys) ≡ elim (find test xs) [ none ↦ find test ys | some x ↦ some x ]
  find-append [] ys = refl
  find-append (x ∷ xs) ys = elim (Bool-cases (test x)) [
    | inl e ↦ rw e refl
    | inr e ↦ rw e (find-append xs ys)
  ]

module _ (kv : KeyValue) (f : Formats) (l : Lightning f) (network : Network)
    (nodes : List (Bytes × Node f l)) where
  -- With the lists of all nodes at hand, get_invoice_by_hash gives their first invoice of the hash,
  -- and InvoiceInvalid where there is none.
  pub get_invoice_by_hash-list_invoices :
      (now : l.Duration) (hash : Bytes) (s : kv.Store) (invoices : List MutinyInvoice)
      → list_invoices kv f l network nodes now s ≡ ok invoices
      → get_invoice_by_hash kv f l network nodes now hash s
        ≡ or_err Js.invoice_invalid (find (λ i. i.payment_hash == hash) invoices)
  unfolding list_invoices get_invoice_by_hash
  get_invoice_by_hash-list_invoices now hash s invoices h = go nodes invoices h
    where
      go :
          (ns : List (Bytes × Node f l)) (invs : List MutinyInvoice)
          → collect_invoices kv f l network nodes now ns s ≡ ok invs
          → find_by_hash kv f l network nodes now hash ns s
            ≡ or_err Js.invoice_invalid (find (λ i. i.payment_hash == hash) invs)
      go [] [] e = refl
      go [] (i ∷ invs) e = absurd (ground arith)
      go ((k, node) ∷ ns) invs e = elim (Outcome-cases (Invoices.list_invoices kv f l node now s)) [
        | inl (here, q) ↦
            let e' : (collect_invoices kv f l network nodes now ns s >>= λ invoices.
            ok (here ++ invoices))
                ≡ ok invs =
              rw (collect_invoices, q) at e in
            let (later, found, all) =
              >>=-eq-ok (collect_invoices kv f l network nodes now ns s)
                (λ invoices. ok (here ++ invoices)) e' in
            let same : here ++ later ≡ invs = ground (arith, all) in
            rw (find_by_hash, q, ← same, find-append (λ i. i.payment_hash == hash) here later)
              (elim (Option-cases (find (λ i. i.payment_hash == hash) here)) [
                | inl n ↦ rw n (go ns later found)
                | inr (i, m) ↦ rw m refl
              ])
        | inr (inl (g, q)) ↦
            let e' : collect_invoices kv f l network nodes now ns s ≡ ok invs =
              rw (collect_invoices, q) at e in
            rw (find_by_hash, q) (go ns invs e')
        | inr (inr q) ↦ absurd (ground (arith, e, q))
      ]

  call_node-ok :
      {A : Type 0} (m : Method kv f l A) (w u : NodeWorld kv f l) (a : A)
      → call_node kv f l network nodes m w ≡ (ok a, u)
      → m w ≡ (ok a, u)
  unfolding call_node
  call_node-ok m w u a h = ground (arith, map_err-eq-ok (m w).0 a)

  first_invoice-found :
      (now later : l.Duration) (amount : Option ℕ) (description : Bytes) (w u : NodeWorld kv f l)
      (shown : MutinyInvoice) (ns : List (Bytes × Node f l))
      → first_invoice kv f l network nodes now later amount description ns w ≡ (ok shown, u)
      → (invoice : l.Invoice) × (shown ≡ from_invoice l invoice)
        × (find_invoice kv f l network nodes invoice ns u.store ≡ ok shown)
        × (u.payments ≡ w.payments)
  unfolding first_invoice find_invoice answer
  first_invoice-found now later amount description w u shown [] h = absurd (ground arith)
  first_invoice-found now later amount description w u shown ((k, node) ∷ ns) h =
      let hints : Option (List l.RouteHints) = route_hints kv f l network nodes in
      let (invoice, v, made, rest) =
        >>>-eq-ok
          (call_node kv f l network nodes
            (Invoices.create_invoice kv f l node now later amount description hints))
          (λ invoice. answer kv f l network nodes (ok (from_invoice l invoice))) w h in
      let same : from_invoice l invoice ≡ shown = ground (arith, rest) in
      let ends : v ≡ u = ground (arith, rest) in
      let ran =
        call_node-ok (Invoices.create_invoice kv f l node now later amount description hints) w v
          invoice made in
      let (got, _, unpaid) =
        create_invoice-get_invoice kv f l node now later amount description hints w v invoice ran in
      (invoice, sym same, rw (← ends, find_invoice, got) (ap ok same), rw (← ends) unpaid)

  -- An invoice that the node manager created is found by its text, as it was returned, and no
  -- payment was made for it.
  pub create_invoice-get_invoice_text :
      (now later : l.Duration) (amount : Option ℕ) (description : Bytes) (w u : NodeWorld kv f l)
      (shown : MutinyInvoice)
      → create_invoice kv f l network nodes now later amount description w ≡ (ok shown, u)
      → (text : Bytes) × (shown.bolt11 ≡ some text)
        × (get_invoice kv f l network nodes text u.store ≡ ok shown)
        × (u.payments ≡ w.payments)
  unfolding create_invoice get_invoice from_invoice
  create_invoice-get_invoice_text now later amount description w u shown h =
      let (invoice, same, found, unpaid) =
        first_invoice-found now later amount description w u shown nodes h in
      (
        l.to_string invoice,
        ap (λ i. i.bolt11) same,
        rw (get_invoice, l.from_str-to_string invoice) found,
        unpaid,
      )
