-- ===== src/Manager/Closing.antt =====
-- Which channel close_channel of node-manager/src/nodemanager.rs closes.
use mutiny_web_poc.Prelude.{
  Bool, true, false, none, some, List, [], ◌∷◌, Bytes, ◌≡◌, ◌⊎◌, inl, inr, refl, ◌∙◌, ap, subst,
  arith, PartialEq, Bool-cases, Option-cases,
}
use mathlib.Core.List.{Mem, mem-cons_self, mem-cons_of_mem}
use mutiny_web_poc.Prelude.Outcome.{err, map_err, ◌>>>◌}
use mutiny_web_poc.Errors.Js
use mutiny_web_poc.Payment.{Formats}
use mutiny_web_poc.Node.{Lightning, Node}
use mutiny_web_poc.Manager.Invoices.{find}
use mutiny_web_poc.Manager.Channels.{
  ChannelDetails, ChannelManagers, answer, has_outpoint, find_channel, close_found, close_channel,
}

find-eq-some :
    {A : Type 0} (test : A → Bool) (xs : List A) (x : A)
    → find test xs ≡ some x
    → Mem x xs × (test x ≡ true)
find-eq-some test [] x h = absurd (ground (arith, h))
find-eq-some {A} test (y ∷ ys) x h = elim (Bool-cases (test y)) [
  | inl same ↦
      let eq : y ≡ x = ground (arith, h, same) in
      subst (λ z. Mem z (y ∷ ys) × (test z ≡ true)) eq (mem-cons_self, same)
  | inr other ↦
      let (later, holds) = find-eq-some test ys x (ground (arith, h, other)) in
      (mem-cons_of_mem y later, holds)
]

-- No element passes a test.
abbrev pub Lacks : {A : Type 0} → (A → Bool) → List A → Type 0
Lacks test [] = Unit
Lacks test (x ∷ xs) = (test x ≡ false) × Lacks test xs

find-eq-none : {A : Type 0} (test : A → Bool) (xs : List A) → find test xs ≡ none → Lacks test xs
find-eq-none test [] h = tt
find-eq-none test (x ∷ xs) h = elim (Bool-cases (test x)) [
  | inl same ↦ absurd (ground (arith, h, same))
  | inr other ↦ (other, find-eq-none test xs (ground (arith, h, other)))
]

module _ (f : Formats) (l : Lightning f) (c : ChannelManagers f l)
    ⦃outpoint_eq : PartialEq c.OutPoint⦄ where
  abbrev Details : Type 0
  Details = ChannelDetails f.PublicKey c.OutPoint

  has_outpoint-eq :
      (o : c.OutPoint) (d : Details) → has_outpoint f l c o d ≡ true → d.funding_txo ≡ some o
  has_outpoint-eq o d h = elim (Option-cases d.funding_txo) [
    | inl absent ↦ absurd (ground (arith, rw absent at h))
    | inr (txo, there) ↦ there ∙ ap some ((outpoint_eq.eqb_iff txo o).0 (rw there at h))
  ]

  -- No node lists a channel with an outpoint.
  abbrev pub NoneHas : c.OutPoint → List (Bytes × Node f l) → c.State → Type 0
  NoneHas o [] s = Unit
  NoneHas o ((k, n) ∷ nodes) s =
      Lacks (has_outpoint f l c o) (c.list_channels n s) × NoneHas o nodes s

  -- A node that has a channel with an outpoint.
  abbrev pub IsChannel :
      c.OutPoint → List (Bytes × Node f l) → c.State → Node f l → Details → Type 0
  IsChannel o nodes s node d =
      ((k : Bytes) × Mem (k, node) nodes)
      × Mem d (c.list_channels node s)
      × (d.funding_txo ≡ some o)

  find_channel-cases :
      (o : c.OutPoint) (nodes : List (Bytes × Node f l)) (s : c.State)
      → ((find_channel f l c o nodes s ≡ none) × NoneHas o nodes s)
        ⊎ ((node : Node f l) × (d : Details) × (find_channel f l c o nodes s ≡ some (node, d))
            × IsChannel o nodes s node d)
  unfolding find_channel
  find_channel-cases o [] s = inl (refl, tt)
  find_channel-cases o ((k, n) ∷ nodes) s =
      elim (Option-cases (find (has_outpoint f l c o) (c.list_channels n s))) [
        | inr (d, found) ↦
            let (listed, holds) =
              find-eq-some (has_outpoint f l c o) (c.list_channels n s) d found in
            inr (
              n,
              d,
              rw (find_channel, found) refl,
              ((k, mem-cons_self), listed, has_outpoint-eq o d holds),
            )
        | inl missing ↦
            let here = find-eq-none (has_outpoint f l c o) (c.list_channels n s) missing in
            elim (find_channel-cases o nodes s) [
              | inl (absent, none_has) ↦ inl (rw (find_channel, missing) absent, (here, none_has))
              | inr (node, d, found, ((j, later), listed, same)) ↦ inr (
                node,
                d,
                rw (find_channel, missing) found,
                ((j, mem-cons_of_mem (k, n) later), listed, same),
              )
            ]
      ]

  -- close_channel asks LDK to close at most one channel: one that a node of the list has, with
  -- exactly the outpoint that was given, at that node. Where no node has one, it changes nothing and
  -- fails, and where LDK refuses it fails with the same error.
  pub close_channel-closes :
      (nodes : List (Bytes × Node f l)) (text : Bytes) (o : c.OutPoint) (s : c.State)
      → c.outpoint_from_str text ≡ some o
      → (NoneHas o nodes s
          × (close_channel f l c nodes text s ≡ (err Js.channel_closing_failed, s)))
        ⊎ ((node : Node f l) × (d : Details) × IsChannel o nodes s node d
            × (close_channel f l c nodes text s ≡ (
              map_err
                  (λ e. Js.channel_closing_failed)
                  (c.close_channel node d.channel_id d.node_id s).0,
              (c.close_channel node d.channel_id d.node_id s).1,
            )))
  unfolding close_channel answer close_found ◌>>>◌
  close_channel-closes nodes text o s parsed = elim (find_channel-cases o nodes s) [
    | inl (absent, none_has) ↦ inl (none_has, rw (parsed, absent) refl)
    | inr (node, d, found, is) ↦ inr (node, d, is, rw (parsed, found) refl)
  ]
