-- ===== src/Manager/Sample.antt =====
-- A text form of the list of nodes, at which the assumptions about the JSON that
-- node-manager/src/nodemanager.rs stores hold.
use mutiny_web_poc.Prelude.{
  ℕ, zero, suc, Option, none, some, List, [], ◌∷◌, ◌++◌, Bytes, ◌≡◌, refl, ap, sym, ◌∙◌, length,
  arith,
}
use mathlib.Core.List.{append_assoc}
use mutiny_web_poc.Storage.{Serde}
use mutiny_web_poc.Storage.Seed.{NodeIndex, NodeStorage}
use mutiny_web_poc.Payment.Sample.{Field, bytes_field, nat_field, pair_field}

module _ {A : Type 0} (c : Field A) where
  abbrev print_all : List A → Bytes
  print_all [] = []
  print_all (a ∷ xs) = c.print a ++ print_all xs

  abbrev cons_read : A → Option (List A × Bytes) → Option (List A × Bytes)
  cons_read a none = none
  cons_read a (some (xs, rest)) = some (a ∷ xs, rest)

  abbrev then_read :
      (Bytes → Option (List A × Bytes)) → Option (A × Bytes) → Option (List A × Bytes)
  then_read more none = none
  then_read more (some (a, rest)) = cons_read a (more rest)

  abbrev read_all : ℕ → Bytes → Option (List A × Bytes)
  read_all zero b = some ([], b)
  read_all (suc n) b = then_read (read_all n) (c.read b)

  pub read_all-print :
      (xs : List A) (rest : Bytes) → read_all (length xs) (print_all xs ++ rest) ≡ some (xs, rest)
  read_all-print [] rest = refl
  read_all-print (a ∷ xs) rest =
      rw
        (
          append_assoc (c.print a) (print_all xs) rest,
          c.read-print a (print_all xs ++ rest),
          read_all-print xs rest,
        )
        refl

abbrev entry_field : Field (Bytes × (Bytes × ℕ))
entry_field = pair_field bytes_field (pair_field bytes_field nat_field)

abbrev to_row : Bytes × NodeIndex → Bytes × (Bytes × ℕ)
to_row (k, v) = (k, (v.uuid, v.child_index))

abbrev of_row : Bytes × (Bytes × ℕ) → Bytes × NodeIndex
of_row (k, (uuid, child_index)) = (k, record { uuid = uuid; child_index = child_index })

abbrev to_rows : List (Bytes × NodeIndex) → List (Bytes × (Bytes × ℕ))
to_rows [] = []
to_rows (n ∷ ns) = to_row n ∷ to_rows ns

abbrev of_rows : List (Bytes × (Bytes × ℕ)) → List (Bytes × NodeIndex)
of_rows [] = []
of_rows (n ∷ ns) = of_row n ∷ of_rows ns

of_rows-to_rows : (ns : List (Bytes × NodeIndex)) → of_rows (to_rows ns) ≡ ns
of_rows-to_rows [] = refl
of_rows-to_rows ((k, v) ∷ ns) = ap (◌∷◌ (k, v)) (of_rows-to_rows ns)

abbrev parsed : Option (List (Bytes × (Bytes × ℕ)) × Bytes) → Option NodeStorage
parsed none = none
parsed (some (rows, rest)) = some (record { nodes = of_rows rows })

abbrev print_nodes : List (Bytes × NodeIndex) → Bytes
print_nodes ns = length (to_rows ns) ∷ (print_all entry_field (to_rows ns) ++ [])

abbrev read_nodes : Bytes → Option NodeStorage
read_nodes [] = none
read_nodes (n ∷ b) = parsed (read_all entry_field n b)

pub read_nodes-print :
    (ns : NodeStorage) (b : Bytes) → some (print_nodes ns.nodes) ≡ some b → read_nodes b ≡ some ns
read_nodes-print ns b h =
    let eq : print_nodes ns.nodes ≡ b = ground arith in
    ap read_nodes (sym eq)
    ∙ ap parsed (read_all-print entry_field (to_rows ns.nodes) [])
    ∙ ap (λ l. some (record { nodes = l })) (of_rows-to_rows ns.nodes)

abbrev pub nodes_serde : Serde NodeStorage
nodes_serde = record {
  to_string = λ ns. some (print_nodes ns.nodes);
  from_str = read_nodes;
  from_str-to_string = read_nodes-print;
}
