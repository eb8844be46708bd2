-- ===== src/Storage/Seed/Tests.antt =====
-- The mnemonic and the nodes of node-manager/src/localstorage.rs in a browser in memory.
use mutiny_web_poc.Prelude.{arith, Option, none, some, List, [], ◌∷◌, Bytes, codes, ◌≡◌, refl}
use mutiny_web_poc.Storage.{Serde}
use mutiny_web_poc.Storage.Local.{Local}
use mutiny_web_poc.Storage.Local.Tests.{fresh_store}
use mutiny_web_poc.Storage.Memory.{memory, plain, bytes_serde}
use mutiny_web_poc.Storage.Seed.{NodeIndex, Bip39, NodeStorage, insert_mnemonic, insert_nodes}

abbrev words : Bip39
words = record {
  Mnemonic = Bytes;
  to_string = λ m. m;
  from_str = some;
  json = bytes_serde;
  from_str-to_string = λ m. refl;
}

abbrev pub no_nodes : NodeStorage
no_nodes = record { nodes = [] }

abbrev pub print_list : List (Bytes × NodeIndex) → Option Bytes
print_list [] = some []
print_list (n ∷ ns) = none

pub print_list-empty :
    (ns : List (Bytes × NodeIndex)) (b : Bytes)
    → print_list ns ≡ some b
    → some no_nodes ≡ some (record { nodes = ns })
print_list-empty [] b h = refl
print_list-empty (n ∷ ns) b h = absurd (ground arith)

-- Only the empty list of nodes has a text here.
abbrev no_nodes_serde : Serde NodeStorage
no_nodes_serde = record {
  to_string = λ n. print_list n.nodes;
  from_str = λ b. some (record { nodes = [] });
  from_str-to_string = λ n b h. print_list-empty n.nodes b h;
}

abbrev password : Bytes
password = codes "pw"

abbrev seeded : Local memory
seeded = (insert_mnemonic memory plain password words (codes "zoo") fresh_store).1

abbrev listed : Local memory
listed = (insert_nodes memory no_nodes_serde no_nodes fresh_store).1
