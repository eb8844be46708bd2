-- ===== src/Manager/Merged.antt =====
-- Which peers list_peers of node-manager/src/nodemanager.rs lists, and in which order.
use mutiny_web_poc.Prelude.{
  ◌<◌, ◌⊎◌, true, false, List, [], ◌∷◌, Bytes, ◌≡◌, refl, arith, PartialEq,
}
use mutiny_web_poc.Prelude.Assoc.{contains}
use mutiny_web_poc.Manager.Peers.{
  Ordering, less, equal, greater, cmp_bytes, MutinyPeer, is_greater, cmp,
}

abbrev pub reverse : Ordering → Ordering
reverse less = greater
reverse equal = equal
reverse greater = less

pub cmp_bytes-reverse : (a b : Bytes) → cmp_bytes b a ≡ reverse (cmp_bytes a b)
cmp_bytes-reverse [] [] = refl
cmp_bytes-reverse [] (y ∷ ys) = refl
cmp_bytes-reverse (x ∷ xs) [] = refl
cmp_bytes-reverse (x ∷ xs) (y ∷ ys) = ground (arith, cmp_bytes-reverse xs ys)

-- The order of texts: byte by byte, and a text before the longer ones that it begins.
abbrev pub IsAtMost : Bytes → Bytes → Type 0
IsAtMost [] ys = Unit
IsAtMost (x ∷ xs) [] = ⊥
IsAtMost (x ∷ xs) (y ∷ ys) = (x < y) ⊎ ((x ≡ y) × IsAtMost xs ys)

module _ {PublicKey : Type 0} ⦃pubkey_eq : PartialEq PublicKey⦄
    (cmp_pubkey : PublicKey → PublicKey → Ordering)
    (cmp_pubkey-reverse : (a b : PublicKey) → cmp_pubkey b a ≡ reverse (cmp_pubkey a b)) where
  -- No peer is greater than the next one.
  abbrev AreOrdered : List (MutinyPeer PublicKey) → Type 0
  AreOrdered [] = Unit
  AreOrdered (p ∷ []) = Unit
  AreOrdered (p ∷ q ∷ qs) = (is_greater (cmp cmp_pubkey p q) ≡ false) × AreOrdered (q ∷ qs)

  -- The order of list_peers: disconnected peers first, then by public key, then by the text.
  abbrev pub ComesBefore : MutinyPeer PublicKey → MutinyPeer PublicKey → Type 0
  ComesBefore p q =
      ((p.is_connected ≡ false) × (q.is_connected ≡ true))
      ⊎ ((p.is_connected ≡ q.is_connected)
          × ((cmp_pubkey p.pubkey q.pubkey ≡ less)
              ⊎ ((cmp_pubkey p.pubkey q.pubkey ≡ equal)
                  × IsAtMost p.connection_string q.connection_string)))

  -- Each peer comes before the next one.
  abbrev pub AreListed : List (MutinyPeer PublicKey) → Type 0
  AreListed [] = Unit
  AreListed (p ∷ []) = Unit
  AreListed (p ∷ q ∷ qs) = ComesBefore p q × AreListed (q ∷ qs)

  -- Every peer is marked as connected if LDK has it.
  abbrev pub AreMarked : List PublicKey → List (MutinyPeer PublicKey) → Type 0
  AreMarked connected [] = Unit
  AreMarked connected (p ∷ ps) =
      (p.is_connected ≡ contains p.pubkey connected) × AreMarked connected ps
