-- ===== src/Storage/Memory.antt =====
-- A browser storage in memory and a cipher that leaves the text as it is: values at which the
-- assumptions about the browser and the crates of node-manager/src/encrypt.rs hold.
use mutiny_web_poc.Prelude.{
  ℕ, zero, suc, Option, none, some, List, [], ◌∷◌, ◌++◌, Bytes, ◌==◌, ◌≡◌, refl, sym, arith, false,
  partial_eq_bytes, bytes_eqb_iff, length,
}
use mutiny_web_poc.Prelude.Assoc.{get, insert, remove, contains, get-insert, get-remove}
use mutiny_web_poc.Prelude.Outcome.{Outcome, ok, err, Action}
use mutiny_web_poc.Storage.{Serde, StorageError, key_not_found, other_error}
use mutiny_web_poc.Storage.Encrypt.{Crypto}
use mutiny_web_poc.Storage.Local.{Browser}

abbrev Items : Type 0
Items = List (Bytes × Bytes)

module _ {T : Type 0} (c : Serde T) where
  abbrev store : Option Bytes → Bytes → Action StorageError Items (Unit {0})
  store none k s = (err other_error, s)
  store (some b) k s = (ok tt, insert k b s)

  abbrev parse : Option Bytes → Outcome StorageError T
  parse none = err other_error
  parse (some b) = elim (c.from_str b) [ none ↦ err other_error | some v ↦ ok v ]

  abbrev read : Option Bytes → Outcome StorageError T
  read none = err key_not_found
  read (some b) = parse (some b)

  abbrev set_item : Bytes → T → Action StorageError Items (Unit {0})
  set_item k v s = store (c.to_string v) k s

  abbrev get_item : Bytes → Items → Outcome StorageError T
  get_item k s = read (get k s)

  pub get-set_self :
      (k : Bytes) (v : T) (s u : Items) → set_item k v s ≡ (ok tt, u) → get_item k u ≡ ok v
  get-set_self k v s u h = go (c.to_string v) refl h
    where
      go : (o : Option Bytes) → c.to_string v ≡ o → store o k s ≡ (ok tt, u) → get_item k u ≡ ok v
      go none e q = absurd (ground arith)
      go (some b) e q =
          ground (arith, get-insert k k b s, bytes_eqb_iff k k, c.from_str-to_string v b e)

  pub get-set_ne :
      (k j : Bytes) (v : T) (s u : Items)
      → set_item k v s ≡ (ok tt, u)
      → (k == j) ≡ false
      → get j u ≡ get j s
  get-set_ne k j v s u h apart = go (c.to_string v) h
    where
      go : (o : Option Bytes) → store o k s ≡ (ok tt, u) → get j u ≡ get j s
      go none q = absurd (ground arith)
      go (some b) q = ground (arith, get-insert k j b s)

store-other :
    (T : Type 0) (c : Serde T) (o : Option Bytes) (k j : Bytes) (s : Items)
    → (k == j) ≡ false
    → get j (store c o k s).1 ≡ get j s
store-other T c none k j s apart = refl
store-other T c (some b) k j s apart = ground (arith, get-insert k j b s)

pub get-set_other :
    {T : Type 0} {U : Type 0} (c : Serde T) (d : Serde U) (k j : Bytes) (v : T) (s : Items)
    → (k == j) ≡ false
    → get_item d j (set_item c k v s).1 ≡ get_item d j s
get-set_other {T} c d k j v s apart = rw (store-other T c (c.to_string v) k j s apart) refl

module _ {T : Type 0} (c : Serde T) where
  pub get-remove_self : (k : Bytes) (s : Items) → get_item c k (remove k s) ≡ err key_not_found
  get-remove_self k s = ground (arith, get-remove k k s, bytes_eqb_iff k k)

  pub get-remove_ne :
      (k j : Bytes) (s : Items) → (k == j) ≡ false → get_item c j (remove k s) ≡ get_item c j s
  get-remove_ne k j s apart = ground (arith, get-remove k j s)

abbrev keys : Items → List Bytes
keys [] = []
keys ((k, b) ∷ s) = k ∷ keys s

pub get-unlisted : (k : Bytes) (s : Items) → contains k (keys s) ≡ false → get k s ≡ none
unfolding get contains
get-unlisted k [] h = refl
get-unlisted k ((j, b) ∷ s) h = ground (arith, get-unlisted k s)

abbrev pub bytes_serde : Serde Bytes
bytes_serde = record { to_string = some; from_str = some; from_str-to_string = λ v b h. sym h }

abbrev pub memory : Browser
memory = record {
  Items = Items;
  string = bytes_serde;
  set = λ T c. set_item c;
  get = λ T c. get_item c;
  delete = remove;
  keys = keys;
  get-set_self = λ T c. get-set_self c;
  get-set_ne = λ T U c d k j v s u h apart. rw (get-set_ne c k j v s u h apart) refl;
  get-set_other = λ T U c d k j v s apart. get-set_other c d k j v s apart;
  get-delete_self = λ T c k s. get-remove_self c k s;
  get-delete_ne = λ T c k j s apart. get-remove_ne c k j s apart;
  get-unlisted = λ T c k s h. rw (get-unlisted k s h) refl;
}

abbrev copies : ℕ → ℕ → Bytes
copies b zero = []
copies b (suc n) = b ∷ copies b n

pub length-copies : (b n : ℕ) → length (copies b n) ≡ n
length-copies b zero = refl
length-copies b (suc n) = omega (arith, length-copies b n)

abbrev pub plain : Crypto
plain = record {
  fill_bytes = copies;
  hash_password = λ password rounds size salt. some (password ++ salt);
  Cipher = Bytes;
  new_from_slice = some;
  seal = λ c nonce text. some text;
  unseal = λ c nonce sealed. some sealed;
  encode = λ b. b;
  decode = some;
  from_utf8 = some;
  length-fill_bytes = length-copies;
  unseal-seal = λ c nonce text sealed h. sym h;
  decode-encode = λ b. refl;
}
