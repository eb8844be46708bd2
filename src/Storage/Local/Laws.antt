-- ===== src/Storage/Local/Laws.antt =====
-- `MutinyBrowserStorage` of node-manager/src/localstorage.rs keeps the promises of `KeyValue`.
use mutiny_web_poc.Prelude.Assoc
use mutiny_web_poc.Prelude.Assoc.{contains, insert, get-insert}
use mutiny_web_poc.Storage.{key_matches, found, KeyValue}
use mutiny_web_poc.Prelude.{
  ◌∙◌, ◌==◌, refl, false, ◌&&◌, if◌then◌else◌, bytes_eqb_iff, Bool-cases, inl, inr, Option, none,
  List, [], ◌∷◌, some, Bytes, ◌≡◌, arith, partial_eq_bytes,
}
use mutiny_web_poc.Prelude.Outcome.{
  >>>-keeps, Outcome-cases, Outcome, ok, err, panic, ◌>>>◌, >>>-eq-ok, map_err,
}
use mutiny_web_poc.Storage.{key_not_found, Serde, StorageError, MutinyStorageError, storage_error}
use mutiny_web_poc.Storage.Encrypt.{Crypto, decrypt-encrypt}
use mutiny_web_poc.Storage.Local.{
  scan, deserialize, scan_keys, delete, get, Browser, serialize, Local, seal_text, open_text, write,
  set,
}

module _ (b : Browser) (x : Crypto) (password : Bytes)
    (utf8 : (T : Type 0) (c : Serde T) (v : T) (text : Bytes)
      → c.to_string v ≡ some text
      → x.from_utf8 text ≡ some text) where
  open_text-seal_text :
      (plain stored : Bytes) (s u : Local b)
      → x.from_utf8 plain ≡ some plain
      → seal_text b x password plain s ≡ (ok stored, u)
      → (open_text b x password stored ≡ ok plain) × (u.0 ≡ s.0)
  unfolding open_text seal_text
  open_text-seal_text plain stored s u valid h =
      ground (arith, decrypt-encrypt {E = MutinyStorageError} x plain password s.1 stored valid)

  map_err-eq-ok :
      (r : Outcome StorageError (Unit {0})) → map_err storage_error r ≡ ok tt → r ≡ ok tt
  map_err-eq-ok (ok a) h = ground arith
  map_err-eq-ok (err e) h = cc
  map_err-eq-ok panic h = cc

  write-eq-ok :
      (k v : Bytes) (s u : Local b)
      → write b x password k v s ≡ (ok tt, u)
      → b.set Bytes b.string k v s.0 ≡ (ok tt, u.0)
  unfolding write
  write-eq-ok k v s u h = ground (arith, map_err-eq-ok (b.set Bytes b.string k v s.0).0)

  module _ {T : Type 0} (c : Serde T) where
    -- A write that succeeds has stored, under its key, a text that opens to the value.
    pub set-eq-ok :
        (k : Bytes) (v : T) (s u : Local b)
        → set b x password c k v s ≡ (ok tt, u)
        → (text stored : Bytes) × (c.to_string v ≡ some text)
          × (open_text b x password stored ≡ ok text)
          × (b.set Bytes b.string k stored s.0 ≡ (ok tt, u.0))
    unfolding set
    set-eq-ok k v s u h =
        let (stored, s2, h1, h2) =
          >>>-eq-ok (serialize b x password c v >>> seal_text b x password) (write b x password k) s
            h in
        let (text, s1, h3, h4) =
          >>>-eq-ok (serialize b x password c v) (seal_text b x password) s h1 in
        let (printed, same) = serialize-eq-ok v text s s1 h3 in
        let (opened, kept) = open_text-seal_text text stored s1 s2 (utf8 T c v text printed) h4 in
        (text, stored, printed, opened, ground (arith, write-eq-ok k stored s2 u h2))
      where
        serialize-eq-ok :
            (v : T) (text : Bytes) (s s1 : Local b)
            → serialize b x password c v s ≡ (ok text, s1)
            → (c.to_string v ≡ some text) × (s1 ≡ s)
        serialize-eq-ok v text s s1 h = ground arith

    -- What was written under a key by a write that succeeded is read back, with a password and
    -- without one, where texts of JSON are UTF-8.
    pub get-set_self :
        (k : Bytes) (v : T) (s u : Local b)
        → set b x password c k v s ≡ (ok tt, u)
        → get b x password c k u ≡ ok v
    unfolding get
    get-set_self k v s u h =
        let (text, stored, printed, opened, put) = set-eq-ok k v s u h in
        rw
          (
            b.get-set_self Bytes b.string k stored s.0 u.0 put,
            opened,
            deserialize,
            c.from_str-to_string v text printed,
          )
          refl

    pub get-set_ne :
        {U : Type 0} (d : Serde U) (k j : Bytes) (v : T) (s u : Local b)
        → set b x password c k v s ≡ (ok tt, u)
        → (k == j) ≡ false
        → get b x password d j u ≡ get b x password d j s
    unfolding get
    get-set_ne d k j v s u h apart =
        let (text, stored, printed, opened, put) = set-eq-ok k v s u h in
        rw (b.get-set_ne Bytes Bytes b.string b.string k j stored s.0 u.0 put apart) refl

    serialize-keeps : (v : T) (s : Local b) → (serialize b x password c v s).1 ≡ s
    serialize-keeps v s = ground arith

    seal_text-keeps : (text : Bytes) (s : Local b) → (seal_text b x password text s).1.0 ≡ s.0
    unfolding seal_text
    seal_text-keeps text s = ground arith

    write-keeps :
        (k j text : Bytes) (s : Local b)
        → (k == j) ≡ false
        → b.get Bytes b.string j (write b x password k text s).1.0 ≡ b.get Bytes b.string j s.0
    unfolding write
    write-keeps k j text s apart = b.get-set_other Bytes Bytes b.string b.string k j text s.0 apart

    -- Whatever a write comes to, the other keys of the browser read as before.
    pub get-set_other :
        {U : Type 0} (d : Serde U) (k j : Bytes) (v : T) (s : Local b)
        → (k == j) ≡ false
        → get b x password d j (set b x password c k v s).1 ≡ get b x password d j s
    unfolding get set
    get-set_other d k j v s apart = rw raw refl
      where
        raw : b.get Bytes b.string j (set b x password c k v s).1.0 ≡ b.get Bytes b.string j s.0
        raw =
            >>>-keeps (λ u. b.get Bytes b.string j u.0)
              (serialize b x password c v >>> seal_text b x password) (write b x password k)
              (>>>-keeps (λ u. b.get Bytes b.string j u.0) (serialize b x password c v)
                (seal_text b x password) (λ u. rw (serialize-keeps v u) refl)
                (λ text u. rw (seal_text-keeps text u) refl))
              (λ text u. write-keeps k j text u apart) s

    get-unread :
        (k : Bytes) (s : Local b)
        → b.get Bytes b.string k s.0 ≡ err key_not_found
        → get b x password c k s ≡ err (storage_error key_not_found)
    unfolding get
    get-unread k s h = rw h refl

    pub get-delete_self :
        (k : Bytes) (s : Local b)
        → get b x password c k (delete b x password k s) ≡ err (storage_error key_not_found)
    unfolding delete
    get-delete_self k s =
        get-unread k (delete b x password k s) (b.get-delete_self Bytes b.string k s.0)

    pub get-delete_ne :
        (k j : Bytes) (s : Local b)
        → (k == j) ≡ false
        → get b x password c j (delete b x password k s) ≡ get b x password c j s
    unfolding delete get
    get-delete_ne k j s apart = rw (b.get-delete_ne Bytes b.string k j s.0 apart) refl

    -- The loop of `scan`: a key that is listed and matches is read; any other keeps its entry.
    scan_keys-get :
        (prefix : Bytes) (suffix : Option Bytes) (s : Local b) (keys : List Bytes)
        (m n : List (Bytes × T)) (k : Bytes)
        → scan_keys b x password c prefix suffix s keys m ≡ ok n
        → Assoc.get k n ≡ (
            if contains k keys && key_matches prefix suffix k
            then found (get b x password c k s)
            else Assoc.get k m)
    unfolding scan_keys contains
    scan_keys-get prefix suffix s [] m n k h = ground arith
    scan_keys-get prefix suffix s (key ∷ keys) m n k h =
        elim (Bool-cases (key_matches prefix suffix key)) [
          | inr skip ↦
              let rest : scan_keys b x password c prefix suffix s keys m ≡ ok n = ground arith in
              ground (arith, scan_keys-get prefix suffix s keys m n k rest, bytes_eqb_iff key k)
          | inl fits ↦ elim (Outcome-cases (get b x password c key s)) [
            | inl (v, e) ↦
                let rest : scan_keys b x password c prefix suffix s keys (insert key v m) ≡ ok n =
                  ground arith in
                ground (
                  arith,
                  scan_keys-get prefix suffix s keys (insert key v m) n k rest,
                  bytes_eqb_iff key k,
                  get-insert key k v m,
                )
            | inr (inl (e, q)) ↦ absurd (ground arith)
            | inr (inr q) ↦ absurd (ground arith)
          ]
        ]

    -- A scan that is given pairs a key that matches with what a read of it gives, and leaves out every
    -- key that does not match or is not found.
    pub scan-get :
        (prefix : Bytes) (suffix : Option Bytes) (s : Local b) (n : List (Bytes × T)) (k : Bytes)
        → scan b x password c prefix suffix s ≡ ok n
        → Assoc.get k n
          ≡ (if key_matches prefix suffix k then found (get b x password c k s) else none)
    unfolding scan Assoc.get
    scan-get prefix suffix s n k h = elim (Bool-cases (contains k (b.keys s.0))) [
      | inl listed ↦ ground (arith, scan_keys-get prefix suffix s (b.keys s.0) [] n k h)
      | inr unlisted ↦ ground (
        arith,
        scan_keys-get prefix suffix s (b.keys s.0) [] n k h,
        get-unread k s (b.get-unlisted Bytes b.string k s.0 unlisted),
      )
    ]

  -- The storage of the wallet keeps what its clients rely on, with a password and without one.
  abbrev pub key_value : KeyValue
  key_value = record {
    Store = Local b;
    set = λ T c. set b x password c;
    get = λ T c. get b x password c;
    delete = delete b x password;
    scan = λ T c. scan b x password c;
    get-set_self = λ T c k v s u h. get-set_self c k v s u h;
    get-set_ne = λ T U c d k j v s u h apart. get-set_ne c d k j v s u h apart;
    get-set_other = λ T U c d k j v s apart. get-set_other c d k j v s apart;
    get-delete_self = λ T c k s. get-delete_self c k s;
    get-delete_ne = λ T c k j s apart. get-delete_ne c k j s apart;
    scan-matches =
        λ T c prefix suffix s m k h fits. scan-get c prefix suffix s m k h ∙ rw fits refl;
    scan-differs =
        λ T c prefix suffix s m k h fits. scan-get c prefix suffix s m k h ∙ rw fits refl;
  }
