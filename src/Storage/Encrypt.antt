-- ===== src/Storage/Encrypt.antt =====
-- Encryption of stored values under a password: node-manager/src/encrypt.rs.
use mutiny_web_poc.Prelude.{
  ℕ, suc, ◌+◌, ◌-◌, true, ◌&&◌, Option, none, some, [], ◌++◌, Bytes, ◌≡◌, refl, sym, subst, arith,
  leb, length, length-append, take, drop, take-append, drop-append, if◌then◌else◌,
}
use mathlib.Core.List.{append-nil, append_assoc}
use mutiny_web_poc.Prelude.Outcome.{Outcome, ok, panic, ◌>>=◌, >>=-eq-ok}

-- The crates that encrypt.rs calls. The generator of random bytes is read by a counter of its calls.
pub record Crypto : Type 1 where
  pub fill_bytes : ℕ → ℕ → Bytes
  pub hash_password : Bytes → ℕ → ℕ → Bytes → Option Bytes
  pub Cipher : Type 0
  pub new_from_slice : Bytes → Option Cipher
  pub seal : Cipher → Bytes → Bytes → Option Bytes
  pub unseal : Cipher → Bytes → Bytes → Option Bytes
  pub encode : Bytes → Bytes
  pub decode : Bytes → Option Bytes
  pub from_utf8 : Bytes → Option Bytes
  -- A buffer is filled, what was sealed is opened under the same key and nonce, and base64 is read back.
  pub length-fill_bytes : (i n : ℕ) → length (fill_bytes i n) ≡ n
  pub unseal-seal :
      (c : Cipher) (nonce text sealed : Bytes)
      → seal c nonce text ≡ some sealed
      → unseal c nonce sealed ≡ some text
  pub decode-encode : (b : Bytes) → decode (encode b) ≡ some b

module _ {ℓ} {E : Type ℓ} where
  -- `unwrap` and `expect` on what may be missing.
  abbrev pub expect {κ} : {A : Type κ} → Option A → Outcome E A
  expect none = panic
  expect (some a) = ok a

  -- `&buffer[from..to]`
  unfoldable pub slice : ℕ → ℕ → Bytes → Outcome E Bytes
  slice from to buffer =
      if leb from to && leb to (length buffer)
      then ok (take (to - from) (drop from buffer))
      else panic

abbrev pub rounds : ℕ
rounds = 2048

abbrev pub output_length : ℕ
output_length = 32

module _ {ℓ} (x : Crypto) {E : Type ℓ} where
  open x use {
    fill_bytes, hash_password, Cipher, new_from_slice, seal, unseal, encode, decode, from_utf8,
  }

  unfoldable pub derive_key : Bytes → Bytes → Outcome E Bytes
  derive_key password salt = expect (hash_password password rounds output_length salt)

  -- `Aes256Gcm::new_from_slice(key).unwrap()` under the derived key.
  unfoldable pub cipher_for : Bytes → Bytes → Outcome E Cipher
  cipher_for password salt = derive_key password salt >>= λ key. expect (new_from_slice key)

  -- The counter `i` stands for the state of the generator before the call.
  unfoldable pub encrypt : Bytes → Bytes → ℕ → Outcome E Bytes
  encrypt content password i =
      let salt = fill_bytes i 16 in
      let iv = fill_bytes (suc i) 12 in
      cipher_for password salt >>= λ cipher.
      expect (seal cipher iv content) >>= λ bytes. ok (encode (salt ++ (iv ++ bytes)))

  -- The three slices of the decoded buffer: salt, nonce and ciphertext.
  unfoldable pub split_buffer : Bytes → Outcome E (Bytes × Bytes × Bytes)
  unfolding slice
  split_buffer buffer = slice 0 16 buffer >>= λ salt. slice 16 28 buffer >>= λ iv.
      slice 28 (length buffer) buffer >>= λ sealed. ok (salt, iv, sealed)

  unfoldable pub open_sealed : Bytes → Bytes × Bytes × Bytes → Outcome E Bytes
  open_sealed password (salt, iv, sealed) = cipher_for password salt >>= λ cipher.
      expect (unseal cipher iv sealed) >>= λ decrypted. expect (from_utf8 decrypted)

  unfoldable pub decrypt : Bytes → Bytes → Outcome E Bytes
  decrypt encrypted password =
      expect (decode encrypted) >>= λ buffer. split_buffer buffer >>= open_sealed password

module _ {ℓ} {E : Type ℓ} where
  slice-append_lengths :
      (a b c : Bytes) → slice {E = E} (length a) (length a + length b) (a ++ (b ++ c)) ≡ ok b
  unfolding slice
  slice-append_lengths a b c =
      let fits : (leb (length a) (length a + length b)
            && leb (length a + length b) (length (a ++ (b ++ c))))
          ≡ true =
        ground (arith, length-append a (b ++ c), length-append b c) in
      let size : length a + length b - length a ≡ length b = omega arith in
      rw (fits, size, drop-append a (b ++ c), take-append b c) refl

  -- A slice between two offsets of a buffer that was put together from parts of these lengths.
  slice-append :
      (i n : ℕ) (a b c : Bytes)
      → length a ≡ i
      → length b ≡ n
      → slice {E = E} i (i + n) (a ++ (b ++ c)) ≡ ok b
  slice-append i n a b c p q =
      subst (λ k. slice {E = E} k (k + n) (a ++ (b ++ c)) ≡ ok b) p
        (subst (λ k. slice {E = E} (length a) (length a + k) (a ++ (b ++ c)) ≡ ok b) q
          (slice-append_lengths a b c))

  slice-append_rest :
      (i : ℕ) (a b : Bytes) → length a ≡ i → slice {E = E} i (length (a ++ b)) (a ++ b) ≡ ok b
  slice-append_rest i a b p = rw (length-append a b) (
      subst (λ k. slice {E = E} i (length a + length b) (a ++ k) ≡ ok b) (append-nil b)
        (subst (λ k. slice {E = E} i (k + length b) (a ++ (b ++ [])) ≡ ok b) (sym p)
          (slice-append i (length b) a b [] p refl)))

  split_buffer-append :
      (x : Crypto) (salt iv sealed : Bytes)
      → length salt ≡ 16
      → length iv ≡ 12
      → split_buffer x {E = E} (salt ++ (iv ++ sealed)) ≡ ok (salt, iv, sealed)
  unfolding split_buffer
  split_buffer-append x salt iv sealed p q =
      let first : slice {E = E} 0 16 (salt ++ (iv ++ sealed)) ≡ ok salt =
        slice-append 0 16 [] salt (iv ++ sealed) refl p in
      let second : slice {E = E} 16 28 (salt ++ (iv ++ sealed)) ≡ ok iv =
        slice-append 16 12 salt iv sealed p q in
      let third : slice {E = E} 28 (length (salt ++ (iv ++ sealed))) (salt ++ (iv ++ sealed))
          ≡ ok sealed =
        subst (λ k. slice {E = E} 28 (length k) k ≡ ok sealed) (append_assoc salt iv sealed)
          (slice-append_rest 28 (salt ++ iv) sealed (omega (arith, length-append salt iv))) in
      rw (first, second, third) refl

expect-eq-ok {ℓ κ} :
    {E : Type ℓ} {A : Type κ} (o : Option A) {a : A} → expect {E = E} o ≡ ok a → o ≡ some a
expect-eq-ok none h = cc
expect-eq-ok (some a) h = ground arith

-- What was encrypted under a password, where that succeeded on a UTF-8 text, is decrypted under
-- the same password to the same text, whatever salt and nonce the generator gave.
pub decrypt-encrypt {ℓ} :
    {E : Type ℓ} (x : Crypto) (content password : Bytes) (i : ℕ) (encrypted : Bytes)
    → x.from_utf8 content ≡ some content
    → encrypt x {E = E} content password i ≡ ok encrypted
    → decrypt x {E = E} encrypted password ≡ ok content
unfolding encrypt decrypt open_sealed
decrypt-encrypt {E} x content password i encrypted utf8 h =
    let salt = x.fill_bytes i 16 in
    let iv = x.fill_bytes (suc i) 12 in
    let (cipher, key, h1) = >>=-eq-ok (cipher_for x password salt) _ h in
    let (sealed, made, h2) = >>=-eq-ok (expect (x.seal cipher iv content)) _ h1 in
    let whole : encrypted ≡ x.encode (salt ++ (iv ++ sealed)) = ground arith in
    let opened : x.unseal cipher iv sealed ≡ some content =
      x.unseal-seal cipher iv content sealed (expect-eq-ok {E = E} _ made) in
    rw
      (
        whole,
        x.decode-encode (salt ++ (iv ++ sealed)),
        split_buffer-append {E = E} x salt iv sealed (x.length-fill_bytes i 16)
            (x.length-fill_bytes (suc i) 12),
        key,
        opened,
        utf8,
      )
      refl
