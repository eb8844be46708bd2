-- ===== src/Payment/Sample.antt =====
-- A text form of payment records, at which the assumptions about the JSON that
-- node-manager/src/ldkstorage.rs stores hold.
use mutiny_web_poc.Prelude.{
  ℕ, zero, suc, Option, none, some, [], ◌∷◌, ◌++◌, Bytes, ◌≡◌, arith, refl, ap, sym, ◌∙◌,
}
use mathlib.Core.List.{append_assoc}
use mutiny_web_poc.Storage.{Serde}
use mutiny_web_poc.Storage.Memory.{bytes_serde}
use mutiny_web_poc.Payment.{PaymentInfo, HtlcStatus, pending, in_flight, succeeded, failed, Formats}

-- A printer, and a reader that gives back what it was given and the rest of the text.
pub record Field (A : Type 0) : Type 0 where
  pub print : A → Bytes
  pub read : Bytes → Option (A × Bytes)
  pub read-print : (a : A) (rest : Bytes) → read (print a ++ rest) ≡ some (a, rest)

abbrev pub print_bytes : Bytes → Bytes
print_bytes [] = 0 ∷ []
print_bytes (b ∷ bs) = 1 ∷ b ∷ print_bytes bs

abbrev pub cons_read : ℕ → Option (Bytes × Bytes) → Option (Bytes × Bytes)
cons_read b none = none
cons_read b (some (bs, rest)) = some (b ∷ bs, rest)

abbrev pub read_bytes : Bytes → Option (Bytes × Bytes)
read_bytes [] = none
read_bytes (zero ∷ rest) = some ([], rest)
read_bytes (suc n ∷ []) = none
read_bytes (suc n ∷ b ∷ rest) = cons_read b (read_bytes rest)

pub read_bytes-print : (bs rest : Bytes) → read_bytes (print_bytes bs ++ rest) ≡ some (bs, rest)
read_bytes-print [] rest = refl
read_bytes-print (b ∷ bs) rest = ap (cons_read b) (read_bytes-print bs rest)

abbrev pub bytes_field : Field Bytes
bytes_field = record { print = print_bytes; read = read_bytes; read-print = read_bytes-print }

abbrev pub read_nat : Bytes → Option (ℕ × Bytes)
read_nat [] = none
read_nat (n ∷ rest) = some (n, rest)

abbrev pub nat_field : Field ℕ
nat_field = record { print = λ n. n ∷ []; read = read_nat; read-print = λ n rest. refl }

abbrev status_code : HtlcStatus → ℕ
status_code pending = 0
status_code in_flight = 1
status_code succeeded = 2
status_code failed = 3

abbrev status_of : ℕ → HtlcStatus
status_of zero = pending
status_of (suc zero) = in_flight
status_of (suc (suc zero)) = succeeded
status_of _ = failed

status_of-code : (s : HtlcStatus) → status_of (status_code s) ≡ s
status_of-code pending = refl
status_of-code in_flight = refl
status_of-code succeeded = refl
status_of-code failed = refl

module _ {A : Type 0} (c : Field A) where
  abbrev some_read : Option (A × Bytes) → Option (Option A × Bytes)
  some_read none = none
  some_read (some (a, rest)) = some (some a, rest)

  abbrev print_option : Option A → Bytes
  print_option none = 0 ∷ []
  print_option (some a) = 1 ∷ c.print a

  abbrev read_option : Bytes → Option (Option A × Bytes)
  read_option [] = none
  read_option (zero ∷ rest) = some (none, rest)
  read_option (suc n ∷ rest) = some_read (c.read rest)

  pub read_option-print :
      (o : Option A) (rest : Bytes) → read_option (print_option o ++ rest) ≡ some (o, rest)
  read_option-print none rest = refl
  read_option-print (some a) rest = ap some_read (c.read-print a rest)

  abbrev option_field : Field (Option A)
  option_field = record { print = print_option; read = read_option; read-print = read_option-print }

module _ {A B : Type 0} (c : Field A) (d : Field B) where
  abbrev pub second_read : A → Option (B × Bytes) → Option ((A × B) × Bytes)
  second_read a none = none
  second_read a (some (b, rest)) = some ((a, b), rest)

  abbrev pub first_read : Option (A × Bytes) → Option ((A × B) × Bytes)
  first_read none = none
  first_read (some (a, rest)) = second_read a (d.read rest)

  pub pair_read-print :
      (a : A) (b : B) (rest : Bytes)
      → first_read (c.read ((c.print a ++ d.print b) ++ rest)) ≡ some ((a, b), rest)
  pair_read-print a b rest =
      rw
        (
          append_assoc (c.print a) (d.print b) rest,
          c.read-print a (d.print b ++ rest),
          d.read-print b rest,
        )
        refl

  abbrev pub pair_field : Field (A × B)
  pair_field = record {
    print = λ p. c.print p.0 ++ d.print p.1;
    read = λ t. first_read (c.read t);
    read-print = λ p rest. pair_read-print p.0 p.1 rest;
  }

-- The fields of a record, as nested pairs.
abbrev Row : Type 0
Row = (Option Bytes × Option Bytes) × ((ℕ × Option ℕ) × ((Option ℕ × Option Bytes) × ℕ))

abbrev row_field : Field Row
row_field = pair_field (pair_field (option_field bytes_field) (option_field bytes_field)) (
    pair_field (pair_field nat_field (option_field nat_field))
      (pair_field (pair_field (option_field nat_field) (option_field bytes_field)) nat_field))

abbrev to_row : PaymentInfo → Row
to_row i = (
  (i.preimage, i.secret),
  ((status_code i.status, i.amt_msat.msat), ((i.fee_paid_msat, i.bolt11), i.last_update)),
)

abbrev of_row : Row → PaymentInfo
of_row r = record {
  preimage = r.0.0;
  secret = r.0.1;
  status = status_of r.1.0.0;
  amt_msat = record { msat = r.1.0.1 };
  fee_paid_msat = r.1.1.0.0;
  bolt11 = r.1.1.0.1;
  last_update = r.1.1.1;
}

of_row-to_row : (i : PaymentInfo) → of_row (to_row i) ≡ i
of_row-to_row i = ap (λ s. record i { status = s }) (status_of-code i.status)

abbrev parsed : Option (Row × Bytes) → Option PaymentInfo
parsed none = none
parsed (some (r, rest)) = some (of_row r)

pub parsed-print :
    (i : PaymentInfo) (b : Bytes)
    → some (row_field.print (to_row i) ++ []) ≡ some b
    → parsed (row_field.read b) ≡ some i
parsed-print i b h =
    let eq : row_field.print (to_row i) ++ [] ≡ b = ground arith in
    ap parsed (ap row_field.read (sym eq) ∙ row_field.read-print (to_row i) [])
    ∙ ap some (of_row-to_row i)

abbrev pub info_serde : Serde PaymentInfo
info_serde = record {
  to_string = λ i. some (row_field.print (to_row i) ++ []);
  from_str = λ b. parsed (row_field.read b);
  from_str-to_string = parsed-print;
}

abbrev pub sample_formats : Formats
sample_formats = record {
  PublicKey = Bytes;
  pubkey_from_str = some;
  to_hex = λ b. b;
  info_serde = info_serde;
  string_serde = bytes_serde;
  to_hex_injective = λ a b h. h;
}
