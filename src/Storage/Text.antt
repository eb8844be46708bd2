-- ===== src/Storage/Text.antt =====
-- Tests on the text of keys: `str::starts_with`, `ends_with` and the two `strip` functions of Rust,
-- as node-manager/src/localstorage.rs and ldkstorage.rs use them.
use mathlib.Core.List.{reverse, reverse-append, reverse-reverse}
use mutiny_web_poc.Prelude.{
  Bool, true, false, ◌&&◌, Option, none, some, [], ◌∷◌, ◌++◌, Bytes, ◌≡◌, refl, arith, nat_eqb,
  nat_eqb_iff, if◌then◌else◌,
}
use mathlib.Core.Option

unfoldable pub strip_prefix : Bytes → Bytes → Option Bytes
strip_prefix [] k = some k
strip_prefix (p ∷ ps) [] = none
strip_prefix (p ∷ ps) (c ∷ k) = if nat_eqb p c then strip_prefix ps k else none

unfoldable pub strip_suffix : Bytes → Bytes → Option Bytes
unfolding strip_prefix
strip_suffix x k = Option.map reverse (strip_prefix (reverse x) (reverse k))

abbrev is_some : Option Bytes → Bool
is_some none = false
is_some (some b) = true

unfoldable pub starts_with : Bytes → Bytes → Bool
unfolding strip_prefix
starts_with p k = is_some (strip_prefix p k)

unfoldable pub ends_with : Bytes → Bytes → Bool
unfolding strip_suffix
ends_with x k = is_some (strip_suffix x k)

-- The condition of `scan`: `suffix.is_none() || key.ends_with(suffix.unwrap())` is its second half.
unfoldable pub key_matches : Bytes → Option Bytes → Bytes → Bool
key_matches prefix none k = starts_with prefix k && true
key_matches prefix (some x) k = starts_with prefix k && ends_with x k

pub strip_prefix-append : (p k : Bytes) → strip_prefix p (p ++ k) ≡ some k
unfolding strip_prefix
strip_prefix-append [] k = refl
strip_prefix-append (p ∷ ps) k = ground (arith, strip_prefix-append ps k)

pub strip_suffix-append : (k x : Bytes) → strip_suffix x (k ++ x) ≡ some k
unfolding strip_suffix
strip_suffix-append k x =
    rw (reverse-append k x, strip_prefix-append (reverse x) (reverse k), reverse-reverse k) refl

pub starts_with-append : (p k : Bytes) → starts_with p (p ++ k) ≡ true
unfolding starts_with
starts_with-append p k = rw (strip_prefix-append p k) refl

pub ends_with-append : (k x : Bytes) → ends_with x (k ++ x) ≡ true
unfolding ends_with
ends_with-append k x = rw (strip_suffix-append k x) refl

-- What is left of a key after its prefix puts the key together again.
pub strip_prefix_sound : (p k r : Bytes) → strip_prefix p k ≡ some r → k ≡ p ++ r
unfolding strip_prefix
strip_prefix_sound [] k r h = ground arith
strip_prefix_sound (p ∷ ps) [] r h = ground arith
strip_prefix_sound (p ∷ ps) (c ∷ k) r h = ground (arith, nat_eqb_iff p c, strip_prefix_sound ps k r)

-- A key with the prefix, and with the suffix if one is asked for, matches.
pub key_matches-prefix : (p k : Bytes) → key_matches p none (p ++ k) ≡ true
unfolding key_matches
key_matches-prefix p k = rw (starts_with-append p k) refl

pub key_matches-both :
    (p k x : Bytes) (whole : Bytes)
    → whole ≡ p ++ k
    → (front : Bytes) → whole ≡ front ++ x
    → key_matches p (some x) whole ≡ true
unfolding key_matches
key_matches-both p k x whole e front e' =
    let first : starts_with p whole ≡ true = rw e (starts_with-append p k) in
    let last : ends_with x whole ≡ true = rw e' (ends_with-append front x) in
    ground (arith, first, last)
