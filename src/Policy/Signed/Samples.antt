-- ===== src/Policy/Signed/Samples.antt =====
-- Digests, a secret and a commit for tests.
use forge_boss.Base.{
  ltb, ℕ, suc, zero, ◌+◌, ◌*◌, ◌/◌, ◌%◌, ◌≡◌, refl, ap, true, List, [], ◌∷◌, arith, Text, codes,
  all, length, foldl,
}
use forge_boss.Policy.Signed.Laws.{is_ascii_hex}
use forge_boss.Runtime.Plain.{plain_digest, hex_text, hex_digit}
use forge_boss.Store.Identity.{is_lower_hex}
use forge_boss.Store.Governance.{is_sha256}

hex_digit-is_lower_hex : (n : ℕ) → is_lower_hex (hex_digit (n % 16)) ≡ true
hex_digit-is_lower_hex n = ground arith

length-hex_text : (k n : ℕ) → length (hex_text k n) ≡ k
unfolding hex_text
length-hex_text zero n = refl
length-hex_text (suc k) n = ap suc (length-hex_text k (n / 16))

hex_text-is_lower_hex : (k n : ℕ) → all is_lower_hex (hex_text k n) ≡ true
unfolding hex_text
hex_text-is_lower_hex zero n = refl
hex_text-is_lower_hex (suc k) n =
    ground (arith, hex_digit-is_lower_hex n, hex_text-is_lower_hex k (n / 16))

sized-is_sha256 : (s : Text) → length s ≡ 64 → all is_lower_hex s ≡ true → is_sha256 s ≡ true
unfolding is_sha256
sized-is_sha256 s sized hex = rw (sized, hex)

pub plain_digest-is_sha256 : (data_bytes : List ℕ) → is_sha256 (plain_digest data_bytes) ≡ true
unfolding plain_digest
plain_digest-is_sha256 data_bytes =
    sized-is_sha256 (hex_text 64 number) (length-hex_text 64 number)
      (hex_text-is_lower_hex 64 number)
  where
    number : ℕ
    number = foldl (λ acc b. acc * 257 + b + 1) 0 data_bytes

abbrev pub secret : List ℕ
secret =
    1 ∷ 2 ∷ 3 ∷ 4 ∷ 5 ∷ 6 ∷ 7 ∷ 8 ∷ 9 ∷ 10 ∷ 11 ∷ 12 ∷ 13 ∷ 14 ∷ 15 ∷ 16 ∷ 17 ∷ 18 ∷ 19 ∷ 20 ∷ 21
    ∷ 22 ∷ 23 ∷ 24 ∷ 25 ∷ 26 ∷ 27 ∷ 28 ∷ 29 ∷ 30 ∷ 31 ∷ 32 ∷ []

abbrev pub base : Text
base = codes "0123456789abcdef0123456789abcdef01234567"

pub plain_digest-is_ascii :
    (data_bytes : List ℕ) → all (λ c. ltb c 128) (plain_digest data_bytes) ≡ true
plain_digest-is_ascii data_bytes =
    is_ascii_hex (plain_digest data_bytes)
      (unfold is_sha256 in ground (arith, plain_digest-is_sha256 data_bytes))
