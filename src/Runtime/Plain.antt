-- ===== src/Runtime/Plain.antt =====
-- A concrete runtime for tests: ASCII case folding, POSIX paths that are resolved already, no
-- numbers in texts, and digests that are hexadecimal sums of the data.
use forge_boss.Base.{
  ℕ, suc, zero, ◌+◌, ◌*◌, ◌/◌, ◌%◌, none, List, [], ◌∷◌, ◌++◌, Text, codes, starts_with, ltb,
  if◌then◌else◌, foldl,
}
use forge_boss.Base.Int.{◌+ℤ◌}
use forge_boss.Casefold.{ascii}
use forge_boss.Runtime.{Runtime}

abbrev pub hex_digit : ℕ → ℕ
hex_digit n = if ltb n 10 then b'0' + n else 87 + n

unfoldable pub hex_text : ℕ → ℕ → Text
hex_text zero n = []
hex_text (suc k) n = hex_digit (n % 16) ∷ hex_text k (n / 16)

unfoldable pub plain_digest : List ℕ → Text
unfolding hex_text
plain_digest data_bytes = hex_text 64 (foldl (λ acc b. acc * 257 + b + 1) 0 data_bytes)

unfoldable pub plain : Runtime
unfolding ascii plain_digest starts_with
plain = record {
  table = ascii;
  loads = λ t. none;
  dumps = λ v. codes "{}";
  parse_float = λ t. none;
  parse_decimal = λ t. none;
  add_float = λ a b. a +ℤ b;
  is_absolute = λ t. starts_with t (b'/' ∷ []);
  resolve = λ t. t;
  is_within = λ root t. starts_with t root;
  sha256_hex = plain_digest;
  hmac_hex = λ key message. plain_digest (key ++ message);
}
