-- ===== src/Policy/Signed/Laws.antt =====
-- What passes the checks of signatures and lifetimes.
use forge_boss.Base.{
  ltb, ℕ, ◌*◌, ◌<◌, ◌≡◌, refl, sym, ap, ◌∙◌, subst, true, false, List, [], ◌∷◌, ◌++◌, some, arith,
  Text, eq_text_iff, eq_text_refl, ok, all, any, map, is_space, is_control, strip, lstrip, rstrip,
  starts_with, >>=-eq-ok, from_option, from_option-eq-ok,
}
use forge_boss.Base.Int.{ℤ, pos, ◌≤ℤ◌, ◌<ℤ◌, ◌-ℤ◌, ◌+ℤ◌, +ℤ_parts, -ℤ_parts}
use forge_boss.Casefold.{to_lower}
use forge_boss.Value.{tick, Value, obj, str, Fields, get, without}
use forge_boss.Runtime.{Runtime}
use forge_boss.Store.Identity.{is_lower_hex}
use forge_boss.Store.Governance.{is_sha256}
use forge_boss.Envelope.{signature_prefix, digest_of, canonical}
use forge_boss.Policy.Signed.{drop_prefix, supplied_digest, check_signed, check_within}

-- The token carries the digest of its other entries under the secret.
abbrev pub IsSigned : Runtime → List ℕ → Fields → Type 0
IsSigned rt secret token =
    (digest : Text) × (get "signature" token ≡ str (signature_prefix ++ digest))
    × (digest_of rt secret (without "signature" token) ≡ some digest)

-- The time is within the token's lifetime, of at most `longest` seconds, or up to 30 seconds before
-- it.
pub record IsTimely (longest : ℕ) (issued expires now : ℤ) : Type 0 where
  pub lasts : issued <ℤ expires
  pub short : (expires -ℤ issued) ≤ℤ pos (longest * tick)
  pub begun : (issued -ℤ pos (30 * tick)) ≤ℤ now
  pub unexpired : now <ℤ expires

module _ {E : Type 0} (longest : ℕ) (invalid early late : E) where
  pub check_within-IsTimely :
      (issued expires now : ℤ)
      → check_within longest invalid early late issued expires now ≡ ok tt
      → IsTimely longest issued expires now
  unfolding check_within
  check_within-IsTimely issued expires now h = record {
    lasts = ground arith;
    short = ground arith;
    begun = ground arith;
    unexpired = ground arith;
  }

  pub check_within_of_timely :
      (issued expires now : ℤ)
      → IsTimely longest issued expires now
      → check_within longest invalid early late issued expires now ≡ ok tt
  unfolding check_within
  check_within_of_timely issued expires now t =
      ground (arith, t.lasts, t.short, t.begun, t.unexpired)

-- The second is the first, rounded by less than a second.
pub record IsNear (exact rounded : ℤ) : Type 0 where
  pub above : exact <ℤ (rounded +ℤ pos tick)
  pub below : rounded <ℤ (exact +ℤ pos tick)

-- A lifetime below the longest does not exceed it by the rounding of its end.
pub near_lifetime :
    (longest seconds : ℕ) (issued expires : ℤ)
    → 0 < seconds
    → seconds < longest
    → IsNear (issued +ℤ pos (seconds * tick)) expires
    → (issued <ℤ expires) × ((expires -ℤ issued) ≤ℤ pos (longest * tick))
near_lifetime longest seconds issued expires positive short near =
    let sum = +ℤ_parts issued (pos (seconds * tick)) in
    let up = +ℤ_parts expires (pos tick) in
    let over = +ℤ_parts (issued +ℤ pos (seconds * tick)) (pos tick) in
    let lasts = -ℤ_parts expires issued in
    (ground (arith, near.above, near.below), ground (arith, near.above, near.below))

pub drop_prefix-append : (p s : Text) → starts_with s p ≡ true → s ≡ p ++ drop_prefix p s
unfolding drop_prefix starts_with
drop_prefix-append [] s h = refl
drop_prefix-append (c ∷ p) [] h = cc
drop_prefix-append (c ∷ p) (d ∷ s) h =
    let heads : d ≡ c = ground arith in
    let tails : s ≡ p ++ drop_prefix p s = drop_prefix-append p s (ground arith) in cc

supplied_digest-prefix :
    (v : Value) (d : Text) → supplied_digest v ≡ some d → v ≡ str (signature_prefix ++ d)
unfolding supplied_digest
supplied_digest-prefix (str s) d h =
    let starts : starts_with s signature_prefix ≡ true = ground arith in
    let rest : drop_prefix signature_prefix s ≡ d = ground arith in
    ap str (drop_prefix-append signature_prefix s starts ∙ ap (λ t. signature_prefix ++ t) rest)
supplied_digest-prefix _ d h = cc

supplied_digest-append :
    (d : Text) → is_sha256 d ≡ true → supplied_digest (str (signature_prefix ++ d)) ≡ some d
unfolding supplied_digest starts_with drop_prefix
supplied_digest-append d h = rw h

module _ {E : Type 0} (invalid unencodable mismatch : E) (rt : Runtime) (key : List ℕ) where
  pub check_signed-IsSigned :
      (token : Fields)
      → check_signed invalid unencodable mismatch rt key token ≡ ok tt
      → IsSigned rt key token
  unfolding check_signed
  check_signed-IsSigned token h =
      let (d, supplied, then) =
        >>=-eq-ok (from_option invalid (supplied_digest (get "signature" token))) _ h in
      let (w, digests, last) =
        >>=-eq-ok (from_option unencodable (digest_of rt key (without "signature" token))) _ then in
      let same : d ≡ w = ground (arith, eq_text_iff d w) in
      let wanted : digest_of rt key (without "signature" token) ≡ some d =
        from_option-eq-ok unencodable _ digests ∙ ap some (sym same) in
      (d, supplied_digest-prefix _ d (from_option-eq-ok invalid _ supplied), wanted)

  pub check_signed_of_digest :
      (token : Fields) (digest : Text)
      → get "signature" token ≡ str (signature_prefix ++ digest)
      → digest_of rt key (without "signature" token) ≡ some digest
      → is_sha256 digest ≡ true
      → check_signed invalid unencodable mismatch rt key token ≡ ok tt
  unfolding check_signed
  check_signed_of_digest token digest signature wanted hex =
      rw (signature, supplied_digest-append digest hex, wanted, eq_text_refl digest)

lstrip_none : (s : Text) → all is_lower_hex s ≡ true → lstrip is_space s ≡ s
unfolding lstrip
lstrip_none [] h = refl
lstrip_none (c ∷ s) h = ground arith

rstrip_none : (s : Text) → all is_lower_hex s ≡ true → rstrip is_space s ≡ s
unfolding rstrip
rstrip_none [] h = refl
rstrip_none (c ∷ s) h =
    let rest : rstrip is_space s ≡ s = rstrip_none s (ground arith) in ground arith

-- Hexadecimal digits are kept by the normalisation of texts.
pub strip_hex : (s : Text) → all is_lower_hex s ≡ true → strip s ≡ s
unfolding strip
strip_hex s hex = ap (rstrip is_space) (lstrip_none s hex) ∙ rstrip_none s hex

pub no_control : (s : Text) → all is_lower_hex s ≡ true → any is_control s ≡ false
no_control [] h = refl
no_control (c ∷ s) h =
    let rest : any is_control s ≡ false = no_control s (ground arith) in ground arith

pub to_lower_hex : (s : Text) → all is_lower_hex s ≡ true → map to_lower s ≡ s
to_lower_hex [] h = refl
to_lower_hex (c ∷ s) h =
    let rest : map to_lower s ≡ s = to_lower_hex s (ground arith) in
    let lower : to_lower c ≡ c = ground arith in cc

pub digest_of-is_sha256 :
    (rt : Runtime)
    → ((key data_bytes : List ℕ) → is_sha256 (rt.hmac_hex key data_bytes) ≡ true)
    → (key : List ℕ) (body : Fields) (d : Text) → digest_of rt key body ≡ some d
    → is_sha256 d ≡ true
unfolding digest_of
digest_of-is_sha256 rt digests key body d h =
    let (message, read) : (x : List ℕ) × (canonical rt (obj body) ≡ some x) = ground arith in
    let same : rt.hmac_hex key message ≡ d = ground arith in
    subst (λ x. is_sha256 x ≡ true) same (digests key message)

pub is_ascii_hex : (s : Text) → all is_lower_hex s ≡ true → all (λ c. ltb c 128) s ≡ true
is_ascii_hex [] h = refl
is_ascii_hex (c ∷ s) h =
    let rest : all (λ c. ltb c 128) s ≡ true = is_ascii_hex s (ground arith) in ground arith
