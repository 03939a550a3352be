-- ===== src/Daemon/Connect/Authentic.antt =====
-- What a request to connect shows that passes the check of its proof, of forgeboss/control/auth.py.
use forge_boss.Base.{
  ℕ, ◌*◌, ◌≡◌, ◌≤◌, refl, ◌∙◌, subst, true, false, not, List, ◌++◌, some, arith, Text, eq_text_iff,
  eq_text_refl, starts_with, length, all, ltb, ok, raise_if, from_option, from_option-eq-ok,
  >>=-eq-ok,
}
use forge_boss.Base.Int.{ℤ, pos, ◌≤ℤ◌, ◌+ℤ◌, +ℤ_parts, -ℤ_parts}
use forge_boss.Value.{tick, Value, int, str, arr, Items, Fields, end, field, get, get_or}
use forge_boss.Runtime.{Runtime}
use forge_boss.Envelope.{signature_prefix, digest_of}
use forge_boss.Runtime.Conversions.{Conversions, to_int, text_or_empty, or_empty}
use forge_boss.Daemon.Connect.{
  not_a_number, nonce_too_short, timestamp_expired, proof_missing, digest_not_ascii, unicode_error,
  material, make_connect_proof, is_outside, in_ticks, verify_connect_proof, is_array, authenticate,
}

module _ (rt : Runtime) (c : Conversions) where
  -- What the proof is a digest of: the version, the client, the capabilities, the time and the nonce
  abbrev pub claims : Fields → ℤ → Fields
  claims p stamp = field "protocolVersion" (int (pos 1)) (
      field "client" (str (text_or_empty c (get "client" p))) (
        field "capabilities" (or_empty (get "capabilities" p)) (
          field "timestamp" (int stamp)
            (field "nonce" (str (text_or_empty c (get "nonce" p))) end))))

  -- A request of version 1 with an array of capabilities, a long nonce, a timestamp at most 30
  -- seconds before or after now, and the digest of its claims under the secret as its proof
  pub record IsAuthentic (secret : List ℕ) (p : Fields) (now : ℤ) : Type 0 where
    pub version : to_int c (get_or (int (pos 0)) "protocolVersion" p) ≡ some (pos 1)
    pub items : Items
    pub capabilities : or_empty (get "capabilities" p) ≡ arr items
    pub long : 24 ≤ length (text_or_empty c (get "nonce" p))
    pub stamp : ℤ
    pub stamped : to_int c (get_or (int (pos 0)) "timestamp" p) ≡ some stamp
    pub begun : in_ticks rt c stamp ≤ℤ (now +ℤ pos (30 * tick))
    pub current : now ≤ℤ (in_ticks rt c stamp +ℤ pos (30 * tick))
    pub digest : Text
    pub digests : digest_of rt secret (claims p stamp) ≡ some digest
    pub proof : text_or_empty c (get "authProof" p) ≡ signature_prefix ++ digest

  is_array-items : (v : Value) → is_array rt c v ≡ true → (items : Items) × (v ≡ arr items)
  is_array-items (arr items) h = (items, refl)
  is_array-items _ h = cc

  within :
      (now stamp : ℤ)
      → is_outside rt c now stamp ≡ false
      → (stamp ≤ℤ (now +ℤ pos (30 * tick))) × (now ≤ℤ (stamp +ℤ pos (30 * tick)))
  within now stamp h =
      let back = -ℤ_parts now stamp in
      let ahead = -ℤ_parts stamp now in
      let late = +ℤ_parts now (pos (30 * tick)) in
      let early = +ℤ_parts stamp (pos (30 * tick)) in (ground arith, ground arith)

  is_outside-within :
      (now stamp : ℤ)
      → stamp ≤ℤ (now +ℤ pos (30 * tick))
      → now ≤ℤ (stamp +ℤ pos (30 * tick))
      → is_outside rt c now stamp ≡ false
  is_outside-within now stamp begun current =
      let back = -ℤ_parts now stamp in
      let ahead = -ℤ_parts stamp now in
      let late = +ℤ_parts now (pos (30 * tick)) in
      let early = +ℤ_parts stamp (pos (30 * tick)) in ground arith

  material-claims :
      (p : Fields) (stamp : ℤ)
      → to_int c (get_or (int (pos 0)) "protocolVersion" p) ≡ some (pos 1)
      → to_int c (get_or (int (pos 0)) "timestamp" p) ≡ some stamp
      → material rt c p ≡ ok (claims p stamp)
  unfolding material
  material-claims p stamp version stamped = rw (version, stamped)

  -- The parts of `IsAuthentic` that the check of the proof gives
  record IsProved (secret : List ℕ) (p : Fields) (now stamp : ℤ) : Type 0 where
    pub long : 24 ≤ length (text_or_empty c (get "nonce" p))
    pub current : is_outside rt c now (in_ticks rt c stamp) ≡ false
    pub digest : Text
    pub digests : digest_of rt secret (claims p stamp) ≡ some digest
    pub proof : text_or_empty c (get "authProof" p) ≡ signature_prefix ++ digest

  make_connect_proof-claims :
      (secret : List ℕ) (p claimed : Fields) (wanted : Text)
      → material rt c p ≡ ok claimed
      → make_connect_proof rt c p secret ≡ ok wanted
      → (digest : Text) × (digest_of rt secret claimed ≡ some digest)
        × (wanted ≡ signature_prefix ++ digest)
  unfolding make_connect_proof
  make_connect_proof-claims secret p claimed wanted claims_made h =
      let (found, makes, a) = >>=-eq-ok (material rt c p) _ h in
      let (digest, digests, last) =
        >>=-eq-ok (from_option unicode_error (digest_of rt secret found)) _ a in
      let same : found ≡ claimed = ground arith in
      let given : digest_of rt secret found ≡ some digest =
        from_option-eq-ok unicode_error (digest_of rt secret found) digests in
      (digest, subst (λ x. digest_of rt secret x ≡ some digest) same given, ground arith)

  verify_connect_proof-IsProved :
      (secret : List ℕ) (p : Fields) (now stamp : ℤ)
      → to_int c (get_or (int (pos 0)) "protocolVersion" p) ≡ some (pos 1)
      → to_int c (get_or (int (pos 0)) "timestamp" p) ≡ some stamp
      → verify_connect_proof rt c p secret now ≡ ok tt
      → IsProved secret p now stamp
  unfolding verify_connect_proof
  verify_connect_proof-IsProved secret p now stamp version stamped h =
      let (found, stamps, a) =
        >>=-eq-ok (from_option not_a_number (to_int c (get_or (int (pos 0)) "timestamp" p))) _ h in
      let same : found ≡ stamp = ground arith in
      let nonce : Text = text_or_empty c (get "nonce" p) in
      let proof : Text = text_or_empty c (get "authProof" p) in
      let (_, long, e) = >>=-eq-ok (raise_if (ltb (length nonce) 24) nonce_too_short) _ a in
      let (_, current, f) =
        >>=-eq-ok (raise_if (is_outside rt c now (in_ticks rt c found)) timestamp_expired) _ e in
      let (_, starts, g) =
        >>=-eq-ok (raise_if (not (starts_with proof signature_prefix)) proof_missing) _ f in
      let (wanted, made, i) = >>=-eq-ok (make_connect_proof rt c p secret) _ g in
      let (_, plain, last) =
        >>=-eq-ok (raise_if (not (all (λ x. ltb x 128) proof)) digest_not_ascii) _ i in
      let claimed = material-claims p stamp version stamped in
      let (digest, digests, whole) =
        make_connect_proof-claims secret p (claims p stamp) wanted claimed made in
      let near : is_outside rt c now (in_ticks rt c found) ≡ false = ground arith in
      record {
        long = ground arith;
        current = subst (λ x. is_outside rt c now (in_ticks rt c x) ≡ false) same near;
        digest = digest;
        digests = digests;
        proof = (eq_text_iff proof wanted).0 (ground arith) ∙ whole;
      }

  pub authenticate-IsAuthentic :
      (secret : List ℕ) (p : Fields) (now : ℤ)
      → authenticate rt c secret p now ≡ ok tt
      → IsAuthentic secret p now
  unfolding authenticate verify_connect_proof
  authenticate-IsAuthentic secret p now h =
      let verified : verify_connect_proof rt c p secret now ≡ ok tt = ground arith in
      let version : to_int c (get_or (int (pos 0)) "protocolVersion" p) ≡ some (pos 1) =
        ground arith in
      let (items, listed) = is_array-items (or_empty (get "capabilities" p)) (ground arith) in
      let (stamp, stamps, _) =
        >>=-eq-ok (from_option not_a_number (to_int c (get_or (int (pos 0)) "timestamp" p))) _
          verified in
      let stamped : to_int c (get_or (int (pos 0)) "timestamp" p) ≡ some stamp =
        from_option-eq-ok not_a_number (to_int c (get_or (int (pos 0)) "timestamp" p)) stamps in
      let proved = verify_connect_proof-IsProved secret p now stamp version stamped verified in
      let times = within now (in_ticks rt c stamp) proved.current in
      record {
        version = version;
        items = items;
        capabilities = listed;
        long = proved.long;
        stamp = stamp;
        stamped = stamped;
        begun = times.0;
        current = times.1;
        digest = proved.digest;
        digests = proved.digests;
        proof = proved.proof;
      }

  pub IsAuthentic-authenticate :
      (secret : List ℕ) (p : Fields) (now : ℤ)
      → (a : IsAuthentic secret p now) → all (λ x. ltb x 128) (signature_prefix ++ a.digest) ≡ true
      → authenticate rt c secret p now ≡ ok tt
  unfolding authenticate verify_connect_proof make_connect_proof
  IsAuthentic-authenticate secret p now a plain =
      let long : ltb (length (text_or_empty c (get "nonce" p))) 24 ≡ false =
        ground (arith, a.long) in
      let starts : starts_with (signature_prefix ++ a.digest) signature_prefix ≡ true =
        unfold starts_with in refl in
      rw (
        a.version,
        a.capabilities,
        a.stamped,
        long,
        is_outside-within now (in_ticks rt c a.stamp) a.begun a.current,
        a.proof,
        starts,
        material-claims p a.stamp a.version a.stamped,
        a.digests,
        plain,
        eq_text_refl (signature_prefix ++ a.digest),
      )
