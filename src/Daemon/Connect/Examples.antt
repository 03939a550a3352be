-- ===== src/Daemon/Connect/Examples.antt =====
-- A connection on concrete data, and the theorems at it.
use forge_boss.Base.{
  ◌*◌, ◌≡◌, ◌≢◌, refl, List, [], ◌∷◌, ◌++◌, none, some, arith, Text, codes, eq_text, starts_with,
  ok, err,
}
use forge_boss.Base.Int.{ℤ, pos, negsuc, ◌-ℤ◌, ◌+ℤ◌}
use forge_boss.Value.{tick, int, float, finite, str, arr, nil, Fields, end, field, get, get_or, has}
use forge_boss.Runtime.Plain.{plain, plain_digest}
use forge_boss.Policy.Signed.Samples.{secret}
use forge_boss.Envelope.{utf8, canonical, digest_of, signature_prefix}
use forge_boss.Runtime.Conversions.{Conversions, to_int, is_true, text_or_empty}
use forge_boss.Daemon.Connect.{
  auth_replay, material, make_connect_proof, verify_connect_proof, recent_nonces, has_nonce,
  use_nonce, authenticate, connect,
}
use forge_boss.Daemon.Connect.Authentic.{IsAuthentic}
use forge_boss.Daemon.Connect.Soundness.{IsFresh, connect-IsAuthentic, connect_accepts}
use forge_boss.Daemon.Connect.Replay.{Used, none_more, connect-once}

abbrev conversions : Conversions
conversions = record { parse_int = λ t. none; show = λ v. [] }

abbrev nonce_text : Text
nonce_text = codes "0123456789abcdef01234567"

abbrev request : Fields
request = field "protocolVersion" (int (pos 1)) (
    field "client" (str (codes "cli")) (
      field "capabilities" (arr nil) (
        field "timestamp" (int (pos 100)) (
          field "nonce" (str nonce_text) (
            field "authProof" (str (signature_prefix ++ plain_digest (secret ++ codes "{}")))
              end)))))

abbrev remembered : List (Text × ℤ)
remembered = (nonce_text, pos (101 * tick)) ∷ []

-- The operations that the tests run
opened : Unit {0}
unfolding plain eq_text starts_with get get_or has ◌-ℤ◌ ◌+ℤ◌ utf8 canonical digest_of to_int is_true
    text_or_empty material make_connect_proof verify_connect_proof recent_nonces has_nonce use_nonce
    authenticate connect
opened = tt

cut_off : to_int conversions (float (finite (negsuc (2 * tick)))) ≡ some (negsuc 1)
unfolding opened
cut_off = refl

accepted :
    connect plain conversions secret request (pos (100 * tick)) (pos (101 * tick)) []
    ≡ record { nonces = remembered; answer = ok tt }
unfolding opened
accepted = refl

refused :
    connect plain conversions secret request (pos (102 * tick)) (pos (103 * tick)) remembered
    ≡ record { nonces = remembered; answer = err auth_replay }
unfolding opened
refused = refl

-- A client whose clock is 30 seconds ahead has a proof that is good for 60 seconds; the nonce is
-- forgotten when they are over.
replayed_on_the_edge :
    connect plain conversions secret request
      (pos (130 * tick))
      (pos (130 * tick))
      ((nonce_text, pos (70 * tick)) ∷ [])
    ≡ record { nonces = (nonce_text, pos (130 * tick)) ∷ []; answer = ok tt }
unfolding opened
replayed_on_the_edge = refl

connect-once_example :
    (connect plain conversions secret request
      (pos (102 * tick))
      (pos (103 * tick))
      remembered).answer
    ≢ ok tt
unfolding opened
connect-once_example =
    connect-once plain conversions secret request request (pos (100 * tick)) (pos (101 * tick))
      (pos (102 * tick)) (pos (103 * tick)) [] remembered (pos (101 * tick)) refl
      (none_more remembered (pos (101 * tick))) (ground arith) refl refl

authentic : IsAuthentic plain conversions secret request (pos (100 * tick))
unfolding opened
authentic = record {
  version = refl;
  items = nil;
  capabilities = refl;
  long = ground arith;
  stamp = pos 100;
  stamped = refl;
  begun = ground arith;
  current = ground arith;
  digest = plain_digest (secret ++ codes "{}");
  digests = refl;
  proof = refl;
}

connect_accepts_example :
    (connect plain conversions secret request (pos (100 * tick)) (pos (101 * tick)) []).answer
    ≡ ok tt
unfolding opened authentic Used
connect_accepts_example =
    connect_accepts plain conversions secret request (pos (100 * tick)) (pos (101 * tick)) []
      authentic refl (λ at used. elim used [ ])

connect-IsAuthentic_example :
    IsAuthentic plain conversions secret request (pos (100 * tick))
    × IsFresh plain conversions
        (text_or_empty conversions (get "nonce" request))
        (pos (101 * tick))
        []
    × Used plain conversions
        (text_or_empty conversions (get "nonce" request))
        (pos (101 * tick))
        (connect plain conversions secret request (pos (100 * tick)) (pos (101 * tick)) []).nonces
unfolding opened
connect-IsAuthentic_example =
    connect-IsAuthentic plain conversions secret request (pos (100 * tick)) (pos (101 * tick)) []
      refl
