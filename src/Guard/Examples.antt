-- ===== src/Guard/Examples.antt =====
-- Packets on concrete data, and the theorem at one.
use forge_boss.Base.{
  ◌≡◌, refl, List, [], ◌∷◌, Text, codes, eq_text, elem, split, strip, lstrip, rstrip, replace_char,
  starts_with, ok, err, if◌then◌else◌,
}
use forge_boss.Casefold.{ascii, casefold}
use forge_boss.Value.{str, arr, Fields, end, field, get, get_or, has, of_texts, to_list}
use forge_boss.Policy.ReuseReview.{has_duplicate}
use forge_boss.Guard.{
  Posix, duplicate_files, traversal, sensitive_path, has_drive, drop_dots, iterate, norm, norm_all,
  sensitive, check_allowed, check_context, validate_packet,
}
use forge_boss.Guard.Normal.{IsPosix}
use forge_boss.Guard.Packets.{IsValidPacket, validate_packet-IsValidPacket}

-- Paths in normal form
abbrev plain_posix : Posix
plain_posix = record { parts = split b'/'; as_posix = λ p. p }

-- The normal form of the one path `secrets/ /.`
abbrev blank_posix : Posix
blank_posix = record {
  parts = split b'/';
  as_posix = λ p.
      if eq_text p (codes "secrets/ /.")
      then codes "secrets/ "
      else if eq_text p (codes "secrets/")
      then codes "secrets"
      else p;
}

abbrev packet : List Text → Fields
packet files = field "allowed_files" (arr (of_texts files)) end

-- The operations that the tests run
opened : Unit {0}
unfolding eq_text elem split strip lstrip rstrip replace_char starts_with ascii casefold get get_or
    has of_texts to_list has_duplicate has_drive drop_dots iterate norm norm_all sensitive
    check_allowed check_context validate_packet
opened = tt

two_files :
    validate_packet ascii plain_posix (packet (codes "src\\a.py" ∷ codes " ./b " ∷ []))
    ≡ ok (codes "src/a.py" ∷ codes "b" ∷ [], [])
unfolding opened
two_files = refl

same_file :
    validate_packet ascii plain_posix (packet (codes "a" ∷ codes "A" ∷ [])) ≡ err duplicate_files
unfolding opened
same_file = refl

parent : validate_packet ascii plain_posix (packet (codes "a/../b" ∷ [])) ≡ err traversal
unfolding opened
parent = refl

lock_file :
    validate_packet ascii plain_posix (packet (codes "Poetry.lock" ∷ []))
    ≡ err (sensitive_path (codes "Poetry.lock"))
unfolding opened
lock_file = refl

-- The steps through the directory itself hide the mark of a home directory.
hidden_home : norm ascii plain_posix (str (codes "./~/.ssh")) ≡ ok (codes "~/.ssh")
unfolding opened
hidden_home = refl

plain_posix-IsPosix : IsPosix plain_posix
plain_posix-IsPosix = record { unslashed = λ x h. h; stable = λ x. refl }

-- A blank at the end of a path hides a forbidden directory.
hidden_secrets :
    validate_packet ascii blank_posix (packet (codes "secrets/ /." ∷ []))
    ≡ ok (codes "secrets/ " ∷ [], [])
unfolding opened
hidden_secrets = refl

validate_packet-IsValidPacket_example :
    IsValidPacket ascii plain_posix plain_posix-IsPosix
      (packet (codes "src\\a.py" ∷ codes " ./b " ∷ []))
      (codes "src/a.py" ∷ codes "b" ∷ [])
      []
validate_packet-IsValidPacket_example =
    validate_packet-IsValidPacket ascii plain_posix plain_posix-IsPosix
      (packet (codes "src\\a.py" ∷ codes " ./b " ∷ [])) (codes "src/a.py" ∷ codes "b" ∷ []) []
      two_files
