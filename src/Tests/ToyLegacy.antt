-- ===== src/Tests/ToyLegacy.antt =====
-- Exported keys that are numbers, and a protector that protects nothing.
use local_tls.Base.{ℕ, Option, some, false}
use local_tls.Errors.{Outcome, ok, err, text}
use local_tls.Host.{ecdsa, p256}
use local_tls.Legacy.{ExportedKeys, Protector}
use local_tls.Tests.Toy.{toy, Blob, junk}

abbrev pub key_of : Blob → Outcome (Option ℕ)
key_of (junk n) = ok (some n)
key_of _ = err (text "malformed key")

abbrev pub exported : ExportedKeys toy
exported = record {
  Key = ℕ;
  coordinates = λ k. (k, 1);
  signer = λ k. record { handle = 0; public_key = ecdsa p256 k 1; closer = false };
  generate_key = λ reads. (ok 7, reads);
  marshal = λ k. ok (junk k);
  parse_key = key_of;
}

abbrev pub plain : Protector toy
plain = record { protect = λ b. ok b; unprotect = λ b. ok b }
