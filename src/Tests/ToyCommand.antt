-- ===== src/Tests/ToyCommand.antt =====
-- Test keys, signatures and a process that are small enough to run.
use local_tls.Base.{
  ℕ, String, str_eq_iff, ◌&&◌, Option, none, some, List, [], ◌∷◌, ◌≡◌, ◌≢◌, refl, arith,
}
use local_tls.Errors.{ok}
use local_tls.Host.{name, ecdsa, PublicKey}
use local_tls.Runes.{codes}
use local_tls.TestKeys.{SignerApi}
use local_tls.TestKeys.Isolated.{NamesOnly}
use local_tls.VerifyCommand.{Process}
use local_tls.VerifyCommand.Balance.{OpensNothing}
use local_tls.Tests.Toy.{
  toy, junk, Provider, cng, key_eq, same_digest, put, open_found, create_missing, delete_found,
  live,
}

put_elsewhere :
    (s : String → Option PublicKey) (t : String) (v : Option PublicKey) (n : String)
    → t ≢ n
    → put s t v n ≡ s n
put_elsewhere s t v n d = ground (arith, str_eq_iff n t)

pub created_elsewhere :
    (o : Option PublicKey) (t n : String) (k : Provider)
    → t ≢ n
    → (create_missing o t k).1.stored n ≡ k.stored n
created_elsewhere none t n k d = put_elsewhere k.stored t _ n d
created_elsewhere (some key) t n k d = refl

pub found_elsewhere :
    (o : Option PublicKey) (n : String) (k : Provider) → (open_found o k).1.stored n ≡ k.stored n
found_elsewhere none n k = refl
found_elsewhere (some key) n k = refl

pub deleted_elsewhere :
    (o : Option PublicKey) (t n : String) (k : Provider)
    → t ≢ n
    → (delete_found o t k).1.stored n ≡ k.stored n
deleted_elsewhere none t n k d = refl
deleted_elsewhere (some key) t n k d = put_elsewhere k.stored t none n d

abbrev pub names : NamesOnly cng
names = record {
  stored = λ k. k.stored;
  create_elsewhere = λ t n k d. created_elsewhere (k.stored t) t n k d;
  open_elsewhere = λ t n k d. found_elsewhere (k.stored t) n k;
  delete_elsewhere = λ t n k d. deleted_elsewhere (k.stored t) t n k d;
  close = λ h k n. refl;
}

-- A signature is the key and the digest.
abbrev pub signing : SignerApi toy
signing = record {
  Signature = PublicKey × List ℕ;
  message = λ s. junk 0;
  sign = λ s hash k. (ok (s.public_key, hash), k);
  verify_asn1 = λ curve x y hash sig. key_eq (ecdsa curve x y) sig.0 && same_digest hash sig.1;
}

pub opens_nothing : OpensNothing live cng signing
opens_nothing = record { sign = λ s hash k. refl; delete = λ t k. deleted_open (k.stored t) t k }
  where
    deleted_open :
        (o : Option PublicKey) (t : String) (k : Provider) → (delete_found o t k).1.open' ≡ k.open'
    deleted_open none t k = refl
    deleted_open (some key) t k = refl

-- A process with no variable set; every file is a PEM block of a certificate.
abbrev pub shell : Process toy
shell = record {
  getenv = λ v. "";
  path_of = λ s. name s ∷ [];
  pem_decode = λ b. some ("CERTIFICATE", b);
  message = λ e. codes "Access is denied.";
}
