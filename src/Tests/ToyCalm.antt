-- ===== src/Tests/ToyCalm.antt =====
-- The small key provider makes both keys, the program's trust store over the small certificate store
-- takes the certificate, and the fresh machine has room for the certificates.
use local_tls.Base.{
  String, true, false, Option, none, some, List, [], ◌∷◌, ◌≡◌, refl, inl, inr, arith, length, ◌<◌,
}
use local_tls.Errors.{ok, is_ok}
use local_tls.Host.{PublicKey, Time}
use local_tls.Identity.{prod_ca_key_name, prod_server_key_name}
use local_tls.Certificate.{is_p256, draw_serial}
use local_tls.Provision.Calm.{Made, Open}
use local_tls.Machine.Calm.{Provides}
use local_tls.Machine.ReadOnly.{agent_root}
use local_tls.TrustStore.{TrustStore}
use local_tls.WinRoot.{
  windows_trust_store, install_trust, find_cert_by_sha256, open_machine_root_store,
}
use local_tls.WinRoot.Action.{◌>>=◌}
use local_tls.WinRoot.Search.{find_cert_by_sha256-Answers}
use local_tls.Tests.ToyRoot.{crypto, enumerates}
use local_tls.Tests.Toy.{
  toy, Provider, Blob, empty, signed, junk, digest, is_empty_blob, parse_blob, cng, fresh,
  create_missing,
}

abbrev pub NoKeys : Provider → Type 0
NoKeys k = (t : String) → k.stored t ≡ none

abbrev Usable : Option PublicKey → Type 0
Usable none = Unit {0}
Usable (some key) = is_p256 key ≡ true

-- The server's key can be opened or made.
abbrev pub Keyed : Provider → Type 0
Keyed k = Usable (k.stored prod_server_key_name)

ca_made :
    (k : Provider) (o : Option PublicKey)
    → o ≡ none
    → NoKeys k
    → Made toy (λ _. Keyed) (create_missing o prod_ca_key_name k)
ca_made k none e absent = (refl, rw (absent prod_server_key_name) tt)
ca_made k (some key) e absent = cc

server_made :
    (k : Provider) (o : Option PublicKey)
    → Usable o
    → Keyed k
    → Made toy (λ _. Keyed) (create_missing o prod_server_key_name k)
server_made k none u keyed = (refl, refl)
server_made k (some key) u keyed = (u, keyed)

-- The program's trust store over the small certificate store, with fuel for two certificates.
abbrev pub windows_roots : TrustStore toy
windows_roots = windows_trust_store crypto 3

abbrev pub Few : List Blob → Type 0
Few r = length r < 3

parsed_full : (b : Blob) → is_ok (parse_blob b) ≡ true → is_empty_blob b ≡ false
parsed_full empty e = cc
parsed_full (signed i k by) e = refl
parsed_full (junk n) e = cc

taken_after :
    (b : Blob) (r : List Blob) (answer : Option (Blob × List Blob))
    → is_empty_blob b ≡ false
    → (find_cert_by_sha256 crypto 3 1 (digest b) r).0 ≡ ok answer
    → is_ok (windows_roots.install_trust b r).0 ≡ true
unfolding install_trust open_machine_root_store ◌>>=◌
taken_after b r none full found = rw full rw found refl
taken_after b r (some c) full found = rw full rw found refl

-- It takes every certificate that can be parsed.
taken :
    (b : Blob) (r : List Blob)
    → Few r
    → is_ok (parse_blob b) ≡ true
    → is_ok (windows_roots.install_trust b r).0 ≡ true
taken b r few parses =
    let ((answer, found, there, right), kept) =
      find_cert_by_sha256-Answers enumerates 3 1 (digest b) r refl few in
    taken_after b r answer (parsed_full b parses) found

abbrev pub AnyTime : Time → Type 0
AnyTime t = Unit {0}

pub provides : Provides {H = toy} NoKeys (λ _. Keyed) AnyTime Few cng windows_roots
provides = record {
  missing = λ key k absent. rw (absent key) (refl, absent);
  ca_key = λ k absent. ca_made k _ (absent prod_ca_key_name) absent;
  server_key = λ s k keyed. server_made k _ keyed keyed;
  issues = record {
    root = λ serial t s k positive timely p keyed. refl;
    leaf = λ serial t ca s key k positive timely p own keyed. refl;
  };
  installs = taken;
}

pub fresh-Open : Open {H = toy} NoKeys AnyTime Few 4 (5 ∷ 6 ∷ []) (agent_root fresh) fresh
unfolding draw_serial
fresh-Open = (
  ((refl, refl, refl, refl, refl), refl),
  (λ t. refl, (inr (inl λ e. ground arith), (inl λ e. ground arith, tt)), omega arith, tt),
)
