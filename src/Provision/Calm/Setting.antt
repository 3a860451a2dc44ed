-- ===== src/Provision/Calm/Setting.antt =====
-- A machine on which nothing stands in the way of a first provisioning.
use local_tls.Base.{ℕ, true, false, Option, none, some, List, [], ◌∷◌, ◌≡◌}
use local_tls.Errors.{Outcome, ok, err, is_ok}
use local_tls.Host.{Host, Time, FilePath, name, temp, Signer}
use local_tls.Identity.{tls_sub_dir, ca_cert_file, server_cert_file}
use local_tls.World.{World, Node, directory}
use local_tls.Os
use local_tls.Os.{join, mkdir_all}
use local_tls.Os.{stat, os_call}
use local_tls.Files.Calm.{Vacant}
use local_tls.Certificate.{is_p256}
use local_tls.Certificate.Calm.{Serials, Issues}
use local_tls.KeyStore.{MachineKeyStore}
use local_tls.TrustStore.{TrustStore}

-- The key store gave a P-256 key, and is in a state with `K` of that key.
abbrev pub Made : (H : Host) → (Signer → H.KeyState → Type 0) → Outcome Signer × H.KeyState → Type 0
Made H K (ok s, k) = (is_p256 s.public_key ≡ true) × K s k
Made H K (err e, k) = ⊥

-- The key store makes or finds the CA's key, which then signs, and makes or finds the server's, after
-- which the CA's still signs; from a state that is `Ready`, the trust store takes every certificate
-- that can be parsed.
pub record Works {H : Host} (Absent : H.KeyState → Type 0) (Signs : Signer → H.KeyState → Type 0)
    (Timely : Time → Type 0) (Ready : H.RootState → Type 0) (ks : MachineKeyStore H)
    (ts : TrustStore H) : Type 0 where
  pub ca_key : (k : H.KeyState) → Absent k → Made H Signs (ks.load_or_create_ca_key k)
  pub server_key :
      (s : Signer) (k : H.KeyState)
      → Signs s k
      → Made H (λ _. Signs s) (ks.load_or_create_server_key k)
  pub issues : Issues H Signs Timely
  pub installs :
      (der : H.Bytes) (r : H.RootState)
      → Ready r
      → is_ok (H.parse_certificate der) ≡ true
      → is_ok (ts.install_trust der r).0 ≡ true

-- The directory is there and has room, and the trust store is ready.
abbrev pub Placed :
    {H : Host}
    → (H.RootState → Type 0)
    → FilePath
    → ℕ
    → List ℕ
    → List (Option ℕ)
    → (FilePath → Option (Node H))
    → List ℕ
    → H.RootState
    → Type 0
Placed Ready d n rest faults fs names r =
    ((((faults ≡ [])
          × (fs d ≡ some directory)
          × (fs (join d server_cert_file) ≡ none)
          × (names ≡ n ∷ rest))
        × (fs (temp n ∷ d) ≡ none))
      × (fs (join d ca_cert_file) ≡ none))
    × Ready r

-- Nothing stands where the certificates go, and nothing is in the way of their directory; there
-- are no keys, two serial numbers to come, and a free name for the temporary files; the clock is
-- timely, and the trust store is ready.
abbrev pub Open :
    {H : Host} (Absent : H.KeyState → Type 0) (Timely : Time → Type 0)
    (Ready : H.RootState → Type 0) (n : ℕ) (rest : List ℕ)
    → FilePath
    → World H
    → Type 0
Open Absent Timely Ready n rest root w =
    (Vacant (name tls_sub_dir) root n rest ca_cert_file server_cert_file w
      × (Os.blocked w.fs (join root tls_sub_dir) ≡ false))
    × (Absent w.keys × Serials 2 w.random × Ready w.root × Timely w.clock)
