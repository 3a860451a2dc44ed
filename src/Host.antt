-- ===== src/Host.antt =====
-- What the package builds on and does not implement: byte strings, the X.509 and SHA-256 routines
-- of the standard library, the state of the CNG key provider and of the machine certificate store.
use local_tls.Base.{ℕ, String, Bool, List}
use local_tls.Base.Int.{ℤ}
use local_tls.Errors.{Outcome}

-- `time.Time` as nanoseconds since Go's zero time; `time.Duration` in nanoseconds.
abbrev pub Time : Type 0
Time = ℤ

-- One component of a path. `temp n` is a name that `os.CreateTemp` made from the pattern `.tmp-*`.
pub data Segment : Type 0 where
  name : String → Segment
  temp : ℕ → Segment

-- A cleaned path, last component first.
abbrev pub FilePath : Type 0
FilePath = List Segment

pub data Curve : Type 0 where
  p224 p256 p384 p521 : Curve

-- The dynamic types of a `crypto.PublicKey` that the code tells apart.
pub data PublicKey : Type 0 where
  ecdsa : Curve → ℕ → ℕ → PublicKey
  other : ℕ → PublicKey

-- `net.IP`: 4 or 16 bytes.
abbrev pub Ip : Type 0
Ip = List ℕ

-- The fields of an `x509.Certificate` that the package sets or reads.
pub record Info : Type 0 where
  pub serial : ℕ
  pub common_name : String
  pub organization : List String
  pub not_before : Time
  pub not_after : Time
  pub is_ca : Bool
  pub basic_constraints_valid : Bool
  pub max_path_len : ℕ
  pub max_path_len_zero : Bool
  pub key_usage : ℕ
  pub ext_key_usage : List ℕ
  pub dns_names : List String
  pub ip_addresses : List Ip

-- A `crypto.Signer`: the handle behind it, its public half, and whether it has a `Close` method.
pub record Signer : Type 0 where
  pub handle : ℕ
  pub public_key : PublicKey
  pub closer : Bool

pub record Host : Type 1 where
  -- `[]byte`, with `len(b) == 0`.
  pub Bytes : Type 0
  pub no_bytes : Bytes
  pub is_empty : Bytes → Bool
  -- What a failed write leaves in a file, and which files a failed `os.RemoveAll` leaves.
  pub torn : ℕ → Bytes → Bytes
  pub survives : ℕ → FilePath → Bool
  -- The states of the key provider and of the certificate store.
  pub KeyState : Type 0
  pub RootState : Type 0
  -- The `Close` method of a signer that has one.
  pub close_handle : ℕ → KeyState → Outcome (Unit {0}) × KeyState
  -- `x509.ParseCertificate`: the fields and the public key; `Raw` is the argument.
  pub parse_certificate : Bytes → Outcome (Info × PublicKey)
  -- `x509.CreateCertificate(rand, template, parent, pub, signer)`.
  pub create_certificate : Info → Info → PublicKey → Signer → KeyState → Outcome Bytes
  -- `child.CheckSignatureFrom(parent)`.
  pub check_signature_from : Bytes → Bytes → Outcome (Unit {0})
  -- `sha256.Sum256`.
  pub sha256 : Bytes → List ℕ

-- A parsed `*x509.Certificate`.
pub record Certificate (H : Host) : Type 0 where
  pub raw : H.Bytes
  pub info : Info
  pub open info use *
  pub public_key : PublicKey
