-- ===== src/Tests/Toy.antt =====
-- A key provider, a certificate store and X.509 routines that are small enough to run.
use local_tls.Base.{
  ℕ, ◌+◌, ◌-◌, String, str_eq, Bool, true, false, ◌&&◌, ◌==◌, if◌then◌else◌, refl, arith,
}
use local_tls.Base.{Option, none, some, List, [], ◌∷◌, ◌≡◌}
use local_tls.Base.Int.{pos}
use local_tls.Errors.{Outcome, ok, err, text, sentinel, cng_key_not_found, trust_anchor_not_found}
use local_tls.Host.{Host, Info, PublicKey, ecdsa, other, p256, Signer}
use local_tls.World.{World}
use local_tls.World.Ledger.{Live, Closes, owed, held, nothing}
use local_tls.KeyStore.{Windowscng}
use local_tls.KeyStore.Handles.{OpensCng}
use local_tls.TrustStore.{TrustStore, trust_healthy, trust_absent}
use local_tls.Machine.ReadOnly.{Contents, IsReadOnly}

-- A certificate is its fields, its key and the key that signed it.
pub data Blob : Type 0 where
  empty : Blob
  signed : Info → PublicKey → PublicKey → Blob
  junk : ℕ → Blob

-- Each key is made from the number of keys that were made before it.
pub record Provider : Type 0 where
  pub stored : String → Option PublicKey
  pub made : ℕ
  pub open' : ℕ → ℕ

abbrev pub key_eq : PublicKey → PublicKey → Bool
key_eq (ecdsa c x y) (ecdsa d x' y') = x == x' && y == y'
key_eq _ _ = false

-- Serial numbers stand for fingerprints.
abbrev pub digest : Blob → List ℕ
digest empty = []
digest (signed i k by) = i.serial ∷ []
digest (junk n) = n ∷ 0 ∷ []

abbrev pub same_digest : List ℕ → List ℕ → Bool
same_digest [] [] = true
same_digest (a ∷ c) (b ∷ d) = a == b && same_digest c d
same_digest _ _ = false

abbrev pub is_empty_blob : Blob → Bool
is_empty_blob empty = true
is_empty_blob _ = false

abbrev pub parse_blob : Blob → Outcome (Info × PublicKey)
parse_blob (signed i k by) = ok (i, k)
parse_blob _ = err (text "malformed certificate")

abbrev pub signed_by : Blob → Blob → Outcome (Unit {0})
signed_by (signed i k by) (signed i' k' by') =
    if key_eq by k' then ok tt else err (text "bad signature")
signed_by _ _ = err (text "malformed certificate")

abbrev pub shut : ℕ → Provider → Outcome (Unit {0}) × Provider
shut h k = (ok tt, record k { open' = λ j. k.open' j - (if j == h then 1 else 0) })

abbrev pub toy : Host
toy = record {
  Bytes = Blob;
  no_bytes = empty;
  is_empty = is_empty_blob;
  torn = λ n b. junk n;
  survives = λ n p. false;
  KeyState = Provider;
  RootState = List Blob;
  close_handle = shut;
  parse_certificate = parse_blob;
  create_certificate =
      λ template parent key signer keys. ok (signed template key signer.public_key);
  check_signature_from = signed_by;
  sha256 = digest;
}

-- Handle `n` is the one of the key with that number.
abbrev pub handle_of : PublicKey → ℕ
handle_of (ecdsa c x y) = x
handle_of (other n) = n

abbrev pub opened : PublicKey → Provider → Outcome Signer × Provider
opened key k = (
  ok (record { handle = handle_of key; public_key = key; closer = true }),
  record k { open' = λ j. k.open' j + (if j == handle_of key then 1 else 0) },
)

abbrev pub put : (String → Option PublicKey) → String → Option PublicKey → String → Option PublicKey
put s key v t = if str_eq t key then v else s t

abbrev pub open_found : Option PublicKey → Provider → Outcome Signer × Provider
open_found none k = (err (sentinel cng_key_not_found), k)
open_found (some key) k = opened key k

abbrev pub create_missing : Option PublicKey → String → Provider → Outcome Signer × Provider
create_missing (some key) t k = opened key k
create_missing none t k =
    opened (ecdsa p256 k.made 1)
      (record k { stored = put k.stored t (some (ecdsa p256 k.made 1)); made = k.made + 1 })

abbrev pub delete_found : Option PublicKey → String → Provider → Outcome (Unit {0}) × Provider
delete_found none t k = (err (sentinel cng_key_not_found), k)
delete_found (some key) t k = (ok tt, record k { stored = put k.stored t none })

abbrev pub cng : Windowscng toy
cng = record {
  load_or_create = λ t k. create_missing (k.stored t) t k;
  open' = λ t k. open_found (k.stored t) k;
  delete = λ t k. delete_found (k.stored t) t k;
}

abbrev pub trusted : List ℕ → List Blob → Bool
trusted d [] = false
trusted d (b ∷ r) = if same_digest d (digest b) then true else trusted d r

abbrev pub drop_digest : List ℕ → List Blob → List Blob
drop_digest d [] = []
drop_digest d (b ∷ r) = if same_digest d (digest b) then r else b ∷ drop_digest d r

abbrev pub unlisted : List ℕ → List Blob → Outcome (Unit {0}) × List Blob
unlisted d r =
    if trusted d r then (ok tt, drop_digest d r) else (err (sentinel trust_anchor_not_found), r)

abbrev pub listed : Blob → List Blob → Outcome (Unit {0}) × List Blob
listed b r = if trusted (digest b) r then (ok tt, r) else (ok tt, b ∷ r)

abbrev pub roots : TrustStore toy
roots = record {
  install_trust = listed;
  remove_trust = λ b r. unlisted (digest b) r;
  remove_trust_by_sha256 = unlisted;
  verify_trust = λ b r. (ok (if trusted (digest b) r then trust_healthy else trust_absent), r);
  is_trusted_sha256 = λ d r. (ok (trusted d r), r);
  ensure_trusted = listed;
}

abbrev pub live : Live toy
live = record { count = λ k. k.open' }

pub closes : Closes toy live
closes = record { at = λ h k j. refl }

pub opens : OpensCng live cng
opens = record {
  load_or_create = λ t. record { at = λ k j. created_at (k.stored t) t k j };
  open' = λ t. record { at = λ k j. found_at (k.stored t) k j };
}
  where
    created_at :
        (o : Option PublicKey) (t : String) (k : Provider) (j : ℕ)
        → (create_missing o t k).1.open' j
          ≡ k.open' j + owed held nothing (create_missing o t k).0 j
    created_at none t k j = refl
    created_at (some key) t k j = refl

    found_at :
        (o : Option PublicKey) (k : Provider) (j : ℕ)
        → (open_found o k).1.open' j ≡ k.open' j + owed held nothing (open_found o k).0 j
    found_at none k j = omega arith
    found_at (some key) k j = refl

abbrev pub seen : Contents toy
seen = record { stored = λ k. k.stored; anchors = λ r. r }

pub read_only : IsReadOnly seen cng roots
read_only = record {
  open' = λ t k. found_stored (k.stored t) k;
  close = λ h k. refl;
  verify = λ b r. refl;
}
  where
    found_stored : (o : Option PublicKey) (k : Provider) → (open_found o k).1.stored ≡ k.stored
    found_stored none k = refl
    found_stored (some key) k = refl

-- A machine on which nothing was provisioned: its clock stands at 800 million seconds.
abbrev pub fresh : World toy
fresh = record {
  fs = λ p. none;
  descriptors = [];
  temp_names = 4 ∷ 5 ∷ 6 ∷ [];
  random = ok (0 ∷ []) ∷ ok (7 ∷ []) ∷ ok (1 ∷ 2 ∷ []) ∷ [];
  faults = [];
  clock = pos 800_000_000_000_000_000;
  program_data = "C:/ProgramData";
  keys = record { stored = λ t. none; made = 10; open' = λ j. 0 };
  root = [];
}
