-- ===== src/WinRoot/Refines.antt =====
-- The trust store over CryptoAPI keeps the contract of a trust store.
pub mod Removal
pub mod Installation
pub mod Reading
use local_tls.Base.{ℕ, ◌<◌, refl, length}
use local_tls.Host.{Host}
use local_tls.TrustStore.Contract.{IsTrustStore}
use local_tls.WinRoot.{CryptoApi, windows_trust_store}
use local_tls.WinRoot.Search.{Listing, Enumerates}
use local_tls.WinRoot.Verify.{Opens}
use local_tls.WinRoot.Change.{Releases}
use local_tls.WinRoot.Edits.{Edits}
use Removal.{remove-Removes, remove_by_sha256-Removes}
use Installation.{install-Installs}
use Reading.{verify-Verifies, is_trusted-Tells}

-- Where CryptoAPI does as documented: from every state in which the fuel is more than the number of
-- certificates, each operation of the Windows trust store is a step of the contract, whichever of
-- its calls fails. An installation adds the certificate where its fingerprint is missing and
-- changes nothing where it is there; a removal takes away one certificate with the fingerprint and
-- no other; a verification and a presence check change nothing and answer by the fingerprint; an
-- operation that returns an error changes nothing, and a removal's error is
-- `ErrTrustAnchorNotFound` only where no certificate has the fingerprint.
pub windows_trust_store-IsTrustStore :
    {H : Host} {api : CryptoApi H} {l : Listing api}
    → Enumerates api l
    → Opens api l
    → Releases api l
    → Edits api l
    → (fuel : ℕ)
    → IsTrustStore l.anchors (λ r. length (l.anchors r) < fuel) (windows_trust_store api fuel)
windows_trust_store-IsTrustStore {l = l} laws opens releases edits fuel = record {
  install =
      λ der r lt. (install-Installs laws opens releases edits (l.anchors r) fuel lt der).at r refl;
  ensure =
      λ der r lt. (install-Installs laws opens releases edits (l.anchors r) fuel lt der).at r refl;
  remove =
      λ der r lt. (remove-Removes laws opens releases edits (l.anchors r) fuel lt der).at r refl;
  remove_by_sha256 = λ fp r lt.
      (remove_by_sha256-Removes laws opens releases edits (l.anchors r) fuel lt fp).at r refl;
  verify =
      λ der r lt. (verify-Verifies laws opens releases edits (l.anchors r) fuel lt der).at r refl;
  is_trusted =
      λ fp r lt. (is_trusted-Tells laws opens releases edits (l.anchors r) fuel lt fp).at r refl;
}
