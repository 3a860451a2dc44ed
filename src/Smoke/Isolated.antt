-- ===== src/Smoke/Isolated.antt =====
-- The smoke path cannot touch a key outside the test namespace.
use local_tls.Base.{String, false, List, [], ◌∷◌, ◌≡◌}
use local_tls.Errors.{Error, Outcome, ok, err}
use local_tls.Host.{Host, FilePath, Signer}
use local_tls.World.{World}
use local_tls.World.Keeps.{Keeps, Keeps-bind, keeps_rules}
use local_tls.Os.Frame.{os_frame}
use local_tls.Files.Frame.{Keeps-file_exists}
use local_tls.KeyStore.{Windowscng}
use local_tls.TestKeys.{in_test_namespace, test_open_key, test_delete_key}
use local_tls.TestKeys.Isolated.{NamesOnly}
use local_tls.TestKeys.Elsewhere.{
  seen, faults, files, random, root, close, create, open_key, delete_key,
}
use local_tls.TrustStore.{TrustStore}
use local_tls.Provision.Frame.{Blind, provision_keeps}
use local_tls.Smoke
use local_tls.Smoke.{smoke_key_store, preflight_smoke_state, provision_smoke, cleanup_smoke}

module _ {H : Host} {c : Windowscng H} (names : NamesOnly c) (n : String)
    (out : in_test_namespace n ≡ false) where
  blind : Blind (smoke_key_store c) (seen names n)
  blind = record {
    faults = faults names n;
    files = files names n;
    random = random names n;
    root = root names n;
    ca_key = create names n out _;
    server_key = create names n out _;
    close = close names n;
  }

  probed : (r : Outcome Signer) → Keeps (seen names n) (Smoke.preflight_probed {H = H} r)
  unfolding Smoke.preflight_probed
  probed (ok s) = search (keeps_rules, close)
  probed (err e) = search keeps_rules

  preflight :
      (p : FilePath) → Keeps (seen names n) (preflight_smoke_state {H = H} p (test_open_key c))
  unfolding preflight_smoke_state Smoke.preflight_probe
  preflight p = search (keeps_rules, Keeps-file_exists, faults, open_key, probed) depth 20

  deleted :
      (ns : List String) (errs : List Error)
      → Keeps (seen names n) (Smoke.delete_smoke_keys {H = H} ns (test_delete_key c) errs)
  unfolding Smoke.delete_smoke_keys
  deleted [] errs = search keeps_rules
  deleted (name ∷ ns) errs = Keeps-bind _ _ (search (keeps_rules, delete_key)) λ r. deleted ns _

  module _ (ts : TrustStore H) (d : FilePath) where
    provision_seen : Keeps (seen names n) (provision_smoke c ts d)
    unfolding provision_smoke
    provision_seen = Keeps-bind _ _ (search keeps_rules) λ u.
        Keeps-bind _ _ (search keeps_rules) λ v.
          Keeps-bind _ _ (preflight _) λ x. provision_keeps blind ts _ (search keeps_rules) d false

    cleanup_seen : (der : H.Bytes) → Keeps (seen names n) (cleanup_smoke c ts d der)
    unfolding cleanup_smoke Smoke.cleanup_smoke_with
    cleanup_seen der = search (keeps_rules, os_frame, faults, files, root, deleted) depth 20

    -- Where the key provider changes what is stored under the name of a call at most, a close
    -- changes nothing of that, and the name lies outside the test namespace: `ProvisionSmoke` and
    -- `CleanupSmoke` leave what is stored under the name as it is, whatever they return.
    pub smoke_isolated :
        (w : World H) (der : H.Bytes)
        → (names.stored (provision_smoke c ts d w).1.keys n ≡ names.stored w.keys n)
          × (names.stored (cleanup_smoke c ts d der w).1.keys n ≡ names.stored w.keys n)
    smoke_isolated w der = (provision_seen.at w, (cleanup_seen der).at w)
