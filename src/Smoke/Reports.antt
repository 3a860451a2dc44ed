-- ===== src/Smoke/Reports.antt =====
-- Which removals a smoke cleanup attempts, and which failures it reports.
use local_tls.Base.{String, Bool, true, ◌≡◌, refl, ◌↔◌, List, [], ◌∷◌, arith}
use local_tls.Errors.{
  Error, Outcome, ok, err, is_ok, errors_is, key_not_found, trust_anchor_not_found,
}
use local_tls.Host.{Host, FilePath}
use local_tls.Identity.{smoke_ca_key_name, smoke_server_key_name}
use local_tls.World.{World, M, ◌>>=◌}
use local_tls.Os.{remove_all}
use local_tls.KeyStore.{OnKeys}
use local_tls.Smoke
use local_tls.Smoke.{append_unless_absent, append_any, cleanup_smoke_with}

-- A removal that succeeded, or failed with an error of the given class.
abbrev pub GoneOr : (Error → Bool) → Outcome (Unit {0}) → Type 0
GoneOr absent (ok u) = Unit {0}
GoneOr absent (err e) = absent e ≡ true

abbrev pub no_key : Error → Bool
no_key e = errors_is e key_not_found

abbrev pub no_anchor : Error → Bool
no_anchor e = errors_is e trust_anchor_not_found

appended :
    (absent : Error → Bool) (errs : List Error) (s : String) (r : Outcome (Unit {0}))
    → (append_unless_absent absent errs s r ≡ []) ↔ ((errs ≡ []) × GoneOr absent r)
appended absent [] s (ok u) = ground arith
appended absent (e ∷ errs) s (ok u) = ground arith
appended absent [] s (err e) = ground arith
appended absent (x ∷ errs) s (err e) = ground arith

appended_any :
    (errs : List Error) (s : String) (r : Outcome (Unit {0}))
    → (append_any errs s r ≡ []) ↔ ((errs ≡ []) × (is_ok r ≡ true))
appended_any errs s (ok u) = ground arith
appended_any [] s (err e) = ground arith
appended_any (x ∷ errs) s (err e) = ground arith

module _ {H : Host} (m : M H (Unit {0})) (delete : String → OnKeys H (Unit {0})) (w : World H) where
  -- What the removals find, one after the other.
  abbrev pub after_ca : H.KeyState
  after_ca = (delete smoke_ca_key_name (m w).1.keys).1

  abbrev pub before_removal : World H
  before_removal = record (m w).1 { keys = (delete smoke_server_key_name after_ca).1 }

  -- `cleanupSmoke` attempts every removal, whatever the others return: it ends in the state that the
  -- removal of the directory leaves behind those of the trust anchor and of both keys. It reports no
  -- failure exactly when the anchor was removed or was not there, each key was removed or was not
  -- there, and the directory was removed: an absent key does not excuse the anchor's error, nor an
  -- absent anchor a key's.
  pub cleanup_smoke_reports_iff :
      (d : FilePath)
      → ((cleanup_smoke_with d m delete w).1 ≡ (remove_all {H = H} d before_removal).1)
        × (((cleanup_smoke_with d m delete w).0 ≡ ok []) ↔ (
            GoneOr no_anchor (m w).0
            × GoneOr no_key (delete smoke_ca_key_name (m w).1.keys).0
            × GoneOr no_key (delete smoke_server_key_name after_ca).0
            × (is_ok (remove_all {H = H} d before_removal).0 ≡ true)))
  unfolding cleanup_smoke_with Smoke.delete_smoke_keys ◌>>=◌
  cleanup_smoke_reports_iff d =
      let trust = (m w).0 in
      let ca = (delete smoke_ca_key_name (m w).1.keys).0 in
      let server = (delete smoke_server_key_name after_ca).0 in
      let errs = append_unless_absent no_anchor [] "remove smoke CA trust anchor" trust in
      let errs' = append_unless_absent no_key errs "delete smoke key" ca in
      (
        refl,
        ground (
          arith,
          appended no_anchor [] "remove smoke CA trust anchor" trust,
          appended no_key errs "delete smoke key" ca,
          appended no_key errs' "delete smoke key" server,
          appended_any (append_unless_absent no_key errs' "delete smoke key" server)
              "remove smoke state directory" (remove_all {H = H} d before_removal).0,
        ),
      )
