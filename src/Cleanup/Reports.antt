-- ===== src/Cleanup/Reports.antt =====
-- Which removals a cleanup attempts, and which failures it reports.
use local_tls.Base.{String, true, ◌≡◌, refl, ◌↔◌, ◌⊎◌, some, List, [], ◌∷◌, ◌++◌, arith}
use local_tls.Errors.{
  Error, Outcome, ok, err, is_ok, errors_is, key_not_found, trust_anchor_not_found,
}
use local_tls.Host.{Host, FilePath}
use local_tls.World.{World, M, ◌>>=◌}
use local_tls.KeyStore.{MachineKeyDeleter}
use local_tls.Cleanup.{append_cleanup_error, remove_state_dir, cleanup_local_tls}

-- A removal that succeeded, or that failed with one of the two sentinels.
abbrev pub Excused : {A : Type 0} → Outcome A → Type 0
Excused (ok a) = Unit {0}
Excused (err e) = (errors_is e key_not_found ≡ true) ⊎ (errors_is e trust_anchor_not_found ≡ true)

-- The states that the removals find, one after the other.
module _ {H : Host} (kd : MachineKeyDeleter H) (m : M H (Unit {0})) (w : World H) where
  abbrev pub keys_left : H.KeyState
  keys_left = (kd.delete_server_key (kd.delete_ca_key (m w).1.keys).1).1

  abbrev pub before_dir : World H
  before_dir = record (m w).1 { keys = keys_left }

  -- Every removal is attempted, whatever the others return: the trust anchor, the CA key, the
  -- server key and the directory, in this order. The cleanup itself does not stop with an error.
  pub cleanup_attempts_all :
      (d : FilePath)
      → ((cleanup_local_tls d (some kd) (some m) w).1 ≡ (remove_state_dir {H = H} d before_dir).1)
        × (is_ok (cleanup_local_tls d (some kd) (some m) w).0 ≡ true)
  unfolding cleanup_local_tls ◌>>=◌
  cleanup_attempts_all d = (refl, refl)

  appended :
      (errs : List Error) (s : String) (r : Outcome (Unit {0}))
      → (append_cleanup_error errs s r ≡ []) ↔ ((errs ≡ []) × Excused r)
  unfolding append_cleanup_error
  appended [] s (ok u) = ground arith
  appended (e ∷ errs) s (ok u) = ground arith
  appended [] s (err e) = ground arith
  appended (x ∷ errs) s (err e) = ground arith

  dir_error :
      (errs : List Error) (r : Outcome (Unit {0}))
      → (elim r [ ok a ↦ errs | err e ↦ errs ++ (e ∷ []) ] ≡ []) ↔ ((errs ≡ []) × (is_ok r ≡ true))
  dir_error errs (ok u) = ground arith
  dir_error [] (err e) = ground arith
  dir_error (x ∷ errs) (err e) = ground arith

  -- A cleanup of the anchor, both keys and the directory reports no failure exactly when two things
  -- hold. Each of the removal of the anchor and the deletions of the two keys succeeded or failed
  -- with an error that wraps `ErrKeyNotFound` or `ErrTrustAnchorNotFound`, whichever of the two and
  -- whichever artifact: `ErrKeyNotFound` from the removal of the anchor, or
  -- `ErrTrustAnchorNotFound` from the deletion of a key, is not reported either. And the removal of
  -- the directory succeeded, as it does where the directory is absent.
  pub cleanup_reports_iff :
      (d : FilePath)
      → ((cleanup_local_tls d (some kd) (some m) w).0 ≡ ok []) ↔ (
          Excused (m w).0
          × Excused (kd.delete_ca_key (m w).1.keys).0
          × Excused (kd.delete_server_key (kd.delete_ca_key (m w).1.keys).1).0
          × (is_ok (remove_state_dir {H = H} d before_dir).0 ≡ true))
  unfolding cleanup_local_tls ◌>>=◌
  cleanup_reports_iff d =
      let trust = (m w).0 in
      let ca = (kd.delete_ca_key (m w).1.keys).0 in
      let server = (kd.delete_server_key (kd.delete_ca_key (m w).1.keys).1).0 in
      ground (
        arith,
        appended [] "remove CA trust anchor" trust,
        appended (append_cleanup_error [] "remove CA trust anchor" trust) "delete Local-TLS CA key"
            ca,
        appended
            (append_cleanup_error (append_cleanup_error [] "remove CA trust anchor" trust)
              "delete Local-TLS CA key" ca)
            "delete Local-TLS server key" server,
        dir_error _ (remove_state_dir {H = H} d before_dir).0,
      )
