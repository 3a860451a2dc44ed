-- ===== src/Cleanup/Emptied.antt =====
-- What a cleanup that reports no failure has removed.
use local_tls.Base.{
  ℕ, String, true, false, ◌≡◌, ◌≢◌, refl, sym, ap, subst, ◌∙◌, inl, inr, Bool-cases, Option, none,
  some, List, [], ◌∷◌, str_eq, str_eq_iff, if◌then◌else◌,
}
use local_tls.Errors.{
  Error, Outcome, ok, err, is_ok, errors_is, key_not_found, cng_key_not_found,
  trust_anchor_not_found, is_not_exist, text, wrap,
}
use local_tls.Host.{Host, FilePath}
use local_tls.Identity.{tls_sub_dir, prod_ca_key_name, prod_server_key_name}
use local_tls.World.{World, Node, M, ◌>>=◌}
use local_tls.World.Keeps.{Keeps, Keeps-bind, keeps_rules}
use local_tls.Os.{under, join, stat, os_call, remove_all}
use local_tls.Os.Frame.{os_frame, IgnoresFaults, IgnoresFiles, IgnoresRoot}
use local_tls.KeyStore.{
  Windowscng, delete_production_key, map_error, map_cng_error, platform_key_deleter,
}
use local_tls.KeyStore.Handles.{mapped_state}
use local_tls.TrustStore.{TrustStore}
use local_tls.TestKeys.Isolated.{NamesOnly}
use local_tls.Machine
use local_tls.Machine.ReadOnly.{agent_root}
use local_tls.Cleanup
use local_tls.Cleanup.{remove_state_dir, cleanup_local_tls, cleanup_machine}
use local_tls.Cleanup.Reports.{Excused, before_dir, cleanup_reports_iff, cleanup_attempts_all}

-- A deletion that succeeds, or that finds no key, leaves none under its name; its errors are none of
-- this package's.
pub record Deletes {H : Host} {c : Windowscng H} (names : NamesOnly c) : Type 0 where
  pub deleted :
      (key : String) (k : H.KeyState)
      → (c.delete key k).0 ≡ ok tt
      → names.stored (c.delete key k).1 key ≡ none
  pub missing :
      (key : String) (k : H.KeyState) (e : Error)
      → (c.delete key k).0 ≡ err e
      → errors_is e cng_key_not_found ≡ true
      → names.stored (c.delete key k).1 key ≡ none
  pub foreign :
      (key : String) (k : H.KeyState) (e : Error)
      → (c.delete key k).0 ≡ err e
      → (errors_is e key_not_found ≡ false) × (errors_is e trust_anchor_not_found ≡ false)

module _ {H : Host} {c : Windowscng H} {names : NamesOnly c} (deletes : Deletes names) where
  key_gone_at :
      (key : String) (k : H.KeyState) (p : Outcome (Unit {0}) × H.KeyState)
      → c.delete key k ≡ p
      → Excused (map_error p).0
      → names.stored (map_error p).1 key ≡ none
  unfolding map_error map_cng_error
  key_gone_at key k (ok u, k') e h =
      subst (λ q. names.stored q.1 key ≡ none) e (deletes.deleted key k (ap (λ q. q.0) e))
  key_gone_at key k (err x, k') e h = elim (Bool-cases (errors_is x cng_key_not_found)) [
    | inl i ↦
        subst (λ q. names.stored q.1 key ≡ none) e (deletes.missing key k x (ap (λ q. q.0) e) i)
    | inr i ↦
        let (a, b) = deletes.foreign key k x (ap (λ q. q.0) e) in
        let g = (rw i at h) in elim g [ inl y ↦ cc | inr y ↦ cc ]
  ]

  key_gone :
      (key : String) (k : H.KeyState)
      → Excused (delete_production_key c key k).0
      → names.stored (delete_production_key c key k).1 key ≡ none
  unfolding delete_production_key
  key_gone key k h = key_gone_at key k (c.delete key k) refl h

-- Nothing is below a directory that is not there.
abbrev pub Rooted : {H : Host} → FilePath → FilePath → World H → Type 0
Rooted d p w = w.fs d ≡ none → w.fs p ≡ none

module _ {H : Host} (d p : FilePath) (inside : under d p ≡ true) where
  dir_gone_at :
      (v : World H) (fa : List (Option ℕ)) (o : Option _)
      → v.faults ≡ fa
      → v.fs d ≡ o
      → Rooted d p v
      → is_ok (remove_state_dir {H = H} d v).0 ≡ true
      → (remove_state_dir {H = H} d v).1.fs p ≡ none
  unfolding remove_state_dir stat os_call remove_all ◌>>=◌
  dir_gone_at v (some n ∷ rest) o e f tree h = let g = (rw e at h) in cc
  dir_gone_at v [] none e f tree h = rw (e, f) (tree f)
  dir_gone_at v (none ∷ rest) none e f tree h = rw (e, f) (tree f)
  dir_gone_at v [] (some x) e f tree h = rw (e, f, inside) refl
  dir_gone_at v (none ∷ []) (some x) e f tree h = rw (e, f, inside) refl
  dir_gone_at v (none ∷ none ∷ rest) (some x) e f tree h = rw (e, f, inside) refl
  dir_gone_at v (none ∷ some n ∷ rest) (some x) e f tree h = let g = (rw (e, f) at h) in cc

module _ {H : Host} where
  fs_faults : IgnoresFaults (λ (w : World H). w.fs)
  fs_faults = record { at = λ w f. refl }

  fs_root : IgnoresRoot (λ (w : World H). w.fs)
  fs_root = record { at = λ w r. refl }

  keys_faults : IgnoresFaults (λ (w : World H). w.keys)
  keys_faults = record { at = λ w f. refl }

  keys_files : IgnoresFiles (λ (w : World H). w.keys)
  keys_files = record { at = λ w fs ds. refl }

module _ {H : Host} {c : Windowscng H} {names : NamesOnly c} (deletes : Deletes names)
    (ts : TrustStore H) (w : World H) where
  -- What is left: no key, and no file at the path.
  abbrev pub Empty : FilePath → World H → Type 0
  Empty p v =
      (names.stored v.keys prod_ca_key_name ≡ none)
      × (names.stored v.keys prod_server_key_name ≡ none)
      × (v.fs p ≡ none)

  trust_keeps :
      (path : FilePath) → Keeps {H = H} (λ w. w.fs) (Cleanup.remove_trust_by_der c ts path)
  unfolding Cleanup.remove_trust_by_der
  trust_keeps path = Keeps-bind _ _ (search (keeps_rules, os_frame, fs_faults)) read_answer
    where
      read_answer :
          (r : Outcome H.Bytes)
          → Keeps {H = H}
              (λ w. w.fs)
              (elim r [
                | ok der ↦ Cleanup.on_root {H = H} (ts.remove_trust der)
                | err e ↦
                    if is_not_exist e
                    then Cleanup.raise (text "CA certificate DER is missing")
                    else Cleanup.raise (wrap "read CA certificate" e)
              ])
      read_answer (ok der) = search (os_frame, fs_root)
      read_answer (err e) = search keeps_rules

  dir_keeps : (d : FilePath) → Keeps {H = H} (λ w. w.keys) (remove_state_dir d)
  unfolding remove_state_dir
  dir_keeps d = Keeps-bind _ _ (search (keeps_rules, os_frame, keys_faults)) stat_answer
    where
      stat_answer :
          (r : Outcome (Node H))
          → Keeps {H = H}
              (λ w. w.keys)
              (elim r [
                | ok n ↦ Cleanup.context "remove TLS state directory" (remove_all {H = H} d)
                | err e ↦
                    if is_not_exist e
                    then Cleanup.pure tt
                    else Cleanup.raise (wrap "stat TLS state directory" e)
              ])
      stat_answer (ok n) = search (keeps_rules, os_frame, keys_faults, keys_files)
      stat_answer (err e) = search keeps_rules

  apart : prod_server_key_name ≢ prod_ca_key_name
  apart e = cc ((str_eq_iff prod_server_key_name prod_ca_key_name).1 e)

  both_gone :
      (k : H.KeyState)
      → Excused (delete_production_key c prod_ca_key_name k).0
      → Excused
          (delete_production_key c prod_server_key_name
            (delete_production_key c prod_ca_key_name k).1).0
      → (names.stored
            (delete_production_key c prod_server_key_name
              (delete_production_key c prod_ca_key_name k).1).1
            prod_ca_key_name
          ≡ none)
        × (names.stored
              (delete_production_key c prod_server_key_name
                (delete_production_key c prod_ca_key_name k).1).1
              prod_server_key_name
            ≡ none)
  unfolding delete_production_key
  both_gone k h g = (
    ap (λ q. names.stored q prod_ca_key_name) (mapped_state _)
        ∙ names.delete_elsewhere prod_server_key_name prod_ca_key_name _ apart
        ∙ key_gone deletes prod_ca_key_name k h,
    key_gone deletes prod_server_key_name _ g,
  )

  emptied :
      (p : FilePath) (m : M H (Unit {0}))
      → under (join (agent_root w) tls_sub_dir) p ≡ true
      → Rooted (join (agent_root w) tls_sub_dir) p w
      → Keeps {H = H} (λ w. w.fs) m
      → (cleanup_local_tls
          (join (agent_root w) tls_sub_dir)
          (some (platform_key_deleter c))
          (some m)
          w).0
        ≡ ok []
      → Empty p
          (cleanup_local_tls
            (join (agent_root w) tls_sub_dir)
            (some (platform_key_deleter c))
            (some m)
            w).1
  emptied p m inside tree k h =
      let d = join (agent_root w) tls_sub_dir in
      let kd = platform_key_deleter c in
      let (trust, ca, server, dir) = (cleanup_reports_iff kd m w d).0 h in
      let (ca_gone, server_gone) = both_gone (m w).1.keys ca server in
      subst (Empty p) (sym (cleanup_attempts_all kd m w d).0) (
        rw ((dir_keeps d).at (before_dir kd m w)) ca_gone,
        rw ((dir_keeps d).at (before_dir kd m w)) server_gone,
        dir_gone_at d p inside (before_dir kd m w) _ _ refl refl
            (subst (λ f. f d ≡ none → f p ≡ none) (sym (k.at w)) tree) dir,
      )

  -- Where a deletion that succeeds or finds no key leaves none under its name, changes no other name's
  -- and returns no error of this package's: when `CleanupMachine` reports no failure, neither
  -- production key is left, and no file at any path in the machine's TLS directory, provided that
  -- nothing was at that path if the directory itself was missing.
  pub cleanup_machine_empties :
      (p : FilePath)
      → under (join (agent_root w) tls_sub_dir) p ≡ true
      → Rooted (join (agent_root w) tls_sub_dir) p w
      → (Cleanup.cleanup_machine c ts w).0 ≡ ok []
      → Empty p (Cleanup.cleanup_machine c ts w).1
  unfolding Cleanup.cleanup_machine Machine.machine_tls_path Machine.machine_agent_path ◌>>=◌
  cleanup_machine_empties p inside tree h = elim (Bool-cases (str_eq w.program_data "")) [
    | inl e ↦ let g = (rw e at h) in cc
    | inr e ↦ rw e (emptied p _ inside tree (trust_keeps _) (rw e at h))
  ]
