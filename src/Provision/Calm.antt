-- ===== src/Provision/Calm.antt =====
-- A first provisioning where nothing stands in its way.
pub mod Setting
use local_tls.Base.{
  ℕ, Bool, true, false, Option, none, some, List, [], ◌∷◌, ◌≡◌, refl, sym, subst, ap,
}
use local_tls.Errors.{Outcome, ok, err, is_ok}
use local_tls.Host.{Host, Time, FilePath, name, temp, Signer, Certificate}
use local_tls.Identity.{tls_sub_dir, ca_cert_file, server_cert_file}
use local_tls.World.{World, Node, directory, M, on_keys, on_root, ◌>>=◌}
use local_tls.World.Keeps.{keeps_rules}
use local_tls.World.Hoare.{
  Ends, Triple, Triple-bind, Triple-context, Triple-fact, Triple-weaken, Triple-pure,
}
use local_tls.World.Total.{Never, sure, sure_defers, framed}
use local_tls.Os
use local_tls.Os.{join, mkdir_all}
use local_tls.Os.Frame.{IgnoresFaults, IgnoresFiles, os_frame}
use local_tls.Os.{stat, os_call}
use local_tls.Files.{file_exists, atomic_write}
use local_tls.Files.Frame.{Keeps-atomic_write}
use local_tls.Files.Calm.{Free, Vacant, path_eq_longer, mkdir_calm, atomic_write_calm}
use local_tls.Certificate.{is_p256}
use local_tls.Certificate.Calm.{Serials, Issues, SelfSigned, generate_ca_calm, generate_server_calm}
use local_tls.KeyStore.{MachineKeyStore, OnKeys}
use local_tls.TrustStore.{TrustStore}
use local_tls.Material.{material_from_signers}
use local_tls.Provision
pub use Setting.{Made, Works, Open}
use Setting.{Placed}

module _ {H : Host} {Absent : H.KeyState → Type 0} {Signs : Signer → H.KeyState → Type 0}
    {Timely : Time → Type 0} {Ready : H.RootState → Type 0} {ks : MachineKeyStore H}
    {ts : TrustStore H} (works : Works Absent Signs Timely Ready ks ts) (n : ℕ)
    (rest : List ℕ) where
  -- The state before a step that needs `i` serial numbers more.
  abbrev State : FilePath → (H.KeyState → Type 0) → ℕ → World H → Type 0
  State d K i w =
      Placed {H = H} Ready d n rest w.faults w.fs w.temp_names w.root
      × K w.keys
      × Serials i w.random
      × Timely w.clock

  key_calm :
      (d : FilePath) (i : ℕ) (K : H.KeyState → Type 0) (K' : Signer → H.KeyState → Type 0)
      (f : OnKeys H Signer)
      → ((k : H.KeyState) → K k → Made H K' (f k))
      → Triple
          (State d K i)
          (on_keys {H = H} f)
          (λ s w. (is_p256 s.public_key ≡ true) × State d (K' s) i w)
          Never
  unfolding ◌>>=◌
  key_calm d i K K' f made = record {
    at = λ w (placed, keys, serials, timely).
        made_at w (f w.keys).0 (f w.keys).1 (made w.keys keys) placed (serials, timely);
  }
    where
      made_at :
          (w : World H) (o : Outcome Signer) (k : H.KeyState)
          → Made H K' (o, k)
          → Placed {H = H} Ready d n rest w.faults w.fs w.temp_names w.root
          → Serials i w.random × Timely w.clock
          → Ends
              (λ s v. (is_p256 s.public_key ≡ true) × State d (K' s) i v)
              Never
              o
              (record w { keys = k })
      made_at w (ok s) k (p, k') placed more = (p, (placed, k', more.0, more.1))
      made_at w (err e) k h placed more = absurd h

  install_calm :
      (der : H.Bytes)
      → is_ok (H.parse_certificate der) ≡ true
      → Triple (λ w. Ready w.root) (on_root {H = H} (ts.install_trust der)) (λ _ _. Unit {0}) Never
  unfolding ◌>>=◌
  install_calm der parses = record {
    at = λ w ready.
        installed_at (ts.install_trust der w.root).0 _ (works.installs der w.root ready parses);
  }
    where
      installed_at :
          (o : Outcome (Unit {0})) (v : World H) → is_ok o ≡ true → Ends (λ _ _. Unit {0}) Never o v
      installed_at (ok u) v h = tt
      installed_at (err e) v h = cc

  root_faults : IgnoresFaults (λ (w : World H). w.root)
  root_faults = record { at = λ w f. refl }

  root_files : IgnoresFiles (λ (w : World H). w.root)
  root_files = record { at = λ w fs ds. refl }

  -- A write leaves the trust store ready.
  atomic_write-Ready :
      {P : World H → Type 0} {Q : Unit {0} → World H → Type 0} (p : FilePath) (b : H.Bytes) (m : ℕ)
      → Triple P (atomic_write {H = H} p b m) Q Never
      → Triple
          (λ w. P w × Ready w.root)
          (atomic_write {H = H} p b m)
          (λ u w. Q u w × Ready w.root)
          Never
  atomic_write-Ready p b m =
      framed {obs = λ w. w.root} Ready (Keeps-atomic_write root_faults root_files p b m)

  with_server_calm :
      (d : FilePath) (t : Time) (ca : Certificate H) (cs ss : Signer)
      → is_p256 ss.public_key ≡ true
      → Timely t
      → SelfSigned Timely ca cs
      → Triple
          (State d (Signs cs) 1)
          (Provision.first_with_server d ts t ca cs ss)
          (λ _ _. Unit {0})
          Never
  unfolding Provision.first_with_server
  with_server_calm d t ca cs ss p timely own =
      Triple-bind
        (Triple-context _
          (generate_server_calm works.issues (Placed Ready d n rest) cs 0 t ca ss timely own p))
        λ server.
          Triple-bind
            {Q = λ _ w. Free d (join d server_cert_file) ca_cert_file none n rest w × Ready w.root}
            (Triple-weaken (λ w h. h.0) (λ a w h. h) (λ e w h. h)
              (atomic_write-Ready _ ca.raw 0o600 (
                atomic_write_calm d (join d server_cert_file) ca_cert_file none n rest refl refl
                  ca.raw 0o600)))
            λ _.
              Triple-bind {Q = λ _ w. Ready w.root}
                (Triple-weaken
                  (λ w (((quiet, there, absent, names), free), ready).
                    ((((quiet, there, there, names), free), absent), ready))
                  (λ a w h. h.1) (λ e w h. h)
                  (atomic_write-Ready _ server.raw 0o600 (
                    atomic_write_calm d d server_cert_file (some directory) n rest
                      (path_eq_longer (temp n) d) (path_eq_longer (name server_cert_file) d)
                      server.raw 0o600)))
                λ _.
                  Triple-bind (Triple-context _ (install_calm ca.raw (ap is_ok own.5)))
                    λ _. Triple-pure (material_from_signers ca server ss) (λ w h. tt)

  with_ca_calm :
      (d : FilePath) (t : Time) (cs : Signer)
      → is_p256 cs.public_key ≡ true
      → Timely t
      → Triple (State d (Signs cs) 2) (Provision.first_with_ca d ks ts t cs) (λ _ _. Unit {0}) Never
  unfolding Provision.first_with_ca
  with_ca_calm d t cs p timely =
      Triple-bind
        (Triple-context _ (generate_ca_calm works.issues (Placed Ready d n rest) cs 1 t timely p))
        λ ca. Triple-fact λ own.
          Triple-bind
            (Triple-context _ (
              key_calm d 1 (Signs cs) (λ _. Signs cs) ks.load_or_create_server_key
                (works.server_key cs)))
            λ ss. Triple-fact λ q. sure _ (with_server_calm d t ca cs ss q timely own)

  abbrev beside : World H → H.KeyState × List (Outcome (List ℕ)) × H.RootState × Time
  beside w = (w.keys, w.random, w.root, w.clock)

  -- The clock gives a time that is timely where the world's clock is.
  abbrev Reads : M H Time → Type 1
  Reads now =
      (P : World H → Type 0)
      → ((w : World H) → P w → Timely w.clock)
      → Triple P now (λ t w. Timely t × P w) Never

  first_calm :
      (root : FilePath) (now : M H Time)
      → Reads now
      → Triple
          (Open Absent Timely Ready n rest root)
          (Provision.first_provision_with_key_store (join root tls_sub_dir) ks ts now)
          (λ _ _. Unit {0})
          Never
  unfolding Provision.first_provision_with_key_store
  first_calm root now reads =
      Triple-bind {Q = λ _. State (join root tls_sub_dir) Absent 2}
        (Triple-context _ (
          Triple-weaken (λ w h. h)
            (λ a w (placed, (keys, serials, ready, timely)).
              ((placed, ready), keys, serials, timely))
            (λ e w h. h)
            (framed {obs = beside} (λ p. Absent p.0 × Serials 2 p.1 × Ready p.2 × Timely p.3)
              (search (keeps_rules, os_frame, faults, files))
              (mkdir_calm (name tls_sub_dir) root n rest ca_cert_file server_cert_file))))
        λ _. Triple-bind (reads _ (λ w h. h.3)) λ t. Triple-fact λ timely.
          Triple-bind
            (Triple-context _ (
              key_calm (join root tls_sub_dir) 2 Absent Signs ks.load_or_create_ca_key
                works.ca_key))
            λ cs.
              Triple-fact λ p. sure_defers _ (with_ca_calm (join root tls_sub_dir) t cs p timely)
    where
      faults : IgnoresFaults beside
      faults = record { at = λ w f. refl }

      files : IgnoresFiles beside
      files = record { at = λ w fs ds. refl }

  unseen :
      (w : World H) (p : FilePath)
      → w.faults ≡ []
      → w.fs p ≡ none
      → file_exists {H = H} p w ≡ (ok false, record w { faults = [] })
  unfolding file_exists stat os_call ◌>>=◌
  unseen w p quiet gone = rw (quiet, gone) refl

  -- A look at a file that is not there.
  pub exists_calm :
      (root p : FilePath)
      → ((w : World H) → Open Absent Timely Ready n rest root w → w.fs p ≡ none)
      → Triple
          (Open Absent Timely Ready n rest root)
          (file_exists {H = H} p)
          (λ b w. (b ≡ false) × Open Absent Timely Ready n rest root w)
          Never
  exists_calm root p gone = record {
    at = λ w (((quiet, names, free, ca, server), way), more).
        subst
          (λ v. Ends (λ b u. (b ≡ false) × Open Absent Timely Ready n rest root u) Never v.0 v.1)
          (sym (unseen w p quiet (gone w (((quiet, names, free, ca, server), way), more))))
          (refl, (((refl, names, free, ca, server), way), more));
  }

  -- `provisionWithKeyStore` on such a machine returns material.
  pub provision_calm :
      (root : FilePath) (now : Option (M H Time)) (repair : Bool)
      → Reads (Provision.clock_of now)
      → Triple
          (Open Absent Timely Ready n rest root)
          (Provision.provision_with_key_store root ks ts now repair)
          (λ _ _. Unit {0})
          Never
  unfolding Provision.provision_with_key_store
  provision_calm root now repair reads =
      Triple-bind (exists_calm root (join (join root tls_sub_dir) ca_cert_file) (λ w h. h.0.0.3))
        λ ca_there. Triple-fact λ e. rw e (
          Triple-bind {Q = λ b w. (b ≡ false) × Open Absent Timely Ready n rest root w}
            (Triple-pure false (λ w h. (refl, h)))
            λ server_there.
              Triple-fact λ e'. rw e' (first_calm root (Provision.clock_of now) reads))
