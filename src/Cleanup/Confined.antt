-- ===== src/Cleanup/Confined.antt =====
-- Which files a cleanup can touch.
use local_tls.Base.{ℕ, false, sym, subst, ap, ◌≡◌, refl, List, Option, none, some, if◌then◌else◌}
use local_tls.Errors.{Error, Outcome, ok, err, text, wrap, is_not_exist}
use local_tls.Host.{Host, FilePath}
use local_tls.World.{World, Node, M, modify}
use local_tls.World.Keeps.{Keeps, keeps_rules, Keeps-modify, Keeps-bind, Keeps-attempt, Keeps-pure}
use local_tls.Os
use local_tls.Os.{under, join}
use local_tls.Os.Frame.{IgnoresFaults, IgnoresKeys, IgnoresRoot, os_frame}
use local_tls.Identity.{tls_sub_dir}
use local_tls.KeyStore.{MachineKeyDeleter, Windowscng}
use local_tls.TrustStore.{TrustStore}
use local_tls.World.Hoare.{
  Ends, Triple, Triple-bind, Triple-context, Triple-weaken, Triple-pure, Triple-fact, Triple-keeps,
}
use local_tls.Machine.Verified.{agent_path_triple}
use local_tls.Cleanup
use local_tls.Machine
use local_tls.Machine.ReadOnly.{agent_root}

module _ {H : Host} (d p : FilePath) (outside : under d p ≡ false) where
  abbrev seen : World H → Option (Node H)
  seen w = w.fs p

  faults : IgnoresFaults seen
  faults = record { at = λ w f. refl }

  root : IgnoresRoot seen
  root = record { at = λ w r. refl }

  keys : IgnoresKeys seen
  keys = record { at = λ w k. refl }

  Keeps-removed :
      (spared : World H → FilePath → Option (Node H))
      → Keeps seen (modify (λ w. record w { fs = λ q. if under d q then spared w q else w.fs q }))
  Keeps-removed spared = Keeps-modify _ (λ w. rw outside refl)

  Keeps-remove_all : Keeps seen (Os.remove_all {H = H} d)
  unfolding Os.remove_all
  Keeps-remove_all = search (keeps_rules, os_frame, faults, Keeps-removed) depth 12

  stat_answer :
      (r : Outcome (Node H))
      → Keeps seen (elim r [
        | ok n ↦ Cleanup.context "remove TLS state directory" (Os.remove_all {H = H} d)
        | err e ↦
            if is_not_exist e
            then Cleanup.pure tt
            else Cleanup.raise (wrap "stat TLS state directory" e)
      ])
  stat_answer (ok n) = search (keeps_rules, Keeps-remove_all)
  stat_answer (err e) = search keeps_rules

  state_dir : Keeps seen (Cleanup.remove_state_dir {H = H} d)
  unfolding Cleanup.remove_state_dir
  state_dir = Keeps-bind _ _ (search (keeps_rules, os_frame, faults)) stat_answer

  delete_keys :
      (kd : Option (MachineKeyDeleter H)) (errs : List Error)
      → Keeps seen (Cleanup.delete_keys {H = H} kd errs)
  unfolding Cleanup.delete_keys
  delete_keys none errs = search keeps_rules
  delete_keys (some kd) errs = search (keeps_rules, os_frame, keys) depth 12

  cleanup_keeps :
      (kd : Option (MachineKeyDeleter H)) (m : M H (Unit {0}))
      → Keeps seen m
      → Keeps seen (Cleanup.cleanup_local_tls d kd (some m))
  unfolding Cleanup.cleanup_local_tls
  cleanup_keeps kd m k =
      Keeps-bind _ _ (Keeps-bind _ _ (Keeps-attempt _ k) (λ r. Keeps-pure _)) λ errs.
        Keeps-bind _ _ (delete_keys kd errs)
          λ left. Keeps-bind _ _ (Keeps-attempt _ state_dir) λ r. Keeps-pure _

  by_der :
      (ts : TrustStore H) (path : FilePath) (c : Windowscng H)
      → Keeps seen (Cleanup.remove_trust_by_der c ts path)
  unfolding Cleanup.remove_trust_by_der
  by_der ts path c = Keeps-bind _ _ (search (keeps_rules, os_frame, faults)) read_answer
    where
      read_answer :
          (r : Outcome H.Bytes)
          → Keeps seen (elim r [
            | ok der ↦ Cleanup.on_root {H = H} (ts.remove_trust der)
            | err e ↦
                if is_not_exist e
                then Cleanup.raise (text "CA certificate DER is missing")
                else Cleanup.raise (wrap "read CA certificate" e)
          ])
      read_answer (ok der) = search (os_frame, root)
      read_answer (err e) = search keeps_rules

  by_sha256 :
      (ts : TrustStore H) (fp : List ℕ)
      → Keeps seen (Cleanup.on_root {H = H} (ts.remove_trust_by_sha256 fp))
  by_sha256 ts fp = search (os_frame, root)

module _ {H : Host} (c : Windowscng H) (ts : TrustStore H) (w : World H) where
  abbrev machine_dir : FilePath
  machine_dir = join (agent_root w) tls_sub_dir

  tls_path_triple :
      Triple
        (λ v. v ≡ w)
        Machine.machine_tls_path
        (λ d v. (d ≡ machine_dir) × (v ≡ w))
        (λ _ v. v ≡ w)
  unfolding Machine.machine_tls_path
  tls_path_triple = Triple-bind (agent_path_triple w) λ root.
      Triple-pure (join root tls_sub_dir)
        (λ v h. (ap (λ (r : FilePath). join r tls_sub_dir) h.0, h.1))

  confined :
      {A : Type 0} (f : FilePath → M H A) (p : FilePath)
      → Keeps (λ (v : World H). v.fs p) (f machine_dir)
      → (d : FilePath)
      → Triple
          (λ v. (d ≡ machine_dir) × (v ≡ w))
          (f d)
          (λ _ v. v.fs p ≡ w.fs p)
          (λ _ v. v.fs p ≡ w.fs p)
  confined f p k d = Triple-fact λ same.
      subst (λ q. Triple (λ v. v ≡ w) (f q) (λ _ v. v.fs p ≡ w.fs p) (λ _ v. v.fs p ≡ w.fs p))
        (sym same)
        (Triple-weaken (λ v h. ap (λ (u : World H). u.fs p) h) (λ a v h. h) (λ e v h. h)
          (Triple-keeps (λ x. x ≡ w.fs p) k))

  -- `CleanupMachine` changes no file outside the machine's TLS directory, whichever of its calls
  -- fail.
  pub cleanup_machine_confined :
      (p : FilePath)
      → under machine_dir p ≡ false
      → (Cleanup.cleanup_machine c ts w).1.fs p ≡ w.fs p
  unfolding Cleanup.cleanup_machine
  cleanup_machine_confined p outside = same_file _ _ (
      (Triple-bind
          (Triple-context _ (
            Triple-weaken (λ v h. h) (λ d v h. h) (λ e v h. ap (λ (u : World H). u.fs p) h)
              tls_path_triple))
          (confined _ p
            (cleanup_keeps machine_dir p outside _ _ (by_der machine_dir p outside ts _ c)))).at
        w refl)
    where
      same_file :
          {A : Type 0} (r : Outcome A) (v : World H)
          → Ends (λ _ u. u.fs p ≡ w.fs p) (λ _ u. u.fs p ≡ w.fs p) r v
          → v.fs p ≡ w.fs p
      same_file (ok a) v h = h
      same_file (err e) v h = h
