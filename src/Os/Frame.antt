-- ===== src/Os/Frame.antt =====
-- What the calls of the operating system and of the random source leave alone: every observation
-- that does not look at files, descriptors, the schedule and the like.
use local_tls.Base.{ℕ, ◌≡◌, Option, List}
use local_tls.Errors.{Outcome}
use local_tls.Host.{Host, FilePath}
use local_tls.World.{World, Node, modify, on_keys, on_root, ◌>>=◌}
use local_tls.World.Keeps.{Keeps, keeps_rules, Keeps-modify}
use local_tls.Os

pub record IgnoresFaults {H : Host} {X : Type 0} (obs : World H → X) : Type 0 where
  pub at : (w : World H) (f : List (Option ℕ)) → obs (record w { faults = f }) ≡ obs w

pub record IgnoresFiles {H : Host} {X : Type 0} (obs : World H → X) : Type 0 where
  pub at :
      (w : World H) (fs : FilePath → Option (Node H)) (ds : List FilePath)
      → obs (record w { fs = fs; descriptors = ds }) ≡ obs w

pub record IgnoresRandom {H : Host} {X : Type 0} (obs : World H → X) : Type 0 where
  pub at : (w : World H) (r : List (Outcome (List ℕ))) → obs (record w { random = r }) ≡ obs w

pub record IgnoresKeys {H : Host} {X : Type 0} (obs : World H → X) : Type 0 where
  pub at : (w : World H) (k : H.KeyState) → obs (record w { keys = k }) ≡ obs w

pub record IgnoresRoot {H : Host} {X : Type 0} (obs : World H → X) : Type 0 where
  pub at : (w : World H) (r : H.RootState) → obs (record w { root = r }) ≡ obs w

module _ {H : Host} {X : Type 0} {obs : World H → X} (faults : IgnoresFaults obs) where
  pub Keeps-os_call : Keeps obs Os.os_call
  unfolding Os.os_call
  Keeps-os_call = record { at = λ w. faults.at w _ }

  pub Keeps-stat : (p : FilePath) → Keeps obs (Os.stat p)
  unfolding Os.stat
  Keeps-stat p = search (keeps_rules, Keeps-os_call)

  pub Keeps-read_file : (p : FilePath) → Keeps obs (Os.read_file p)
  unfolding Os.read_file
  Keeps-read_file p = search (keeps_rules, Keeps-os_call)

module _ {H : Host} {X : Type 0} {obs : World H → X} (faults : IgnoresFaults obs)
    (files : IgnoresFiles obs) where
  Keeps-set_fs :
      (g : World H → FilePath → Option (Node H)) → Keeps obs (modify (λ w. record w { fs = g w }))
  Keeps-set_fs g = Keeps-modify _ (λ w. files.at w (g w) w.descriptors)

  Keeps-set_open :
      (g : World H → FilePath → Option (Node H)) (d : World H → List FilePath)
      → Keeps obs (modify (λ w. record w { fs = g w; descriptors = d w }))
  Keeps-set_open g d = Keeps-modify _ (λ w. files.at w (g w) (d w))

  Keeps-set_descriptors :
      (d : World H → List FilePath) → Keeps obs (modify (λ w. record w { descriptors = d w }))
  Keeps-set_descriptors d = Keeps-modify _ (λ w. files.at w w.fs (d w))

  ruleset file_rules = (keeps_rules, Keeps-set_fs, Keeps-set_open, Keeps-set_descriptors)

  pub Keeps-mkdir_all : (p : FilePath) → Keeps obs (Os.mkdir_all p)
  unfolding Os.mkdir_all
  Keeps-mkdir_all p = search (file_rules, Keeps-os_call) depth 8

  pub Keeps-create_temp : (d : FilePath) → Keeps obs (Os.create_temp d)
  unfolding Os.create_temp
  Keeps-create_temp d = search (file_rules, Keeps-os_call) depth 16

  pub Keeps-write : (p : FilePath) (b : H.Bytes) → Keeps obs (Os.write {H = H} p b)
  unfolding Os.write
  Keeps-write p b = search (file_rules, Keeps-os_call) depth 8

  pub Keeps-sync : (p : FilePath) → Keeps obs (Os.sync p)
  unfolding Os.sync
  Keeps-sync p = Keeps-os_call faults

  pub Keeps-close : (p : FilePath) → Keeps obs (Os.close p)
  unfolding Os.close
  Keeps-close p = search (file_rules, Keeps-os_call) depth 12

  pub Keeps-chmod : (p : FilePath) (m : ℕ) → Keeps obs (Os.chmod p m)
  unfolding Os.chmod
  Keeps-chmod p m = search (file_rules, Keeps-stat) depth 8

  pub Keeps-rename : (p q : FilePath) → Keeps obs (Os.rename p q)
  unfolding Os.rename
  Keeps-rename p q = search (file_rules, Keeps-stat) depth 12

  pub Keeps-remove : (p : FilePath) → Keeps obs (Os.remove p)
  unfolding Os.remove
  Keeps-remove p = search (file_rules, Keeps-stat) depth 8

  pub Keeps-remove_all : (p : FilePath) → Keeps obs (Os.remove_all p)
  unfolding Os.remove_all
  Keeps-remove_all p = search (file_rules, Keeps-os_call) depth 8

module _ {H : Host} {X A : Type 0} {obs : World H → X} where
  pub Keeps-on_keys :
      IgnoresKeys obs → (f : H.KeyState → Outcome A × H.KeyState) → Keeps obs (on_keys f)
  unfolding ◌>>=◌
  Keeps-on_keys k f = record { at = λ w. k.at w _ }

  pub Keeps-on_root :
      IgnoresRoot obs → (f : H.RootState → Outcome A × H.RootState) → Keeps obs (on_root f)
  unfolding ◌>>=◌
  Keeps-on_root r f = record { at = λ w. r.at w _ }

pub ruleset os_frame = (
  Keeps-on_keys, Keeps-on_root, Keeps-os_call, Keeps-stat, Keeps-read_file, Keeps-mkdir_all,
  Keeps-create_temp, Keeps-write, Keeps-sync, Keeps-close, Keeps-chmod, Keeps-rename, Keeps-remove,
  Keeps-remove_all,
)
