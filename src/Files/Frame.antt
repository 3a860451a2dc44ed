-- ===== src/Files/Frame.antt =====
-- The file helpers touch nothing but files.
use local_tls.Base.{ℕ}
use local_tls.Host.{Host, FilePath}
use local_tls.World.{World}
use local_tls.World.Keeps.{Keeps, keeps_rules}
use local_tls.Os.Frame.{IgnoresFaults, IgnoresFiles, os_frame}
use local_tls.Files.{file_exists, discard, atomic_write}

module _ {H : Host} {X : Type 0} {obs : World H → X} (faults : IgnoresFaults obs) where
  pub Keeps-file_exists : (p : FilePath) → Keeps obs (file_exists p)
  unfolding file_exists
  Keeps-file_exists p = search (keeps_rules, os_frame)

module _ {H : Host} {X : Type 0} {obs : World H → X} (faults : IgnoresFaults obs)
    (files : IgnoresFiles obs) where
  Keeps-discard : (p : FilePath) → Keeps obs (discard p)
  unfolding discard
  Keeps-discard p = search (keeps_rules, os_frame)

  pub Keeps-atomic_write :
      (p : FilePath) (b : H.Bytes) (m : ℕ) → Keeps obs (atomic_write {H = H} p b m)
  unfolding atomic_write
  Keeps-atomic_write p b m = search (keeps_rules, os_frame, Keeps-discard) depth 20
