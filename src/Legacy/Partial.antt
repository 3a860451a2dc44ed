-- ===== src/Legacy/Partial.antt =====
-- A partial set of files.
use local_tls.Base.{Bool, true, false, ◌≡◌, arith, Option, none, some, [], ◌&&◌, ◌||◌}
use local_tls.Errors.{is_ok}
use local_tls.Host.{Host, Time, FilePath}
use local_tls.Identity.{tls_sub_dir, ca_cert_file, ca_key_file, server_cert_file, server_key_file}
use local_tls.World.{World, Node, M, ◌>>=◌}
use local_tls.Os.{stat, os_call, join}
use local_tls.Files.{file_exists, all_files_exist, any_file_exists}
use local_tls.TrustStore.{TrustStore}
use local_tls.Legacy
use local_tls.Legacy.{ExportedKeys, Protector}

abbrev pub is_there : {H : Host} → Option (Node H) → Bool
is_there none = false
is_there (some n) = true

-- All four files, and at least one of them.
abbrev pub complete : {H : Host} → World H → FilePath → Bool
complete w d =
    is_there (w.fs (join d ca_cert_file))
    && is_there (w.fs (join d ca_key_file))
    && is_there (w.fs (join d server_cert_file))
    && is_there (w.fs (join d server_key_file))

abbrev pub begun : {H : Host} → World H → FilePath → Bool
begun w d =
    is_there (w.fs (join d ca_cert_file))
    || is_there (w.fs (join d ca_key_file))
    || is_there (w.fs (join d server_cert_file))
    || is_there (w.fs (join d server_key_file))

-- The operating system refuses no call.
abbrev pub untroubled : {H : Host} → World H → World H
untroubled w = record w { faults = [] }

module _ {H : Host} (x : ExportedKeys H) (p : Protector H) (ts : TrustStore H) where
  -- `Provision` over a directory that holds some of the four files and not all of them fails, and
  -- changes nothing: no key is made and no file is written. The operating system refuses no call.
  pub provision_refuses_partial :
      (data_dir : FilePath) (now : Option (M H Time)) (w : World H)
      → begun w (join data_dir tls_sub_dir) ≡ true
      → complete w (join data_dir tls_sub_dir) ≡ false
      → (is_ok (Legacy.provision x p data_dir ts now (untroubled w)).0 ≡ false)
        × ((Legacy.provision x p data_dir ts now (untroubled w)).1 ≡ untroubled w)
  unfolding Legacy.provision Legacy.first_provision all_files_exist any_file_exists file_exists stat
      os_call ◌>>=◌
  provision_refuses_partial data_dir now w b c = ground (arith, b, c)
