-- ===== src/Files.antt =====
-- The file helpers of provision.go: `fileExists`, `allFilesExist`, `anyFileExists`, `atomicWrite`.
pub mod Frame
pub mod Temp
pub mod Atomic
pub mod Contents
pub mod Calm
use local_tls.Base.{ℕ, String, Bool, true, false, List, [], ◌∷◌}
use local_tls.Errors.{is_ok}
use local_tls.Host.{Host, FilePath}
use local_tls.Identity.{ca_cert_file, ca_key_file, server_cert_file, server_key_file}
use local_tls.World.{M, pure, context, attempt, ignore, or_else, ◌>>=◌, ◌>>◌}
use local_tls.Os.{stat, create_temp, write, sync, close, chmod, rename, remove, join, dir_of}

module _ {H : Host} where
  unfoldable pub file_exists : FilePath → M H Bool
  file_exists path = do r ← attempt (stat path); pure (is_ok r)

  -- The loops over the four file names stop at the first answer.
  every_file : FilePath → List String → M H Bool
  every_file tls_dir [] = pure true
  every_file tls_dir (name ∷ names) = do
    there ← file_exists (join tls_dir name)
    elim there [ true ↦ every_file tls_dir names | false ↦ pure false ]

  some_file : FilePath → List String → M H Bool
  some_file tls_dir [] = pure false
  some_file tls_dir (name ∷ names) = do
    there ← file_exists (join tls_dir name)
    elim there [ true ↦ pure true | false ↦ some_file tls_dir names ]

  unfoldable pub all_files_exist : FilePath → M H Bool
  unfolding every_file
  all_files_exist tls_dir =
      every_file tls_dir (ca_cert_file ∷ ca_key_file ∷ server_cert_file ∷ server_key_file ∷ [])

  unfoldable pub any_file_exists : FilePath → M H Bool
  unfolding some_file
  any_file_exists tls_dir =
      some_file tls_dir (ca_cert_file ∷ ca_key_file ∷ server_cert_file ∷ server_key_file ∷ [])

  -- The closure `cleanup` of `atomicWrite`.
  unfoldable pub discard : FilePath → M H (Unit {0})
  discard tmp = do ignore (close tmp); ignore (remove tmp)

  -- `atomicWrite` from the point where the temporary file is open.
  pub store_temp : FilePath → FilePath → H.Bytes → ℕ → M H (Unit {0})
  store_temp tmp path bytes perm = do
    or_else (context "write temp file" (write {H = H} tmp bytes)) (discard tmp)
    or_else (context "sync temp file" (sync tmp)) (discard tmp)
    or_else (context "close temp file" (close tmp)) (discard tmp)
    or_else (context "chmod temp file" (chmod tmp perm)) (ignore (remove tmp))
    or_else (context "rename temp file" (rename tmp path)) (ignore (remove tmp))

  unfoldable pub atomic_write : FilePath → H.Bytes → ℕ → M H (Unit {0})
  unfolding store_temp
  atomic_write path bytes perm = do
    tmp ← context "create temp file" (create_temp (dir_of path))
    store_temp tmp path bytes perm
