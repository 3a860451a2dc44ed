-- ===== src/Files/Temp.antt =====
-- Calls on a temporary file touch no file with a proper name.
use local_tls.Base.{ℕ, String, str_eq_iff, true, ==_iff}
use local_tls.Base.{false, some, none, ◌≡◌, refl, ap, Option, List, [], ◌∷◌, arith}
use local_tls.Host.{Host, FilePath, Segment, name, temp}
use local_tls.World.{World, Node, modify}
use local_tls.World.Keeps.{Keeps, keeps_rules, Keeps-modify}
use local_tls.Os
use local_tls.Os.{path_eq, segment_eq, join, dir_of}
use local_tls.Os.Frame.{IgnoresFaults, os_frame, Keeps-os_call}
use local_tls.Files

segment_eq_refl : (s : Segment) → segment_eq s s ≡ true
segment_eq_refl (name s) = (str_eq_iff s s).1 refl
segment_eq_refl (temp n) = (==_iff n n).1 refl

pub path_eq_refl : (p : FilePath) → path_eq p p ≡ true
path_eq_refl [] = refl
path_eq_refl (s ∷ p) = ground (arith, segment_eq_refl s, path_eq_refl p)

segment_eq-≡ : (s t : Segment) → segment_eq s t ≡ true → s ≡ t
segment_eq-≡ (name s) (name t) e = ap name ((str_eq_iff s t).0 e)
segment_eq-≡ (name s) (temp n) e = ground arith
segment_eq-≡ (temp m) (name t) e = ground arith
segment_eq-≡ (temp m) (temp n) e = ap temp ((==_iff m n).0 e)

pub path_eq-≡ : (p q : FilePath) → path_eq p q ≡ true → p ≡ q
path_eq-≡ [] [] e = refl
path_eq-≡ [] (t ∷ q) e = ground arith
path_eq-≡ (s ∷ p) [] e = ground arith
path_eq-≡ (s ∷ p) (t ∷ q) e = ground (arith, segment_eq-≡ s t, path_eq-≡ p q)

module _ {H : Host} where
  -- A file with a proper name that no call on a temporary file touches.
  module _ (s : String) (d : FilePath) (n : ℕ) (dir : FilePath) where
    abbrev seen : World H → Option (Node H)
    seen w = w.fs (name s ∷ d)

    faults : IgnoresFaults seen
    faults = record { at = λ w f. refl }

    Keeps-at_temp :
        (v : World H → Option (Node H))
        → Keeps seen (modify (λ w. record w { fs = Os.update w.fs (temp n ∷ dir) (v w) }))
    Keeps-at_temp v = Keeps-modify _ (λ w. refl)

    Keeps-descriptors :
        (ds : World H → List FilePath) → Keeps seen (modify (λ w. record w { descriptors = ds w }))
    Keeps-descriptors ds = Keeps-modify _ (λ w. refl)

    ruleset temp_rules = (keeps_rules, os_frame, Keeps-at_temp, Keeps-descriptors)

    pub Keeps-write_temp : (b : H.Bytes) → Keeps seen (Os.write {H = H} (temp n ∷ dir) b)
    unfolding Os.write
    Keeps-write_temp b = search (temp_rules, faults) depth 12

    pub Keeps-sync_temp : Keeps seen (Os.sync {H = H} (temp n ∷ dir))
    unfolding Os.sync
    Keeps-sync_temp = Keeps-os_call faults

    pub Keeps-close_temp : Keeps seen (Os.close {H = H} (temp n ∷ dir))
    unfolding Os.close
    Keeps-close_temp = search (temp_rules, faults) depth 12

    pub Keeps-chmod_temp : (perm : ℕ) → Keeps seen (Os.chmod {H = H} (temp n ∷ dir) perm)
    unfolding Os.chmod
    Keeps-chmod_temp perm = search (temp_rules, faults) depth 12

    pub Keeps-remove_temp : Keeps seen (Os.remove {H = H} (temp n ∷ dir))
    unfolding Os.remove
    Keeps-remove_temp = search (temp_rules, faults) depth 12

    pub Keeps-discard_temp : Keeps seen (Files.discard {H = H} (temp n ∷ dir))
    unfolding Files.discard
    Keeps-discard_temp = search (keeps_rules, Keeps-close_temp, Keeps-remove_temp) depth 12

    module _ (path : FilePath) (apart : path_eq (name s ∷ d) path ≡ false) where
      Keeps-renamed :
          (m : Node H)
          → Keeps seen (
              modify (λ w. record w {
                fs = Os.update (Os.update w.fs path (some m)) (temp n ∷ dir) none;
              }))
      Keeps-renamed m = Keeps-modify _ (λ w. rw apart refl)

      Keeps-rename_temp : Keeps seen (Os.rename {H = H} (temp n ∷ dir) path)
      unfolding Os.rename
      Keeps-rename_temp = search (keeps_rules, os_frame, faults, Keeps-renamed) depth 16

      pub Keeps-store_temp :
          (b : H.Bytes) (perm : ℕ)
          → Keeps seen (Files.store_temp {H = H} (temp n ∷ dir) path b perm)
      unfolding Files.store_temp
      Keeps-store_temp b perm =
          search
            (
              keeps_rules, Keeps-write_temp, Keeps-sync_temp, Keeps-close_temp, Keeps-chmod_temp,
              Keeps-remove_temp, Keeps-discard_temp, Keeps-rename_temp,
            )
            depth 16

  -- Flushing and closing leave every file as it is.
  all_files_faults : IgnoresFaults (λ (w : World H). w.fs)
  all_files_faults = record { at = λ w f. refl }

  all_files_descriptors :
      (ds : World H → List FilePath)
      → Keeps (λ (w : World H). w.fs) (modify (λ w. record w { descriptors = ds w }))
  all_files_descriptors ds = Keeps-modify _ (λ w. refl)

  pub sync_keeps : (p : FilePath) → Keeps {H = H} (λ w. w.fs) (Os.sync p)
  unfolding Os.sync
  sync_keeps p = Keeps-os_call all_files_faults

  pub close_keeps : (p : FilePath) → Keeps {H = H} (λ w. w.fs) (Os.close p)
  unfolding Os.close
  close_keeps p = search (keeps_rules, os_frame, all_files_faults, all_files_descriptors) depth 12
