-- ===== src/Files/Contents.antt =====
-- The bytes of files, before and after the calls that read and write them.
use local_tls.Base.{ℕ, String, Option, none, some, false, ◌≡◌, refl, ◌∙◌}
use local_tls.Errors.{ok, sentinel, not_exist, from_option}
use local_tls.Host.{Host, FilePath}
use local_tls.World.{World, Node, directory, file, M}
use local_tls.World.Keeps.{Keeps}
use local_tls.World.Hoare.{
  Triple, Triple-bind, Triple-gets, Triple-lift, Triple-keeps, Triple-weaken, Triple-returns,
  Triple-exists, Unclaimed,
}
use local_tls.Os
use local_tls.Os.{path_eq, join}
use local_tls.Os.Frame.{Keeps-os_call}
use local_tls.Files.{atomic_write}
use local_tls.Files.Atomic.{atomic_triple, other_triple}

abbrev pub HoldsBytes : {H : Host} → (FilePath → Option (Node H)) → FilePath → H.Bytes → Type 0
HoldsBytes fs p b = (mode : ℕ) × (fs p ≡ some (file mode b))

module _ {H : Host} where
  -- A function that changes no file keeps what is true of them.
  pub files_stay :
      {A : Type 0} {m : M H A} (R : (FilePath → Option (Node H)) → Type 0)
      → Keeps {H = H} (λ w. w.fs) m
      → Triple (λ w. R w.fs) m (λ _ w. R w.fs) Unclaimed
  files_stay R k = Triple-returns (Triple-keeps {obs = λ w. w.fs} R k)

  contents_of :
      (n : Option (Node H)) (found : Node H) (b : H.Bytes)
      → from_option n (sentinel not_exist) ≡ ok found
      → Os.contents found ≡ ok b
      → (mode : ℕ) × (n ≡ some (file mode b))
  contents_of none found b e h = cc
  contents_of (some directory) directory b e h = cc
  contents_of (some directory) (file mode x) b e h = cc
  contents_of (some (file m y)) directory b e h = cc
  contents_of (some (file m y)) (file mode x) b e h = (m, cc)

  -- What `os.ReadFile` returns is what the file holds.
  pub read_file_triple :
      (R : (FilePath → Option (Node H)) → Type 0) (p : FilePath)
      → Triple (λ w. R w.fs) (Os.read_file p) (λ b w. HoldsBytes w.fs p b × R w.fs) Unclaimed
  unfolding Os.read_file
  read_file_triple R p =
      Triple-bind (files_stay R (Keeps-os_call (record { at = λ w f. refl }))) λ _.
        Triple-bind {Q = λ n w. (w.fs p ≡ n) × R w.fs} (Triple-gets _ (λ w h. (refl, h))) λ n.
          Triple-bind
            {Q = λ found w. (from_option n (sentinel not_exist) ≡ ok found) × (w.fs p ≡ n) × R w.fs}
            (Triple-lift _ (λ a w e (k, r). (e, k, r)) (λ e w r h. tt))
            λ found. Triple-lift _ (λ b w e (f, k, r). (holds n found b w f e k, r)) (λ e w r h. tt)
    where
      holds :
          (n : Option (Node H)) (found : Node H) (b : H.Bytes) (w : World H)
          → from_option n (sentinel not_exist) ≡ ok found
          → Os.contents found ≡ ok b
          → w.fs p ≡ n
          → HoldsBytes w.fs p b
      holds n found b w e h k = let c = contents_of n found b e h in (c.0, k ∙ c.1)

  -- `atomicWrite` puts the bytes into the file, and leaves those of another.
  pub written_triple :
      (dir : FilePath) (s : String) (b : H.Bytes) (perm : ℕ)
      → Triple
          (λ _. Unit {0})
          (atomic_write {H = H} (join dir s) b perm)
          (λ _ w. HoldsBytes w.fs (join dir s) b)
          Unclaimed
  written_triple dir s b perm = record {
    at = λ w _.
        (Triple-weaken {P = λ v. v.fs (join dir s) ≡ w.fs (join dir s)} (λ v h. h)
            (λ a v h. (perm, h)) (λ e v h. tt) (atomic_triple s dir (w.fs (join dir s)) b perm)).at
          w refl;
  }

  pub untouched_triple :
      (dir : FilePath) (s : String) (x : H.Bytes) (path : FilePath) (b : H.Bytes) (perm : ℕ)
      → path_eq (join dir s) path ≡ false
      → Triple
          (λ w. HoldsBytes w.fs (join dir s) x)
          (atomic_write {H = H} path b perm)
          (λ _ w. HoldsBytes w.fs (join dir s) x)
          Unclaimed
  untouched_triple dir s x path b perm apart = Triple-exists λ mode.
      Triple-weaken (λ w h. h) (λ a w h. (mode, h)) (λ e w h. tt)
        (other_triple s dir (some (file mode x)) path b perm apart)
