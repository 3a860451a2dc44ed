-- ===== src/Files/Atomic/Calls.antt =====
-- The calls of the operating system in `atomicWrite`, seen from a path with a proper name.
use local_tls.Base.{ℕ, String}
use local_tls.Base.{◌≡◌, refl, Option, none, some, ◌∷◌}
use local_tls.Errors.{Outcome, ok, err, sentinel, not_exist, from_option}
use local_tls.Host.{Host, FilePath, name, temp}
use local_tls.World.{World, Node, file, M, lift, ◌>>=◌}
use local_tls.World.Keeps.{Keeps, keeps_rules}
use local_tls.World.Hoare.{
  Ends, Triple, Triple-bind, Triple-modify, Triple-lift, Triple-gets, Triple-keeps, Triple-weaken,
}
use local_tls.Os
use local_tls.Os.{path_eq, segment_eq, join, dir_of}
use local_tls.Os.Frame.{Keeps-os_call}
use local_tls.Files.Temp.{path_eq_refl}

module _ {H : Host} where
  -- The temporary file that was just made, and what stands at the other path.
  module _ (s : String) (d : FilePath) (v : Option (Node H)) where
    abbrev pub Still : World H → Type 0
    Still w = w.fs (name s ∷ d) ≡ v

    abbrev pub Holds : FilePath → ℕ → H.Bytes → World H → Type 0
    Holds tmp perm b w = (w.fs tmp ≡ some (file perm b)) × Still w

    pub still :
        {A : Type 0} {m : M H A}
        → Keeps (λ w. w.fs (name s ∷ d)) m
        → Triple Still m (λ _. Still) (λ _. Still)
    still k = Triple-keeps (λ x. x ≡ v) k

    abbrev pub Created : FilePath → FilePath → World H → Type 0
    Created dir tmp w = (n : ℕ) × (tmp ≡ temp n ∷ dir) × Holds (temp n ∷ dir) 0o600 H.no_bytes w

    returned :
        (n : ℕ) (dir : FilePath)
        → Triple
            (Holds (temp n ∷ dir) 0o600 H.no_bytes)
            (lift {H = H} (ok (temp n ∷ dir)))
            (Created dir)
            (λ _. Still)
    unfolding ◌>>=◌
    returned n dir = record { at = λ w h. (n, refl, h) }

    pub create_triple :
        (dir : FilePath) → Triple Still (Os.create_temp {H = H} dir) (Created dir) (λ _. Still)
    unfolding Os.create_temp
    create_triple dir = Triple-bind (still (Keeps-os_call (record { at = λ w f. refl }))) λ _.
        Triple-bind (still (search keeps_rules)) λ node.
          Triple-bind (still (search keeps_rules)) λ _.
            Triple-bind (still (search keeps_rules)) λ chosen.
              Triple-bind (still (search keeps_rules)) λ n.
                Triple-bind {Q = λ _. Holds (temp n ∷ dir) 0o600 H.no_bytes}
                  (Triple-modify _ (λ w h. (made_at n w, h))) λ _. returned n dir
      where
        made_at :
            (n : ℕ) (w : World H)
            → Os.update w.fs (temp n ∷ dir) (some (file 0o600 H.no_bytes)) (temp n ∷ dir)
              ≡ some (file 0o600 H.no_bytes)
        made_at n w = rw (path_eq_refl (temp n ∷ dir)) refl

    write_at :
        (n : ℕ) (dir : FilePath) (b : H.Bytes) (r : Outcome (Unit {0})) (w : World H)
        → Holds (temp n ∷ dir) 0o600 H.no_bytes w
        → Ends
            (λ _. Holds (temp n ∷ dir) 0o600 b)
            (λ _. Still)
            r
            (record w {
              fs =
                  Os.update w.fs
                    (temp n ∷ dir)
                    (Os.with_contents (w.fs (temp n ∷ dir)) (Os.written H r b));
            })
    write_at n dir b (ok tt) w (h, k) = (rw (path_eq_refl (temp n ∷ dir)) rw h refl, k)
    write_at n dir b (err e) w (h, k) = k

    pub write_triple :
        (n : ℕ) (dir : FilePath) (b : H.Bytes)
        → Triple
            (Holds (temp n ∷ dir) 0o600 H.no_bytes)
            (Os.write {H = H} (temp n ∷ dir) b)
            (λ _. Holds (temp n ∷ dir) 0o600 b)
            (λ _. Still)
    unfolding Os.write Os.os_call ◌>>=◌
    write_triple n dir b = record {
      at = λ w h.
          write_at n dir b (Os.next_fault w.faults) (record w { faults = Os.later_faults w.faults })
            h;
    }

    -- `os.Stat` of a file that is there returns it.
    pub stat_triple :
        (p : FilePath) (perm : ℕ) (b : H.Bytes)
        → Triple
            (Holds p perm b)
            (Os.stat p)
            (λ m w. (m ≡ file perm b) × Holds p perm b w)
            (λ _. Still)
    unfolding Os.stat
    stat_triple p perm b =
        Triple-bind
          (Triple-weaken (λ w h. h) (λ a w h. h) (λ e w h. h.1)
            (Triple-keeps
              (λ (fs : FilePath → Option (Node H)).
                (fs p ≡ some (file perm b)) × (fs (name s ∷ d) ≡ v))
              (Keeps-os_call {obs = λ w. w.fs} (record { at = λ w f. refl }))))
          λ _.
            Triple-bind {Q = λ a w. (a ≡ some (file perm b)) × Holds p perm b w}
              (Triple-gets _ (λ w h. (h.0, h)))
              λ a. Triple-lift _ (λ m w e h. (found a m h.0 e, h.1)) (λ e w r h. h.1.1)
      where
        found :
            (a : Option (Node H)) (m : Node H)
            → a ≡ some (file perm b)
            → from_option a (sentinel not_exist) ≡ ok m
            → m ≡ file perm b
        found none m h e = cc
        found (some k) m h e = cc

    pub chmod_triple :
        (n : ℕ) (dir : FilePath) (perm : ℕ) (b : H.Bytes)
        → Triple
            (Holds (temp n ∷ dir) 0o600 b)
            (Os.chmod (temp n ∷ dir) perm)
            (λ _. Holds (temp n ∷ dir) perm b)
            (λ _. Still)
    unfolding Os.chmod
    chmod_triple n dir perm b =
        Triple-bind (stat_triple (temp n ∷ dir) 0o600 b)
          λ m. Triple-modify _ (λ w h. (rw (path_eq_refl (temp n ∷ dir)) rw h.0 refl, h.1.1))

    pub rename_triple :
        (n : ℕ) (dir : FilePath) (perm : ℕ) (b : H.Bytes)
        → Triple
            (Holds (temp n ∷ dir) perm b)
            (Os.rename {H = H} (temp n ∷ dir) (name s ∷ d))
            (λ _ w. w.fs (name s ∷ d) ≡ some (file perm b))
            (λ _. Still)
    unfolding Os.rename
    rename_triple n dir perm b = Triple-bind (stat_triple (temp n ∷ dir) perm b) λ m.
        Triple-bind {Q = λ _ w. (m ≡ file perm b) × Still w} (Triple-gets _ (λ w h. (h.0, h.1.1)))
          λ target.
            Triple-bind {Q = λ _ w. (m ≡ file perm b) × Still w}
              (Triple-lift _ (λ a w e h. h) (λ e w r h. h.1))
              λ _. Triple-modify _ (λ w h. rw (path_eq_refl (name s ∷ d)) rw h.0 refl)

    pub keeps_fs :
        {A : Type 0} {m : M H A} (p : FilePath) (perm : ℕ) (b : H.Bytes)
        → Keeps {H = H} (λ w. w.fs) m
        → Triple (Holds p perm b) m (λ _. Holds p perm b) (λ _. Still)
    keeps_fs p perm b k =
        Triple-weaken (λ w h. h) (λ a w h. h) (λ e w h. h.1)
          (Triple-keeps
            (λ (fs : FilePath → Option (Node H)).
              (fs p ≡ some (file perm b)) × (fs (name s ∷ d) ≡ v))
            k)
