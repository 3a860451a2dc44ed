-- ===== src/Files/Atomic.antt =====
-- `atomicWrite`: what a reader of the directory can see.
pub mod Calls
use local_tls.Base.{ℕ, String, false, if◌then◌else◌}
use local_tls.Base.{Bool-cases, inl, inr, ◌≡◌, ◌≢◌, refl, sym, subst, Option, none, some, ◌∷◌}
use local_tls.Errors.{Error, Outcome, ok, err, is_ok, sentinel, not_exist, from_option}
use local_tls.Host.{Host, FilePath, name, temp}
use local_tls.World.{World, Node, file, M, lift, ◌>>=◌}
use local_tls.World.Keeps.{Keeps, keeps_rules, Keeps-ignore}
use local_tls.World.Hoare.{
  Ends, Triple, Triple-bind, Triple-modify, Triple-lift, Triple-gets, Triple-context,
  Triple-or_else, Triple-keeps, Triple-weaken,
}
use local_tls.Os
use local_tls.Os.{path_eq, segment_eq, join, dir_of}
use local_tls.Os.Frame.{Keeps-os_call}
use local_tls.Files
use local_tls.Files.Temp.{
  path_eq_refl, path_eq-≡, Keeps-remove_temp, Keeps-discard_temp, Keeps-store_temp, sync_keeps,
  close_keeps,
}
use local_tls.Files.Atomic.Calls.{
  Still, Holds, Created, still, create_triple, write_triple, stat_triple, chmod_triple,
  rename_triple, keeps_fs,
}

module _ {H : Host} where
  module _ (s : String) (d : FilePath) (v : Option (Node H)) where
    store_triple :
        (n : ℕ) (dir : FilePath) (b : H.Bytes) (perm : ℕ)
        → Triple
            ((Holds s d v) (temp n ∷ dir) 0o600 H.no_bytes)
            (Files.store_temp {H = H} (temp n ∷ dir) (name s ∷ d) b perm)
            (λ _ w. w.fs (name s ∷ d) ≡ some (file perm b))
            (λ _. (Still s d v))
    unfolding Files.store_temp
    store_triple n dir b perm =
        let discards = λ (e : Error). (still s d v) (Keeps-discard_temp s d n dir) in
        let removes = λ (e : Error). (still s d v) (Keeps-ignore _ (Keeps-remove_temp s d n dir)) in
        Triple-bind (Triple-or_else (Triple-context _ ((write_triple s d v) n dir b)) discards) λ _.
          Triple-bind
            (Triple-or_else (Triple-context _ ((keeps_fs s d v) _ _ _ (sync_keeps _))) discards)
            λ _.
              Triple-bind
                (Triple-or_else (Triple-context _ ((keeps_fs s d v) _ _ _ (close_keeps _)))
                  discards)
                λ _.
                  Triple-bind
                    (Triple-or_else (Triple-context _ ((chmod_triple s d v) n dir perm b)) removes)
                    λ _.
                      Triple-or_else (Triple-context _ ((rename_triple s d v) n dir perm b)) removes

    after_create :
        (dir tmp : FilePath) (b : H.Bytes) (perm : ℕ)
        → Triple
            ((Created s d v) dir tmp)
            (Files.store_temp {H = H} tmp (name s ∷ d) b perm)
            (λ _ w. w.fs (name s ∷ d) ≡ some (file perm b))
            (λ _. (Still s d v))
    after_create dir tmp b perm = record {
      at = λ w (n, e, h).
          subst
            (λ t.
              Ends (λ _ u. u.fs (name s ∷ d) ≡ some (file perm b)) (λ _. (Still s d v))
                (Files.store_temp {H = H} t (name s ∷ d) b perm w).0
                (Files.store_temp {H = H} t (name s ∷ d) b perm w).1)
            (sym e) ((store_triple n dir b perm).at w h);
    }

    pub atomic_triple :
        (b : H.Bytes) (perm : ℕ)
        → Triple
            (Still s d v)
            (Files.atomic_write {H = H} (name s ∷ d) b perm)
            (λ _ w. w.fs (name s ∷ d) ≡ some (file perm b))
            (λ _. (Still s d v))
    unfolding Files.atomic_write
    atomic_triple b perm =
        Triple-bind (Triple-context _ ((create_triple s d v) d)) λ tmp. after_create d tmp b perm

    -- Another file with a proper name.
    other_after_create :
        (dir tmp path : FilePath) (b : H.Bytes) (perm : ℕ)
        → path_eq (name s ∷ d) path ≡ false
        → Triple
            ((Created s d v) dir tmp)
            (Files.store_temp {H = H} tmp path b perm)
            (λ _. (Still s d v))
            (λ _. (Still s d v))
    other_after_create dir tmp path b perm apart = record {
      at = λ w (n, e, h).
          subst
            (λ t.
              Ends (λ _. (Still s d v)) (λ _. (Still s d v))
                (Files.store_temp {H = H} t path b perm w).0
                (Files.store_temp {H = H} t path b perm w).1)
            (sym e) (((still s d v) (Keeps-store_temp s d n dir path apart b perm)).at w h.1);
    }

    pub other_triple :
        (path : FilePath) (b : H.Bytes) (perm : ℕ)
        → path_eq (name s ∷ d) path ≡ false
        → Triple
            (Still s d v)
            (Files.atomic_write {H = H} path b perm)
            (λ _. (Still s d v))
            (λ _. (Still s d v))
    unfolding Files.atomic_write
    other_triple path b perm apart =
        Triple-bind (Triple-context _ ((create_triple s d v) (dir_of path)))
          λ tmp. other_after_create (dir_of path) tmp path b perm apart

  chosen_at :
      (x y : Option (Node H)) (r : Outcome (Unit {0})) (w : World H) (p : FilePath)
      → Ends (λ _ u. u.fs p ≡ x) (λ _ u. u.fs p ≡ y) r w
      → w.fs p ≡ (if is_ok r then x else y)
  chosen_at x y (ok a) w p h = h
  chosen_at x y (err e) w p h = h

  same_at :
      (x : Option (Node H)) (r : Outcome (Unit {0})) (w : World H) (p : FilePath)
      → Ends (λ _ u. u.fs p ≡ x) (λ _ u. u.fs p ≡ x) r w
      → w.fs p ≡ x
  same_at x (ok a) w p h = h
  same_at x (err e) w p h = h

  -- `atomicWrite` is all or nothing for a reader of the target: when it returns no error, the target
  -- is a file with the new bytes and the wanted mode, and when it returns one, whichever call
  -- failed, the target is what it was before.
  pub atomic_write_all_or_nothing :
      (dir : FilePath) (file' : String) (b : H.Bytes) (perm : ℕ) (w : World H)
      → (Files.atomic_write {H = H} (join dir file') b perm w).1.fs (join dir file') ≡ (
          if is_ok (Files.atomic_write {H = H} (join dir file') b perm w).0
          then some (file perm b)
          else w.fs (join dir file'))
  atomic_write_all_or_nothing dir file' b perm w =
      chosen_at _ _ _ _ (join dir file') ((atomic_triple file' dir _ b perm).at w refl)

  -- No other file with a proper name changes, whether `atomicWrite` succeeds or fails.
  pub atomic_write_elsewhere :
      (path : FilePath) (b : H.Bytes) (perm : ℕ) (dir : FilePath) (file' : String) (w : World H)
      → join dir file' ≢ path
      → (Files.atomic_write {H = H} path b perm w).1.fs (join dir file') ≡ w.fs (join dir file')
  atomic_write_elsewhere path b perm dir file' w apart =
      elim (Bool-cases (path_eq (join dir file') path)) [
        | inl same ↦ absurd (apart (path_eq-≡ _ _ same))
        | inr other ↦
            same_at _ _ _ (join dir file') ((other_triple file' dir _ path b perm other).at w refl)
      ]
