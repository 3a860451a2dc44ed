-- ===== src/Files/Calm.antt =====
-- The file helpers where the operating system refuses no call.
use local_tls.Base.{
  ◌||◌, ap, length, ◌<◌, arith, ==_iff, ℕ, String, Bool, true, false, Option, none, some, List, [],
  ◌∷◌, ◌≡◌, refl, sym, subst, if◌then◌else◌,
}
use local_tls.Host.{Host, FilePath, Segment, name, temp}
use local_tls.World.{World, Node, directory, file, ◌>>=◌}
use local_tls.World.Hoare.{Triple, Triple-bind, Triple-context, Triple-fact}
use local_tls.World.Total.{Never, sure}
use local_tls.Os
use local_tls.Os.{path_eq, under, segment_eq, join, dir_of, update}
use local_tls.Files
use local_tls.Files.Temp.{path_eq_refl, path_eq-≡}

pub path_eq_longer : (s : Segment) (d : FilePath) → path_eq d (s ∷ d) ≡ false
path_eq_longer s [] = refl
path_eq_longer s (t ∷ d) = ground (arith, path_eq_longer t d)

path_eq-length : (p q : FilePath) → path_eq p q ≡ true → length p ≡ length q
path_eq-length p q e = ap length (path_eq-≡ p q e)

under_longer : (q d : FilePath) → length d < length q → under q d ≡ false
under_longer [] [] h = ground arith
under_longer (t ∷ q) [] h = refl
under_longer q (s ∷ d) h = ground (arith, path_eq-length (s ∷ d) q, under_longer q d)

under_self : (d : FilePath) → under d d ≡ true
under_self [] = refl
under_self (s ∷ d) = ground (arith, path_eq_refl (s ∷ d))

module _ {H : Host} where
  -- No call will fail, the directory `d` and what stands at `other` are there, and `os.CreateTemp`
  -- will try the number `n` first.
  abbrev pub Ready : FilePath → FilePath → Option (Node H) → ℕ → List ℕ → World H → Type 0
  Ready d other x n rest w =
      (w.faults ≡ []) × (w.fs d ≡ some directory) × (w.fs other ≡ x) × (w.temp_names ≡ n ∷ rest)

  -- Between the creation of the temporary file and its renaming.
  module _ (d other target tmp : FilePath) (x : Option (Node H)) (n : ℕ) (rest : List ℕ) where
    abbrev Holding : World H → Type 0
    Holding w =
        Ready d other x n rest w
        × (w.fs target ≡ none)
        × ((mode : ℕ) × (b : H.Bytes) × (w.fs tmp ≡ some (file mode b)))

    abbrev Writing : World H → Type 0
    Writing w = Holding w × (Os.is_open tmp w.descriptors ≡ true)

    abbrev Done : World H → Type 0
    Done w = Ready d other x n rest w × (w.fs tmp ≡ none)

    module _ (out : path_eq d tmp ≡ false) (other_out : path_eq other tmp ≡ false)
        (apart : path_eq target tmp ≡ false) (above : path_eq d target ≡ false)
        (other_above : path_eq other target ≡ false) where
      write_calm : (b : H.Bytes) → Triple Writing (Os.write {H = H} tmp b) (λ _. Writing) Never
      unfolding Os.write Os.os_call ◌>>=◌
      write_calm b = record {
        at = λ w (((quiet, there, same, names), absent, (mode, c, held)), opened).
            rw (quiet, held, path_eq_refl tmp, out, other_out, apart)
              (((refl, there, same, names), absent, (mode, b, refl)), opened);
      }

      sync_calm : Triple Writing (Os.sync {H = H} tmp) (λ _. Writing) Never
      unfolding Os.sync Os.os_call ◌>>=◌
      sync_calm = record {
        at = λ w (((quiet, there, same, names), absent, held), opened).
            rw quiet (((refl, there, same, names), absent, held), opened);
      }

      close_calm : Triple Writing (Os.close {H = H} tmp) (λ _. Holding) Never
      unfolding Os.close Os.os_call ◌>>=◌
      close_calm = record {
        at = λ w (((quiet, there, same, names), absent, held), opened).
            rw (quiet, opened) ((refl, there, same, names), absent, held);
      }

      chmod_calm : (mode : ℕ) → Triple Holding (Os.chmod {H = H} tmp mode) (λ _. Holding) Never
      unfolding Os.chmod Os.stat Os.os_call ◌>>=◌
      chmod_calm mode = record {
        at = λ w ((quiet, there, same, names), absent, (m, c, held)).
            rw (quiet, held, path_eq_refl tmp, out, other_out, apart)
              ((refl, there, same, names), absent, (mode, c, refl));
      }

      rename_calm : Triple Holding (Os.rename {H = H} tmp target) (λ _. Done) Never
      unfolding Os.rename Os.stat Os.os_call ◌>>=◌
      rename_calm = record {
        at = λ w ((quiet, there, same, names), absent, (m, c, held)).
            rw (quiet, held, absent, path_eq_refl tmp, out, other_out, above, other_above)
              ((refl, there, same, names), refl);
      }

      store_calm :
          (b : H.Bytes) (mode : ℕ)
          → Triple Writing (Files.store_temp {H = H} tmp target b mode) (λ _. Done) Never
      unfolding Files.store_temp
      store_calm b mode =
          Triple-bind (sure _ (Triple-context "write temp file" (write_calm b))) λ _.
            Triple-bind (sure _ (Triple-context "sync temp file" sync_calm)) λ _.
              Triple-bind (sure _ (Triple-context "close temp file" close_calm)) λ _.
                Triple-bind (sure _ (Triple-context "chmod temp file" (chmod_calm mode)))
                  λ _. sure _ (Triple-context "rename temp file" rename_calm)

  -- Nothing fails on the way from a name that is free to the file at `target`.
  module _ (d other : FilePath) (f : String) (x : Option (Node H)) (n : ℕ) (rest : List ℕ) where
    abbrev pub Free : World H → Type 0
    Free w = Ready d other x n rest w × (w.fs (temp n ∷ d) ≡ none)

    module _ (other_out : path_eq other (temp n ∷ d) ≡ false)
        (other_above : path_eq other (join d f) ≡ false) where
      create_calm :
          Triple
            (λ w. Free w × (w.fs (join d f) ≡ none))
            (Os.create_temp {H = H} d)
            (λ tmp w. (tmp ≡ temp n ∷ d) × Writing d other (join d f) (temp n ∷ d) x n rest w)
            Never
      unfolding Os.create_temp Os.os_call ◌>>=◌
      create_calm = record {
        at = λ w (((quiet, there, same, names), free), absent).
            rw
              (
                quiet,
                there,
                names,
                free,
                path_eq_refl d,
                (==_iff n n).1 refl,
                path_eq_longer (temp n) d,
                other_out,
                absent,
              )
              (refl, (((refl, there, same, refl), refl, (0o600, H.no_bytes, refl)), refl));
      }

      pub atomic_write_calm :
          (b : H.Bytes) (mode : ℕ)
          → Triple
              (λ w. Free w × (w.fs (join d f) ≡ none))
              (Files.atomic_write {H = H} (join d f) b mode)
              (λ _. Free)
              Never
      unfolding Files.atomic_write
      atomic_write_calm b mode = Triple-bind (Triple-context _ create_calm) λ tmp.
          Triple-fact λ same.
            subst
              (λ p.
                Triple (Writing d other (join d f) (temp n ∷ d) x n rest)
                  (Files.store_temp {H = H} p (join d f) b mode) (λ _. Free) Never)
              (sym same)
              (store_calm d other (join d f) (temp n ∷ d) x n rest (path_eq_longer (temp n) d)
                other_out refl (path_eq_longer (name f) d) other_above b mode)

  abbrev in_way : Option (Node H) → Bool
  in_way o = elim o [ none ↦ false | some n ↦ elim n [ directory ↦ false | file m b ↦ true ] ]

  abbrev made_at : Option (Node H) → Bool → Option (Node H)
  made_at o u = elim o [ some n ↦ some n | none ↦ if u then some directory else none ]

  -- A directory that `os.MkdirAll` makes, or that is there.
  made_dir :
      (o : Option (Node H)) (u beyond : Bool)
      → u ≡ true
      → (in_way o || beyond) ≡ false
      → made_at o u ≡ some directory
  made_dir none u beyond e h = rw e refl
  made_dir (some directory) u beyond e h = refl
  made_dir (some (file m b)) u beyond e h = cc

  made_none : (o : Option (Node H)) (u : Bool) → o ≡ none → u ≡ false → made_at o u ≡ none
  made_none o u e f = rw (e, f) refl

  -- `os.MkdirAll` where no file stands in the way.
  module _ (s : Segment) (p : FilePath) (n : ℕ) (rest : List ℕ) where
    -- The directory has room for the files `f` and `g`.
    abbrev pub Vacant : String → String → World H → Type 0
    Vacant f g w =
        (w.faults ≡ [])
        × (w.temp_names ≡ n ∷ rest)
        × (w.fs (temp n ∷ (s ∷ p)) ≡ none)
        × (w.fs (join (s ∷ p) f) ≡ none)
        × (w.fs (join (s ∷ p) g) ≡ none)

    made_self :
        (fs : FilePath → Option (Node H))
        → Os.blocked fs (s ∷ p) ≡ false
        → Os.made fs (s ∷ p) (s ∷ p) ≡ some directory
    made_self fs h =
        made_dir (fs (s ∷ p)) (under (s ∷ p) (s ∷ p)) (Os.blocked fs p) (under_self (s ∷ p)) h

    made_below :
        (fs : FilePath → Option (Node H)) (t : Segment)
        → fs (t ∷ (s ∷ p)) ≡ none
        → Os.made fs (s ∷ p) (t ∷ (s ∷ p)) ≡ none
    made_below fs t e =
        made_none (fs (t ∷ (s ∷ p))) _ e (under_longer (t ∷ (s ∷ p)) (s ∷ p) (ground arith))

    pub mkdir_calm :
        (f g : String)
        → Triple
            (λ w. Vacant f g w × (Os.blocked w.fs (s ∷ p) ≡ false))
            (Os.mkdir_all {H = H} (s ∷ p))
            (λ _ w. Free (s ∷ p) (join (s ∷ p) g) f none n rest w × (w.fs (join (s ∷ p) f) ≡ none))
            Never
    unfolding Os.mkdir_all Os.os_call ◌>>=◌
    mkdir_calm f g = record {
      at = λ w ((quiet, names, free, absent, absent'), way).
          rw (quiet, way)
            (
              (
                (refl, made_self w.fs way, made_below w.fs (name g) absent', names),
                made_below w.fs (temp n) free,
              ),
              made_below w.fs (name f) absent,
            );
    }
