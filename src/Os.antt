-- ===== src/Os.antt =====
-- The parts of the packages os and path/filepath that the code calls. A call takes the next entry
-- of the schedule `faults`, which says whether the operating system refuses it.
pub mod Frame
use local_tls.Base.{ℕ, String, str_eq, Bool, true, false, ◌&&◌, ◌||◌, ◌==◌, if◌then◌else◌}
use local_tls.Base.{Option, none, some, List, [], ◌∷◌}
use local_tls.Errors.{Outcome, ok, err, errno, text, sentinel, not_exist, from_option}
use local_tls.Host.{Host, Segment, name, temp, FilePath}
use local_tls.World.{Node, directory, file, M, lift, gets, attempt, modify, ◌>>=◌, ◌>>◌}

abbrev pub segment_eq : Segment → Segment → Bool
segment_eq (name s) (name t) = str_eq s t
segment_eq (name s) (temp n) = false
segment_eq (temp n) (name s) = false
segment_eq (temp m) (temp n) = m == n

abbrev pub path_eq : FilePath → FilePath → Bool
path_eq [] [] = true
path_eq [] (t ∷ q) = false
path_eq (s ∷ p) [] = false
path_eq (s ∷ p) (t ∷ q) = segment_eq s t && path_eq p q

-- Is the second path the first or a path below it?
abbrev pub under : FilePath → FilePath → Bool
under d [] = path_eq [] d
under d (s ∷ p) = path_eq (s ∷ p) d || under d p

-- `filepath.Join(dir, file)` and `filepath.Dir`.
abbrev pub join : FilePath → String → FilePath
join dir s = name s ∷ dir

abbrev pub dir_of : FilePath → FilePath
dir_of [] = []
dir_of (s ∷ p) = p

abbrev pub Files : Host → Type 0
Files H = FilePath → Option (Node H)

abbrev pub next_fault : List (Option ℕ) → Outcome (Unit {0})
next_fault [] = ok tt
next_fault (none ∷ rest) = ok tt
next_fault (some n ∷ rest) = err (errno n)

abbrev pub later_faults : List (Option ℕ) → List (Option ℕ)
later_faults [] = []
later_faults (f ∷ rest) = rest

abbrev pub is_open : FilePath → List FilePath → Bool
is_open p [] = false
is_open p (q ∷ ds) = path_eq q p || is_open p ds

abbrev pub without : FilePath → List FilePath → List FilePath
without p [] = []
without p (q ∷ ds) = if path_eq q p then ds else q ∷ without p ds

abbrev pub written : (H : Host) → Outcome (Unit {0}) → H.Bytes → H.Bytes
written H (ok _) b = b
written H (err (errno n)) b = H.torn n b
written H (err _) b = H.no_bytes

abbrev pub spared : Host → Outcome (Unit {0}) → FilePath → Bool
spared H (ok _) q = false
spared H (err (errno n)) q = H.survives n q
spared H (err _) q = true

module _ {H : Host} where
  abbrev pub update : Files H → FilePath → Option (Node H) → Files H
  update fs p v q = if path_eq q p then v else fs q

  unfoldable pub os_call : M H (Unit {0})
  os_call w = (next_fault w.faults, record w { faults = later_faults w.faults })

  -- `os.Stat`.
  unfoldable pub stat : FilePath → M H (Node H)
  stat p = do os_call; n ← gets (λ w. w.fs p); lift (from_option n (sentinel not_exist))

  abbrev pub contents : Node H → Outcome H.Bytes
  contents directory = err (errno 21)
  contents (file mode b) = ok b

  -- `os.ReadFile`.
  unfoldable pub read_file : FilePath → M H H.Bytes
  read_file p = do
    os_call
    n ← gets (λ w. w.fs p)
    found ← lift (from_option n (sentinel not_exist))
    lift (contents found)

  -- A file where a directory of the path should be.
  abbrev pub blocked : Files H → FilePath → Bool
  blocked fs [] = false
  blocked fs (s ∷ p) =
      elim (fs (s ∷ p)) [ none ↦ false | some n ↦ elim n [ directory ↦ false | file m b ↦ true ] ]
      || blocked fs p

  abbrev pub made : Files H → FilePath → Files H
  made fs p q = elim (fs q) [ some n ↦ some n | none ↦ if under q p then some directory else none ]

  -- `os.MkdirAll`.
  unfoldable pub mkdir_all : FilePath → M H (Unit {0})
  mkdir_all p = do
    os_call
    stuck ← gets (λ w. blocked w.fs p)
    lift (if stuck then err (errno 20) else ok tt)
    modify (λ w. record w { fs = made w.fs p })

  -- The first random number whose file is not there, as `os.CreateTemp` tries them.
  abbrev pub fresh_temp : Files H → FilePath → List ℕ → Outcome ℕ
  fresh_temp fs dir [] = err (errno 17)
  fresh_temp fs dir (n ∷ ns) = elim (fs (temp n ∷ dir)) [
    | none ↦ ok n
    | some _ ↦ fresh_temp fs dir ns
  ]

  abbrev pub is_directory : Option (Node H) → Outcome (Unit {0})
  is_directory none = err (sentinel not_exist)
  is_directory (some directory) = ok tt
  is_directory (some (file m b)) = err (errno 20)

  -- `os.CreateTemp(dir, ".tmp-*")`: the path of the open file.
  unfoldable pub create_temp : FilePath → M H FilePath
  create_temp dir = do
    os_call
    node ← gets (λ w. w.fs dir)
    lift (is_directory node)
    chosen ← gets (λ w. fresh_temp w.fs dir w.temp_names)
    n ← lift chosen
    modify (λ w. record w {
      fs = update w.fs (temp n ∷ dir) (some (file 0o600 H.no_bytes));
      descriptors = (temp n ∷ dir) ∷ w.descriptors;
    })
    lift (ok (temp n ∷ dir))

  abbrev pub with_contents : Option (Node H) → H.Bytes → Option (Node H)
  with_contents none b = none
  with_contents (some directory) b = some directory
  with_contents (some (file mode _)) b = some (file mode b)

  -- `tmp.Write(data)`: a failure leaves a part of the data.
  unfoldable pub write : FilePath → H.Bytes → M H (Unit {0})
  write p b = do
    r ← attempt os_call
    modify (λ w. record w { fs = update w.fs p (with_contents (w.fs p) (written H r b)) })
    lift r

  -- `tmp.Sync()`.
  unfoldable pub sync : FilePath → M H (Unit {0})
  sync p = os_call

  -- `tmp.Close()`: the descriptor is gone also when an error is reported; a second call fails.
  unfoldable pub close : FilePath → M H (Unit {0})
  close p = do
    open' ← gets (λ w. is_open p w.descriptors)
    lift (if open' then ok tt else err (text "file already closed"))
    modify (λ w. record w { descriptors = without p w.descriptors })
    os_call

  abbrev pub with_mode : ℕ → Node H → Node H
  with_mode mode directory = directory
  with_mode mode (file _ b) = file mode b

  -- `os.Chmod`.
  unfoldable pub chmod : FilePath → ℕ → M H (Unit {0})
  chmod p mode = do
    n ← stat p
    modify (λ w. record w { fs = update w.fs p (some (with_mode mode n)) })

  abbrev pub replaceable : Option (Node H) → Outcome (Unit {0})
  replaceable (some directory) = err (errno 21)
  replaceable _ = ok tt

  -- `os.Rename(old, new)`, which replaces a file.
  unfoldable pub rename : FilePath → FilePath → M H (Unit {0})
  rename old new = do
    n ← stat old
    target ← gets (λ w. w.fs new)
    lift (replaceable target)
    modify (λ w. record w { fs = update (update w.fs new (some n)) old none })

  abbrev pub removable : Node H → Outcome (Unit {0})
  removable directory = err (errno 39)
  removable (file m b) = ok tt

  -- `os.Remove`, as it is used on files.
  unfoldable pub remove : FilePath → M H (Unit {0})
  remove p = do n ← stat p; lift (removable n); modify (λ w. record w { fs = update w.fs p none })

  -- `os.RemoveAll`: a failure may have removed some of the files.
  unfoldable pub remove_all : FilePath → M H (Unit {0})
  remove_all p = do
    r ← attempt os_call
    modify (λ w. record w {
      fs = λ q. if under p q then (if spared H r q then w.fs q else none) else w.fs q;
    })
    lift r
