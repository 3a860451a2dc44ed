-- ===== src/World.antt =====
-- The state that the package's functions run over, and the monad of functions that return a value
-- or an error and may have changed the state in both cases.
pub mod Keeps
pub mod Ledger
pub mod Hoare
pub mod Total
use local_tls.Base.{ℕ, String, Option, List}
use local_tls.Errors.{Error, Outcome, ok, err, wrapped}
use local_tls.Host.{Host, Time, FilePath}

pub data Node (H : Host) : Type 0 where
  directory : Node H
  file : ℕ → H.Bytes → Node H

pub record World (H : Host) : Type 0 where
  pub fs : FilePath → Option (Node H)
  -- Files that the process holds open.
  pub descriptors : List FilePath
  -- The random numbers that `os.CreateTemp` will try.
  pub temp_names : List ℕ
  -- The results of the next reads of `crypto/rand`.
  pub random : List (Outcome (List ℕ))
  -- For each coming call of the operating system, the error number with which it fails, if it does.
  pub faults : List (Option ℕ)
  -- The wall clock.
  pub clock : Time
  -- The environment variable `ProgramData`, empty when it is not set.
  pub program_data : String
  pub keys : H.KeyState
  pub root : H.RootState

abbrev pub M : Host → Type 0 → Type 0
M H A = World H → Outcome A × World H

module _ {H : Host} {A : Type 0} where
  pub pure : A → M H A
  pure a w = (ok a, w)

  pub raise : Error → M H A
  raise e w = (err e, w)

  -- A computation that reads and changes nothing.
  pub lift : Outcome A → M H A
  lift r w = (r, w)

  pub gets : (World H → A) → M H A
  gets f w = (ok (f w), w)

  -- `if err != nil { return fmt.Errorf("…: %w", err) }`.
  pub context : String → M H A → M H A
  context message m w = (wrapped message (m w).0, (m w).1)

  -- The pair of value and error, for code that inspects the error itself.
  pub attempt : M H A → M H (Outcome A)
  attempt m w = (ok (m w).0, (m w).1)

  -- Calls of the key provider and of the certificate store touch only their own state.
  pub on_keys : (H.KeyState → Outcome A × H.KeyState) → M H A
  on_keys f w = ((f w.keys).0, record w { keys = (f w.keys).1 })

  pub on_root : (H.RootState → Outcome A × H.RootState) → M H A
  on_root f w = ((f w.root).0, record w { root = (f w.root).1 })

  -- `defer f()` with a dropped result: `f` runs when the body has returned, error or not.
  pub defers : M H (Unit {0}) → M H A → M H A
  defers f m w = ((m w).0, (f (m w).1).1)

  abbrev pub after : Outcome A → M H (Unit {0}) → M H A
  after (ok a) f w = (ok a, w)
  after (err e) f w = (err e, (f w).1)

  -- `if err != nil { f(); return … }`, and a deferred `f` that a success switches off.
  pub or_else : M H A → M H (Unit {0}) → M H A
  or_else m f w = after (m w).0 f (m w).1

module _ {H : Host} where
  pub modify : (World H → World H) → M H (Unit {0})
  modify f w = (ok tt, f w)

  -- `_ = f()`: the error is dropped.
  pub ignore : M H (Unit {0}) → M H (Unit {0})
  ignore m w = (ok tt, (m w).1)

module _ {H : Host} {A B : Type 0} where
  abbrev pub continue : Outcome A → (A → M H B) → M H B
  continue (ok a) f w = f a w
  continue (err e) f w = (err e, w)

  infixl 5 ◌>>=◌ ◌>>◌
  -- Opening this opens the other ways to build an action too.
  unfoldable pub ◌>>=◌ : M H A → (A → M H B) → M H B
  unfolding pure raise lift gets context attempt on_keys on_root defers or_else ignore modify
  ◌>>=◌ m f w = continue (m w).0 f (m w).1

  abbrev pub ◌>>◌ : M H A → M H B → M H B
  m >> k = m >>= λ _. k
