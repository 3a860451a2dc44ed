-- ===== src/TestKeys/Elsewhere.antt =====
-- What is stored under a name outside the test namespace, as an observation of the state that the
-- test operations do not change.
use local_tls.Base.{String, Bool, true, false, Option, ◌≡◌, refl, if◌then◌else◌}
use local_tls.Host.{Host, Signer, PublicKey}
use local_tls.World.{World, pure, on_keys, ◌>>=◌}
use local_tls.World.Keeps.{Keeps}
use local_tls.Os.Frame.{IgnoresFaults, IgnoresFiles, IgnoresRandom, IgnoresRoot}
use local_tls.KeyStore.{Windowscng, close_signer}
use local_tls.TestKeys.{in_test_namespace, test_create_key, test_open_key, test_delete_key}
use local_tls.TestKeys.Isolated.{NamesOnly, test_keys_isolated}

-- What is stored under the name.
abbrev pub seen : {H : Host} {c : Windowscng H} → NamesOnly c → String → World H → Option PublicKey
seen names n w = names.stored w.keys n

module _ {H : Host} {c : Windowscng H} (names : NamesOnly c) (n : String) where
  pub faults : IgnoresFaults (seen names n)
  faults = record { at = λ w f. refl }

  pub files : IgnoresFiles (seen names n)
  files = record { at = λ w fs ds. refl }

  pub random : IgnoresRandom (seen names n)
  random = record { at = λ w r. refl }

  pub root : IgnoresRoot (seen names n)
  root = record { at = λ w r. refl }

  pub close : (s : Signer) → Keeps (seen names n) (close_signer s)
  unfolding close_signer ◌>>=◌
  close s = record { at = λ w. closed_at s.closer w }
    where
      closed_at :
          (b : Bool) (w : World H)
          → seen names n ((if b then on_keys {H = H} (H.close_handle s.handle) else pure tt) w).1
            ≡ seen names n w
      closed_at true w = names.close s.handle w.keys n
      closed_at false w = refl

module _ {H : Host} {c : Windowscng H} (names : NamesOnly c) (n : String)
    (out : in_test_namespace n ≡ false) where
  pub create : (name : String) → Keeps (seen names n) (on_keys {H = H} (test_create_key c name))
  unfolding ◌>>=◌
  create name = record { at = λ w. (test_keys_isolated names n w.keys out name).0 }

  pub open_key : (name : String) → Keeps (seen names n) (on_keys {H = H} (test_open_key c name))
  unfolding ◌>>=◌
  open_key name = record { at = λ w. (test_keys_isolated names n w.keys out name).1 }

  pub delete_key : (name : String) → Keeps (seen names n) (on_keys {H = H} (test_delete_key c name))
  unfolding ◌>>=◌
  delete_key name = record { at = λ w. (test_keys_isolated names n w.keys out name).2 }
