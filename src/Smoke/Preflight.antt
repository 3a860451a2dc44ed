-- ===== src/Smoke/Preflight.antt =====
-- The preflight of smoke provisioning: when it lets provisioning go on, and that its probe is closed.
use local_tls.Base.{
  String, Bool, true, false, ◌≡◌, ◌↔◌, ◌⊎◌, inl, inr, refl, subst, arith, if◌then◌else◌,
}
use local_tls.Errors.{Outcome, ok, err, wrap, is_ok, errors_is, key_not_found}
use local_tls.Host.{Host, FilePath, Signer}
use local_tls.Identity.{smoke_ca_key_name}
use local_tls.World.{World, pure, raise, on_keys, ◌>>=◌}
use local_tls.Os
use local_tls.World.Keeps.{keeps_rules}
use local_tls.World.Ledger.{
  Live, Closes, Opens, Ledger, Ledger-bind, Ledger-step, Ledger-open, Ledger-attempt, Ledger-pure,
  Ledger-raise, held, nothing, owed,
}
use local_tls.Os.Frame.{IgnoresFaults, Keeps-stat}
use local_tls.Files.{file_exists}
use local_tls.Files.Frame.{Keeps-file_exists}
use local_tls.KeyStore.{OnKeys}
use local_tls.KeyStore.Handles.{Ledger-close_signer}
use local_tls.Smoke
use local_tls.Smoke.{preflight_smoke_state}

-- An open that found no key.
abbrev pub KeyMissing : Outcome Signer → Type 0
KeyMissing (ok s) = ⊥
KeyMissing (err e) = errors_is e key_not_found ≡ true

ignores_faults : {H : Host} → IgnoresFaults (λ (w : World H). w.keys)
ignores_faults = record { at = λ w f. refl }

module _ {H : Host} (open' : String → OnKeys H Signer) where
  probed_iff :
      (r : Outcome Signer) (w : World H)
      → ((Smoke.preflight_probed {H = H} r w).0 ≡ ok tt) ↔ KeyMissing r
  unfolding Smoke.preflight_probed ◌>>=◌
  probed_iff (ok s) w = (λ h. cc, λ h. elim h [ ])
  probed_iff (err e) w = ground arith

  branch_iff :
      (b : Bool) (v w : World H)
      → v.keys ≡ w.keys
      → (((if b then pure tt else Smoke.preflight_probe {H = H} open') v).0 ≡ ok tt)
        ↔ ((ok b ≡ ok true) ⊎ KeyMissing (open' smoke_ca_key_name w.keys).0)
  unfolding Smoke.preflight_probe ◌>>=◌
  branch_iff true v w e = (λ h. inl refl, λ h. refl)
  branch_iff false v w e =
      let probed =
        subst
          (λ k.
            ((Smoke.preflight_probed {H = H} (open' smoke_ca_key_name v.keys).0
                (on_keys {H = H} (open' smoke_ca_key_name) v).1).0
              ≡ ok tt)
            ↔ KeyMissing (open' smoke_ca_key_name k).0)
          e (probed_iff (open' smoke_ca_key_name v.keys).0 _) in
      (λ h. inr (probed.0 h), λ h. elim h [ inl x ↦ cc | inr y ↦ probed.1 y ])

  -- The preflight lets provisioning go on exactly when the CA certificate is on disk or the open of
  -- the smoke CA key fails with `ErrKeyNotFound`: a key that is there stops it, and so does any
  -- other error of the open.
  pub preflight_smoke_iff :
      (ca_path : FilePath) (w : World H)
      → ((preflight_smoke_state ca_path open' w).0 ≡ ok tt)
        ↔ (((file_exists ca_path w).0 ≡ ok true) ⊎ KeyMissing (open' smoke_ca_key_name w.keys).0)
  unfolding preflight_smoke_state file_exists Os.stat Os.os_call ◌>>=◌
  preflight_smoke_iff ca_path w =
      branch_iff (is_ok (Os.stat {H = H} ca_path w).0) (Os.stat {H = H} ca_path w).1 w
        ((Keeps-stat {obs = λ w. w.keys} ignores_faults ca_path).at w)

module _ {H : Host} {live : Live H} (closes : Closes H live) {open' : String → OnKeys H Signer}
    (opens : (name : String) → Opens live (open' name)) where
  faults : IgnoresFaults (λ (w : World H). live.count w.keys)
  faults = record { at = λ w f. refl }

  probed-Ledger :
      (r : Outcome Signer)
      → Ledger live (owed held nothing r) (λ _. nothing) nothing (Smoke.preflight_probed {H = H} r)
  unfolding Smoke.preflight_probed
  probed-Ledger (ok s) =
      Ledger-bind (Ledger-attempt {fail' = nothing} (Ledger-close_signer s closes)) raised
    where
      raised :
          (r : Outcome (Unit {0}))
          → Ledger {H = H} live
              (owed (λ _. nothing) nothing r)
              (λ _. nothing)
              nothing
              (raise {A = Unit {0}} (Smoke.with_close_error r))
      raised (ok u) = Ledger-raise _
      raised (err e) = Ledger-raise _
  probed-Ledger (err e) = if_raise (errors_is e key_not_found)
    where
      if_raise :
          (b : Bool)
          → Ledger {H = H} live nothing
              (λ _. nothing)
              nothing
              (if b then pure tt else raise (wrap "open smoke CA key during preflight" e))
      if_raise true = Ledger-pure tt (λ j. refl)
      if_raise false = Ledger-raise _

  -- The probe's signer is closed, whatever the preflight answers.
  pub preflight_smoke-Ledger :
      (ca_path : FilePath)
      → Ledger live nothing (λ _. nothing) nothing (preflight_smoke_state ca_path open')
  unfolding preflight_smoke_state Smoke.preflight_probe
  preflight_smoke-Ledger ca_path =
      Ledger-step (search (keeps_rules, Keeps-file_exists, faults)) branch
    where
      branch :
          (b : Bool)
          → Ledger live nothing
              (λ _. nothing)
              nothing
              (if b then pure tt else Smoke.preflight_probe {H = H} open')
      branch true = Ledger-pure tt (λ j. refl)
      branch false =
          Ledger-bind (Ledger-attempt {fail' = nothing} (Ledger-open (opens smoke_ca_key_name)))
            probed-Ledger
