-- ===== src/Examples/Balance.antt =====
-- Handles in the serving example.
use local_tls.Base.{ℕ, ◌+◌, ◌≤◌, ◌≡◌, refl, Bool-cases, arith, inl, inr, if◌then◌else◌}
use local_tls.Errors.{Outcome, ok, err, is_ok}
use local_tls.Host.{Host}
use local_tls.World.{World, ◌>>=◌}
use local_tls.World.Ledger.{Live, Closes, Account, nothing}
use local_tls.KeyStore.{Windowscng, close_signer, close_production_signer}
use local_tls.KeyStore.Handles.{OpensCng, Ledger-close_production}
use local_tls.TrustStore.{TrustStore}
use local_tls.Material.{Material, TlsCertificate, close_material}
use local_tls.Machine.{load_serving_material}
use local_tls.Machine.Balance.{left_open, load_serving_balance}
use local_tls.Examples

-- The handle that is open when the process ends: the material's, where `tls.Listen` failed.
abbrev pub unreleased :
    {H : Host} → (TlsCertificate H → Outcome (Unit {0})) → Outcome (Material H) → Account
unreleased listen (err e) j = 0
unreleased listen (ok m) j = if is_ok (listen m.certificate) then 0 else left_open (ok m) j

module _ {H : Host} {live : Live H} (closes : Closes H live) {c : Windowscng H}
    (cng : OpensCng live c) (ts : TrustStore H)
    (listen : TlsCertificate H → Outcome (Unit {0})) where
  served :
      (r : Outcome (Material H)) (v : World H)
      → ((j : ℕ) → left_open r j ≤ live.count v.keys j)
      → (j : ℕ)
      → live.count (Examples.serve_with c ts listen r v).1.keys j + left_open r j
        ≡ live.count v.keys j + unreleased listen r j
  unfolding Examples.serve_with close_material close_production_signer close_signer ◌>>=◌
  served (err e) v h j = refl
  served (ok m) v h j = elim (Bool-cases (is_ok (listen m.certificate))) [
    | inl e ↦
        let s = m.certificate.private_key in
        rw e (ground (arith, (Ledger-close_production {fail = nothing} s closes).at v h j))
    | inr e ↦ rw e refl
  ]

  -- Where an open of the key provider opens one handle or fails and opens none, and a close releases
  -- exactly its handle: the serving example ends with every handle closed that it opened, except
  -- that the server key's handle is still open when the material was loaded and `tls.Listen` failed.
  pub serving_main_balance :
      (w : World H) (j : ℕ)
      → live.count (Examples.serving_main c ts listen w).1.keys j
        ≡ live.count w.keys j + unreleased listen (load_serving_material c ts w).0 j
  unfolding Examples.serving_main ◌>>=◌
  serving_main_balance w j =
      let r = (load_serving_material c ts w).0 in
      let v = (load_serving_material c ts w).1 in
      omega (
        arith,
        load_serving_balance closes cng ts w j,
        served r v (λ i. omega (arith, load_serving_balance closes cng ts w i)) j,
      )
