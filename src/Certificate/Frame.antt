-- ===== src/Certificate/Frame.antt =====
-- Issuing a certificate reads the clock and the keys and uses up random bytes; it changes nothing.
use local_tls.Host.{Host, Time, PublicKey, Signer, Certificate}
use local_tls.World.{World}
use local_tls.World.Keeps.{Keeps, keeps_rules}
use local_tls.Os.Frame.{IgnoresRandom}
use local_tls.Certificate.{
  random_serial, create_ca_cert_self_signed, create_server_cert_with_pub, generate_ca_with_signer,
  generate_server_cert_with_signer,
}

module _ {H : Host} {X : Type 0} {obs : World H → X} (random : IgnoresRandom obs) where
  pub Keeps-random_serial : Keeps obs random_serial
  unfolding random_serial
  Keeps-random_serial = record { at = λ w. random.at w _ }

  pub Keeps-create_ca : (t : Time) (s : Signer) → Keeps obs (create_ca_cert_self_signed t s)
  unfolding create_ca_cert_self_signed
  Keeps-create_ca t s = search (keeps_rules, Keeps-random_serial) depth 12

  pub Keeps-create_server :
      (t : Time) (c : Certificate H) (s : Signer) (k : PublicKey)
      → Keeps obs (create_server_cert_with_pub t c s k)
  unfolding create_server_cert_with_pub
  Keeps-create_server t c s k = search (keeps_rules, Keeps-random_serial) depth 12

  pub Keeps-generate_ca_with_signer :
      (t : Time) (s : Signer) → Keeps obs (generate_ca_with_signer t s)
  unfolding generate_ca_with_signer
  Keeps-generate_ca_with_signer t s = search (keeps_rules, Keeps-create_ca) depth 12

  pub Keeps-generate_server_cert_with_signer :
      (t : Time) (c : Certificate H) (s s' : Signer)
      → Keeps obs (generate_server_cert_with_signer t c s s')
  unfolding generate_server_cert_with_signer
  Keeps-generate_server_cert_with_signer t c s s' =
      search (keeps_rules, Keeps-create_server) depth 12
