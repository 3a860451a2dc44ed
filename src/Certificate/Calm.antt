-- ===== src/Certificate/Calm.antt =====
-- Issuing a certificate where the random source and the signing key work.
use local_tls.Base.{ℕ, zero, suc, ◌<◌, true, Option, List, ◌≡◌, refl, ap, sym, ◌∙◌, if◌then◌else◌}
use local_tls.Errors.{Error, Outcome, ok, err, is_ok}
use local_tls.Host.{Host, Time, FilePath, Info, PublicKey, Signer, Certificate}
use local_tls.World.{World, Node, lift, ◌>>=◌}
use local_tls.World.Hoare.{
  Triple, Ends, Triple-bind, Triple-context, Triple-fact, Triple-if, Triple-gets, Triple-pure,
  Triple-weaken,
}
use local_tls.World.Total.{Never}
use local_tls.Certificate
use local_tls.Certificate.{draw_serial, is_p256, ca_template, server_template}
use local_tls.Certificate.Serial.{Supplies, draw_serial_total}

-- The random source supplies this many serial numbers.
abbrev pub Serials : ℕ → List (Outcome (List ℕ)) → Type 0
Serials zero reads = Unit {0}
Serials (suc i) reads = Supplies reads × Serials i (draw_serial reads).1

-- A certificate was issued, and can be parsed.
abbrev pub Issued : (H : Host) → Outcome H.Bytes → Type 0
Issued H (ok der) = is_ok (H.parse_certificate der) ≡ true
Issued H (err e) = ⊥

-- The CA certificate of a key: the one that its signer issued at a timely moment, with the fields
-- that parsing gives.
abbrev pub SelfSigned : {H : Host} → (Time → Type 0) → Certificate H → Signer → Type 0
SelfSigned {H} Timely ca s =
    (serial : ℕ) × (t : Time) × (k : H.KeyState) × Timely t
    × (H.create_certificate (ca_template serial t) (ca_template serial t) s.public_key s k
        ≡ ok ca.raw)
    × (H.parse_certificate ca.raw ≡ ok (ca.info, ca.public_key))

-- At a time that is `Timely`, a P-256 signer that `Signs` in the state of the keys issues the two
-- certificates of the program: its own CA certificate, and under that one a server certificate.
pub record Issues (H : Host) (Signs : Signer → H.KeyState → Type 0) (Timely : Time → Type 0)
    : Type 0 where
  pub root :
      (serial : ℕ) (t : Time) (s : Signer) (k : H.KeyState)
      → 0 < serial
      → Timely t
      → is_p256 s.public_key ≡ true
      → Signs s k
      → Issued H
          (H.create_certificate (ca_template serial t) (ca_template serial t) s.public_key s k)
  pub leaf :
      (serial : ℕ) (t : Time) (ca : Certificate H) (s : Signer) (key : PublicKey) (k : H.KeyState)
      → 0 < serial
      → Timely t
      → is_p256 key ≡ true
      → SelfSigned Timely ca s
      → Signs s k
      → Issued H (H.create_certificate (server_template serial t ca.not_after) ca.info key s k)

module _ {H : Host} {Signs : Signer → H.KeyState → Type 0} {Timely : Time → Type 0}
    (issues : Issues H Signs Timely)
    (G : List (Option ℕ) → (FilePath → Option (Node H)) → List ℕ → H.RootState → Type 0)
    (s : Signer) where
  abbrev pub Stocked : ℕ → World H → Type 0
  Stocked i w =
      G w.faults w.fs w.temp_names w.root × Signs s w.keys × Serials i w.random × Timely w.clock

  serial_calm :
      (i : ℕ)
      → Triple (Stocked (suc i)) Certificate.random_serial (λ n w. (0 < n) × Stocked i w) Never
  unfolding Certificate.random_serial
  serial_calm i = record {
    at = λ w (rest, keys, (supplies, more), timely).
        let (n, e, positive) = draw_serial_total w.random supplies in
        rw e (positive, (rest, keys, more, timely));
  }

  -- The bytes come from a call of `x509.CreateCertificate`.
  abbrev Came : Info → Info → PublicKey → H.Bytes → Type 0
  Came template parent key der =
      (k : H.KeyState) × (H.create_certificate template parent key s k ≡ ok der)
      × (is_ok (H.parse_certificate der) ≡ true)

  issue_calm :
      (i : ℕ) (template parent : Info) (key : PublicKey)
      → ((k : H.KeyState) → Signs s k → Issued H (H.create_certificate template parent key s k))
      → Triple
          (Stocked i)
          (Certificate.create_certificate template parent key s)
          (λ der w. Came template parent key der × Stocked i w)
          Never
  unfolding Certificate.create_certificate ◌>>=◌
  issue_calm i template parent key signs = record {
    at = λ w (rest, keys, more, timely).
        issued_at (H.create_certificate template parent key s w.keys) w refl (signs w.keys keys)
          (rest, keys, more, timely);
  }
    where
      issued_at :
          (o : Outcome H.Bytes) (w : World H)
          → H.create_certificate template parent key s w.keys ≡ o
          → Issued H o
          → Stocked i w
          → Ends (λ der v. Came template parent key der × Stocked i v) Never o w
      issued_at (ok der) w e h stocked = ((w.keys, e, h), stocked)
      issued_at (err x) w e h stocked = absurd h

  -- The certificate with these bytes, and the fields that parsing gives.
  abbrev Parsed : H.Bytes → Certificate H → Type 0
  Parsed der cert =
      (cert.raw ≡ der) × (H.parse_certificate cert.raw ≡ ok (cert.info, cert.public_key))

  parse_calm :
      (i : ℕ) (der : H.Bytes)
      → is_ok (H.parse_certificate der) ≡ true
      → Triple
          (Stocked i)
          (lift (Certificate.parse_certificate {H = H} der))
          (λ cert w. Parsed der cert × Stocked i w)
          Never
  unfolding Certificate.parse_certificate ◌>>=◌
  parse_calm i der h = record {
    at = λ w stocked. parsed_at (H.parse_certificate der) w refl h stocked;
  }
    where
      parsed_at :
          (o : Outcome (Info × PublicKey)) (w : World H)
          → H.parse_certificate der ≡ o
          → is_ok o ≡ true
          → Stocked i w
          → Ends {A = Certificate H}
              (λ cert v. Parsed der cert × Stocked i v)
              Never
              (elim o [
                | ok (info, key) ↦ ok (record { raw = der; info = info; public_key = key })
                | err e ↦ err e
              ])
              w
      parsed_at (ok (info, key)) w e h stocked = ((refl, e), stocked)
      parsed_at (err x) w e h stocked = cc

  usable_calm :
      (i : ℕ) (key : PublicKey) (x : Error)
      → is_p256 key ≡ true
      → Triple
          (Stocked i)
          (lift {H = H} (if is_p256 key then ok tt else err x))
          (λ _. Stocked i)
          Never
  unfolding ◌>>=◌
  usable_calm i key x h = record { at = λ w stocked. rw h stocked }

  now_calm :
      (i : ℕ) (t : Time)
      → Timely t
      → Triple (Stocked i) (Certificate.or_now t) (λ time w. Timely time × Stocked i w) Never
  unfolding Certificate.or_now
  now_calm i t timely =
      Triple-if (Certificate.is_zero t) (λ e. Triple-gets _ (λ w h. (h.3, h)))
        (λ e. Triple-pure t (λ w h. (timely, h)))

  pub generate_ca_calm :
      (i : ℕ) (t : Time)
      → Timely t
      → is_p256 s.public_key ≡ true
      → Triple
          (Stocked (suc i))
          (Certificate.generate_ca_with_signer t s)
          (λ ca w. SelfSigned Timely ca s × Stocked i w)
          Never
  unfolding Certificate.generate_ca_with_signer Certificate.create_ca_cert_self_signed
  generate_ca_calm i t timely p = Triple-bind (now_calm (suc i) t timely) λ time.
      Triple-fact λ timely'. Triple-bind (usable_calm (suc i) s.public_key _ p) λ _.
        Triple-bind (Triple-context _ (serial_calm i)) λ serial. Triple-fact λ positive.
          Triple-bind
            (Triple-context _ (
              issue_calm i (ca_template serial time) (ca_template serial time) s.public_key
                (λ k signs. issues.root serial time s k positive timely' p signs)))
            λ der. Triple-fact λ (k, made, parses). Triple-context _ (
              Triple-weaken (λ w h. h)
                (λ ca w h. ((serial, time, k, timely', made ∙ ap ok (sym h.0.0), h.0.1), h.1))
                (λ e w h. h) (parse_calm i der parses))

  pub generate_server_calm :
      (i : ℕ) (t : Time) (ca : Certificate H) (server : Signer)
      → Timely t
      → SelfSigned Timely ca s
      → is_p256 server.public_key ≡ true
      → Triple
          (Stocked (suc i))
          (Certificate.generate_server_cert_with_signer t ca s server)
          (λ _. Stocked i)
          Never
  unfolding Certificate.generate_server_cert_with_signer Certificate.create_server_cert_with_pub
  generate_server_calm i t ca server timely own p = Triple-bind (now_calm (suc i) t timely) λ time.
      Triple-fact λ timely'. Triple-bind (usable_calm (suc i) server.public_key _ p) λ _.
        Triple-bind (Triple-context _ (serial_calm i)) λ serial. Triple-fact λ positive.
          Triple-bind
            (Triple-context _ (
              issue_calm i (server_template serial time ca.not_after) ca.info server.public_key
                (λ k signs.
                  issues.leaf serial time ca s server.public_key k positive timely' p own signs)))
            λ der. Triple-fact λ (k, made, parses).
              Triple-context _
                (Triple-weaken (λ w h. h) (λ a w h. h.1) (λ e w h. h) (parse_calm i der parses))
