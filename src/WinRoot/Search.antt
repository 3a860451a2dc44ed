-- ===== src/WinRoot/Search.antt =====
-- The search by fingerprint looks at every certificate of the store.
use local_tls.Base.{
  ℕ, zero, suc, ◌<◌, Bool, true, false, ◌≡◌, refl, sym, ap, subst, ◌∙◌, ◌⊎◌, inl, inr, arith,
}
use local_tls.Base.{Option, none, some, List, [], ◌∷◌, length, bytes_eq, bytes_eq_iff}
use local_tls.Errors.{Outcome, ok, err, errno}
use local_tls.Host.{Host}
pub use local_tls.TrustStore.Contract.{any_matches}
use local_tls.WinRoot
use local_tls.WinRoot.{CryptoApi}
use local_tls.WinRoot.Action
use local_tls.WinRoot.Action.{◌>>=◌}

-- What an enumeration is documented to do on a store that is open: from no context it starts with
-- the first certificate, from a context it goes on with the next one, and after the last it returns
-- no context or CRYPT_E_NOT_FOUND. It changes no certificate.
pub record Listing {H : Host} (api : CryptoApi H) : Type 0 where
  pub anchors : H.RootState → List H.Bytes
  pub usable : H.RootState → ℕ → Bool
  pub remaining : H.RootState → ℕ → Option api.Context → List H.Bytes

abbrev pub Step :
    {H : Host} (api : CryptoApi H) (l : Listing api) (r : H.RootState) (store : ℕ)
    → List H.Bytes
    → Outcome (Option api.Context) × H.RootState
    → Type 0
Step api l r store [] (o, r') = (o ≡ ok none) ⊎ (o ≡ err (errno 0x80092004))
Step api l r store (b ∷ bs) (o, r') =
    (c : api.Context) × (o ≡ ok (some c))
    × (api.encoded c ≡ b)
    × (l.remaining r' store (some c) ≡ bs)

pub record Enumerates {H : Host} (api : CryptoApi H) (l : Listing api) : Type 0 where
  pub first :
      (r : H.RootState) (store : ℕ)
      → l.usable r store ≡ true
      → l.remaining r store none ≡ l.anchors r
  pub next :
      (r : H.RootState) (store : ℕ) (prev : Option api.Context)
      → l.usable r store ≡ true
      → Step api l r store (l.remaining r store prev) (api.enumerate store prev r)
  pub still :
      (r : H.RootState) (store : ℕ) (prev : Option api.Context)
      → (l.anchors (api.enumerate store prev r).1 ≡ l.anchors r)
        × (l.usable (api.enumerate store prev r).1 store ≡ l.usable r store)

abbrev pub is_some : {A : Type 0} → Option A → Bool
is_some none = false
is_some (some a) = true

-- A search has an answer: it found a context exactly when a certificate matches, and that one's
-- fingerprint is the wanted one.
abbrev pub Answers :
    {H : Host} (api : CryptoApi H) → List ℕ → List H.Bytes → Outcome (Option api.Context) → Type 0
Answers {H} api fp certs o =
    (answer : Option api.Context) × (o ≡ ok answer)
    × (is_some answer ≡ any_matches H fp certs)
    × ((c : api.Context) → answer ≡ some c → H.sha256 (api.encoded c) ≡ fp)

module _ {H : Host} {api : CryptoApi H} {l : Listing api} (laws : Enumerates api l) where
  -- The search from one answer of the enumeration on.
  abbrev turn :
      ℕ
      → ℕ
      → List ℕ
      → Outcome (Option api.Context)
      → H.RootState
      → Outcome (Option api.Context) × H.RootState
  turn fuel store fp o r =
      Action.continue (WinRoot.or_absent api (WinRoot.is_enum_end api) o)
        (WinRoot.examine api fp (λ c. WinRoot.find_from api fuel store fp (some c))) r

  abbrev Searched :
      List ℕ → List H.Bytes → H.RootState → Outcome (Option api.Context) × H.RootState → Type 0
  Searched fp certs r found = Answers api fp certs found.0 × (l.anchors found.1 ≡ l.anchors r)

  ended :
      (fuel store : ℕ) (fp : List ℕ) (r r' : H.RootState) (o : Outcome (Option api.Context))
      → (o ≡ ok none) ⊎ (o ≡ err (errno 0x80092004))
      → l.anchors r' ≡ l.anchors r
      → Searched fp [] r (turn fuel store fp o r')
  unfolding WinRoot.is_enum_end WinRoot.examine ◌>>=◌
  ended fuel store fp r r' o (inl h) a = rw h ((none, refl, refl, λ c e. cc), a)
  ended fuel store fp r r' o (inr h) a = rw h ((none, refl, refl, λ c e. cc), a)

  looked_at :
      (fuel store : ℕ) (fp : List ℕ) (b : H.Bytes) (bs : List H.Bytes) (r r' : H.RootState)
      (c : api.Context) (same : Bool)
      → bytes_eq (H.sha256 (api.encoded c)) fp ≡ same
      → api.encoded c ≡ b
      → l.anchors r' ≡ l.anchors r
      → Searched fp bs r' (WinRoot.find_from api fuel store fp (some c) r')
      → Searched fp (b ∷ bs) r (turn fuel store fp (ok (some c)) r')
  unfolding WinRoot.examine ◌>>=◌
  looked_at fuel store fp b bs r r' c true m e a rest =
      let t = sym (ap (λ x. bytes_eq (H.sha256 x) fp) e) ∙ m in
      rw m (
        (
          some c,
          refl,
          ground (arith, t),
          λ d h.
              ap (λ (x : api.Context). H.sha256 (api.encoded x)) (sym (some_inj h))
              ∙ (bytes_eq_iff _ _).0 m,
        ),
        a,
      )
    where
      some_inj : {x y : api.Context} → some x ≡ some y → x ≡ y
      some_inj h = cc
  looked_at fuel store fp b bs r r' c false m e a rest =
      let t = sym (ap (λ x. bytes_eq (H.sha256 x) fp) e) ∙ m in
      let (answers, kept) = rest in
      let (answer, is, there, right) = answers in
      rw m ((answer, is, ground (arith, t, there), right), kept ∙ a)

  find_from-Answers :
      (certs : List H.Bytes) (fuel store : ℕ) (fp : List ℕ) (prev : Option api.Context)
      (r : H.RootState)
      → l.usable r store ≡ true
      → l.remaining r store prev ≡ certs
      → length certs < fuel
      → Searched fp certs r (WinRoot.find_from api fuel store fp prev r)
  unfolding WinRoot.find_from ◌>>=◌
  find_from-Answers certs zero store fp prev r u e lt = ground arith
  find_from-Answers [] (suc fuel) store fp prev r u e lt =
      ended fuel store fp r _ _
        (subst (λ k. Step api l r store k (api.enumerate store prev r)) e
          (laws.next r store prev u))
        (laws.still r store prev).0
  find_from-Answers (b ∷ bs) (suc fuel) store fp prev r u e lt =
      let (c, found, enc, left) =
        subst (λ k. Step api l r store k (api.enumerate store prev r)) e
          (laws.next r store prev u) in
      rw found (
        looked_at fuel store fp b bs r _ c _ refl enc (laws.still r store prev).0 (
          find_from-Answers bs fuel store fp (some c) _ ((laws.still r store prev).1 ∙ u) left
            (omega (arith, lt))))

-- Where an enumeration goes through the certificates of an open store and ends, and with more fuel
-- than the store has certificates, `findCertBySHA256` on an open store returns no
-- error; it finds a context exactly when some certificate of the store has the fingerprint, the
-- context that it finds has that fingerprint, and the store's certificates are as before.
pub find_cert_by_sha256-Answers :
    {H : Host} {api : CryptoApi H} {l : Listing api} (laws : Enumerates api l) (fuel store : ℕ)
    (fp : List ℕ) (r : H.RootState)
    → l.usable r store ≡ true
    → length (l.anchors r) < fuel
    → Answers api fp (l.anchors r) (WinRoot.find_cert_by_sha256 api fuel store fp r).0
      × (l.anchors (WinRoot.find_cert_by_sha256 api fuel store fp r).1 ≡ l.anchors r)
unfolding WinRoot.find_cert_by_sha256
find_cert_by_sha256-Answers {l = l} laws fuel store fp r u lt =
    find_from-Answers laws (l.anchors r) fuel store fp none r u (laws.first r store u) lt
