-- ===== src/WinRoot/Edits.antt =====
-- How the steps of a trust operation end, seen on the store's certificates: opening, searching,
-- adding, deleting and letting go.
use local_tls.Base.{
  ℕ, ◌<◌, String, Bool, true, false, ◌≡◌, refl, sym, subst, ◌∙◌, Option, some, List, length,
}
use local_tls.Errors.{Error, Outcome, ok, err, wrapped, errors_is, trust_anchor_not_found}
use local_tls.Host.{Host}
use local_tls.TrustStore.Contract.{any_matches, Gains, Loses}
use local_tls.WinRoot
use local_tls.WinRoot.{CryptoApi}
use local_tls.WinRoot.Action.{context}
use local_tls.WinRoot.Search.{Listing, Enumerates, Answers, is_some, find_cert_by_sha256-Answers}
use local_tls.WinRoot.Verify.{Opens}
use local_tls.WinRoot.Change.{Releases}
use local_tls.WinRoot.Ends.{Ends, Ends-context, Ends-weaken}

abbrev pub Added : (H : Host) → List ℕ → List H.Bytes → Outcome (Unit {0}) → List H.Bytes → Type 0
Added H fp before (ok u) behind = Gains H fp before behind
Added H fp before (err e) behind = behind ≡ before

abbrev pub Deleted : (H : Host) → List ℕ → List H.Bytes → Outcome (Unit {0}) → List H.Bytes → Type 0
Deleted H fp before (ok u) behind = Loses H fp before behind
Deleted H fp before (err e) behind =
    (behind ≡ before) × (errors_is e trust_anchor_not_found ≡ false)

-- What the calls that change the store are documented to do. A context holds the bytes that it was
-- made from; an addition adds the context's certificate, and may replace others by it; a deletion
-- takes away one certificate, that of the context; a call that fails changes nothing, and its error
-- is one of the system, never the package's own.
pub record Edits {H : Host} (api : CryptoApi H) (l : Listing api) : Type 0 where
  pub encodes :
      (der : H.Bytes) (r : H.RootState) (c : api.Context)
      → (api.create_context der r).0 ≡ ok c
      → api.encoded c ≡ der
  pub added :
      (store : ℕ) (c : api.Context) (r : H.RootState)
      → Added H
          (H.sha256 (api.encoded c))
          (l.anchors r)
          (api.add_replacing store c r).0
          (l.anchors (api.add_replacing store c r).1)
  pub deleted :
      (c : api.Context) (r : H.RootState)
      → Deleted H
          (H.sha256 (api.encoded c))
          (l.anchors r)
          (api.delete_from_store c r).0
          (l.anchors (api.delete_from_store c r).1)
  pub subject_still :
      (store : ℕ) (cn : String) (r : H.RootState)
      → l.anchors (api.find_by_subject store cn r).1 ≡ l.anchors r
  pub open_error :
      (read_only : Bool) (r : H.RootState) (e : Error)
      → (api.open_root read_only r).0 ≡ err e
      → errors_is e trust_anchor_not_found ≡ false

-- How a search ends: it answers, and its answer is right.
abbrev pub Found :
    {H : Host} (api : CryptoApi H) → List ℕ → List H.Bytes → Outcome (Option api.Context) → Type 0
Found {H} api fp s (ok existing) =
    (is_some existing ≡ any_matches H fp s)
    × ((c : api.Context) → existing ≡ some c → H.sha256 (api.encoded c) ≡ fp)
Found api fp s (err e) = ⊥

Answers-Found :
    {H : Host} (api : CryptoApi H) (fp : List ℕ) (s : List H.Bytes)
    (o : Outcome (Option api.Context))
    → Answers api fp s o
    → Found api fp s o
Answers-Found api fp s o (answer, is, there, right) =
    subst (λ x. Found api fp s x) (sym is) (there, right)

module _ {H : Host} {api : CryptoApi H} {l : Listing api} (laws : Enumerates api l)
    (opens : Opens api l) (edits : Edits api l) (s : List H.Bytes) where
  -- The certificates are those of `s`.
  abbrev pub At : H.RootState → Type 0
  At r = l.anchors r ≡ s

  -- How opening the store ends.
  abbrev pub Opened : Outcome ℕ → H.RootState → Type 0
  Opened (ok store) r = At r × (l.usable r store ≡ true)
  Opened (err e) r = At r × (errors_is e trust_anchor_not_found ≡ false)

  pub Ends-open : (read_only : Bool) → Ends At (api.open_root read_only) Opened
  Ends-open read_only = record {
    at = λ r p. opened_at r (api.open_root read_only r).0 refl (opens.opened read_only r ∙ p);
  }
    where
      opened_at :
          (r : H.RootState) (o : Outcome ℕ)
          → (api.open_root read_only r).0 ≡ o
          → At (api.open_root read_only r).1
          → Opened o (api.open_root read_only r).1
      opened_at r (ok store) e a = (a, opens.usable read_only r store e)
      opened_at r (err x) e a = (a, edits.open_error read_only r x e)

  wrapped-Opened :
      (message : String) (o : Outcome ℕ) (r : H.RootState)
      → Opened o r
      → Opened (wrapped message o) r
  wrapped-Opened message (ok store) r h = h
  wrapped-Opened message (err e) r h = h

  pub Ends-open_write : Ends At (WinRoot.open_machine_root_store api) Opened
  unfolding WinRoot.open_machine_root_store
  Ends-open_write = Ends-context _ (Ends-weaken (λ r p. p) (wrapped-Opened _) (Ends-open false))

  pub Ends-open_read :
      (message : String)
      → Ends At (context message (WinRoot.open_machine_root_store_read_only api)) Opened
  unfolding WinRoot.open_machine_root_store_read_only
  Ends-open_read message = Ends-context _ (
      Ends-weaken (λ r p. p) (wrapped-Opened _)
        (Ends-context _ (Ends-weaken (λ r p. p) (wrapped-Opened _) (Ends-open true))))

  -- The search, and the search with the message that its error would have.
  pub Ends-search :
      (fuel store : ℕ) (fp : List ℕ)
      → length s < fuel
      → Ends
          (λ r. At r × (l.usable r store ≡ true))
          (WinRoot.find_cert_by_sha256 api fuel store fp)
          (λ o r. Found api fp s o × At r)
  Ends-search fuel store fp lt = record {
    at = λ r p.
        let (answers, kept) =
          find_cert_by_sha256-Answers laws fuel store fp r p.1
            (subst (λ (x : List H.Bytes). length x < fuel) (sym p.0) lt) in
        (
          Answers-Found api fp s _ (
              subst
                (λ (x : List H.Bytes).
                  Answers api fp x (WinRoot.find_cert_by_sha256 api fuel store fp r).0)
                p.0 answers),
          kept ∙ p.0,
        );
  }

  pub Ends-find :
      (fuel : ℕ) (message : String) (store : ℕ) (fp : List ℕ)
      → length s < fuel
      → Ends
          (λ r. At r × (l.usable r store ≡ true))
          (context message (WinRoot.find_cert_by_sha256 api fuel store fp))
          (λ o r. Found api fp s o × At r)
  Ends-find fuel message store fp lt =
      Ends-context _ (
        Ends-weaken (λ r p. p) (λ o r q. (wrapped-Found o q.0, q.1)) (Ends-search fuel store fp lt))
    where
      wrapped-Found :
          (o : Outcome (Option api.Context)) → Found api fp s o → Found api fp s (wrapped message o)
      wrapped-Found (ok x) h = h
      wrapped-Found (err e) h = h

-- Letting go of a context or of the store leaves the certificates, whatever they are.
module _ {H : Host} {api : CryptoApi H} {l : Listing api} (releases : Releases api l)
    (Q : List H.Bytes → Type 0) where
  pub Ends-free :
      (c : api.Context) → Ends (λ r. Q (l.anchors r)) (api.free_context c) (λ _ r. Q (l.anchors r))
  Ends-free c = record {
    at = λ r q. subst (λ (x : List H.Bytes). Q x) (sym (releases.freed c r)) q;
  }

  pub Ends-close :
      (store : ℕ) → Ends (λ r. Q (l.anchors r)) (api.close_store store) (λ _ r. Q (l.anchors r))
  Ends-close store = record {
    at = λ r q. subst (λ (x : List H.Bytes). Q x) (sym (releases.closed store r)) q;
  }

-- A context that was made holds the given bytes.
abbrev pub Made : {H : Host} (api : CryptoApi H) → H.Bytes → Outcome api.Context → Type 0
Made api der (ok c) = api.encoded c ≡ der
Made api der (err e) = Unit {0}

module _ {H : Host} {api : CryptoApi H} {l : Listing api} (opens : Opens api l)
    (edits : Edits api l) (Q : List H.Bytes → Type 0) where
  pub Ends-create :
      (message : String) (der : H.Bytes)
      → Ends
          (λ r. Q (l.anchors r))
          (context message (api.create_context der))
          (λ o r. Made api der o × Q (l.anchors r))
  Ends-create message der = Ends-context _ (record {
    at = λ r q. (
      made r (api.create_context der r).0 refl,
      subst (λ (x : List H.Bytes). Q x) (sym (opens.created der r 0).0) q,
    );
  })
    where
      made :
          (r : H.RootState) (o : Outcome api.Context)
          → (api.create_context der r).0 ≡ o
          → Made api der (wrapped message o)
      made r (ok c) e = edits.encodes der r c e
      made r (err x) e = tt
