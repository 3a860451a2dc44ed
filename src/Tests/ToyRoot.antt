-- ===== src/Tests/ToyRoot.antt =====
-- A certificate store that is small enough to run, behind the CryptoAPI calls.
use local_tls.Base.{
  ◌≡◌, ◌↔◌, sym, ap, inl, Bool-cases, bytes_eq, bytes_eq_iff, arith, ℕ, Bool, true, false, refl,
  Option, none, some, List, [], ◌∷◌, inr,
}
use local_tls.Errors.{Outcome, ok, err, errno}
use local_tls.WinRoot.{CryptoApi}
use local_tls.WinRoot.Search.{Listing, Enumerates, Step}
use local_tls.WinRoot.Verify.{Opens}
use local_tls.WinRoot.Change.{Releases}
use local_tls.TrustStore.Contract.{Gains, Loses}
use local_tls.WinRoot.Edits.{Edits, Deleted}
use local_tls.Tests.Toy.{toy, Blob, digest, drop_digest, trusted, same_digest}

-- A context holds the certificates that come after its own.
abbrev pub after_context : Option (Blob × List Blob) → List Blob → List Blob
after_context none r = r
after_context (some (b, rest)) r = rest

abbrev pub next_of : List Blob → Outcome (Option (Blob × List Blob))
next_of [] = err (errno 0x80092004)
next_of (b ∷ bs) = ok (some (b, bs))

abbrev pub delete_listed : Bool → Blob → List Blob → Outcome (Unit {0}) × List Blob
delete_listed true b r = (ok tt, drop_digest (digest b) r)
delete_listed false b r = (err (errno 0x80092004), r)

abbrev pub crypto : CryptoApi toy
crypto = record {
  Context = Blob × List Blob;
  encoded = λ c. c.0;
  open_root = λ read_only r. (ok 1, r);
  close_store = λ h r. (ok tt, r);
  create_context = λ b r. (ok (b, []), r);
  free_context = λ c r. (ok tt, r);
  add_replacing = λ h c r. (ok tt, c.0 ∷ r);
  delete_from_store = λ c r. delete_listed (trusted (digest c.0) r) c.0 r;
  enumerate = λ h prev r. (next_of (after_context prev r), r);
  find_by_subject = λ h cn r. (err (errno 0x80092004), r);
  name_size = λ c. 7;
  name_string = λ c. "Keppin";
  mentions = λ e s. false;
}

abbrev pub listing : Listing crypto
listing = record {
  anchors = λ r. r;
  usable = λ r h. true;
  remaining = λ r h prev. after_context prev r;
}

pub enumerates : Enumerates crypto listing
enumerates = record {
  first = λ r h u. refl;
  next = λ r h prev u. next_at r h (after_context prev r);
  still = λ r h prev. (refl, refl);
}
  where
    next_at : (r : List Blob) (h : ℕ) (l : List Blob) → Step crypto listing r h l (next_of l, r)
    next_at r h [] = inr refl
    next_at r h (b ∷ bs) = ((b, bs), refl, refl, refl)

pub crypto-Opens : Opens crypto listing
crypto-Opens = record {
  usable = λ read_only r h e. refl;
  opened = λ read_only r. refl;
  created = λ b r h. (refl, refl);
}

pub releases : Releases crypto listing
releases = record { closed = λ h r. refl; freed = λ c r. refl }

pub same_digest_iff : (c d : List ℕ) → (same_digest c d ≡ true) ↔ (c ≡ d)
same_digest_iff [] [] = (λ _. refl, λ _. refl)
same_digest_iff [] (b ∷ d) = ground arith
same_digest_iff (a ∷ c) [] = ground arith
same_digest_iff (a ∷ c) (b ∷ d) = ground (arith, same_digest_iff c d)

pub gained : (b : Blob) (r : List Blob) → Gains toy (digest b) r (b ∷ r)
gained b r = (
  ground (arith, bytes_eq_iff (digest b) (digest b)),
  λ other h. elim (Bool-cases (bytes_eq (digest b) other)) [
    | inl e ↦ inl ((bytes_eq_iff (digest b) other).0 e)
    | inr e ↦ inr (rw e at h)
  ],
)

pub lost : (d : List ℕ) (r : List Blob) → trusted d r ≡ true → Loses toy d r (drop_digest d r)
lost d [] h = cc
lost d (b ∷ r) h = elim (Bool-cases (same_digest d (digest b))) [
  | inl e ↦ ([], b, r, refl, sym ((same_digest_iff d (digest b)).0 e), rw e)
  | inr e ↦
      let (front, c, back, split, same, left) = lost d r (rw e at h) in
      (
        b ∷ front,
        c,
        back,
        ap (λ (x : List Blob). b ∷ x) split,
        same,
        rw e (ap (λ (x : List Blob). b ∷ x) left),
      )
]

pub edits : Edits crypto listing
edits = record {
  encodes = λ b r c e. made b c e;
  added = λ h c r. gained c.0 r;
  deleted = λ c r. deleted_at (trusted (digest c.0) r) c r refl;
  subject_still = λ h cn r. refl;
  open_error = λ read_only r e h. cc;
}
  where
    made : (b : Blob) (c : Blob × List Blob) → ok (b, []) ≡ ok c → c.0 ≡ b
    made b c e = cc

    deleted_at :
        (t : Bool) (c : Blob × List Blob) (r : List Blob)
        → trusted (digest c.0) r ≡ t
        → Deleted toy (digest c.0) r (delete_listed t c.0 r).0 (delete_listed t c.0 r).1
    deleted_at true c r e = lost (digest c.0) r e
    deleted_at false c r e = (refl, refl)
