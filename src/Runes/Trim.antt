-- ===== src/Runes/Trim.antt =====
-- Trimming takes off the surrounding white space and nothing else.
use mathlib.Core.List.{reverse, reverse-append, reverse-reverse, cons-ne-nil}
use local_tls.Base.{true, false, [], ◌∷◌, ◌++◌, ◌≡◌, ◌≢◌, refl, ap}
use local_tls.Runes.{Runes, is_space, trim_left, trim_space}

abbrev pub AllSpace : Runes → Type 0
AllSpace [] = Unit {0}
AllSpace (c ∷ s) = (is_space c ≡ true) × AllSpace s

abbrev pub NoSpace : Runes → Type 0
NoSpace [] = Unit {0}
NoSpace (c ∷ s) = (is_space c ≡ false) × NoSpace s

pub AllSpace-append : (s t : Runes) → AllSpace s → AllSpace t → AllSpace (s ++ t)
AllSpace-append [] t h k = k
AllSpace-append (c ∷ s) t h k = (h.0, AllSpace-append s t h.1 k)

pub AllSpace-reverse : (s : Runes) → AllSpace s → AllSpace (reverse s)
AllSpace-reverse [] h = tt
AllSpace-reverse (c ∷ s) h =
    rw (reverse-append (c ∷ []) s)
      (AllSpace-append (reverse s) (c ∷ []) (AllSpace-reverse s h.1) (h.0, tt))

NoSpace-append : (s t : Runes) → NoSpace s → NoSpace t → NoSpace (s ++ t)
NoSpace-append [] t h k = k
NoSpace-append (c ∷ s) t h k = (h.0, NoSpace-append s t h.1 k)

NoSpace-reverse : (s : Runes) → NoSpace s → NoSpace (reverse s)
NoSpace-reverse [] h = tt
NoSpace-reverse (c ∷ s) h =
    rw (reverse-append (c ∷ []) s)
      (NoSpace-append (reverse s) (c ∷ []) (NoSpace-reverse s h.1) (h.0, tt))

-- White space in front goes, and text without any stays.
trim_left-append : (s t : Runes) → AllSpace s → trim_left (s ++ t) ≡ trim_left t
unfolding trim_left
trim_left-append [] t h = refl
trim_left-append (c ∷ s) t h = rw h.0 (trim_left-append s t h.1)

trim_left-all : (s : Runes) → AllSpace s → trim_left s ≡ []
unfolding trim_left
trim_left-all [] h = refl
trim_left-all (c ∷ s) h = rw h.0 (trim_left-all s h.1)

trim_left-none : (t u : Runes) → NoSpace t → t ≢ [] → trim_left (t ++ u) ≡ t ++ u
unfolding trim_left
trim_left-none [] u h n = absurd (n refl)
trim_left-none (c ∷ t) u h n = rw h.0

trim_left_self : (t : Runes) → NoSpace t → trim_left t ≡ t
unfolding trim_left
trim_left_self [] h = refl
trim_left_self (c ∷ t) h = rw h.0

-- Of a text between white space the text remains, if it has none itself.
pub trim_space-between :
    (s t u : Runes) → AllSpace s → NoSpace t → AllSpace u → trim_space (s ++ (t ++ u)) ≡ t
unfolding trim_space
trim_space-between s [] u hs ht hu =
    rw (trim_left-append s u hs, trim_left-all u hu) (ap (λ l. reverse l) (trim_left_self [] tt))
trim_space-between s (c ∷ t) u hs ht hu =
    rw
      (
        trim_left-append s ((c ∷ t) ++ u) hs,
        trim_left-none (c ∷ t) u ht (cons-ne-nil c t),
        reverse-append (c ∷ t) u,
        trim_left-append (reverse u) (reverse (c ∷ t)) (AllSpace-reverse u hu),
        trim_left_self (reverse (c ∷ t)) (NoSpace-reverse (c ∷ t) ht),
      )
      (reverse-reverse (c ∷ t))
