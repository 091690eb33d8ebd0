-- ===== src/Certificate/Sealed.antt =====
-- Certificates that are not changed once they have been signed, and the lists of calls that keep them so.
use book_filer_module_http.Prelude.{
  ℕ, ◌<◌, ◌≤◌, ◌≡◌, sym, ◌≢◌, ◌⊎◌, Option, none, some, List, [], ◌∷◌, ◌++◌, arith, All, All-append,
  append_assoc,
}
use book_filer_module_http.Certificate.{
  Call, Handle, Crypto, called, set_serial, set_version, set_not_before, set_not_after, set_pubkey,
  add_entry, set_issuer_name, set_subject_name, add_extension, sign,
}

-- The certificate that a call changes.
abbrev pub changes : Call → Option Handle
changes (set_serial x n) = some x
changes (set_version x n) = some x
changes (set_not_before x t) = some x
changes (set_not_after x t) = some x
changes (set_pubkey x k) = some x
changes (add_entry x f v) = some x
changes (set_issuer_name x y) = some x
changes (set_subject_name x y) = some x
changes (add_extension x e) = some x
changes _ = none

abbrev pub signs : Call → Option Handle
signs (sign x k) = some x
signs _ = none

-- Behind a signature, no call changes the certificate that it signs.
abbrev pub Sealed : List Call → Type 0
Sealed [] = Unit
Sealed (c ∷ cs) = ((x : Handle) → signs c ≡ some x → All (λ d. changes d ≢ some x) cs) × Sealed cs

abbrev pub SignedBelow : ℕ → List Call → Type 0
SignedBelow n log = All (λ c. (x : Handle) → signs c ≡ some x → x < n) log

-- The state of OpenSSL: sealed, and no signature is on an object that is not made yet.
abbrev pub IsSealed : Crypto → Type 0
IsSealed s = Sealed s.log × SignedBelow s.fresh s.log

-- Calls for the contents of one certificate, or for keys.
abbrev pub Edits : Handle → List Call → Type 0
Edits n calls = All (λ d. ((changes d ≡ none) ⊎ (changes d ≡ some n)) × (signs d ≡ none)) calls

Edits-other :
    (n x : Handle) (calls : List Call) → x < n → Edits n calls → All (λ d. changes d ≢ some x) calls
Edits-other n x [] l h = tt
Edits-other n x (d ∷ calls) l ((c, s), h) = (λ e. ground (arith, c), Edits-other n x calls l h)

Sealed-Edits : (n : Handle) (calls : List Call) → Edits n calls → Sealed calls
Sealed-Edits n [] e = tt
Sealed-Edits n (c ∷ calls) ((_, s), e) = (λ x h. ground (arith, s), Sealed-Edits n calls e)

-- A log that is sealed and signs nothing from n on.
abbrev pub SealedBelow : ℕ → List Call → Type 0
SealedBelow n log = Sealed log × SignedBelow n log

Sealed-append :
    (n m : Handle) (calls log : List Call)
    → n ≤ m
    → Edits m calls
    → SealedBelow n log
    → Sealed (log ++ calls)
Sealed-append n m calls [] l e h = Sealed-Edits m calls e
Sealed-append n m calls (c ∷ log) l e ((s, ss), (b, bs)) = (
  λ x h.
      All-append (λ d. changes d ≢ some x) log calls (s x h)
        (Edits-other m x calls (below x (b x h)) e),
  Sealed-append n m calls log l e (ss, bs),
)
  where
    below : (x : Handle) → x < n → x < m
    below x h = omega arith

SignedBelow-Edits : (n m : Handle) (calls : List Call) → Edits m calls → SignedBelow n calls
SignedBelow-Edits n m [] e = tt
SignedBelow-Edits n m (c ∷ calls) ((_, s), e) =
    (λ x h. ground (arith, s), SignedBelow-Edits n m calls e)

pub edited :
    (n m : Handle) (calls : List Call) (k : ℕ) (s : Crypto)
    → n ≤ m
    → Edits m calls
    → SealedBelow n s.log
    → SealedBelow n (called calls k s).log
unfolding called
edited n m calls k s l e (h, b) = (
  Sealed-append n m calls s.log l e (h, b),
  All-append (λ c. (x : Handle) → signs c ≡ some x → x < n) s.log calls b
      (SignedBelow-Edits n m calls e),
)

pub SignedBelow-le : (n m : ℕ) (log : List Call) → n ≤ m → SignedBelow n log → SignedBelow m log
SignedBelow-le n m [] l b = tt
SignedBelow-le n m (c ∷ log) l (b, bs) = (λ x h. le x (b x h), SignedBelow-le n m log l bs)
  where
    le : (x : Handle) → x < n → x < m
    le x h = omega arith

Sealed-sign :
    (x : Handle) (k : Option Handle) (log : List Call) → Sealed log → Sealed (log ++ sign x k ∷ [])
Sealed-sign x k [] h = (λ y e. tt, tt)
Sealed-sign x k (c ∷ log) (s, ss) = (
  λ y h. All-append (λ d. changes d ≢ some y) log (sign x k ∷ []) (s y h) (λ e. cc, tt),
  Sealed-sign x k log ss,
)

-- The contents of a certificate and its signature.
pub signed :
    (n m fresh' : Handle) (k : Option Handle) (calls log : List Call)
    → n ≤ m
    → m < fresh'
    → Edits m calls
    → SealedBelow n log
    → SealedBelow fresh' (log ++ (calls ++ sign m k ∷ []))
signed n m fresh' k calls log l f e (h, b) = rw (sym (append_assoc log calls (sign m k ∷ []))) (
  Sealed-sign m k (log ++ calls) (Sealed-append n m calls log l e (h, b)),
  All-append (λ c. (x : Handle) → signs c ≡ some x → x < fresh') (log ++ calls) (sign m k ∷ [])
      (SignedBelow-le n fresh' (log ++ calls) (omega arith) (
        All-append (λ c. (x : Handle) → signs c ≡ some x → x < n) log calls b
          (SignedBelow-Edits n m calls e)))
      (λ x h. ground arith, tt),
)
