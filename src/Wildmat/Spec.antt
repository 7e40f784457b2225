-- ===== src/Wildmat/Spec.antt =====
-- What it means for a text to match a pattern, with no search order in it. A class is read as the
-- code reads it (`class_match`).
use trn.Base.{ℕ, true, ◌≡◌, ◌≢◌, [], ◌∷◌, Bytes}
use trn.Wildmat.{backslash, class_match}

-- The bytes with a meaning of their own.
pub record IsPlain (c : ℕ) : Type 0 where
  pub not_escape : c ≢ backslash
  pub not_any : c ≢ b'?'
  pub not_class : c ≢ b'['
  pub not_star : c ≢ b'*'

pub data Matches : Bytes → Bytes → Type 0 where
  empty : Matches [] []
  plain : {c : ℕ} {p t : Bytes} → IsPlain c → Matches p t → Matches (c ∷ p) (c ∷ t)
  escaped : {b c : ℕ} {p t : Bytes} → b ≡ backslash → Matches p t → Matches (b ∷ c ∷ p) (c ∷ t)
  any : {b x : ℕ} {p t : Bytes} → b ≡ b'?' → Matches p t → Matches (b ∷ p) (x ∷ t)
  class :
      {b x : ℕ} {p t : Bytes}
      → b ≡ b'['
      → (class_match x p).0 ≡ true
      → Matches (class_match x p).1 t
      → Matches (b ∷ p) (x ∷ t)
  skip : {b : ℕ} {p t : Bytes} → b ≡ b'*' → Matches p t → Matches (b ∷ p) t
  take : {b x : ℕ} {p t : Bytes} → b ≡ b'*' → Matches (b ∷ p) t → Matches (b ∷ p) (x ∷ t)

-- A star takes any bytes.
pub take_all : {b : ℕ} (t : Bytes) → b ≡ b'*' → Matches (b ∷ []) t
take_all [] e = skip e empty
take_all (x ∷ t) e = take e (take_all t e)
