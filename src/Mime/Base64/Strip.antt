-- ===== src/Mime/Base64/Strip.antt =====
-- Line ends and other bytes that are no digits, in the decoders of base64 of libtrn/mime.cpp.
use trn.Base.{
  ℕ, true, false, ◌||◌, [], ◌∷◌, Bytes, All, ◌==◌, if◌then◌else◌, ◌≡◌, refl, ◌∙◌, arith, Bool-cases,
  inl, inr,
}
use trn.Mime.Base64.{index_b64, B64State, b64_loop, Group, is_skipped, b64_bytes}
use trn.Mime.Quoted.{xx}
use trn.Uudecode.Machine.{DecodeState}

-- The text without the bytes that the decoders pass over.
abbrev pub strip : Bytes → Bytes
strip [] = []
strip (c ∷ f) = if is_skipped c then strip f else c ∷ strip f

abbrev pub IsNotNul : ℕ → Type 0
IsNotNul c = (c == 0) ≡ false

-- A byte that is passed over, and a byte before texts that decode alike.
b64_loop-skip :
    (state : B64State) (c : ℕ) (f : Bytes)
    → (c == 0 || c == b'=') ≡ false
    → (index_b64 c == xx) ≡ true
    → b64_loop state (c ∷ f) ≡ b64_loop state f
unfolding b64_loop
b64_loop-skip B64State.b64_none c f other skip = rw (other, skip) refl
b64_loop-skip (B64State.b64_one a) c f other skip = rw (other, skip) refl
b64_loop-skip (B64State.b64_two a) c f other skip = rw (other, skip) refl
b64_loop-skip (B64State.b64_three a) c f other skip = rw (other, skip) refl

b64_loop-same :
    (state : B64State) (c : ℕ) (f g : Bytes)
    → ((next : B64State) → b64_loop next f ≡ b64_loop next g)
    → b64_loop state (c ∷ f) ≡ b64_loop state (c ∷ g)
unfolding b64_loop
b64_loop-same B64State.b64_none c f g e =
    rw (e B64State.b64_none, e (B64State.b64_one (index_b64 c))) refl
b64_loop-same (B64State.b64_one a) c f g e =
    rw (e (B64State.b64_one a), e (B64State.b64_two (index_b64 c))) refl
b64_loop-same (B64State.b64_two a) c f g e =
    rw (e (B64State.b64_two a), e (B64State.b64_three (index_b64 c))) refl
b64_loop-same (B64State.b64_three a) c f g e =
    rw (e (B64State.b64_three a), e B64State.b64_none) refl

pub b64_loop-strip :
    (f : Bytes) → All IsNotNul f → (state : B64State) → b64_loop state f ≡ b64_loop state (strip f)
b64_loop-strip [] clean state = refl
b64_loop-strip (c ∷ f) (here, clean) state = elim (Bool-cases (is_skipped c)) [
  | inl skipped ↦
      let other : (c == 0 || c == b'=') ≡ false = ground arith in
      let unknown : (index_b64 c == xx) ≡ true = ground arith in
      rw skipped (b64_loop-skip state c f other unknown ∙ b64_loop-strip f clean state)
  | inr kept ↦ rw kept (b64_loop-same state c f (strip f) (b64_loop-strip f clean))
]

b64_bytes-skip :
    (state : DecodeState) (g : Group) (c : ℕ) (f : Bytes)
    → is_skipped c ≡ true
    → b64_bytes state g (c ∷ f) ≡ b64_bytes state g f
unfolding b64_bytes
b64_bytes-skip state Group.group_0 c f skip = rw skip refl
b64_bytes-skip state (Group.group_1 x) c f skip = rw skip refl
b64_bytes-skip state (Group.group_2 x y) c f skip = rw skip refl
b64_bytes-skip state (Group.group_3 x y z) c f skip = rw skip refl

b64_bytes-same :
    (state : DecodeState) (g : Group) (c : ℕ) (f h : Bytes)
    → ((next : Group) → b64_bytes state next f ≡ b64_bytes state next h)
    → b64_bytes state g (c ∷ f) ≡ b64_bytes state g (c ∷ h)
unfolding b64_bytes
b64_bytes-same state Group.group_0 c f h e = rw (e Group.group_0, e (Group.group_1 c)) refl
b64_bytes-same state (Group.group_1 x) c f h e =
    rw (e (Group.group_1 x), e (Group.group_2 x c)) refl
b64_bytes-same state (Group.group_2 x y) c f h e =
    rw (e (Group.group_2 x y), e (Group.group_3 x y c)) refl
b64_bytes-same state (Group.group_3 x y z) c f h e =
    rw (e (Group.group_3 x y z), e Group.group_0) refl

pub b64_bytes-strip :
    (state : DecodeState) (f : Bytes) (g : Group)
    → b64_bytes state g f ≡ b64_bytes state g (strip f)
b64_bytes-strip state [] g = refl
b64_bytes-strip state (c ∷ f) g = elim (Bool-cases (is_skipped c)) [
  | inl skipped ↦ rw skipped (b64_bytes-skip state g c f skipped ∙ b64_bytes-strip state f g)
  | inr kept ↦ rw kept (b64_bytes-same state g c f (strip f) (b64_bytes-strip state f))
]
