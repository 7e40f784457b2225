-- ===== src/EditDistance/Edits.antt =====
-- Turning one text into another, and what it costs: the independent view that the distance of
-- libtrn/edit_dist.cpp is compared with.
use trn.Base.{ℕ, zero, suc, ◌+◌, ◌≤◌, [], ◌∷◌, ◌++◌, Bytes, ◌≡◌, arith}

-- Bytes are kept, changed, inserted or deleted, and two adjacent ones are swapped; no byte takes
-- part twice.
pub data Edits : Bytes → Bytes → ℕ → Type 0 where
  done : Edits [] [] 0
  keep : {a b : Bytes} {n : ℕ} (c : ℕ) → Edits a b n → Edits (c ∷ a) (c ∷ b) n
  change : {a b : Bytes} {n : ℕ} (c d : ℕ) → Edits a b n → Edits (c ∷ a) (d ∷ b) (suc n)
  insert : {a b : Bytes} {n : ℕ} (d : ℕ) → Edits a b n → Edits a (d ∷ b) (suc n)
  delete : {a b : Bytes} {n : ℕ} (c : ℕ) → Edits a b n → Edits (c ∷ a) b (suc n)
  swap : {a b : Bytes} {n : ℕ} (c d : ℕ) → Edits a b n → Edits (c ∷ d ∷ a) (d ∷ c ∷ b) (suc n)

-- The least cost of turning one text into the other.
pub record IsLeast (from to : Bytes) (n : ℕ) : Type 0 where
  pub reached : Edits from to n
  pub least : (m : ℕ) → Edits from to m → n ≤ m

-- One after the other.
pub Edits-append :
    {a b c d : Bytes} (n k m : ℕ)
    → m ≡ n + k
    → Edits a b n
    → Edits c d k
    → Edits (a ++ c) (b ++ d) m
Edits-append n k m e done t = let same : m ≡ k = omega arith in rw same t
Edits-append n k m e (keep x s) t = keep x (Edits-append n k m e s t)
Edits-append n k zero e (change x y s) t = absurd (omega arith)
Edits-append n k (suc m) e (change {n = j} x y s) t =
    change x y (Edits-append j k m (omega arith) s t)
Edits-append n k zero e (insert y s) t = absurd (omega arith)
Edits-append n k (suc m) e (insert {n = j} y s) t = insert y (Edits-append j k m (omega arith) s t)
Edits-append n k zero e (delete x s) t = absurd (omega arith)
Edits-append n k (suc m) e (delete {n = j} x s) t = delete x (Edits-append j k m (omega arith) s t)
Edits-append n k zero e (swap x y s) t = absurd (omega arith)
Edits-append n k (suc m) e (swap {n = j} x y s) t = swap x y (Edits-append j k m (omega arith) s t)
