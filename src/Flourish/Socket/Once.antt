-- ===== src/Flourish/Socket/Once.antt =====
-- Lists in which no number is twice, such as the subscribed entries of a connection.
use tanzlaurel.Base.{ℕ, ◌≡◌, refl, ◌∙◌, List, [], ◌∷◌, ◌++◌, false, ◌||◌, ◌==◌, arith}
use tanzlaurel.Flourish.Crdt.Rga.{contains}

-- No number is twice in the list.
abbrev pub IsOnce : List ℕ → Type 0
IsOnce [] = Unit {0}
IsOnce (x ∷ xs) = (contains x xs ≡ false) × IsOnce xs

pub contains-snoc :
    (k x : ℕ) (xs : List ℕ) → contains k (xs ++ (x ∷ [])) ≡ (contains k xs || k == x)
unfolding contains
contains-snoc k x [] = ground arith
contains-snoc k x (y ∷ ys) = rw (contains-snoc k x ys) (ground arith)

pub IsOnce-snoc :
    (x : ℕ) (xs : List ℕ) → contains x xs ≡ false → IsOnce xs → IsOnce (xs ++ (x ∷ []))
unfolding contains
IsOnce-snoc x [] h s = (refl, tt)
IsOnce-snoc x (y ∷ ys) h s =
    (contains-snoc y x ys ∙ ground (arith, s.0), IsOnce-snoc x ys (ground arith) s.1)
