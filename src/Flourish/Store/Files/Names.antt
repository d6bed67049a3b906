-- ===== src/Flourish/Store/Files/Names.antt =====
-- Names of files.
use tanzlaurel.Base.{
  ℕ, ◌≡◌, refl, ap, List, [], ◌∷◌, ◌++◌, true, some, ◌==◌, ==_iff, length, length-append,
  Bool-cases, inl, inr, arith,
}
use tanzlaurel.Flourish.Socket.Messages.{string_eq}
use tanzlaurel.Flourish.Store.Files.{suffix, trim_suffix}

pub string_eq-≡ : (xs ys : List ℕ) → string_eq xs ys ≡ true → xs ≡ ys
unfolding string_eq
string_eq-≡ [] [] h = refl
string_eq-≡ [] (y ∷ ys) h = absurd (cc h)
string_eq-≡ (x ∷ xs) [] h = absurd (cc h)
string_eq-≡ (x ∷ xs) (y ∷ ys) h = elim (Bool-cases (x == y)) [
  | inr ne ↦ absurd (cc (rw ne at h))
  | inl e ↦ let same = (==_iff x y).0 e in let rest = string_eq-≡ xs ys (rw e at h) in cc
]

pub string_eq_refl : (xs : List ℕ) → string_eq xs xs ≡ true
unfolding string_eq
string_eq_refl [] = refl
string_eq_refl (x ∷ xs) = rw ((==_iff x x).1 refl, string_eq_refl xs) refl

pub trim_suffix-append : (s : List ℕ) → trim_suffix (s ++ suffix) ≡ some s
unfolding trim_suffix string_eq
trim_suffix-append [] = refl
trim_suffix-append (c ∷ cs) = elim (Bool-cases (string_eq (c ∷ (cs ++ suffix)) suffix)) [
  | inl short ↦
      let same = ap (λ (l : List ℕ). length l) (string_eq-≡ (c ∷ (cs ++ suffix)) suffix short) in
      let grown = length-append cs suffix in absurd (omega (arith, same, grown))
  | inr long ↦ rw (long, trim_suffix, trim_suffix-append cs) refl
]
