-- ===== src/Base/Decimal.antt =====
-- `std::to_string` of an unsigned number, and texts that hold such numbers between other parts.
use Prim.Native.Nat.{ℕ, zero, suc, ◌+◌, ◌-◌, ◌*◌, ◌/◌, ◌%◌, ◌≤◌, ◌<◌}
use Prim.Native.Char.{Char, code}
use Prim.Native.String.{String, [], ◌∷◌, ◌++◌}
use mathlib.Core.Path.{◌≡◌, refl, sym, ap, subst, ◌∙◌}
use mathlib.Core.Logic.{◌⊎◌, ◌≢◌, inl, inr}
use native.Mathlib.Omega.{arith}
use text.Mathlib.TextLemmas.{nil-append, cons-append, head-eq_of_cons-eq, tail-eq_of_cons-eq}
use hardware_driver.Base.Tests.{◌==◌, if◌then◌else◌, Bool-cases}

digit : ℕ → Char
digit zero = "0"
digit (suc zero) = "1"
digit (suc (suc zero)) = "2"
digit (suc (suc (suc zero))) = "3"
digit (suc (suc (suc (suc zero)))) = "4"
digit (suc (suc (suc (suc (suc zero))))) = "5"
digit (suc (suc (suc (suc (suc (suc zero)))))) = "6"
digit (suc (suc (suc (suc (suc (suc (suc zero))))))) = "7"
digit (suc (suc (suc (suc (suc (suc (suc (suc zero)))))))) = "8"
digit _ = "9"

-- The digits of a number, for which as many rounds as its value are enough.
digits : ℕ → ℕ → String
digits zero n = []
digits (suc f) n =
    let front = digits f (n / 10) in
    if n / 10 == 0 then digit (n % 10) ∷ [] else front ++ (digit (n % 10) ∷ [])

unfoldable pub to_string : ℕ → String
unfolding digits digit
to_string n = digits (suc n) n

-- Reading a number back.
value : ℕ → String → ℕ
value acc [] = acc
value acc (c ∷ s) = value (acc * 10 + (code c - 48)) s

value-append : (acc : ℕ) (s t : String) → value acc (s ++ t) ≡ value (value acc s) t
unfolding value
value-append acc [] t = rw (nil-append t) refl
value-append acc (c ∷ s) t = rw (cons-append c s t) (value-append (acc * 10 + (code c - 48)) s t)

code-digit : (d : ℕ) → d < 10 → code (digit d) ≡ 48 + d
unfolding digit
code-digit zero h = refl
code-digit (suc zero) h = refl
code-digit (suc (suc zero)) h = refl
code-digit (suc (suc (suc zero))) h = refl
code-digit (suc (suc (suc (suc zero)))) h = refl
code-digit (suc (suc (suc (suc (suc zero))))) h = refl
code-digit (suc (suc (suc (suc (suc (suc zero)))))) h = refl
code-digit (suc (suc (suc (suc (suc (suc (suc zero))))))) h = refl
code-digit (suc (suc (suc (suc (suc (suc (suc (suc zero)))))))) h = refl
code-digit (suc (suc (suc (suc (suc (suc (suc (suc (suc zero))))))))) h = refl
code-digit (suc (suc (suc (suc (suc (suc (suc (suc (suc (suc d)))))))))) h = absurd (omega arith)

value-digits : (f n : ℕ) → n < f → value 0 (digits f n) ≡ n
unfolding value digits
value-digits zero n h = absurd (omega arith)
value-digits (suc f) n h = ground (
  arith,
  code-digit (n % 10),
  value-append 0 (digits f (n / 10)) (digit (n % 10) ∷ []),
  value-digits f (n / 10),
)

pub to_string_inj : (m n : ℕ) → to_string m ≡ to_string n → m ≡ n
unfolding to_string
to_string_inj m n h = omega (arith, value-digits (suc m) m, value-digits (suc n) n, ap (value 0) h)

-- A text of digits.
abbrev pub IsNumeral : String → Type 0
IsNumeral [] = Unit
IsNumeral (c ∷ s) = (48 ≤ code c) × (code c ≤ 57) × IsNumeral s

IsNumeral-append : (s t : String) → IsNumeral s → IsNumeral t → IsNumeral (s ++ t)
IsNumeral-append [] t h k = rw (nil-append t) k
IsNumeral-append (c ∷ s) t h k = rw (cons-append c s t) (h.0, h.1, IsNumeral-append s t h.2 k)

digit-IsNumeral : (d : ℕ) → d < 10 → IsNumeral (digit d ∷ [])
digit-IsNumeral d h = (omega (arith, code-digit d h), omega (arith, code-digit d h), tt)

digits-IsNumeral : (f n : ℕ) → IsNumeral (digits f n)
unfolding digits
digits-IsNumeral zero n = tt
digits-IsNumeral (suc f) n =
    let last = digit-IsNumeral (n % 10) (omega arith) in
    elim (Bool-cases (n / 10 == 0)) [
      | inl e ↦ rw e last
      | inr e ↦ rw e (IsNumeral-append (digits f (n / 10)) _ (digits-IsNumeral f (n / 10)) last)
    ]

pub to_string-IsNumeral : (n : ℕ) → IsNumeral (to_string n)
unfolding to_string
to_string-IsNumeral n = digits-IsNumeral (suc n) n

-- A character that is no digit.
abbrev pub IsMark : Char → Type 0
IsMark x = (code x < 48) ⊎ (57 < code x)

-- A text without a character.
abbrev pub IsFree : Char → String → Type 0
IsFree x [] = Unit
IsFree x (c ∷ s) = (code c ≢ code x) × IsFree x s

pub IsNumeral-IsFree : (x : Char) (s : String) → IsMark x → IsNumeral s → IsFree x s
IsNumeral-IsFree x [] m h = tt
IsNumeral-IsFree x (c ∷ s) m h =
    (λ same. ground (arith, m, h.0, h.1, same), IsNumeral-IsFree x s m h.2)

in_free : (x : Char) (s t : String) → IsFree x (s ++ (x ∷ t)) → ⊥
in_free x [] t h = let k = rw (nil-append (x ∷ t)) at h in k.0 refl
in_free x (c ∷ s) t h = let k = rw (cons-append c s (x ∷ t)) at h in in_free x s t k.1

-- The equations between the ends of two texts that begin with no, or with one, more character.
shorter : (x y : Char) (d s e : String) → [] ++ (x ∷ d) ≡ (y ∷ s) ++ e → (x ≡ y) × (d ≡ s ++ e)
shorter x y d s e h =
    let k = sym (nil-append (x ∷ d)) ∙ h ∙ cons-append y s e in
    (head-eq_of_cons-eq k, tail-eq_of_cons-eq k)

one_off :
    (x y : Char) (s t d e : String) → (x ∷ s) ++ d ≡ (y ∷ t) ++ e → (x ≡ y) × (s ++ d ≡ t ++ e)
one_off x y s t d e h =
    let k = sym (cons-append x s d) ∙ h ∙ cons-append y t e in
    (head-eq_of_cons-eq k, tail-eq_of_cons-eq k)

-- Where a mark stands last in two texts, they agree in what stands before it and after it.
pub last_part :
    (x : Char) (s t d e : String)
    → IsFree x d
    → IsFree x e
    → s ++ (x ∷ d) ≡ t ++ (x ∷ e)
    → (s ≡ t) × (d ≡ e)
last_part x [] [] d e h k eq =
    (refl, tail-eq_of_cons-eq (sym (nil-append (x ∷ d)) ∙ eq ∙ nil-append (x ∷ e)))
last_part x [] (c ∷ t) d e h k eq =
    absurd (in_free x t e (subst (IsFree x) (shorter x c d t (x ∷ e) eq).1 h))
last_part x (c ∷ s) [] d e h k eq =
    absurd (in_free x s d (subst (IsFree x) (shorter x c e s (x ∷ d) (sym eq)).1 k))
last_part x (c ∷ s) (b ∷ t) d e h k eq =
    let o = one_off c b s t (x ∷ d) (x ∷ e) eq in
    let r = last_part x s t d e h k o.1 in (λ i. o.0 i ∷ r.0 i, r.1)

-- Two texts that begin with a numeral and a mark agree in the numeral.
pub first_part :
    (x : Char) (s t d e : String)
    → IsMark x
    → IsNumeral d
    → IsNumeral e
    → d ++ (x ∷ s) ≡ e ++ (x ∷ t)
    → d ≡ e
first_part x s t [] [] m h k eq = refl
first_part x s t [] (c ∷ e) m h k eq =
    ground (arith, ap code (shorter x c s e (x ∷ t) eq).0, k.0, k.1)
first_part x s t (c ∷ d) [] m h k eq =
    ground (arith, ap code (shorter x c t d (x ∷ s) (sym eq)).0, h.0, h.1)
first_part x s t (c ∷ d) (b ∷ e) m h k eq =
    let o = one_off c b d e (x ∷ s) (x ∷ t) eq in
    let r = first_part x s t d e m h.2 k.2 o.1 in λ i. o.0 i ∷ r i
