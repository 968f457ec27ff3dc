-- ===== src/Base/Lists.antt =====
-- Lists measured and indexed by native numbers, and buffers that are overwritten in place.
use Prim.Native.Nat.{ℕ, zero, suc, ◌+◌, ◌-◌, ◌≤◌, ◌<◌, min}
use mathlib.Core.Path.{◌≡◌, refl, ap}
use mathlib.Core.List.{List, [], ◌∷◌, ◌++◌, map}
use native.Mathlib.Omega.{arith}

module _ {ℓ} {A : Type ℓ} where
  abbrev pub length : List A → ℕ
  length [] = 0
  length (x ∷ xs) = suc (length xs)

  abbrev pub get_or : List A → ℕ → A → A
  get_or [] i d = d
  get_or (x ∷ xs) zero d = x
  get_or (x ∷ xs) (suc i) d = get_or xs i d

  abbrev pub take : ℕ → List A → List A
  take zero xs = []
  take (suc n) [] = []
  take (suc n) (x ∷ xs) = x ∷ take n xs

  abbrev pub drop : ℕ → List A → List A
  drop zero xs = xs
  drop (suc n) [] = []
  drop (suc n) (x ∷ xs) = drop n xs

  abbrev pub replicate : ℕ → A → List A
  replicate zero a = []
  replicate (suc n) a = a ∷ replicate n a

  -- Consecutive writes into an array from an index on; a write past its end changes nothing.
  abbrev pub store : List A → ℕ → List A → List A
  store [] i bs = []
  store (x ∷ d) zero [] = x ∷ d
  store (x ∷ d) zero (b ∷ bs) = b ∷ store d zero bs
  store (x ∷ d) (suc i) bs = x ∷ store d i bs

  pub length-append : (xs ys : List A) → length (xs ++ ys) ≡ length xs + length ys
  length-append [] ys = omega arith
  length-append (x ∷ xs) ys = omega (arith, length-append xs ys)

  pub length-take : (n : ℕ) (xs : List A) → length (take n xs) ≡ min n (length xs)
  length-take zero xs = omega arith
  length-take (suc n) [] = omega arith
  length-take (suc n) (x ∷ xs) = omega (arith, length-take n xs)

  pub length-drop : (n : ℕ) (xs : List A) → length (drop n xs) ≡ length xs - n
  length-drop zero xs = omega arith
  length-drop (suc n) [] = omega arith
  length-drop (suc n) (x ∷ xs) = omega (arith, length-drop n xs)

  pub take-append-drop : (n : ℕ) (xs : List A) → take n xs ++ drop n xs ≡ xs
  take-append-drop zero xs = refl
  take-append-drop (suc n) [] = refl
  take-append-drop (suc n) (x ∷ xs) = ap (◌∷◌ x) (take-append-drop n xs)

  pub length-replicate : (n : ℕ) (a : A) → length (replicate n a) ≡ n
  length-replicate zero a = refl
  length-replicate (suc n) a = ap suc (length-replicate n a)

  pub length-store : (d : List A) (i : ℕ) (bs : List A) → length (store d i bs) ≡ length d
  length-store [] i bs = refl
  length-store (x ∷ d) zero [] = refl
  length-store (x ∷ d) zero (b ∷ bs) = ap suc (length-store d zero bs)
  length-store (x ∷ d) (suc i) bs = ap suc (length-store d i bs)

  -- What is read back from a stretch that was just written.
  pub take-drop-store :
      (d : List A) (i : ℕ) (bs : List A)
      → i + length bs ≤ length d
      → take (length bs) (drop i (store d i bs)) ≡ bs
  take-drop-store [] zero [] h = refl
  take-drop-store [] zero (b ∷ bs) h = absurd (omega arith)
  take-drop-store [] (suc i) bs h = absurd (omega arith)
  take-drop-store (x ∷ d) zero [] h = refl
  take-drop-store (x ∷ d) zero (b ∷ bs) h = ap (◌∷◌ b) (take-drop-store d zero bs (omega arith))
  take-drop-store (x ∷ d) (suc i) bs h = take-drop-store d i bs (omega arith)

  -- What a write leaves alone: the places before it and after it.
  pub get_or-store_lt :
      (d : List A) (j i : ℕ) (bs : List A) (x : A)
      → j < i
      → get_or (store d i bs) j x ≡ get_or d j x
  get_or-store_lt [] j i bs x h = refl
  get_or-store_lt (y ∷ d) j zero bs x h = absurd (omega arith)
  get_or-store_lt (y ∷ d) zero (suc i) bs x h = refl
  get_or-store_lt (y ∷ d) (suc j) (suc i) bs x h = get_or-store_lt d j i bs x (omega arith)

  pub drop-store :
      (d : List A) (j i : ℕ) (bs : List A) → i + length bs ≤ j → drop j (store d i bs) ≡ drop j d
  drop-store [] j i bs h = refl
  drop-store (y ∷ d) j zero [] h = refl
  drop-store (y ∷ d) zero zero (b ∷ bs) h = absurd (omega arith)
  drop-store (y ∷ d) (suc j) zero (b ∷ bs) h = drop-store d j zero bs (omega arith)
  drop-store (y ∷ d) zero (suc i) bs h = absurd (omega arith)
  drop-store (y ∷ d) (suc j) (suc i) bs h = drop-store d j i bs (omega arith)

  pub take-store : (d : List A) (j i : ℕ) (bs : List A) → j ≤ i → take j (store d i bs) ≡ take j d
  take-store [] j i bs h = refl
  take-store (y ∷ d) zero i bs h = refl
  take-store (y ∷ d) (suc j) zero bs h = absurd (omega arith)
  take-store (y ∷ d) (suc j) (suc i) bs h = ap (◌∷◌ y) (take-store d j i bs (omega arith))

  -- A stretch that ends before the write.
  pub take-drop-store_before :
      (d : List A) (j i : ℕ) (bs : List A) (n : ℕ)
      → j + n ≤ i
      → take n (drop j (store d i bs)) ≡ take n (drop j d)
  take-drop-store_before [] j i bs n h = refl
  take-drop-store_before (y ∷ d) zero i bs n h = take-store (y ∷ d) n i bs (omega arith)
  take-drop-store_before (y ∷ d) (suc j) zero bs n h = absurd (omega arith)
  take-drop-store_before (y ∷ d) (suc j) (suc i) bs n h =
      take-drop-store_before d j i bs n (omega arith)

  pub get_or-store_at :
      (d : List A) (i : ℕ) (bs : List A) (k j : ℕ) (x : A)
      → j ≡ i + k
      → j < length d
      → k < length bs
      → get_or (store d i bs) j x ≡ get_or bs k x
  get_or-store_at [] i bs k j x e h hk = absurd (omega arith)
  get_or-store_at (y ∷ d) zero [] k j x e h hk = absurd (omega arith)
  get_or-store_at (y ∷ d) zero (b ∷ bs) zero zero x e h hk = refl
  get_or-store_at (y ∷ d) zero (b ∷ bs) zero (suc j) x e h hk = absurd (omega arith)
  get_or-store_at (y ∷ d) zero (b ∷ bs) (suc k) zero x e h hk = absurd (omega arith)
  get_or-store_at (y ∷ d) zero (b ∷ bs) (suc k) (suc j) x e h hk =
      get_or-store_at d zero bs k j x (omega arith) (omega arith) (omega arith)
  get_or-store_at (y ∷ d) (suc i) bs k zero x e h hk = absurd (omega arith)
  get_or-store_at (y ∷ d) (suc i) bs k (suc j) x e h hk =
      get_or-store_at d i bs k j x (omega arith) (omega arith) hk

  pub take-store_end :
      (d : List A) (i : ℕ) (bs : List A) (j : ℕ)
      → j ≡ i + length bs
      → j ≤ length d
      → take j (store d i bs) ≡ take i d ++ bs
  take-store_end [] zero [] zero e h = refl
  take-store_end [] zero (b ∷ bs) zero e h = absurd (omega arith)
  take-store_end [] zero bs (suc j) e h = absurd (omega arith)
  take-store_end [] (suc i) bs zero e h = absurd (omega arith)
  take-store_end [] (suc i) bs (suc j) e h = absurd (omega arith)
  take-store_end (y ∷ d) zero [] zero e h = refl
  take-store_end (y ∷ d) zero [] (suc j) e h = absurd (omega arith)
  take-store_end (y ∷ d) zero (b ∷ bs) zero e h = absurd (omega arith)
  take-store_end (y ∷ d) zero (b ∷ bs) (suc j) e h =
      ap (◌∷◌ b) (take-store_end d zero bs j (omega arith) (omega arith))
  take-store_end (y ∷ d) (suc i) bs zero e h = absurd (omega arith)
  take-store_end (y ∷ d) (suc i) bs (suc j) e h =
      ap (◌∷◌ y) (take-store_end d i bs j (omega arith) (omega arith))

  pub get_or-take :
      (n : ℕ) (xs : List A) (j : ℕ) (x : A) → j < n → get_or (take n xs) j x ≡ get_or xs j x
  get_or-take zero xs j x h = absurd (omega arith)
  get_or-take (suc n) [] j x h = refl
  get_or-take (suc n) (y ∷ xs) zero x h = refl
  get_or-take (suc n) (y ∷ xs) (suc j) x h = get_or-take n xs j x (omega arith)

-- A property of every element.
abbrev pub All {ℓ κ} : {A : Type ℓ} → (A → Type κ) → List A → Type κ
All P [] = Unit
All P (x ∷ xs) = P x × All P xs

pub All-mono {ℓ κ μ} :
    {A : Type ℓ} {P : A → Type κ} {Q : A → Type μ}
    → ((a : A) → P a → Q a)
    → (xs : List A) → All P xs
    → All Q xs
All-mono f [] h = tt
All-mono f (x ∷ xs) h = (f x h.0, All-mono f xs h.1)

module _ {ℓ} {A : Type ℓ} where
  pub drop-drop : (n m : ℕ) (xs : List A) → drop n (drop m xs) ≡ drop (m + n) xs
  drop-drop n zero xs = let e : 0 + n ≡ n = omega arith in rw e
  drop-drop zero (suc m) [] = let e : suc m + 0 ≡ suc m = omega arith in rw e
  drop-drop (suc n) (suc m) [] = let e : suc m + suc n ≡ suc (m + suc n) = omega arith in rw e
  drop-drop n (suc m) (x ∷ xs) =
      let e : suc m + n ≡ suc (m + n) = omega arith in rw e (drop-drop n m xs)

  -- A length that is cut to the list's own takes the same.
  pub take-min : (n : ℕ) (xs : List A) → take (min n (length xs)) xs ≡ take n xs
  take-min zero xs = let e : min 0 (length xs) ≡ 0 = omega arith in rw e
  take-min (suc n) [] = let e : min (suc n) 0 ≡ 0 = omega arith in rw e
  take-min (suc n) (x ∷ xs) =
      let e : min (suc n) (suc (length xs)) ≡ suc (min n (length xs)) = omega arith in
      rw e (ap (◌∷◌ x) (take-min n xs))

  pub drop-all : (n : ℕ) (xs : List A) → length xs ≤ n → drop n xs ≡ []
  drop-all zero [] h = refl
  drop-all (suc n) [] h = refl
  drop-all zero (x ∷ xs) h = absurd (omega arith)
  drop-all (suc n) (x ∷ xs) h = drop-all n xs (omega arith)

pub All-append {ℓ κ} :
    {A : Type ℓ} (P : A → Type κ) (xs ys : List A) → All P xs → All P ys → All P (xs ++ ys)
All-append P [] ys h k = k
All-append P (x ∷ xs) ys h k = (h.0, All-append P xs ys h.1 k)

pub All-map {ℓ κ μ ν} :
    {A : Type ℓ} {B : Type κ} (g : A → B) (P : B → Type μ) (Q : A → Type ν)
    → ((x : A) → Q x → P (g x))
    → (xs : List A) → All Q xs
    → All P (map g xs)
All-map g P Q f [] h = tt
All-map g P Q f (x ∷ xs) h = (f x h.0, All-map g P Q f xs h.1)

pub each_unit {ℓ} : {A : Type ℓ} (xs : List A) → All (λ x. Unit {0}) xs
each_unit [] = tt
each_unit (x ∷ xs) = (tt, each_unit xs)
