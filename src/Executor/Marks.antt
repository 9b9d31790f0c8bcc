-- ===== src/Executor/Marks.antt =====
-- Marks of ports: lists of Booleans, which of them are set, and how many.
use dozer.Common.{
  ℕ, zero, suc, ◌+◌, ◌<◌, ◌≤◌, ◌≡◌, ◌≢◌, refl, Bool, true, false, some, List, [], ◌∷◌, length,
  get_elem?, set, replicate, arith, if◌then◌else◌, ap, sym, ◌∙◌,
}

abbrev pub count : List Bool → ℕ
count [] = 0
count (b ∷ bs) = (if b then 1 else 0) + count bs

pub get-replicate : (n i : ℕ) (b c : Bool) → get_elem? (replicate n b) i ≡ some c → b ≡ c
get-replicate zero i b c e = absurd (cc)
get-replicate (suc n) zero b c e = cc
get-replicate (suc n) (suc i) b c e = get-replicate n i b c e

pub count-replicate : (n : ℕ) → count (replicate n false) ≡ 0
count-replicate zero = refl
count-replicate (suc n) = omega (arith, count-replicate n)

pub length-set {ℓ} : {A : Type ℓ} (bs : List A) (i : ℕ) (b : A) → length (set bs i b) ≡ length bs
length-set [] i b = refl
length-set (x ∷ bs) zero b = refl
length-set (x ∷ bs) (suc i) b = ap suc (length-set bs i b)

pub count-set :
    (bs : List Bool) (i : ℕ) → get_elem? bs i ≡ some false → count (set bs i true) ≡ suc (count bs)
count-set [] i e = absurd (cc)
count-set (b ∷ bs) zero e = ground (arith, e)
count-set (b ∷ bs) (suc i) e = ground (arith, count-set bs i e)

pub get-set_self : (bs : List Bool) (i : ℕ) (b c : Bool) → get_elem? (set bs i b) i ≡ some c → b ≡ c
get-set_self [] i b c e = absurd (cc)
get-set_self (x ∷ bs) zero b c e = cc
get-set_self (x ∷ bs) (suc i) b c e = get-set_self bs i b c e

pub get-set_ne :
    (bs : List Bool) (i j : ℕ) (b : Bool) → i ≢ j → get_elem? (set bs i b) j ≡ get_elem? bs j
get-set_ne [] i j b ne = refl
get-set_ne (x ∷ bs) zero zero b ne = absurd (ne refl)
get-set_ne (x ∷ bs) zero (suc j) b ne = refl
get-set_ne (x ∷ bs) (suc i) zero b ne = refl
get-set_ne (x ∷ bs) (suc i) (suc j) b ne = get-set_ne bs i j b (λ e. ne (ap suc e))

pub set-known :
    (bs : List Bool) (i : ℕ) (b c : Bool)
    → get_elem? bs i ≡ some c
    → get_elem? (set bs i b) i ≡ some b
set-known [] i b c e = absurd (cc)
set-known (x ∷ bs) zero b c e = refl
set-known (x ∷ bs) (suc i) b c e = set-known bs i b c e

pub get-some : (bs : List Bool) (i : ℕ) → i < length bs → (b : Bool) × (get_elem? bs i ≡ some b)
get-some [] i h = absurd (omega arith)
get-some (x ∷ bs) zero h = (x, refl)
get-some (x ∷ bs) (suc i) h = get-some bs i (omega arith)

pub count-le-length : (bs : List Bool) → count bs ≤ length bs
count-le-length [] = omega arith
count-le-length (b ∷ bs) = ground (arith, count-le-length bs)

-- Marks as many as there are places are everywhere.
pub count-full :
    (bs : List Bool) (i : ℕ) → count bs ≡ length bs → i < length bs → get_elem? bs i ≡ some true
count-full [] i e h = absurd (omega arith)
count-full (b ∷ bs) zero e h = ground (arith, e, count-le-length bs)
count-full (b ∷ bs) (suc i) e h =
    let rest : count bs ≡ length bs = ground (arith, e, count-le-length bs) in
    count-full bs i rest (omega arith)

pub get-lt-length : (bs : List Bool) (i : ℕ) (b : Bool) → get_elem? bs i ≡ some b → i < length bs
get-lt-length [] i b e = absurd (cc)
get-lt-length (x ∷ bs) zero b e = omega arith
get-lt-length (x ∷ bs) (suc i) b e = omega (arith, get-lt-length bs i b e)

-- If one mark is missing, all others are set.
pub count-rest :
    (bs : List Bool) (i j : ℕ)
    → get_elem? bs i ≡ some false
    → count bs + 1 ≡ length bs
    → i ≢ j
    → j < length bs
    → get_elem? bs j ≡ some true
count-rest bs i j e full ne h =
    sym (get-set_ne bs i j true ne)
    ∙ count-full (set bs i true) j (omega (arith, count-set bs i e, length-set bs i true, full))
        (omega (arith, length-set bs i true))
