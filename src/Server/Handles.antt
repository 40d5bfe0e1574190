-- ===== src/Server/Handles.antt =====
-- The list of task handles: its ids, and how many of its tasks run.
use rust_multichat_server.Base.{
  ℕ, ◌+◌, ◌<◌, ◌≡◌, refl, true, false, List, [], ◌∷◌, ◌++◌, ◌==◌, keep, length, count_by, ==_iff,
  arith, Bool-cases, inl, inr,
}
use rust_multichat_server.Server.{Handle, is_running, finish, runs}

-- Every id in the list lies below `bound`.
abbrev pub Fresh : ℕ → List Handle → Type 0
Fresh bound [] = Unit
Fresh bound (h ∷ hs) = (h.id < bound) × Fresh bound hs

abbrev pub NotIn : ℕ → List Handle → Type 0
NotIn id [] = Unit
NotIn id (h ∷ hs) = ((h.id == id) ≡ false) × NotIn id hs

abbrev pub Distinct : List Handle → Type 0
Distinct [] = Unit
Distinct (h ∷ hs) = NotIn h.id hs × Distinct hs

pub count_by-finish_missing :
    (id : ℕ) (hs : List Handle)
    → NotIn id hs
    → count_by is_running (finish id hs) ≡ count_by is_running hs
unfolding finish
count_by-finish_missing id [] n = refl
count_by-finish_missing id (h ∷ hs) n = ground (arith, count_by-finish_missing id hs n.1)

pub NotIn-eq : (a b : ℕ) (hs : List Handle) → a ≡ b → NotIn a hs → NotIn b hs
NotIn-eq a b hs e n = rw (← e) n

pub count_by-finish :
    (id : ℕ) (hs : List Handle)
    → Distinct hs
    → runs id hs ≡ true
    → count_by is_running (finish id hs) + 1 ≡ count_by is_running hs
unfolding finish runs
count_by-finish id [] d r = absurd (cc)
count_by-finish id (h ∷ hs) d r = elim (Bool-cases (h.id == id)) [
  | inl here ↦ ground (
    arith,
    count_by-finish_missing id hs
        (NotIn-eq h.id id hs (omega (arith, (==_iff h.id id).0 here)) d.0),
  )
  | inr other ↦ ground (arith, count_by-finish id hs d.1)
]

pub NotIn-finish : (id k : ℕ) (hs : List Handle) → NotIn k hs → NotIn k (finish id hs)
unfolding finish
NotIn-finish id k [] n = tt
NotIn-finish id k (h ∷ hs) n = ground (arith, NotIn-finish id k hs n.1)

pub Distinct-finish : (id : ℕ) (hs : List Handle) → Distinct hs → Distinct (finish id hs)
unfolding finish
Distinct-finish id [] d = tt
Distinct-finish id (h ∷ hs) d =
    ground (arith, Distinct-finish id hs d.1, NotIn-finish id h.id hs d.0)

pub Fresh-finish : (id n : ℕ) (hs : List Handle) → Fresh n hs → Fresh n (finish id hs)
unfolding finish
Fresh-finish id n [] f = tt
Fresh-finish id n (h ∷ hs) f = ground (arith, Fresh-finish id n hs f.1)

pub length-finish : (id : ℕ) (hs : List Handle) → length (finish id hs) ≡ length hs
unfolding finish
length-finish id [] = refl
length-finish id (h ∷ hs) = ground (arith, length-finish id hs)

pub count_by-keep :
    (hs : List Handle) → count_by is_running (keep is_running hs) ≡ count_by is_running hs
count_by-keep [] = refl
count_by-keep (h ∷ hs) = ground (arith, count_by-keep hs)

pub length-keep : (hs : List Handle) → length (keep is_running hs) ≡ count_by is_running hs
length-keep [] = refl
length-keep (h ∷ hs) = ground (arith, length-keep hs)

pub NotIn-keep : (k : ℕ) (hs : List Handle) → NotIn k hs → NotIn k (keep is_running hs)
NotIn-keep k [] n = tt
NotIn-keep k (h ∷ hs) n = ground (arith, NotIn-keep k hs n.1)

pub Distinct-keep : (hs : List Handle) → Distinct hs → Distinct (keep is_running hs)
Distinct-keep [] d = tt
Distinct-keep (h ∷ hs) d = ground (arith, Distinct-keep hs d.1, NotIn-keep h.id hs d.0)

pub Fresh-keep : (n : ℕ) (hs : List Handle) → Fresh n hs → Fresh n (keep is_running hs)
Fresh-keep n [] f = tt
Fresh-keep n (h ∷ hs) f = ground (arith, Fresh-keep n hs f.1)

-- The handles after a new task has been pushed.
abbrev pub pushed : ℕ → List Handle → List Handle
pushed n hs = hs ++ record { id = n; is_finished = false } ∷ []

pub Fresh-pushed : (n m : ℕ) (hs : List Handle) → n < m → Fresh n hs → Fresh m (pushed n hs)
Fresh-pushed n m [] lt f = (lt, tt)
Fresh-pushed n m (h ∷ hs) lt f = (omega arith, Fresh-pushed n m hs lt f.1)

pub NotIn-pushed : (n k : ℕ) (hs : List Handle) → k < n → NotIn k hs → NotIn k (pushed n hs)
NotIn-pushed n k [] lt d = ground arith
NotIn-pushed n k (h ∷ hs) lt d = (d.0, NotIn-pushed n k hs lt d.1)

pub Distinct-pushed : (n : ℕ) (hs : List Handle) → Fresh n hs → Distinct hs → Distinct (pushed n hs)
Distinct-pushed n [] f d = (tt, tt)
Distinct-pushed n (h ∷ hs) f d = (NotIn-pushed n h.id hs f.0 d.0, Distinct-pushed n hs f.1 d.1)

pub count_by-pushed :
    (n : ℕ) (hs : List Handle) → count_by is_running (pushed n hs) ≡ count_by is_running hs + 1
count_by-pushed n [] = omega arith
count_by-pushed n (h ∷ hs) = omega (arith, count_by-pushed n hs)

pub runs-keep : (k : ℕ) (hs : List Handle) → runs k hs ≡ true → runs k (keep is_running hs) ≡ true
unfolding runs
runs-keep k [] r = r
runs-keep k (h ∷ hs) r = ground (arith, runs-keep k hs)

pub runs-pushed : (n k : ℕ) (hs : List Handle) → runs k hs ≡ true → runs k (pushed n hs) ≡ true
unfolding runs
runs-pushed n k [] r = absurd (cc)
runs-pushed n k (h ∷ hs) r = ground (arith, runs-pushed n k hs)

pub runs-pushed_new : (n : ℕ) (hs : List Handle) → Fresh n hs → runs n (pushed n hs) ≡ true
unfolding runs
runs-pushed_new n [] f = ground arith
runs-pushed_new n (h ∷ hs) f = ground (arith, runs-pushed_new n hs f.1)

pub runs-finish :
    (id k : ℕ) (hs : List Handle) → (id == k) ≡ false → runs k (finish id hs) ≡ runs k hs
unfolding runs finish
runs-finish id k [] d = refl
runs-finish id k (h ∷ hs) d = ground (arith, runs-finish id k hs d)
