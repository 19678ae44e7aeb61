-- ===== src/Connection/Numbers.antt =====
-- The frames on the way between two ends of a connection, by their numbers: a frame of data or an ack
-- has a number that does not wrap, any other frame has none.
use miptp_cpp.Prelude.{
  ℕ, zero, suc, ◌+◌, ◌≤◌, ◌<◌, Option, none, some, List, [], ◌∷◌, ◌++◌, All, arith,
}

-- Every number that comes later is at least this one less nine.
abbrev pub NearBehind : ℕ → Option ℕ → Type 0
NearBehind x none = Unit
NearBehind x (some z) = x ≤ z + 9

-- The numbers of the data on the way: all have been loaded, a frame comes at most nine places after
-- a later one, and the frame that the receiver waits for is at most ten after each.
abbrev pub DataOrder : ℕ → ℕ → List (Option ℕ) → Type 0
DataOrder loaded waits [] = Unit
DataOrder loaded waits (none ∷ xs) = DataOrder loaded waits xs
DataOrder loaded waits (some x ∷ xs) =
    (x < loaded) × (waits ≤ x + 10) × All (NearBehind x) xs × DataOrder loaded waits xs

-- The numbers of the acks on the way, in order, from a base on and up to the frame waited for.
abbrev pub AckOrder : ℕ → ℕ → List (Option ℕ) → Type 0
AckOrder base waits [] = Unit
AckOrder base waits (none ∷ xs) = AckOrder base waits xs
AckOrder base waits (some a ∷ xs) = (base ≤ a) × (a ≤ waits) × AckOrder a waits xs

pub DataOrder-loaded :
    (n m waits : ℕ) (xs : List (Option ℕ)) → n ≤ m → DataOrder n waits xs → DataOrder m waits xs
DataOrder-loaded n m waits [] h v = v
DataOrder-loaded n m waits (none ∷ xs) h v = DataOrder-loaded n m waits xs h v
DataOrder-loaded n m waits (some x ∷ xs) h v =
    (omega (arith, v.0), v.1, v.2, DataOrder-loaded n m waits xs h v.3)

-- The receiver has taken the frame in front, the one that it waited for.
pub DataOrder-taken :
    (loaded x : ℕ) (xs : List (Option ℕ))
    → All (NearBehind x) xs
    → DataOrder loaded x xs
    → DataOrder loaded (x + 1) xs
DataOrder-taken loaded x [] h v = v
DataOrder-taken loaded x (none ∷ xs) h v = DataOrder-taken loaded x xs h.1 v
DataOrder-taken loaded x (some z ∷ xs) h v =
    (v.0, omega (arith, h.0), v.2, DataOrder-taken loaded x xs h.1 v.3)

pub All-none :
    (x : ℕ) (xs : List (Option ℕ)) → All (NearBehind x) xs → All (NearBehind x) (xs ++ none ∷ [])
All-none x [] h = (tt, tt)
All-none x (z ∷ xs) h = (h.0, All-none x xs h.1)

-- A frame without a number joins.
pub DataOrder-none :
    (loaded waits : ℕ) (xs : List (Option ℕ))
    → DataOrder loaded waits xs
    → DataOrder loaded waits (xs ++ none ∷ [])
DataOrder-none loaded waits [] v = v
DataOrder-none loaded waits (none ∷ xs) v = DataOrder-none loaded waits xs v
DataOrder-none loaded waits (some x ∷ xs) v =
    (v.0, v.1, All-none x xs v.2, DataOrder-none loaded waits xs v.3)

-- The window that is sent: so many numbers from a base on.
abbrev pub numbers : ℕ → ℕ → List (Option ℕ)
numbers base zero = []
numbers base (suc n) = some base ∷ numbers (base + 1) n

numbers-NearBehind : (x base n : ℕ) → x ≤ base + 9 → All (NearBehind x) (numbers base n)
numbers-NearBehind x base zero h = tt
numbers-NearBehind x base (suc n) h = (h, numbers-NearBehind x (base + 1) n (omega arith))

All-append_numbers :
    (x base n : ℕ) (xs : List (Option ℕ))
    → x ≤ base + 9
    → All (NearBehind x) xs
    → All (NearBehind x) (xs ++ numbers base n)
All-append_numbers x base n [] h v = numbers-NearBehind x base n h
All-append_numbers x base n (z ∷ xs) h v = (v.0, All-append_numbers x base n xs h v.1)

numbers-DataOrder :
    (waits base n : ℕ) → waits ≤ base + 10 → DataOrder (base + n) waits (numbers base n)
numbers-DataOrder waits base zero h = tt
numbers-DataOrder waits base (suc n) h = (
  omega arith,
  h,
  numbers-NearBehind base (base + 1) n (omega arith),
  DataOrder-loaded (base + 1 + n) (base + suc n) waits (numbers (base + 1) n) (omega arith)
      (numbers-DataOrder waits (base + 1) n (omega arith)),
)

-- The whole window is sent again behind what is on the way.
pub DataOrder-window :
    (waits base n : ℕ) (xs : List (Option ℕ))
    → n ≤ 10
    → waits ≤ base + n
    → DataOrder (base + n) waits xs
    → DataOrder (base + n) waits (xs ++ numbers base n)
DataOrder-window waits base n [] h k v = numbers-DataOrder waits base n (omega arith)
DataOrder-window waits base n (none ∷ xs) h k v = DataOrder-window waits base n xs h k v
DataOrder-window waits base n (some x ∷ xs) h k v = (
  v.0,
  v.1,
  All-append_numbers x base n xs (omega (arith, v.0)) v.2,
  DataOrder-window waits base n xs h k v.3,
)

pub AckOrder-base :
    (b a waits : ℕ) (xs : List (Option ℕ)) → b ≤ a → AckOrder a waits xs → AckOrder b waits xs
AckOrder-base b a waits [] h v = v
AckOrder-base b a waits (none ∷ xs) h v = AckOrder-base b a waits xs h v
AckOrder-base b a waits (some x ∷ xs) h v = (omega (arith, v.0), v.1, v.2)

pub AckOrder-waits :
    (base n m : ℕ) (xs : List (Option ℕ)) → n ≤ m → AckOrder base n xs → AckOrder base m xs
AckOrder-waits base n m [] h v = v
AckOrder-waits base n m (none ∷ xs) h v = AckOrder-waits base n m xs h v
AckOrder-waits base n m (some x ∷ xs) h v = (v.0, omega (arith, v.1), AckOrder-waits x n m xs h v.2)

pub AckOrder-none :
    (base waits : ℕ) (xs : List (Option ℕ))
    → AckOrder base waits xs
    → AckOrder base waits (xs ++ none ∷ [])
AckOrder-none base waits [] v = v
AckOrder-none base waits (none ∷ xs) v = AckOrder-none base waits xs v
AckOrder-none base waits (some x ∷ xs) v = (v.0, v.1, AckOrder-none x waits xs v.2)

-- An ack of what the receiver waits for joins.
pub AckOrder-ack :
    (base waits : ℕ) (xs : List (Option ℕ))
    → base ≤ waits
    → AckOrder base waits xs
    → AckOrder base waits (xs ++ some waits ∷ [])
AckOrder-ack base waits [] h v = (h, omega arith, tt)
AckOrder-ack base waits (none ∷ xs) h v = AckOrder-ack base waits xs h v
AckOrder-ack base waits (some x ∷ xs) h v = (v.0, v.1, AckOrder-ack x waits xs v.1 v.2)
