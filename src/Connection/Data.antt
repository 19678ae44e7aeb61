-- ===== src/Connection/Data.antt =====
-- Which frames carry which of the messages that have been loaded.
use miptp_cpp.Prelude.{
  ℕ, zero, suc, ◌+◌, ◌%◌, ◌≤◌, ◌≡◌, ◌⊎◌, refl, subst, Option, none, some, List, [], ◌∷◌, ◌++◌,
  length, drop, get_elem?, arith,
}
use miptp_cpp.MiptpFrame.{MiptpFrame, get_type, request, reply}
use miptp_cpp.ClientHandler.{sequence_size, queue_frames}
use miptp_cpp.Connection.Fill.{IsFilled}
use miptp_cpp.Connection.Numbers.{numbers}

-- The frame of message number `x`.
abbrev pub IsData : List (List ℕ) → ℕ → MiptpFrame → Type 0
IsData msgs x f = (m : List ℕ) × (get_elem? msgs x ≡ some m) × IsFilled (x % sequence_size) m f

abbrev pub IsControl : MiptpFrame → Type 0
IsControl f = (get_type f ≡ request) ⊎ (get_type f ≡ reply)

-- Frames of consecutive messages.
abbrev pub Flight : List (List ℕ) → ℕ → List MiptpFrame → Type 0
Flight msgs x [] = Unit
Flight msgs x (f ∷ fs) = IsData msgs x f × Flight msgs (x + 1) fs

-- The frames on the way have these numbers.
abbrev pub OnTheWay : List (List ℕ) → List (Option ℕ) → List (ℕ × MiptpFrame) → Type 0
OnTheWay msgs [] [] = Unit
OnTheWay msgs (none ∷ xs) (e ∷ queue) = IsControl e.1 × OnTheWay msgs xs queue
OnTheWay msgs (some x ∷ xs) (e ∷ queue) = IsData msgs x e.1 × OnTheWay msgs xs queue
OnTheWay msgs _ _ = ⊥

get_elem?-append :
    (msgs more : List (List ℕ)) (x : ℕ) (m : List ℕ)
    → get_elem? msgs x ≡ some m
    → get_elem? (msgs ++ more) x ≡ some m
get_elem?-append [] more x m e = cc
get_elem?-append (a ∷ msgs) more zero m e = e
get_elem?-append (a ∷ msgs) more (suc x) m e = get_elem?-append msgs more x m e

pub get_elem?-last :
    (msgs : List (List ℕ)) (m : List ℕ) → get_elem? (msgs ++ m ∷ []) (length msgs) ≡ some m
get_elem?-last [] m = refl
get_elem?-last (a ∷ msgs) m = get_elem?-last msgs m

-- A message that is loaded later changes nothing.
module _ (msgs more : List (List ℕ)) where
  IsData-more : (x : ℕ) (f : MiptpFrame) → IsData msgs x f → IsData (msgs ++ more) x f
  IsData-more x f (m, e, v) = (m, get_elem?-append msgs more x m e, v)

  pub Flight-more : (x : ℕ) (fs : List MiptpFrame) → Flight msgs x fs → Flight (msgs ++ more) x fs
  Flight-more x [] v = v
  Flight-more x (f ∷ fs) v = (IsData-more x f v.0, Flight-more (x + 1) fs v.1)

  pub OnTheWay-more :
      (xs : List (Option ℕ)) (queue : List (ℕ × MiptpFrame))
      → OnTheWay msgs xs queue
      → OnTheWay (msgs ++ more) xs queue
  OnTheWay-more [] [] v = v
  OnTheWay-more [] (e ∷ queue) v = v
  OnTheWay-more (none ∷ xs) [] v = v
  OnTheWay-more (some x ∷ xs) [] v = v
  OnTheWay-more (none ∷ xs) (e ∷ queue) v = (v.0, OnTheWay-more xs queue v.1)
  OnTheWay-more (some x ∷ xs) (e ∷ queue) v = (IsData-more x e.1 v.0, OnTheWay-more xs queue v.1)

module _ (msgs : List (List ℕ)) where
  pub Flight-last :
      (x : ℕ) (fs : List MiptpFrame) (f : MiptpFrame)
      → Flight msgs x fs
      → IsData msgs (x + length fs) f
      → Flight msgs x (fs ++ f ∷ [])
  Flight-last x [] f v w =
      (subst (λ n. IsData msgs n f) (let same : x + 0 ≡ x = omega arith in same) w, tt)
  Flight-last x (g ∷ fs) f v w = (
    v.0,
    Flight-last (x + 1) fs f v.1 (
        subst (λ n. IsData msgs n f)
          (let same : x + suc (length fs) ≡ x + 1 + length fs = omega arith in same) w),
  )

  pub Flight-drop :
      (x n : ℕ) (fs : List MiptpFrame)
      → n ≤ length fs
      → Flight msgs x fs
      → Flight msgs (x + n) (drop n fs)
  Flight-drop x zero fs h v =
      subst (λ n. Flight msgs n fs) (let same : x ≡ x + 0 = omega arith in same) v
  Flight-drop x (suc n) [] h v = absurd (omega arith)
  Flight-drop x (suc n) (f ∷ fs) h v =
      subst (λ m. Flight msgs m (drop n fs))
        (let same : x + 1 + n ≡ x + suc n = omega arith in same)
        (Flight-drop (x + 1) n fs (omega (arith, h)) v.1)

  pub OnTheWay-control :
      (xs : List (Option ℕ)) (queue : List (ℕ × MiptpFrame)) (dest : ℕ) (f : MiptpFrame)
      → IsControl f
      → OnTheWay msgs xs queue
      → OnTheWay msgs (xs ++ none ∷ []) (queue ++ (dest, f) ∷ [])
  OnTheWay-control [] [] dest f c v = (c, tt)
  OnTheWay-control [] (e ∷ queue) dest f c v = absurd v
  OnTheWay-control (none ∷ xs) [] dest f c v = absurd v
  OnTheWay-control (some x ∷ xs) [] dest f c v = absurd v
  OnTheWay-control (none ∷ xs) (e ∷ queue) dest f c v =
      (v.0, OnTheWay-control xs queue dest f c v.1)
  OnTheWay-control (some x ∷ xs) (e ∷ queue) dest f c v =
      (v.0, OnTheWay-control xs queue dest f c v.1)

  window-OnTheWay :
      (x dest : ℕ) (fs : List MiptpFrame)
      → Flight msgs x fs
      → OnTheWay msgs (numbers x (length fs)) (queue_frames dest fs)
  unfolding queue_frames
  window-OnTheWay x dest [] v = tt
  window-OnTheWay x dest (f ∷ fs) v = (v.0, window-OnTheWay (x + 1) dest fs v.1)

  pub OnTheWay-window :
      (xs : List (Option ℕ)) (queue : List (ℕ × MiptpFrame)) (x dest : ℕ) (fs : List MiptpFrame)
      → Flight msgs x fs
      → OnTheWay msgs xs queue
      → OnTheWay msgs (xs ++ numbers x (length fs)) (queue ++ queue_frames dest fs)
  OnTheWay-window [] [] x dest fs w v = window-OnTheWay x dest fs w
  OnTheWay-window [] (e ∷ queue) x dest fs w v = absurd v
  OnTheWay-window (none ∷ xs) [] x dest fs w v = absurd v
  OnTheWay-window (some y ∷ xs) [] x dest fs w v = absurd v
  OnTheWay-window (none ∷ xs) (e ∷ queue) x dest fs w v =
      (v.0, OnTheWay-window xs queue x dest fs w v.1)
  OnTheWay-window (some y ∷ xs) (e ∷ queue) x dest fs w v =
      (v.0, OnTheWay-window xs queue x dest fs w v.1)
