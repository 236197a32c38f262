-- ===== src/Bodies/Laws.antt =====
-- Cutting a body loses nothing.
use looplink.Base.{
  ℕ, zero, suc, ◌≤◌, ◌<◌, ◌≡◌, refl, ap, ◌∙◌, [], ◌∷◌, ◌++◌, length, take, drop, All,
  length-take-le, arith,
}
use looplink.Exchanges.Entry.{Bytes}
use looplink.Bodies.{split_from, split_bytes, joined}

take-drop : (n : ℕ) (xs : Bytes) → take n xs ++ drop n xs ≡ xs
take-drop zero xs = refl
take-drop (suc n) [] = refl
take-drop (suc n) (x ∷ xs) = ap (λ t. x ∷ t) (take-drop n xs)

length-drop-le : (n : ℕ) (xs : Bytes) → length (drop n xs) ≤ length xs
length-drop-le zero xs = omega arith
length-drop-le (suc n) [] = omega arith
length-drop-le (suc n) (x ∷ xs) = omega (arith, length-drop-le n xs)

split_from-joined :
    (fuel n : ℕ) (bytes : Bytes)
    → length bytes ≤ fuel
    → joined (split_from fuel (suc n) bytes) ≡ bytes
unfolding split_from joined
split_from-joined zero n [] h = refl
split_from-joined zero n (b ∷ bs) h = absurd (omega arith)
split_from-joined (suc fuel) n [] h = refl
split_from-joined (suc fuel) n (b ∷ bs) h =
    let less : length (drop n bs) ≤ fuel = omega (arith, length-drop-le n bs) in
    ap (λ t. b ∷ take n bs ++ t) (split_from-joined fuel n (drop n bs) less)
    ∙ ap (λ t. b ∷ t) (take-drop n bs)

split_from-sizes :
    (fuel n : ℕ) (bytes : Bytes)
    → All (λ chunk. (0 < length chunk) × (length chunk ≤ suc n)) (split_from fuel (suc n) bytes)
unfolding split_from
split_from-sizes zero n bytes = tt
split_from-sizes (suc fuel) n [] = tt
split_from-sizes (suc fuel) n (b ∷ bs) =
    ((omega arith, omega (arith, length-take-le n bs)), split_from-sizes fuel n (drop n bs))

-- Where a chunk may hold a byte, cutting a body comes to an end with all of it: the chunks put
-- together are the body, and each of them holds at least one byte and no more than the size that was
-- asked for.
pub split_bytes-joined :
    (n : ℕ) (bytes : Bytes)
    → (joined (split_bytes (suc n) bytes) ≡ bytes)
      × All (λ chunk. (0 < length chunk) × (length chunk ≤ suc n)) (split_bytes (suc n) bytes)
unfolding split_bytes
split_bytes-joined n bytes = (
  split_from-joined (length bytes) n bytes (omega arith),
  split_from-sizes (length bytes) n bytes,
)
