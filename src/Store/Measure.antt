-- ===== src/Store/Measure.antt =====
-- The chunked loop of `_measure` reads what one bounded read would.
use netbox_scripts.Base.{
  ℕ, zero, suc, ◌+◌, ◌-◌, ◌≡◌, ◌≤◌, ◌<◌, refl, sym, ap, ◌∙◌, true, false, [], ◌∷◌, ◌++◌, arith, ltb,
  take, drop, length, length-append, is_empty, Bool-cases, inl, inr,
}
use Prim.Native.Nat.{min}
use mathlib.Core.List.{append-nil, append_assoc}
use native.Mathlib.Nat.{sub-zero, add_assoc}
use netbox_scripts.Manifest.{Bytes}
use netbox_scripts.Store.{measure_loop, measure, hash_chunk}

take-nil : (n : ℕ) → take {A = ℕ} n [] ≡ []
take-nil zero = refl
take-nil (suc n) = refl

-- A bounded read in two parts; the first may be short only where the content ends.
take_parts :
    (n r : ℕ) (xs : Bytes)
    → n ≤ r
    → take r xs ≡ take n xs ++ take (r - length (take n xs)) (drop n xs)
take_parts zero r xs h = rw sub-zero
take_parts (suc n) zero xs h = absurd (omega arith)
take_parts (suc n) (suc r) [] h = sym (take-nil (suc r - 0))
take_parts (suc n) (suc r) (x ∷ xs) h =
    let e : suc r - suc (length (take n xs)) ≡ r - length (take n xs) = omega arith in
    rw e (ap (λ rest. x ∷ rest) (take_parts n r xs (omega arith)))

take_empty : (n : ℕ) (xs : Bytes) → 0 < n → is_empty (take n xs) ≡ true → xs ≡ []
take_empty zero xs h e = absurd (omega arith)
take_empty (suc n) [] h e = refl
take_empty (suc n) (x ∷ xs) h e = cc

length-take-le : (n : ℕ) (xs : Bytes) → length (take n xs) ≤ n
length-take-le zero xs = omega arith
length-take-le (suc n) [] = omega arith
length-take-le (suc n) (x ∷ xs) = omega (arith, length-take-le n xs)

length_pos : (xs : Bytes) → is_empty xs ≡ false → 0 < length xs
length_pos [] h = cc
length_pos (x ∷ xs) h = omega arith

measure_done :
    (fuel chunk : ℕ) (content : Bytes) (remaining size : ℕ) (hashed : Bytes)
    → ltb 0 remaining ≡ false
    → measure_loop (suc fuel) chunk content remaining size hashed
      ≡ (size + length (take remaining content), hashed ++ take remaining content)
unfolding measure_loop
measure_done fuel chunk content zero size hashed h = rw append-nil (ground arith)
measure_done fuel chunk content (suc r) size hashed h = ground arith

measure_end :
    (fuel chunk : ℕ) (content : Bytes) (remaining size : ℕ) (hashed : Bytes)
    → is_empty (take (min chunk remaining) content) ≡ true
    → content ≡ []
    → measure_loop (suc fuel) chunk content remaining size hashed
      ≡ (size + length (take remaining content), hashed ++ take remaining content)
unfolding measure_loop
measure_end fuel chunk content remaining size hashed h e =
    let nothing : take remaining content ≡ [] = ap (take remaining) e ∙ take-nil remaining in
    rw (nothing, append-nil)
      (elim (Bool-cases (ltb 0 remaining)) [
        | inl more ↦ rw (more, h, measure_loop) (ground arith)
        | inr done ↦ rw (done, measure_loop) (ground arith)
      ])

-- What one round adds and what the rest adds is what a single read adds.
regroup :
    (n remaining : ℕ) (content : Bytes) (size : ℕ) (hashed : Bytes)
    → n ≤ remaining
    → let block = take n content in
      let later = take (remaining - length block) (drop n content) in
      ◌≡◌ {A = ℕ × Bytes}
        (size + length block + length later, (hashed ++ block) ++ later)
        (size + length (take remaining content), hashed ++ take remaining content)
regroup n remaining content size hashed h =
    rw (take_parts n remaining content h, append_assoc, length-append) (rw add_assoc refl)

measure_loop_lem :
    (fuel chunk : ℕ) (content : Bytes) (remaining size : ℕ) (hashed : Bytes)
    → 0 < chunk
    → remaining ≤ fuel
    → measure_loop fuel chunk content remaining size hashed
      ≡ (size + length (take remaining content), hashed ++ take remaining content)
unfolding measure_loop
measure_loop_lem zero chunk content zero size hashed c h = rw append-nil (ground arith)
measure_loop_lem zero chunk content (suc r) size hashed c h = absurd (omega arith)
measure_loop_lem (suc fuel) chunk content remaining size hashed c h =
    let n = min chunk remaining in
    let block = take n content in
    elim (Bool-cases (ltb 0 remaining)) [
      | inr done ↦ measure_done fuel chunk content remaining size hashed done
      | inl more ↦ elim (Bool-cases (is_empty block)) [
        | inl end ↦
            measure_end fuel chunk content remaining size hashed end
              (take_empty n content (ground arith) end)
        | inr some_bytes ↦
            let p = length_pos block some_bytes in
            rw (more, some_bytes, measure_loop)
              (measure_loop_lem fuel chunk (drop n content) (remaining - length block)
                  (size + length block) (hashed ++ block) c (omega arith)
                ∙ regroup n remaining content size hashed (omega arith))
      ]
    ]

-- A bounded read of everything gives the same size and the same bytes to hash.
pub measure_lem :
    (content : Bytes) (expected : ℕ)
    → measure content expected ≡ (length (take (expected + 1) content), take (expected + 1) content)
unfolding measure
measure_lem content expected =
    measure_loop_lem (expected + 1) hash_chunk content (expected + 1) 0 [] (omega arith)
      (omega arith)
    ∙ ground arith
