-- ===== src/Vm/Memory/Overwrite.antt =====
-- Bytes copied into a vector: its length, the bytes that are read back, and the bytes outside.
use sbpf.Base.{ℕ, zero, suc, ◌+◌, ◌≤◌, ◌<◌, ◌≡◌, refl, ap, ◌⊎◌, arith}
use sbpf.Base.{List, [], ◌∷◌, length, take, drop, get_elem?}
use sbpf.Vm.Memory.{overwrite}

pub length-overwrite : (xs : List ℕ) (i : ℕ) (vs : List ℕ) → length (overwrite xs i vs) ≡ length xs
unfolding overwrite
length-overwrite xs zero [] = refl
length-overwrite [] zero (v ∷ vs) = refl
length-overwrite (x ∷ xs) zero (v ∷ vs) = ap suc (length-overwrite xs zero vs)
length-overwrite [] (suc i) vs = refl
length-overwrite (x ∷ xs) (suc i) vs = ap suc (length-overwrite xs i vs)

pub take-drop-overwrite :
    (xs : List ℕ) (i : ℕ) (vs : List ℕ)
    → i + length vs ≤ length xs
    → take (length vs) (drop i (overwrite xs i vs)) ≡ vs
unfolding overwrite
take-drop-overwrite xs zero [] h = refl
take-drop-overwrite [] zero (v ∷ vs) h = absurd (omega arith)
take-drop-overwrite (x ∷ xs) zero (v ∷ vs) h =
    ap (λ t. v ∷ t) (take-drop-overwrite xs zero vs (omega arith))
take-drop-overwrite [] (suc i) vs h = absurd (omega arith)
take-drop-overwrite (x ∷ xs) (suc i) vs h = take-drop-overwrite xs i vs (omega arith)

pub get_elem?-overwrite_outside :
    (xs : List ℕ) (i : ℕ) (vs : List ℕ) (j : ℕ)
    → (j < i) ⊎ (i + length vs ≤ j)
    → get_elem? (overwrite xs i vs) j ≡ get_elem? xs j
unfolding overwrite
get_elem?-overwrite_outside xs zero [] j h = refl
get_elem?-overwrite_outside [] zero (v ∷ vs) j h = refl
get_elem?-overwrite_outside (x ∷ xs) zero (v ∷ vs) zero h = absurd (omega arith)
get_elem?-overwrite_outside (x ∷ xs) zero (v ∷ vs) (suc j) h =
    get_elem?-overwrite_outside xs zero vs j (omega arith)
get_elem?-overwrite_outside [] (suc i) vs j h = refl
get_elem?-overwrite_outside (x ∷ xs) (suc i) vs zero h = refl
get_elem?-overwrite_outside (x ∷ xs) (suc i) vs (suc j) h =
    get_elem?-overwrite_outside xs i vs j (omega arith)

-- Slices that do not meet the bytes written are unchanged.
pub take-drop-overwrite_before :
    (xs : List ℕ) (i : ℕ) (vs : List ℕ) (j k : ℕ)
    → j + k ≤ i
    → take k (drop j (overwrite xs i vs)) ≡ take k (drop j xs)
unfolding overwrite
take-drop-overwrite_before xs i vs j zero h = refl
take-drop-overwrite_before xs zero vs j (suc k) h = absurd (omega arith)
take-drop-overwrite_before [] (suc i) vs j (suc k) h = refl
take-drop-overwrite_before (x ∷ xs) (suc i) vs zero (suc k) h =
    ap (λ t. x ∷ t) (take-drop-overwrite_before xs i vs zero k (omega arith))
take-drop-overwrite_before (x ∷ xs) (suc i) vs (suc j) (suc k) h =
    take-drop-overwrite_before xs i vs j (suc k) (omega arith)

pub drop-overwrite_after :
    (xs : List ℕ) (i : ℕ) (vs : List ℕ) (j : ℕ)
    → i + length vs ≤ j
    → drop j (overwrite xs i vs) ≡ drop j xs
unfolding overwrite
drop-overwrite_after xs zero [] j h = refl
drop-overwrite_after xs zero (v ∷ vs) zero h = absurd (omega arith)
drop-overwrite_after [] zero (v ∷ vs) (suc j) h = refl
drop-overwrite_after (x ∷ xs) zero (v ∷ vs) (suc j) h =
    drop-overwrite_after xs zero vs j (omega arith)
drop-overwrite_after xs (suc i) vs zero h = absurd (omega arith)
drop-overwrite_after [] (suc i) vs (suc j) h = refl
drop-overwrite_after (x ∷ xs) (suc i) vs (suc j) h = drop-overwrite_after xs i vs j (omega arith)
