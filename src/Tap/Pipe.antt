-- ===== src/Tap/Pipe.antt =====
-- phraseguard/tap.py: _read_exact on a pipe, without a stop function.
use voip.Prelude.{
  ℕ, zero, suc, ◌+◌, ◌-◌, ◌≤◌, ◌<◌, ◌≡◌, refl, sym, ap, ◌∙◌, arith, false, List, [], ◌∷◌, ◌++◌,
  Option, none, some, All, length, take, drop, length-append, length-take, length-drop, ltb, leb,
  ◌==◌, if◌then◌else◌, Bool-cases, inl, inr,
}
use mathlib.Core.List.{append-nil, append_assoc}
use voip.Tap.G711.{Bytes}

-- A pipe is what the reads from it find, in order. A read is cut at the end of what has arrived.
abbrev pub Pipe : Type 0
Pipe = List Bytes

-- fh.read(k): empty at the end.
unfoldable pub read : ℕ → Pipe → Bytes × Pipe
read k [] = ([], [])
read k (c ∷ cs) = if leb (length c) k then (c, cs) else (take k c, drop k c ∷ cs)

-- The loop of _read_exact; `fuel` is the number of reads that are left.
unfoldable pub read_loop : ℕ → ℕ → Bytes → Pipe → Option (Bytes × Pipe)
unfolding read
read_loop zero n buf pipe = if ltb (length buf) n then none else some (buf, pipe)
read_loop (suc fuel) n buf pipe =
    let (chunk, rest) = read (n - length buf) pipe in
    let more = read_loop fuel n (buf ++ chunk) rest in
    if ltb (length buf) n then (if length chunk == 0 then none else more) else some (buf, pipe)

-- Each read brings a byte, so that `n` reads are enough.
unfoldable pub read_exact : ℕ → Pipe → Option (Bytes × Pipe)
unfolding read_loop
read_exact n pipe = read_loop n n [] pipe

-- The first `n` bytes of all that comes, and what is left.
unfoldable pub split_at : ℕ → Bytes → Option (Bytes × Bytes)
split_at n s = if ltb (length s) n then none else some (take n s, drop n s)

abbrev pub concat : Pipe → Bytes
concat [] = []
concat (c ∷ cs) = c ++ concat cs

-- The pipe brings the bytes `s`, and every read of it brings some.
abbrev pub Brings : Pipe → Bytes → Type 0
Brings pipe s = (concat pipe ≡ s) × All (λ c. 0 < length c) pipe

-- The same value from both, or none, and the same bytes left.
abbrev pub Agrees : {X : Type 0} → Option (X × Pipe) → Option (X × Bytes) → Type 0
Agrees none none = Unit
Agrees (some (a, pipe)) (some (b, s)) = (a ≡ b) × Brings pipe s
Agrees _ _ = ⊥

module _ {ℓ} {A : Type ℓ} where
  pub take-append_more :
      (k j : ℕ) (xs ys : List A) → k ≡ length xs + j → take k (xs ++ ys) ≡ xs ++ take j ys
  take-append_more k j [] ys h = ap (λ i. take i ys) (omega arith)
  take-append_more zero j (x ∷ xs) ys h = absurd (omega arith)
  take-append_more (suc k) j (x ∷ xs) ys h =
      ap (λ zs. x ∷ zs) (take-append_more k j xs ys (omega arith))

  pub drop-append_more :
      (k j : ℕ) (xs ys : List A) → k ≡ length xs + j → drop k (xs ++ ys) ≡ drop j ys
  drop-append_more k j [] ys h = ap (λ i. drop i ys) (omega arith)
  drop-append_more zero j (x ∷ xs) ys h = absurd (omega arith)
  drop-append_more (suc k) j (x ∷ xs) ys h = drop-append_more k j xs ys (omega arith)

  take_append_drop : (k : ℕ) (xs : List A) → take k xs ++ drop k xs ≡ xs
  take_append_drop zero xs = refl
  take_append_drop (suc k) [] = refl
  take_append_drop (suc k) (x ∷ xs) = ap (λ zs. x ∷ zs) (take_append_drop k xs)

-- What the loop is to return with `buf` read and `s` to come.
unfoldable rest_of : ℕ → Bytes → Bytes → Option (Bytes × Bytes)
rest_of n buf s =
    let k = n - length buf in if ltb (length s) k then none else some (buf ++ take k s, drop k s)

rest_of-append :
    (n : ℕ) (buf c s : Bytes)
    → length buf + length c ≤ n
    → rest_of n (buf ++ c) s ≡ rest_of n buf (c ++ s)
unfolding rest_of
rest_of-append n buf c s h =
    let split : n - length buf ≡ length c + (n - length (buf ++ c)) =
      omega (arith, length-append buf c) in
    let taken = take-append_more (n - length buf) (n - length (buf ++ c)) c s split in
    let left = drop-append_more (n - length buf) (n - length (buf ++ c)) c s split in
    rw (taken, left, append_assoc) (ground (arith, length-append c s))

rest_of_done : (n : ℕ) (buf s : Bytes) → length buf ≡ n → rest_of n buf s ≡ some (buf, s)
unfolding rest_of
rest_of_done n buf s h =
    let none_left : n - length buf ≡ 0 = omega arith in rw (none_left, append-nil) (ground arith)

rest_of_short : (n : ℕ) (buf s : Bytes) → length buf + length s < n → rest_of n buf s ≡ none
unfolding rest_of
rest_of_short n buf s h = ground arith

rest_of_all : (n : ℕ) (s : Bytes) → rest_of n [] s ≡ split_at n s
unfolding rest_of split_at
rest_of_all n s = let e : n - 0 ≡ n = omega arith in rw e refl

-- The round that reads `chunk`.
read_round :
    (fuel n : ℕ) (buf chunk s : Bytes) (pipe : Pipe)
    → 0 < length chunk
    → length buf + length chunk ≤ n
    → chunk ++ concat pipe ≡ s
    → Agrees (read_loop fuel n (buf ++ chunk) pipe) (rest_of n (buf ++ chunk) (concat pipe))
    → Agrees
        (if length chunk == 0 then none else read_loop fuel n (buf ++ chunk) pipe)
        (rest_of n buf s)
read_round fuel n buf chunk s pipe some_byte le e h =
    let kept : (length chunk == 0) ≡ false = ground arith in
    rw kept (rw (rest_of-append n buf chunk (concat pipe) le, e) at h)

-- What a read of a pipe that has more finds.
read_some :
    (k : ℕ) (c : Bytes) (cs : Pipe)
    → 0 < k
    → All (λ c. 0 < length c) (c ∷ cs)
    → (0 < length (read k (c ∷ cs)).0)
      × (length (read k (c ∷ cs)).0 ≤ k)
      × ((read k (c ∷ cs)).0 ++ concat (read k (c ∷ cs)).1 ≡ c ++ concat cs)
      × All (λ c. 0 < length c) (read k (c ∷ cs)).1
unfolding read
read_some k c cs lt h = elim (Bool-cases (leb (length c) k)) [
  | inl whole ↦ rw (read, whole) (h.0, ground arith, refl, h.1)
  | inr cut ↦
      let shorter : k < length c = ground arith in
      rw (read, cut)
        (
          omega (arith, length-take k c),
          omega (arith, length-take k c),
          sym (append_assoc (take k c) (drop k c) (concat cs))
              ∙ ap (λ x. x ++ concat cs) (take_append_drop k c),
          (omega (arith, length-drop k c), h.1),
        )
]

read_loop-Agrees :
    (fuel n : ℕ) (buf : Bytes) (pipe : Pipe)
    → All (λ c. 0 < length c) pipe
    → n ≤ length buf + fuel
    → length buf ≤ n
    → Agrees (read_loop fuel n buf pipe) (rest_of n buf (concat pipe))
unfolding read_loop
read_loop-Agrees zero n buf pipe h enough le =
    let full : ltb (length buf) n ≡ false = ground arith in
    rw (full, rest_of_done n buf (concat pipe) (omega arith)) (refl, (refl, h))
read_loop-Agrees (suc fuel) n buf [] h enough le = elim (Bool-cases (ltb (length buf) n)) [
  | inr full ↦ rw (full, rest_of_done n buf [] (ground arith)) (refl, (refl, tt))
  | inl wanting ↦ rw (wanting, rest_of_short n buf [] (ground arith)) tt
]
read_loop-Agrees (suc fuel) n buf (c ∷ cs) h enough le = elim (Bool-cases (ltb (length buf) n)) [
  | inr full ↦ rw (full, rest_of_done n buf (concat (c ∷ cs)) (ground arith)) (refl, (refl, h))
  | inl wanting ↦
      let k = n - length buf in
      let (some_byte, le_k, e, left) = read_some k c cs (ground arith) h in
      let (chunk, rest) = read k (c ∷ cs) in
      rw wanting (
        read_round fuel n buf chunk (c ++ concat cs) rest some_byte (ground arith) e (
          read_loop-Agrees fuel n (buf ++ chunk) rest left (omega (arith, length-append buf chunk))
            (ground (arith, length-append buf chunk))))
]

-- However the writer cut what it sent, _read_exact returns the first `n` bytes of it and leaves the
-- others, or returns nothing where there are fewer.
pub read_exact-Agrees :
    (n : ℕ) (pipe : Pipe) (s : Bytes) → Brings pipe s → Agrees (read_exact n pipe) (split_at n s)
unfolding read_exact
read_exact-Agrees n pipe s (e, h) =
    rw (e, rest_of_all) at (read_loop-Agrees n n [] pipe h (omega arith) (omega arith))
