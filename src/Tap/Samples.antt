-- ===== src/Tap/Samples.antt =====
-- What decoded audio of phraseguard/tap.py holds: the samples of the G.711 tables, all 16 bits wide.
use voip.Prelude.{
  ℕ, zero, suc, ◌+◌, ◌-◌, ◌*◌, ◌≤◌, ◌<◌, ◌⊎◌, inl, inr, subst, and-true, ◌≡◌, refl, ap, arith, Bool,
  true, false, ◌&&◌, List, [], ◌∷◌, ◌++◌, map, All, length, get_or, ltb, if◌then◌else◌,
  length-append,
}
use voip.Tap.G711.{
  ℤ, pos, negsuc, square, Bytes, ulaw, alaw, range_from, table, pack_int16, table_pcm, decode_g711,
  square_sum,
}

abbrev pub IsByte : ℕ → Type 0
IsByte b = b < 256

-- Reading 16-bit little-endian audio back, which is how a recogniser takes it.
unfoldable pub samples : Bytes → List ℤ
samples (lo ∷ hi ∷ rest) =
    (if ltb hi 128 then pos (lo + 256 * hi) else negsuc (65535 - (lo + 256 * hi))) ∷ samples rest
samples _ = []

unfoldable pub energy : List ℤ → ℕ
unfolding square
energy [] = 0
energy (v ∷ vs) = square v + energy vs

-- The linear value of a code.
unfoldable pub linear : Bool → ℕ → ℤ
unfolding ulaw alaw
linear is_alaw b = if is_alaw then alaw b else ulaw b

abbrev pub fits : ℤ → Bool
fits (pos n) = ltb n 32768
fits (negsuc n) = ltb n 32768

-- The test of the codes i, i + 1, and so on, n of them; evaluation runs it on all codes of a byte.
abbrev pass : (ℕ → Bool) → ℕ → ℕ → Bool
pass test i zero = true
pass test i (suc n) = test i && pass test (i + 1) n

pass_at : (test : ℕ → Bool) (i n k : ℕ) → pass test i n ≡ true → i ≤ k → k < i + n → test k ≡ true
pass_at test i zero k h le lt = absurd (omega arith)
pass_at test i (suc n) k h le lt =
    let e = and-true (test i) (pass test (i + 1) n) h in
    let split : (i ≡ k) ⊎ (i + 1 ≤ k) = omega arith in
    elim split [
      | inl same ↦ subst (λ k. test k ≡ true) same e.0
      | inr above ↦ pass_at test (i + 1) n k e.1 above (omega arith)
    ]

linear-fits : (is_alaw : Bool) (b : ℕ) → IsByte b → fits (linear is_alaw b) ≡ true
unfolding linear
linear-fits true b h = pass_at (λ b. fits (alaw b)) 0 256 b refl (omega arith) h
linear-fits false b h = pass_at (λ b. fits (ulaw b)) 0 256 b refl (omega arith) h

get_or-range {ℓ} :
    {A : Type ℓ} (f : ℕ → A) (d : A) (i n k j : ℕ)
    → k < n
    → j ≡ i + k
    → get_or (map f (range_from i n)) k d ≡ f j
unfolding range_from
get_or-range f d i zero k j h e = absurd (omega arith)
get_or-range f d i (suc n) zero j h e = ap f (omega arith)
get_or-range f d i (suc n) (suc k) j h e =
    get_or-range f d (i + 1) n k j (omega arith) (omega arith)

get_or-map {ℓ κ} :
    {A : Type ℓ} {B : Type κ} (f : A → B) (xs : List A) (k : ℕ) (d : A) (e : B)
    → k < length xs
    → get_or (map f xs) k e ≡ f (get_or xs k d)
get_or-map f [] k d e h = elim h [ ]
get_or-map f (x ∷ xs) zero d e h = refl
get_or-map f (x ∷ xs) (suc k) d e h = get_or-map f xs k d e (omega arith)

table_lem :
    (is_alaw : Bool) (b : ℕ) → IsByte b → get_or (table is_alaw) b (pos 0) ≡ linear is_alaw b
unfolding table linear
table_lem true b h = get_or-range alaw (pos 0) 0 256 b b h (omega arith)
table_lem false b h = get_or-range ulaw (pos 0) 0 256 b b h (omega arith)

length-table : (is_alaw : Bool) → length (table is_alaw) ≡ 256
unfolding table range_from
length-table true = refl
length-table false = refl

table_pcm_lem :
    (is_alaw : Bool) (b : ℕ)
    → IsByte b
    → get_or (table_pcm is_alaw) b [] ≡ pack_int16 (linear is_alaw b)
unfolding table_pcm
table_pcm_lem is_alaw b h =
    rw (get_or-map pack_int16 (table is_alaw) b (pos 0) [] (omega (arith, length-table is_alaw)))
      (ap pack_int16 (table_lem is_alaw b h))

-- Packing and reading are inverse on 16 bits.
samples-pack :
    (v : ℤ) (rest : Bytes) → fits v ≡ true → samples (pack_int16 v ++ rest) ≡ v ∷ samples rest
unfolding samples pack_int16
samples-pack (pos n) rest h = ground arith
samples-pack (negsuc n) rest h = ground arith

length-pack : (v : ℤ) → length (pack_int16 v) ≡ 2
unfolding pack_int16
length-pack (pos n) = refl
length-pack (negsuc n) = refl

-- Reading what decode_g711 wrote gives back the linear value of each byte of the payload, and each
-- is a 16-bit sample.
pub samples-decode :
    (is_alaw : Bool) (payload : Bytes)
    → All IsByte payload
    → (samples (decode_g711 is_alaw payload) ≡ map (linear is_alaw) payload)
      × All (λ v. fits v ≡ true) (samples (decode_g711 is_alaw payload))
unfolding decode_g711 samples
samples-decode is_alaw [] h = (refl, tt)
samples-decode is_alaw (b ∷ payload) h =
    let (e, w) = samples-decode is_alaw payload h.1 in
    let ok = linear-fits is_alaw b h.0 in
    rw
      (
        table_pcm_lem is_alaw b h.0,
        samples-pack (linear is_alaw b) (decode_g711 is_alaw payload) ok,
      )
      (ap (λ vs. linear is_alaw b ∷ vs) e, (ok, w))

-- The sum that rms_g711 takes without decoding is the energy of the samples that decode_g711 writes.
pub square_sum-energy :
    (is_alaw : Bool) (payload : Bytes)
    → All IsByte payload
    → square_sum is_alaw payload ≡ energy (samples (decode_g711 is_alaw payload))
unfolding decode_g711 samples square_sum energy
square_sum-energy is_alaw [] h = refl
square_sum-energy is_alaw (b ∷ payload) h =
    let ok = linear-fits is_alaw b h.0 in
    rw
      (
        table_pcm_lem is_alaw b h.0,
        samples-pack (linear is_alaw b) (decode_g711 is_alaw payload) ok,
        table_lem is_alaw b h.0,
      )
      (ap (λ t. square (linear is_alaw b) + t) (square_sum-energy is_alaw payload h.1))

pub length-decode :
    (is_alaw : Bool) (payload : Bytes)
    → All IsByte payload
    → length (decode_g711 is_alaw payload) ≡ 2 * length payload
unfolding decode_g711
length-decode is_alaw [] h = refl
length-decode is_alaw (b ∷ payload) h = omega (
  arith,
  ap length (table_pcm_lem is_alaw b h.0),
  length-pack (linear is_alaw b),
  length-append (get_or (table_pcm is_alaw) b []) (decode_g711 is_alaw payload),
  length-decode is_alaw payload h.1,
)

-- Reading the little-endian samples that decode_g711 writes gives back the linear value of each byte of
-- the payload, each within 16 bits, in twice as many bytes as the payload; and the sum that rms_g711
-- takes without decoding is the energy of these samples.
pub decode_g711-samples :
    (is_alaw : Bool) (payload : Bytes)
    → All IsByte payload
    → (samples (decode_g711 is_alaw payload) ≡ map (linear is_alaw) payload)
      × All (λ v. fits v ≡ true) (samples (decode_g711 is_alaw payload))
      × (length (decode_g711 is_alaw payload) ≡ 2 * length payload)
      × (square_sum is_alaw payload ≡ energy (samples (decode_g711 is_alaw payload)))
decode_g711-samples is_alaw payload h =
    let (e, w) = samples-decode is_alaw payload h in
    (e, w, length-decode is_alaw payload h, square_sum-energy is_alaw payload h)
