-- ===== src/Paygate/Rng.antt =====
-- apps/paygate/src/rng.ts: the seeded generator, on 32-bit words.
--
-- A word is a number below 2 ^ 32, signed or not as the source reads it: `Math.imul`, `^`, `|` and
-- the shifts only keep the low 32 bits. A string is its character codes. What `next` returns is
-- kept as its numerator over 2 ^ 32: the product with a range below 2 ^ 21 is exact in a double,
-- so `Math.floor` of it is the quotient here.
use Prim.Native.Nat.{bit_or, bit_xor}
use project_atrium.Base.{ℕ, ◌+◌, ◌-◌, ◌*◌, ◌/◌, ◌%◌, Bool, List, [], ◌∷◌, ◌++◌, ltb, length}

abbrev pub word : ℕ
word = 4294967296

abbrev pub imul : ℕ → ℕ → ℕ
imul a b = (a * b) % word

-- `h ^ (h >>> n)`, for a shift by the division by 2 ^ n
abbrev pub xor_shift : ℕ → ℕ → ℕ
xor_shift h divisor = bit_xor h (h / divisor)

-- One character of the loop of `xmur3`: `(h << 13) | (h >>> 19)` is the rotation.
unfoldable pub absorb : ℕ → List ℕ → ℕ
absorb h [] = h
absorb h (c ∷ cs) =
    let m = imul (bit_xor h c) 3432918353 in absorb (bit_or ((m * 8192) % word) (m / 524288)) cs

-- `xmur3(str)()`
unfoldable pub xmur3 : List ℕ → ℕ
unfolding absorb
xmur3 str =
    let h = absorb (bit_xor 1779033703 (length str)) str in
    let h1 = imul (xor_shift h 65536) 2246822507 in
    let h2 = imul (xor_shift h1 8192) 3266489909 in xor_shift h2 65536 % word

-- What one call of `mulberry32` returns, and the state it leaves.
unfoldable pub mulberry32 : ℕ → ℕ × ℕ
mulberry32 a =
    let s = (a + 1831565813) % word in
    let t = imul (xor_shift s 32768) (bit_or 1 s) in
    let u = bit_xor ((t + imul (xor_shift t 128) (bit_or 61 t)) % word) t in
    (xor_shift u 16384 % word, s)

-- `parts.join('|')`
unfoldable pub join : List (List ℕ) → List ℕ
join [] = []
join (p ∷ []) = p
join (p ∷ q ∷ ps) = p ++ (124 ∷ join (q ∷ ps))

-- `makeRng(…parts)`: the first state.
unfoldable pub make_rng : List (List ℕ) → ℕ
unfolding xmur3 join
make_rng parts = xmur3 (join parts)

-- `int(min, max)` of a draw
abbrev pub int_of : ℕ → ℕ → ℕ → ℕ
int_of draw low high = low + (draw * (high - low + 1)) / word

-- `draw < p`, for a rate in percent
abbrev pub is_below : ℕ → ℕ → Bool
is_below draw percent = ltb (draw * 100) (percent * word)
