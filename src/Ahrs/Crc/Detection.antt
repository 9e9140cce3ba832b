-- ===== src/Ahrs/Crc/Detection.antt =====
-- The checksums of crc_table.cpp under a change of one byte: how a step mixes the register and a byte.
use wtbcar_autoware_nav.Prelude.{
  ℕ, zero, suc, ◌*◌, ◌/◌, ◌%◌, ◌<◌, bit_and, bit_xor, ◌≡◌, ◌≢◌, ◌∙◌, refl, sym, ap, List, [], ◌∷◌,
  take, set, get_or, length, arith,
}
use wtbcar_autoware_nav.Bits.{xor-lt, and_low8, xor_injective_left, xor_injective_right}
use wtbcar_autoware_nav.Bits.Bytes.{xor-zero, xor_byte_up, xor_byte_low}
use wtbcar_autoware_nav.Ahrs.Crc.{
  crc8_step, crc8_loop, crc8_table, crc16_step, crc16_loop, crc16_table,
}
use wtbcar_autoware_nav.Ahrs.Crc.Finite.{
  entry8-lt, entry8_injective, entry16, entry16-lt, entry16_injective,
}
use wtbcar_autoware_nav.Ahrs.Crc.Polynomial.{AllBytes, none_left, byte}

-- A step of a checksum of registers below `bound` that forgets neither the register nor the byte.
pub record Mixes (bound : ℕ) (step : ℕ → ℕ → ℕ) : Type 0 where
  pub stays : (c v : ℕ) → c < bound → v < 256 → step c v < bound
  pub keeps : (c d v : ℕ) → c < bound → d < bound → v < 256 → step c v ≡ step d v → c ≡ d
  pub reads : (c v w : ℕ) → c < bound → v < 256 → w < 256 → step c v ≡ step c w → v ≡ w

abbrev pub fold : (ℕ → ℕ → ℕ) → ℕ → List ℕ → ℕ
fold step c [] = c
fold step c (v ∷ vs) = fold step (step c v) vs

module _ (bound : ℕ) (step : ℕ → ℕ → ℕ) (mixes : Mixes bound step) where
  pub same_register :
      (c d k : ℕ) (vs : List ℕ)
      → c < bound
      → d < bound
      → AllBytes vs
      → fold step c (take k vs) ≡ fold step d (take k vs)
      → c ≡ d
  same_register c d zero vs h h' bytes e = e
  same_register c d (suc k) [] h h' none_left e = e
  same_register c d (suc k) (v ∷ vs) h h' (byte small rest) e = mixes.keeps c d v h h' small (
      same_register (step c v) (step d v) k vs (mixes.stays c v h small) (mixes.stays d v h' small)
        rest e)

  same_byte :
      (c k i v : ℕ) (p : List ℕ)
      → c < bound
      → AllBytes p
      → v < 256
      → i < k
      → i < length p
      → fold step c (take k (set p i v)) ≡ fold step c (take k p)
      → v ≡ get_or p i 0
  same_byte c zero i v p h bytes small l l' e = absurd (omega arith)
  same_byte c (suc k) i v [] h bytes small l l' e = absurd (omega arith)
  same_byte c (suc k) zero v (u ∷ us) h (byte tiny rest) small l l' e =
      mixes.reads c v u h small tiny (
        same_register (step c v) (step c u) k us (mixes.stays c v h small) (mixes.stays c u h tiny)
          rest e)
  same_byte c (suc k) (suc i) v (u ∷ us) h (byte tiny rest) small l l' e =
      same_byte (step c u) k i v us (mixes.stays c u h tiny) rest small (omega arith) (omega arith)
        e

crc8-Mixes : Mixes 256 crc8_step
unfolding crc8_step
crc8-Mixes = record {
  stays = λ c v h k. entry8-lt _ (xor-lt c v h k);
  keeps = λ c d v h k l e.
      xor_injective_left c d v (entry8_injective _ _ (xor-lt c v h l) (xor-lt d v k l) e);
  reads = λ c v w h k l e.
      xor_injective_right v w c (entry8_injective _ _ (xor-lt c v h k) (xor-lt c w h l) e);
}

crc8_loop-fold : (c : ℕ) (vs : List ℕ) → crc8_loop c vs ≡ fold crc8_step c vs
unfolding crc8_loop
crc8_loop-fold c [] = refl
crc8_loop-fold c (v ∷ vs) = crc8_loop-fold (crc8_step c v) vs

-- The CRC-8 of a buffer of bytes changes when one of the bytes that it covers is replaced by another.
pub crc8_detects :
    (p : List ℕ) (counter i v : ℕ)
    → AllBytes p
    → v < 256
    → i < counter
    → i < length p
    → v ≢ get_or p i 0
    → crc8_table (set p i v) counter ≢ crc8_table p counter
unfolding crc8_table
crc8_detects p counter i v bytes small l l' ne e = ne (
    same_byte 256 crc8_step crc8-Mixes 0 counter i v p (omega arith) bytes small l l'
      (sym (crc8_loop-fold 0 (take counter (set p i v))) ∙ e ∙ crc8_loop-fold 0 (take counter p)))

-- The index of the table, and the two bytes of the next register.
pub index16 : (c v : ℕ) → c < 65536 → v < 256 → bit_xor (c / 256) v < 256
index16 c v h k = xor-lt (c / 256) v (omega arith) k

-- A table entry added to a register that has moved up by a byte.
word_low : (t c : ℕ) → bit_xor t (c * 256) % 65536 % 256 ≡ t % 256
word_low t c =
    omega (arith, xor_byte_low t (c * 256), ap (bit_xor (t % 256)) (cleared c), xor-zero (t % 256))
  where
    cleared : (n : ℕ) → n * 256 % 256 ≡ 0
    cleared n = omega arith

word_high : (t c : ℕ) → t < 65536 → bit_xor t (c * 256) % 65536 / 256 ≡ bit_xor (t / 256) (c % 256)
word_high t c h = omega (
  arith,
  xor_byte_up t (c * 256),
  ap (bit_xor (t / 256)) (moved c),
  xor_byte_low (t / 256) c,
  ap (λ n. bit_xor n (c % 256)) top,
)
  where
    moved : (n : ℕ) → n * 256 / 256 ≡ n
    moved n = omega arith

    top : t / 256 % 256 ≡ t / 256
    top = omega arith

pub step16_lem :
    (c v : ℕ)
    → c < 65536
    → v < 256
    → let t = entry16 (bit_xor (c / 256) v) in
      (crc16_step c v % 256 ≡ t % 256) × (crc16_step c v / 256 ≡ bit_xor (t / 256) (c % 256))
step16_lem c v h k = (
  ap (λ n. n % 256) stored ∙ word_low _ c,
  ap (λ n. n / 256) stored ∙ word_high _ c (entry16-lt _ (index16 c v h k)),
)
  where
    masked : bit_and (bit_xor (c / 256) v) 0xFF ≡ bit_xor (c / 256) v
    masked = and_low8 (bit_xor (c / 256) v) ∙ omega (arith, index16 c v h k)

    stored : crc16_step c v ≡ bit_xor (entry16 (bit_xor (c / 256) v)) (c * 256) % 65536
    stored = unfold crc16_step in ap (λ n. bit_xor (entry16 n) (c * 256) % 65536) masked

bytes_of : (a b : ℕ) → a / 256 ≡ b / 256 → a % 256 ≡ b % 256 → a ≡ b
bytes_of a b h k = omega arith

-- Equal registers come from one index of the table and from registers with one lower byte.
pub same_step16 :
    (c d v w : ℕ)
    → c < 65536
    → d < 65536
    → v < 256
    → w < 256
    → crc16_step c v ≡ crc16_step d w
    → (bit_xor (c / 256) v ≡ bit_xor (d / 256) w) × (c % 256 ≡ d % 256)
same_step16 c d v w h h' k k' e =
    (same, xor_injective_right (c % 256) (d % 256) (entry16 (bit_xor (c / 256) v) / 256) highs)
  where
    same : bit_xor (c / 256) v ≡ bit_xor (d / 256) w
    same =
        entry16_injective _ _ (index16 c v h k) (index16 d w h' k')
          (sym (step16_lem c v h k).0 ∙ ap (λ n. n % 256) e ∙ (step16_lem d w h' k').0)

    highs :
        bit_xor (entry16 (bit_xor (c / 256) v) / 256) (c % 256)
        ≡ bit_xor (entry16 (bit_xor (c / 256) v) / 256) (d % 256)
    highs =
        sym (step16_lem c v h k).1
        ∙ ap (λ n. n / 256) e
        ∙ (step16_lem d w h' k').1
        ∙ ap (λ n. bit_xor (entry16 n / 256) (d % 256)) (sym same)

pub crc16-Mixes : Mixes 65536 crc16_step
crc16-Mixes = record {
  stays = λ c v h k. unfold crc16_step in omega arith;
  keeps = λ c d v h h' k e.
      let (same, low) = same_step16 c d v v h h' k k e in
      bytes_of c d (xor_injective_left (c / 256) (d / 256) v same) low;
  reads = λ c v w h k k' e. xor_injective_right v w (c / 256) (same_step16 c c v w h h k k' e).0;
}

pub crc16_loop-fold : (c : ℕ) (vs : List ℕ) → crc16_loop c vs ≡ fold crc16_step c vs
unfolding crc16_loop
crc16_loop-fold c [] = refl
crc16_loop-fold c (v ∷ vs) = crc16_loop-fold (crc16_step c v) vs

-- The CRC-16 of a buffer of bytes changes when one of the bytes that it covers is replaced by another.
pub crc16_detects :
    (p : List ℕ) (counter i v : ℕ)
    → AllBytes p
    → v < 256
    → i < counter
    → i < length p
    → v ≢ get_or p i 0
    → crc16_table (set p i v) counter ≢ crc16_table p counter
unfolding crc16_table
crc16_detects p counter i v bytes small l l' ne e = ne (
    same_byte 65536 crc16_step crc16-Mixes 0 counter i v p (omega arith) bytes small l l'
      (sym (crc16_loop-fold 0 (take counter (set p i v))) ∙ e ∙ crc16_loop-fold 0 (take counter p)))

crc16_loop-lt : (c : ℕ) (vs : List ℕ) → c < 65536 → crc16_loop c vs < 65536
unfolding crc16_loop crc16_step
crc16_loop-lt c [] h = h
crc16_loop-lt c (v ∷ vs) h = crc16_loop-lt (crc16_step c v) vs (omega arith)

pub crc16_table-lt : (p : List ℕ) (counter : ℕ) → crc16_table p counter < 65536
unfolding crc16_table
crc16_table-lt p counter = crc16_loop-lt 0 (take counter p) (omega arith)
