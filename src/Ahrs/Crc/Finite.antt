-- ===== src/Ahrs/Crc/Finite.antt =====
-- Facts on the 256 entries of the tables of crc_table.cpp, by evaluation.
use wtbcar_autoware_nav.Prelude.{
  ℕ, zero, suc, ◌+◌, ◌*◌, ◌/◌, ◌%◌, ◌<◌, bit_xor, ◌≡◌, ◌∙◌, refl, sym, ap, subst, Bool, true, ◌&&◌,
  ◌==◌, ltb, ltb→lt, ==_iff, if◌then◌else◌, get_or, arith,
}
use native.Mathlib.Decide.{dec_lt}
use wtbcar_autoware_nav.Ahrs.Crc.{crc8_entries, crc16_entries}

-- Whether a test holds of every number below a bound.
abbrev all_below : ℕ → (ℕ → Bool) → Bool
all_below zero test = true
all_below (suc n) test = test n && all_below n test

holds_below : (n : ℕ) (test : ℕ → Bool) → all_below n test ≡ true → (i : ℕ) → i < n → test i ≡ true
holds_below zero test h i k = absurd (omega arith)
holds_below (suc n) test h i k = elim (dec_lt i n) [
  | yes l ↦ holds_below n test (ground arith) i l
  | no l ↦ subst (λ j. test j ≡ true) (last l) (ground arith)
]
  where
    last : ¬ (i < n) → n ≡ i
    last l = omega arith

-- A shift of the register of CRC-8 (polynomial 0x31, least digit first), and its inverse.
abbrev pub shift8 : ℕ → ℕ
shift8 c = if c % 2 == 1 then bit_xor (c / 2) 0x8C else c / 2

abbrev back8 : ℕ → ℕ
back8 c = if ltb 127 c then bit_xor c 0x8C * 2 + 1 else c * 2

-- A shift of the register of CRC-16 (polynomial 0x1021, greatest digit first).
abbrev pub shift16 : ℕ → ℕ
shift16 c = if ltb 32767 c then bit_xor (c * 2 % 65536) 0x1021 else c * 2 % 65536

abbrev pub times8 : (ℕ → ℕ) → ℕ → ℕ
times8 g c = g (g (g (g (g (g (g (g c)))))))

abbrev pub entry8 : ℕ → ℕ
entry8 i = get_or crc8_entries i 0

abbrev pub entry16 : ℕ → ℕ
entry16 i = get_or crc16_entries i 0

-- The index of an entry of CRC16Table, from its lower byte.
abbrev index16 : ℕ → ℕ
index16 low = let t = bit_xor low (low * 32) % 256 in bit_xor t (t / 16)

table8 : (i : ℕ) → i < 256 → (entry8 i == times8 shift8 i) ≡ true
table8 = holds_below 256 (λ i. entry8 i == times8 shift8 i) refl

pub entry8_lem : (i : ℕ) → i < 256 → entry8 i ≡ times8 shift8 i
entry8_lem i h = (==_iff _ _).0 (table8 i h)

undo8 : (i : ℕ) → i < 256 → (times8 back8 (entry8 i) == i) ≡ true
undo8 = holds_below 256 (λ i. times8 back8 (entry8 i) == i) refl

pub entry8_injective : (i j : ℕ) → i < 256 → j < 256 → entry8 i ≡ entry8 j → i ≡ j
entry8_injective i j h k e =
    sym ((==_iff _ _).0 (undo8 i h)) ∙ ap (times8 back8) e ∙ (==_iff _ _).0 (undo8 j k)

small8 : (i : ℕ) → i < 256 → ltb (entry8 i) 256 ≡ true
small8 = holds_below 256 (λ i. ltb (entry8 i) 256) refl

pub entry8-lt : (i : ℕ) → i < 256 → entry8 i < 256
entry8-lt i h = ltb→lt _ _ (small8 i h)

table16 : (i : ℕ) → i < 256 → (entry16 i == times8 shift16 (i * 256)) ≡ true
table16 = holds_below 256 (λ i. entry16 i == times8 shift16 (i * 256)) refl

-- Each entry of CRC16Table is the remainder of its index by the polynomial of CRC-16.
pub entry16_lem : (i : ℕ) → i < 256 → entry16 i ≡ times8 shift16 (i * 256)
entry16_lem i h = (==_iff _ _).0 (table16 i h)

undo16 : (i : ℕ) → i < 256 → (index16 (entry16 i % 256) == i) ≡ true
undo16 = holds_below 256 (λ i. index16 (entry16 i % 256) == i) refl

-- The lower bytes of the entries differ.
pub entry16_injective : (i j : ℕ) → i < 256 → j < 256 → entry16 i % 256 ≡ entry16 j % 256 → i ≡ j
entry16_injective i j h k e =
    sym ((==_iff _ _).0 (undo16 i h)) ∙ ap index16 e ∙ (==_iff _ _).0 (undo16 j k)

small16 : (i : ℕ) → i < 256 → ltb (entry16 i) 65536 ≡ true
small16 = holds_below 256 (λ i. ltb (entry16 i) 65536) refl

pub entry16-lt : (i : ℕ) → i < 256 → entry16 i < 65536
entry16-lt i h = ltb→lt _ _ (small16 i h)
