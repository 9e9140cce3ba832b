-- ===== src/Ahrs/Crc/Bursts.antt =====
-- CRC16_Table of crc_table.cpp under a change of two bytes that follow one another.
use wtbcar_autoware_nav.Prelude.{
  ℕ, zero, suc, ◌+◌, ◌/◌, ◌≤◌, ◌<◌, ◌≡◌, ◌≢◌, ◌∙◌, sym, ap, List, [], ◌∷◌, ◌++◌, take, length,
  arith,
}
use wtbcar_autoware_nav.Bits.{xor_injective_right}
use wtbcar_autoware_nav.Ahrs.Crc.{crc16_step, crc16_table}
use wtbcar_autoware_nav.Ahrs.Crc.Detection.{
  fold, same_register, same_step16, step16_lem, index16, crc16-Mixes, crc16_loop-fold,
}
use wtbcar_autoware_nav.Ahrs.Crc.Finite.{entry16_injective}
use wtbcar_autoware_nav.Ahrs.Crc.Polynomial.{AllBytes, byte}

-- Two steps forget neither of their bytes: the register has as many bits as both.
same_pair :
    (c a b v w : ℕ)
    → c < 65536
    → a < 256
    → b < 256
    → v < 256
    → w < 256
    → crc16_step (crc16_step c v) w ≡ crc16_step (crc16_step c a) b
    → (v ≡ a) × (w ≡ b)
same_pair c a b v w h ha hb hv hw e =
    let m = crc16-Mixes in
    let r = crc16_step c a in
    let (index, low) =
      same_step16 (crc16_step c v) r w b (m.stays c v h hv) (m.stays c a h ha) hw hb e in
    let entries = sym (step16_lem c v h hv).0 ∙ low ∙ (step16_lem c a h ha).0 in
    let first : v ≡ a =
      xor_injective_right v a (c / 256)
        (entry16_injective _ _ (index16 c v h hv) (index16 c a h ha) entries) in
    (
      first,
      m.reads r w b (m.stays c a h ha) hw hb
          (ap (λ x. crc16_step (crc16_step c x) w) (sym first) ∙ e),
    )

same_burst :
    (before after : List ℕ) (c a b v w k : ℕ)
    → c < 65536
    → AllBytes (before ++ (a ∷ b ∷ after))
    → v < 256
    → w < 256
    → length before + 2 ≤ k
    → fold crc16_step c (take k (before ++ (v ∷ w ∷ after)))
      ≡ fold crc16_step c (take k (before ++ (a ∷ b ∷ after)))
    → (v ≡ a) × (w ≡ b)
same_burst [] after c a b v w zero h bytes hv hw l e = absurd (omega arith)
same_burst [] after c a b v w (suc zero) h bytes hv hw l e = absurd (omega arith)
same_burst [] after c a b v w (suc (suc k)) h (byte ha (byte hb rest)) hv hw l e =
    let m = crc16-Mixes in
    let s = crc16_step c v in
    let r = crc16_step c a in
    same_pair c a b v w h ha hb hv hw (
      same_register 65536 crc16_step m (crc16_step s w) (crc16_step r b) k after
        (m.stays s w (m.stays c v h hv) hw) (m.stays r b (m.stays c a h ha) hb) rest e)
same_burst (u ∷ us) after c a b v w zero h bytes hv hw l e = absurd (omega arith)
same_burst (u ∷ us) after c a b v w (suc k) h (byte hu rest) hv hw l e =
    same_burst us after (crc16_step c u) a b v w k (crc16-Mixes.stays c u h hu) rest hv hw
      (omega arith) e

-- The CRC-16 of a buffer of bytes changes when two bytes of it that follow one another, both covered, are
-- replaced by two others, of which at least one differs.
pub crc16_detects_pair :
    (before after : List ℕ) (a b v w counter : ℕ)
    → AllBytes (before ++ (a ∷ b ∷ after))
    → v < 256
    → w < 256
    → length before + 2 ≤ counter
    → ¬ ((v ≡ a) × (w ≡ b))
    → crc16_table (before ++ (v ∷ w ∷ after)) counter
      ≢ crc16_table (before ++ (a ∷ b ∷ after)) counter
unfolding crc16_table
crc16_detects_pair before after a b v w counter bytes hv hw inside ne e = ne (
    same_burst before after 0 a b v w counter (omega arith) bytes hv hw inside (
      sym (crc16_loop-fold 0 (take counter (before ++ (v ∷ w ∷ after))))
      ∙ (e ∙ crc16_loop-fold 0 (take counter (before ++ (a ∷ b ∷ after))))))
