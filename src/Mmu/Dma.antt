-- ===== src/Mmu/Dma.antt =====
-- The OAM DMA of mmu.rs.
use gbx.Prelude.{ℕ, zero, suc, ◌+◌, ◌-◌, ◌*◌, ◌≤◌, ◌<◌, ◌≡◌, sym, ap, ◌∙◌, arith, u16}
use gbx.Prelude.{false, ◌&&◌, ◌==◌, leb, ltb, if◌then◌else◌, update}
use gbx.Bus.{Bus}
use gbx.Mmu.{read8_scalar, dma_loop, write_dma, write8_scalar, write_io}
use gbx.Mmu.Laws.{oam_only}

-- A byte that the copy has not reached is read as before it.
unreached :
    (bus : Bus) (page offset k byte : ℕ)
    → page < 256
    → offset < k
    → k < 0xA0
    → read8_scalar (record bus { oam = update bus.oam offset byte }) (page * 256 + k)
      ≡ read8_scalar bus (page * 256 + k)
unreached bus page offset k byte p q r =
    let a = page * 256 + k in
    let other : (leb 0xFE00 a && leb a 0xFE9F && a - 0xFE00 == offset) ≡ false = ground arith in
    oam_only bus offset byte a (omega arith)
    ∙ ap (λ t. if t then byte else read8_scalar bus a) other

-- A round at `offset`, and then a copy of the rest up to `last`.
after_round :
    (old byte read_k read_before : ℕ) (offset last k : ℕ)
    → offset < last
    → (k ≡ offset → byte ≡ read_before)
    → (offset < k → k < last → read_k ≡ read_before)
    → (if leb (offset + 1) k && ltb k last then read_k else (if k == offset then byte else old))
      ≡ (if leb offset k && ltb k last then read_before else old)
after_round old byte read_k read_before offset last k h hit later = ground arith

dma_loop_lem :
    (left page offset : ℕ) (bus : Bus) (k : ℕ)
    → page < 256
    → offset + left ≤ 0xA0
    → (dma_loop left (page * 256) offset bus).oam k ≡ (
        if leb offset k && ltb k (offset + left)
        then read8_scalar bus (page * 256 + k)
        else bus.oam k)
unfolding dma_loop
dma_loop_lem zero page offset bus k p q =
    let empty : (leb offset k && ltb k (offset + 0)) ≡ false = ground arith in
    sym (ap (λ t. if t then read8_scalar bus (page * 256 + k) else bus.oam k) empty)
dma_loop_lem (suc left) page offset bus k p q =
    let byte = read8_scalar bus (u16 (page * 256 + offset)) in
    let next : Bus = record bus { oam = update bus.oam offset byte } in
    let source : u16 (page * 256 + offset) ≡ page * 256 + offset = omega arith in
    let whole : offset + 1 + left ≡ offset + suc left = omega arith in
    dma_loop_lem left page (offset + 1) next k p (omega arith)
    ∙ ap
        (λ n.
          if leb (offset + 1) k && ltb k n then read8_scalar next (page * 256 + k) else next.oam k)
        whole
    ∙ after_round (bus.oam k) byte (read8_scalar next (page * 256 + k))
        (read8_scalar bus (page * 256 + k)) offset (offset + suc left) k (omega arith)
        (λ e. ap (read8_scalar bus) source ∙ ap (λ n. read8_scalar bus (page * 256 + n)) (sym e))
        (λ a b. unreached bus page offset k byte p a (omega arith))

-- A write of a page below 256 to 0xFF46 gives each of the 160 bytes of OAM what a read of the
-- page at its index gave before the write, the page of OAM itself included; an index beyond is as
-- before.
pub write8_scalar-dma :
    (bus : Bus) (page k : ℕ)
    → page < 256
    → (write8_scalar bus 0xFF46 page).oam k
      ≡ (if ltb k 0xA0 then read8_scalar bus (page * 256 + k) else bus.oam k)
unfolding write8_scalar write_io write_dma
write8_scalar-dma bus page k p =
    let always : (leb 0 k && ltb k 0xA0) ≡ ltb k 0xA0 = ground arith in
    dma_loop_lem 0xA0 page 0 bus k p (omega arith)
    ∙ ap (λ t. if t then read8_scalar bus (page * 256 + k) else bus.oam k) always
