-- ===== src/Monitor/Shown.antt =====
-- The entries that create_ro_mapping of kernel/monitor/monitor.c leaves.
use emergence_kernel.Paging.Entry.{bit_or-low}
use emergence_kernel.Monitor.{
  is_present, write, false, get_pt_index, some, bit_or, pos, is_writable,
}
use emergence_kernel.Paging.{Memory, pte_get_phys}
use emergence_kernel.Prelude.{
  ◌*◌, ◌/◌, refl, none, ◌∙◌, ap, true, ◌+◌, arith, ◌^◌, minus_one, ◌<◌, page_size, ◌≡◌, Option, ℤ,
  ◌%◌, ℕ,
}
use emergence_kernel.Monitor.ReadOnly.{Tables, write_ro, create_ro_mapping}

ro_word : (phys_addr : ℕ) → phys_addr % page_size ≡ 0 → bit_or phys_addr 1 ≡ phys_addr + 1
ro_word phys_addr aligned =
    let whole : phys_addr ≡ phys_addr / 4096 * 2 ^ 12 = omega (arith, aligned) in
    ap (λ p. bit_or p 1) whole
    ∙ bit_or-low 12 (phys_addr / 4096) 1 (omega arith)
    ∙ omega (arith, whole)

-- The address's entry is present and read-only with the page's address, or nothing is reported.
pub data RoResult (phys_addr virt_addr : ℕ) (r : ℤ × Memory) : Type 0 where
  refused : r.0 ≡ minus_one → RoResult phys_addr virt_addr r
  shown :
      (pt : ℕ)
      → r.0 ≡ pos 0
      → pte_get_phys (r.1.tables pt (get_pt_index virt_addr 0)) ≡ phys_addr
      → is_present (r.1.tables pt (get_pt_index virt_addr 0)) ≡ true
      → is_writable (r.1.tables pt (get_pt_index virt_addr 0)) ≡ false
      → RoResult phys_addr virt_addr r

write_ro-result :
    (phys_addr virt_addr : ℕ) (w : Option ℕ × Memory)
    → phys_addr % page_size ≡ 0
    → phys_addr < 2 ^ 40
    → RoResult phys_addr virt_addr (write_ro phys_addr virt_addr w)
unfolding write_ro pte_get_phys
write_ro-result phys_addr virt_addr (none, m) aligned low = refused refl
write_ro-result phys_addr virt_addr (some pt, m) aligned low =
    let word : (write m pt (get_pt_index virt_addr 0) (bit_or phys_addr 1)).tables pt
          (get_pt_index virt_addr 0)
        ≡ phys_addr + 1 =
      written ∙ ro_word phys_addr aligned in
    shown pt refl (ap pte_get_phys word ∙ omega (arith, aligned, low))
      (ap is_present word ∙ ground (arith, aligned)) (ap is_writable word ∙ ground (arith, aligned))
  where
    written :
        (write m pt (get_pt_index virt_addr 0) (bit_or phys_addr 1)).tables pt
          (get_pt_index virt_addr 0)
        ≡ bit_or phys_addr 1
    written = ground arith

-- create_ro_mapping on a page-aligned address below 2^40 returns -1, or 0 with an entry for the virtual
-- address that leads to the page, is present, and is not writable.
pub create_ro_mapping-shows :
    (t : Tables) (m : Memory) (phys_addr virt_addr : ℕ)
    → phys_addr % page_size ≡ 0
    → phys_addr < 2 ^ 40
    → RoResult phys_addr virt_addr (create_ro_mapping t m phys_addr virt_addr)
unfolding create_ro_mapping
create_ro_mapping-shows t m phys_addr virt_addr aligned low =
    write_ro-result phys_addr virt_addr _ aligned low
