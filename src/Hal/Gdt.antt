-- ===== src/Hal/Gdt.antt =====
-- hal/gdt.c: segment descriptors and the task state segment. `lgdt` and the loads of the segment
-- registers are left out.
use cat_os_micro_kernel.Common.{ℕ, ◌-◌, ◌/◌, ◌^◌, update, bit_and, bit_or}

pub record GdtEntry : Type 0 where
  pub limit_low : ℕ
  pub base_low : ℕ
  pub base_middle : ℕ
  pub access : ℕ
  pub granularity : ℕ
  pub base_high : ℕ

-- The fields of the task state segment that the code sets; the others are 0.
pub record TssEntry : Type 0 where
  pub esp0 : ℕ
  pub ss0 : ℕ
  pub es : ℕ
  pub cs : ℕ
  pub ss : ℕ
  pub ds : ℕ
  pub fs : ℕ
  pub gs : ℕ
  pub iomap_base : ℕ

pub record Gdt : Type 0 where
  pub gdt : ℕ → GdtEntry
  pub tss_entry : TssEntry

unfoldable pub gdt_set_gate : (num base limit access gran : ℕ) → Gdt → Gdt
gdt_set_gate num base limit access gran g = record g {
  gdt = update g.gdt num (record {
    limit_low = bit_and limit 0xFFFF;
    base_low = bit_and base 0xFFFF;
    base_middle = bit_and (base / 2 ^ 16) 0xFF;
    access = access;
    granularity = bit_or (bit_and (limit / 2 ^ 16) 0x0F) (bit_and gran 0xF0);
    base_high = bit_and (base / 2 ^ 24) 0xFF;
  });
}

abbrev pub tss_size : ℕ
tss_size = 104

-- `tss` is the address of the task state segment.
unfoldable pub write_tss : (tss num ss0 esp0 : ℕ) → Gdt → Gdt
write_tss tss num ss0 esp0 g = record (gdt_set_gate num tss (tss_size - 1) 0x89 0x00 g) {
  tss_entry = record {
    esp0 = esp0;
    ss0 = ss0;
    es = 0x13;
    cs = 0x0b;
    ss = 0x13;
    ds = 0x13;
    fs = 0x13;
    gs = 0x13;
    iomap_base = tss_size;
  };
}

unfoldable pub hal_gdt_init : (tss : ℕ) → Gdt → Gdt
hal_gdt_init tss g =
    let g0 = gdt_set_gate 0 0 0 0 0 g in
    let g1 = gdt_set_gate 1 0 0xFFFFFFFF 0x9A 0xCF g0 in
    let g2 = gdt_set_gate 2 0 0xFFFFFFFF 0x92 0xCF g1 in
    let g3 = gdt_set_gate 3 0 0xFFFFFFFF 0xFA 0xCF g2 in
    let g4 = gdt_set_gate 4 0 0xFFFFFFFF 0xF2 0xCF g3 in write_tss tss 5 0x10 0x0 g4

unfoldable pub hal_tss_set_esp0 : ℕ → Gdt → Gdt
hal_tss_set_esp0 esp0 g = record g { tss_entry = record (g.tss_entry) { esp0 = esp0 } }
