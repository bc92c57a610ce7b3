-- ===== src/Hal/Cpu.antt =====
-- hal/cpu.c: the control registers and the features of the processor. What an instruction reads is
-- a field of the processor's state.
use cat_os_micro_kernel.Common.{
  ℕ, ◌+◌, ◌*◌, ◌/◌, ◌^◌, ◌≡◌, ◌≢◌, Bool, true, false, ◌==◌, if◌then◌else◌, bit_and, bit_or, bit_xor,
  arith,
}

-- `can_toggle_id` is whether the processor lets bit 21 of EFLAGS change, as one with CPUID does;
-- `features_edx` is EDX after CPUID with EAX 1.
pub record Cpu : Type 0 where
  pub eflags : ℕ
  pub can_toggle_id : Bool
  pub features_edx : ℕ
  pub time_stamp_low : ℕ
  pub time_stamp_high : ℕ
  pub cr0 : ℕ
  pub cr2 : ℕ
  pub cr3 : ℕ
  pub cs : ℕ
  pub task_register : ℕ
  pub interrupts : Bool
  pub cpu_features : ℕ

-- EAX after the test for CPUID: the low byte is set by `sete`, the others are those of the flags.
unfoldable pub cpuid_test : Cpu → ℕ
cpuid_test cpu =
    let flipped = bit_xor cpu.eflags 0x200000 in
    let after = if cpu.can_toggle_id then flipped else cpu.eflags in
    after / 2 ^ 8 * 2 ^ 8 + (if after == cpu.eflags then 1 else 0)

-- `if (edx & (1 << bit)) features |= flag`
unfoldable pub add_feature : (edx bit flag features : ℕ) → ℕ
add_feature edx bit flag features =
    if bit_and edx (2 ^ bit) == 0 then features else bit_or features flag

unfoldable pub feature_flags : ℕ → ℕ
feature_flags edx =
    let f1 = add_feature edx 0 0x00000001 0 in
    let f2 = add_feature edx 23 0x00000002 f1 in
    let f3 = add_feature edx 25 0x00000004 f2 in
    let f4 = add_feature edx 26 0x00000008 f3 in add_feature edx 9 0x00000010 f4

unfoldable pub hal_cpu_get_features : Cpu → ℕ
hal_cpu_get_features cpu = if cpuid_test cpu == 0 then 0 else feature_flags cpu.features_edx

unfoldable pub hal_cpu_init : Cpu → Cpu
hal_cpu_init cpu = record cpu { cpu_features = hal_cpu_get_features cpu }

unfoldable pub hal_cpu_set_cr3 : ℕ → Cpu → Cpu
hal_cpu_set_cr3 page_dir cpu = record cpu { cr3 = page_dir }

abbrev pub cr0_pg : ℕ
cr0_pg = 0x80000000

unfoldable pub hal_cpu_enable_paging : ℕ → Cpu → Cpu
hal_cpu_enable_paging page_dir cpu =
    let cpu' = hal_cpu_set_cr3 page_dir cpu in record cpu' { cr0 = bit_or cpu'.cr0 cr0_pg }

unfoldable pub hal_cpu_get_cycles : Cpu → ℕ
hal_cpu_get_cycles cpu =
    if bit_and cpu.cpu_features 0x00000010 == 0
    then 0
    else bit_or (cpu.time_stamp_high * 2 ^ 32) cpu.time_stamp_low

-- Writes CR3 as it is.
unfoldable pub hal_cpu_flush_tlb : Cpu → Cpu
hal_cpu_flush_tlb cpu = record cpu { cr3 = cpu.cr3 }

unfoldable pub hal_cpu_enable_interrupts : Cpu → Cpu
hal_cpu_enable_interrupts cpu = record cpu { interrupts = true }

unfoldable pub hal_cpu_disable_interrupts : Cpu → Cpu
hal_cpu_disable_interrupts cpu = record cpu { interrupts = false }

unfoldable pub hal_cpu_get_cpl : Cpu → ℕ
hal_cpu_get_cpl cpu = bit_and cpu.cs 0x3

unfoldable pub hal_cpu_load_tr : ℕ → Cpu → Cpu
hal_cpu_load_tr selector cpu = record cpu { task_register = selector }

unfoldable pub hal_cpu_store_tr : Cpu → ℕ
hal_cpu_store_tr cpu = cpu.task_register

-- The test for CPUID passes on every processor that does not have it.
pub cpuid_test_absent : (cpu : Cpu) → cpu.can_toggle_id ≡ false → cpuid_test cpu ≢ 0
unfolding cpuid_test
cpuid_test_absent cpu absent = ground arith
