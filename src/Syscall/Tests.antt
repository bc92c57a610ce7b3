-- ===== src/Syscall/Tests.antt =====
-- A process with a page directory that makes calls, and the theorems there.
use cat_os_micro_kernel.Common.{
  ℕ, ◌⊎◌, subst, for_each, ◌+◌, ◌*◌, ◌-◌, ◌/◌, ◌%◌, ◌^◌, ◌≡◌, ◌≢◌, refl, sym, ◌∙◌, true, arith,
  ◌==◌, ltb, if◌then◌else◌, some,
}
use cat_os_micro_kernel.Common.Search.{first}
use cat_os_micro_kernel.Common.Bits.{test}
use cat_os_micro_kernel.Types.{cleared, running, success, code}
use cat_os_micro_kernel.Memory.{Memory, alloc_pages, run_free, bitmap_test, take_run}
use cat_os_micro_kernel.Memory.Paging.Walk.{translate, IsLaidOut}
use cat_os_micro_kernel.Scheduler.{returned}
use cat_os_micro_kernel.Kernel.{AbiMessage}
use cat_os_micro_kernel.Kernel.Samples.{booted}
use cat_os_micro_kernel.Memory.{set_run, bitmap_set}
use cat_os_micro_kernel.Memory.Alloc.{used}
use cat_os_micro_kernel.Memory.Paging.Range.{HasPages}
use cat_os_micro_kernel.Types.{out_of_memory}
use cat_os_micro_kernel.Syscall.{World, reply, syscall_dispatch, pages_of}
use cat_os_micro_kernel.Syscall.Alloc.{IsGiven, memory_alloc-IsGiven}
use cat_os_micro_kernel.Syscall.Dispatch.{IsCaller, syscall_dispatch-translate}

-- Page 512 holds an empty page directory.
abbrev paged : Memory
paged = record (booted.memory) {
  page_bitmap = λ w. if ltb w 16 then 2 ^ 32 - 1 else if w == 16 then 1 else 0;
}

abbrev no_abi_message : AbiMessage
no_abi_message = record {
  msg_id = 0;
  sender_pid = 0;
  receiver_pid = 0;
  msg_type = 0;
  flags = 0;
  timestamp = 0;
  data_size = 0;
  payload = λ i. 0;
}

abbrev calling : World
calling = record {
  kernel = record booted {
    memory = paged;
    scheduler = record (booted.scheduler) {
      pcbs = λ p. record cleared { pid = p; state = running; page_directory = 512 * 4096 };
    };
  };
  messages = λ p. no_abi_message;
}

dir_page : bitmap_test paged.page_bitmap 512 ≡ true
unfolding bitmap_test test
dir_page = refl

paged-IsLaidOut : IsLaidOut paged 512
paged-IsLaidOut = record {
  words = λ i lt. omega arith;
  dir_used = dir_page;
  table_used = λ i lt p. absurd (omega arith);
  not_dir = λ i lt p. absurd (omega arith);
  distinct = λ i j lt lt' p p' e. absurd (omega arith);
}

calling-IsCaller : IsCaller 512 calling
calling-IsCaller = (omega arith, refl, paged-IsLaidOut)

one_page : (alloc_pages 1 paged).0 ≡ 513 * 4096
unfolding alloc_pages first run_free bitmap_test test take_run
one_page = refl

some_page : (alloc_pages 1 paged).0 ≢ 0
some_page e = absurd (omega (arith, sym one_page ∙ e))

syscall_dispatch-translate_example :
    (w' : World) × (syscall_dispatch 0x12 0x400000 0x420000 7 calling
      ≡ reply (code success) returned w')
    × (translate w'.kernel.memory 512 0x400010 ≡ (
        if 0x400010 / 4096 == 0x400000 / 4096
        then some (0x420000 / 4096 * 4096 + 0x400010 % 4096)
        else translate calling.kernel.memory 512 0x400010))
syscall_dispatch-translate_example =
    syscall_dispatch-translate 512 0x400000 0x420000 7 0x400010 calling calling-IsCaller
      (omega arith) (omega arith) (omega arith) refl some_page

-- One page, the one behind the directory, and then a page for a table.
abbrev given : Memory
given = (alloc_pages 1 paged).1

table_page : (alloc_pages 1 given).0 ≡ 514 * 4096
unfolding alloc_pages first run_free bitmap_test test take_run set_run bitmap_set for_each
table_page = refl

given-HasPages : HasPages 512 (513 * 4096) 7 1 0 given
given-HasPages = (λ e. absurd (omega (arith, sym table_page ∙ e)), tt)

page_zero : used paged 0 ≡ true
unfolding bitmap_test test
page_zero = refl

memory_alloc-IsGiven_example :
    (syscall_dispatch 0x10 100 0 0 calling ≡ reply (code out_of_memory) returned calling)
    ⊎ ((page : ℕ) × (w' : World) × (syscall_dispatch 0x10 100 0 0 calling
          ≡ reply (page * 4096) returned w')
        × IsGiven 512 (pages_of 100) page paged w'.kernel.memory)
unfolding pages_of
memory_alloc-IsGiven_example =
    memory_alloc-IsGiven 512 100 0 0 calling calling-IsCaller (omega arith) (omega arith) page_zero
      (λ ne. subst (λ p. HasPages 512 p 7 1 0 given) (sym one_page) given-HasPages)
