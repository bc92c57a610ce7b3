-- ===== src/Userspace/Tests.antt =====
-- The string functions on "ab" at 10 and "c" at 20.
use cat_os_micro_kernel.Common.{◌-◌, ◌^◌, ◌≡◌, refl, ◌==◌, if◌then◌else◌, some}
use cat_os_micro_kernel.Userspace.{Bytes, strlen, strcmp, find_end, sign_extend}

abbrev two_texts : Bytes
two_texts p = if p == 10 then b'a' else if p == 11 then b'b' else if p == 20 then b'c' else 0

ab_length : strlen 5 two_texts 10 ≡ some 2
unfolding strlen
ab_length = refl

ab_end : find_end 5 10 two_texts ≡ some 12
unfolding find_end
ab_end = refl

ab_before_c : strcmp 5 10 20 two_texts ≡ some (2 ^ 32 - 2)
unfolding strcmp sign_extend
ab_before_c = refl
