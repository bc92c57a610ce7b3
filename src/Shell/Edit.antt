-- ===== src/Shell/Edit.antt =====
-- The line editor of userspace/shell.c stays in its buffer.
use cat_os_micro_kernel.Common.{ℕ, ◌+◌, ◌-◌, ◌≤◌, ◌<◌, ◌≡◌, ◌⊎◌, arith, some}
use cat_os_micro_kernel.Shell.{Shell, buffer_size, edit}

-- From a position inside the command buffer, an edit leads to one, and writes to no byte outside
-- of the first 255 of the buffer.
pub edit-buffer_size :
    (ch : ℕ) (sh sh' : Shell)
    → sh.command_pos < buffer_size
    → edit ch sh ≡ some sh'
    → (sh'.command_pos < buffer_size)
      × (sh'.command_buffer ≡ sh.command_buffer)
      × ((q : ℕ)
          → (q < sh.command_buffer) ⊎ (sh.command_buffer + (buffer_size - 1) ≤ q)
          → sh'.memory q ≡ sh.memory q)
unfolding edit
edit-buffer_size ch sh sh' lt e = (ground arith, ground arith, λ q away. ground arith)
