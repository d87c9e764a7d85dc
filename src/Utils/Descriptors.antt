-- ===== src/Utils/Descriptors.antt =====
-- `make_socket_non_blocking`: the flags of a descriptor.
use progetto.Prelude.{
  arith, ◌+◌, ◌/◌, ◌%◌, ◌==◌, ◌≡◌, if◌then◌else◌, ℕ, Bool, true, false, Option, none, some,
}

-- `O_NONBLOCK` on Linux, bit 11.
abbrev pub o_nonblock : ℕ
o_nonblock = 2048

-- `flags | O_NONBLOCK`
unfoldable pub add_nonblock : ℕ → ℕ
add_nonblock flags = if flags / o_nonblock % 2 == 0 then flags + o_nonblock else flags

-- From what `F_GETFL` gives, `none` for -1, and whether `F_SETFL` succeeds: whether 0 is returned,
-- and the flags that were set.
unfoldable pub make_socket_non_blocking : Option ℕ → Bool → Bool × Option ℕ
make_socket_non_blocking none set_flags = (false, none)
make_socket_non_blocking (some flags) false = (false, none)
make_socket_non_blocking (some flags) true = (true, some (add_nonblock flags))

-- `O_NONBLOCK` is set, and each other bit is as it was.
pub add_nonblock_lem :
    (flags : ℕ)
    → (add_nonblock flags / 2048 % 2 ≡ 1)
      × (add_nonblock flags % 2048 ≡ flags % 2048)
      × (add_nonblock flags / 4096 ≡ flags / 4096)
unfolding add_nonblock
add_nonblock_lem flags = (ground arith, ground arith, ground arith)
