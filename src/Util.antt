-- ===== src/Util.antt =====
-- src/runtime/src/mpi/util/tmpi_util.c and the constants of src/runtime/src/mpi/include/mpi_struct.h.
use tmpi.Base.{ℕ, ◌==◌, ◌||◌, if◌then◌else◌}

-- `sizeof` of C's types, which the platform fixes.
pub record CTypes : Type 0 where
  pub char_size : ℕ
  pub short_size : ℕ
  pub int_size : ℕ
  pub long_size : ℕ
  pub float_size : ℕ
  pub double_size : ℕ
  pub long_double_size : ℕ

-- tmpi_Usize. An MPI_Datatype is a number; the types that the switch does not name have the size
-- of an int.
unfoldable pub usize : CTypes → ℕ → ℕ
usize c unit =
    if unit == 3 || unit == 1
    then c.char_size
    else if unit == 4
    then c.short_size
    else if unit == 6
    then c.int_size
    else if unit == 8 || unit == 9
    then c.long_size
    else if unit == 10
    then c.float_size
    else if unit == 11
    then c.double_size
    else if unit == 12
    then c.long_double_size
    else if unit == 27
    then c.double_size
    else c.int_size
