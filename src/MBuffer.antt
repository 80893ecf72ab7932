-- ===== src/MBuffer.antt =====
-- src/runtime/src/utils/buffer/mbuffer.c: the message buffers of one process. A buffer is cut into
-- blocks, each with a BufferHandle at its start, which are chained in the order of their addresses.
-- The fields of all handles are functions of the address; 0 is NULL. Each call holds BufferLock and
-- is one step.
pub mod Blocks
pub mod Fit
pub mod Alloc
pub mod Take
pub mod Merge
pub mod Free
pub mod Release
pub mod Coalesced
pub mod Restore
pub mod Setup
mod Tests
use tmpi.Base.{
  ℕ, zero, suc, ◌+◌, ◌-◌, ◌*◌, ◌/◌, ◌%◌, ◌^◌, Bool, true, false, not, ◌&&◌, ◌||◌, Option, none,
  some, ltb, leb, ◌==◌, if◌then◌else◌,
}

-- the buffers of one process: SysBuffer[myid] and UsrBuffer[myid]
pub record Buffers : Type 0 where
  pub pre : ℕ → ℕ
  pub next : ℕ → ℕ
  pub is_free : ℕ → Bool
  pub size : ℕ → ℕ
  pub sys_buffer : ℕ
  pub usr_buffer : ℕ

abbrev pub update {ℓ} : {A : Type ℓ} → (ℕ → A) → ℕ → A → ℕ → A
update f p v a = if a == p then v else f a

-- AdjustSize: up to a multiple of 32, in 32 bits
unfoldable pub adjust_size : ℕ → ℕ
adjust_size x = (x + 31) % 2 ^ 32 / 32 * 32

-- BUF_HEADER_SIZE, of a BufferHandle with two pointers, an int and an unsigned
abbrev pub buf_header_size : ℕ
buf_header_size = 32

-- MinFragment
abbrev pub min_fragment : ℕ
min_fragment = buf_header_size + 64

-- `adjusted_size` of mb_alloc, which is unsigned; `isize` is the int's bits
unfoldable pub adjusted_size : ℕ → ℕ
adjusted_size isize = (adjust_size isize + buf_header_size) % 2 ^ 32

-- `tmp->free==0 || tmp->size<adjusted_size`
abbrev pub too_small : Buffers → (need tmp : ℕ) → Bool
too_small h need tmp = not (h.is_free tmp) || ltb (h.size tmp) need

-- the loop that looks for a block from `tmp` on; `none` if the fuel does not suffice
unfoldable pub first_fit : Buffers → (need fuel tmp : ℕ) → Option ℕ
first_fit h need zero tmp = none
first_fit h need (suc n) tmp =
    let rest = first_fit h need n (h.next tmp) in
    if tmp == 0 then some 0 else if too_small h need tmp then rest else some tmp

-- the rest of a block that is split
unfoldable pub split : Buffers → (tmp need : ℕ) → Buffers
split h tmp need =
    let tmpnext = tmp + need in
    let pre₁ = update h.pre tmpnext tmp in
    record h {
      pre = if h.next tmp == 0 then pre₁ else update pre₁ (h.next tmp) tmpnext;
      next = update (update h.next tmpnext (h.next tmp)) tmp tmpnext;
      is_free = update h.is_free tmpnext true;
      size = update (update h.size tmpnext (h.size tmp - need)) tmp need;
    }

-- what mb_alloc does with the block that it found
unfoldable pub take_block : Buffers → (tmp need : ℕ) → Buffers
take_block h tmp need =
    let h' : Buffers = record h { is_free = update h.is_free tmp false } in
    if leb (need + min_fragment) (h.size tmp) then split h' tmp need else h'

-- the search in the user's buffer, after the one in the system's
unfoldable pub search_usr : Buffers → (need fuel : ℕ) → Option ℕ → Option ℕ
search_usr h need fuel none = none
search_usr h need fuel (some tmp) =
    if tmp == 0 && not (h.usr_buffer == 0) then first_fit h need fuel h.usr_buffer else some tmp

-- what mb_alloc does with the result of the search, of which 0 stands for NULL
unfoldable pub grant : Buffers → (need : ℕ) → Option ℕ → Option (Buffers × ℕ)
grant h need none = none
grant h need (some tmp) =
    some (if tmp == 0 then (h, 0) else (take_block h tmp need, tmp + buf_header_size))

-- mb_alloc; the pointer is to the user's part of the block, 0 if there is none
unfoldable pub mb_alloc : Buffers → (fuel isize : ℕ) → Option (Buffers × ℕ)
mb_alloc h fuel isize =
    let need = adjusted_size isize in
    grant h need (search_usr h need fuel (first_fit h need fuel h.sys_buffer))

-- mb_free of a block whose next one is free: they are joined, with the one before if it is free
unfoldable pub free_before_free : Buffers → (bh : ℕ) → Buffers
free_before_free h bh =
    let n = h.next bh in
    let p = h.pre bh in
    if not (p == 0) && h.is_free p
    then record h {
      size = update h.size p (h.size p + (h.size bh + h.size n));
      next = update h.next p (h.next n);
      pre = if h.next n == 0 then h.pre else update h.pre (h.next n) p;
    }
    else record h {
      is_free = update h.is_free bh true;
      size = update h.size bh (h.size bh + h.size n);
      next = update h.next bh (h.next n);
      pre = if h.next n == 0 then h.pre else update h.pre (h.next n) bh;
    }

-- mb_free of a block whose next one is not free
unfoldable pub free_before_used : Buffers → (bh : ℕ) → Buffers
free_before_used h bh =
    let n = h.next bh in
    let p = h.pre bh in
    if not (p == 0) && h.is_free p
    then record h {
      size = update h.size p (h.size p + h.size bh);
      next = update h.next p n;
      pre = if n == 0 then h.pre else update h.pre n p;
    }
    else record h { is_free = update h.is_free bh true }

unfoldable pub free_block : Buffers → (bh : ℕ) → Buffers
free_block h bh =
    let n = h.next bh in
    if not (n == 0) && h.is_free n then free_before_free h bh else free_before_used h bh

-- mb_free
unfoldable pub mb_free : Buffers → (item : ℕ) → Buffers
mb_free h item = free_block h (item - buf_header_size)

-- a block that covers a whole buffer
abbrev pub whole : Buffers → (at bytes : ℕ) → Buffers
whole h at bytes = record h {
  pre = update h.pre at 0;
  next = update h.next at 0;
  is_free = update h.is_free at true;
  size = update h.size at bytes;
}

-- mb_attach_buffer, with its result: false is -1
unfoldable pub mb_attach_buffer : Buffers → (buf bsize : ℕ) → Buffers × Bool
mb_attach_buffer h buf bsize =
    if not (h.usr_buffer == 0)
    then (h, false)
    else (record (whole h buf bsize) { usr_buffer = buf }, true)

-- mb_detach_buffer; the second part is what is written to *buf and *bsize, the third the result
unfoldable pub mb_detach_buffer : Buffers → Buffers × Option (ℕ × ℕ) × Bool
mb_detach_buffer h =
    let u = h.usr_buffer in
    if u == 0
    then (h, none, false)
    else if not (h.is_free u) || not (h.next u == 0)
    then (h, some (u, h.size u), false)
    else (record h { usr_buffer = 0 }, some (u, h.size u), true)

-- The loop of mb_init over the sizes that it asks for; `malloc` says what a request of that size
-- gets. `none` if the fuel does not suffice, address 0 if no request is granted.
unfoldable pub init_loop : (malloc : ℕ → ℕ) → (fuel bsize : ℕ) → Option (ℕ × ℕ)
init_loop malloc zero bsize = none
init_loop malloc (suc n) bsize =
    let asked = if ltb bsize 0x100000 then 0x100000 else bsize in
    let rest = init_loop malloc n (asked - 0x100000) in
    if bsize == 0
    then some (0, 0)
    else if not (malloc asked == 0)
    then some (malloc asked, asked)
    else rest

-- mb_end
unfoldable pub mb_end : Buffers → Buffers
mb_end h = record h { sys_buffer = 0 }

-- what mb_init makes of the memory at `at`, if there is any
unfoldable pub init_result :
    (lock_made : Bool) (bsize : ℕ) → Buffers → Option (ℕ × ℕ) → Option (Buffers × Bool)
init_result lock_made bsize h none = none
init_result lock_made bsize h (some (at, bytes)) =
    if at == 0
    then some (if bsize == 0 then h else record h { sys_buffer = 0 }, false)
    else (let h' : Buffers = record (whole h at bytes) { sys_buffer = at; usr_buffer = 0 } in
        if lock_made then some (h', true) else some (mb_end h', false))

-- mb_init; `lock_made` says whether calloc gave the memory of the lock, and the second part of the
-- result is false for -1
unfoldable pub mb_init :
    (malloc : ℕ → ℕ) (lock_made : Bool) (fuel bsize : ℕ) → Buffers → Option (Buffers × Bool)
mb_init malloc lock_made fuel bsize h = init_result lock_made bsize h (init_loop malloc fuel bsize)
