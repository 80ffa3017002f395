-- ===== src/Coroutine/SharedStack.antt =====
-- zcoroutine/src/runtime/shared_stack.cc: fibers that run on one shared stack, and the switch between fibers that saves and
-- restores its bytes. `base` and `size` are the address and the length of the stack, which never change; a null
-- pointer is 0. A fiber is its address, and the bytes that a running fiber leaves are an input.
pub mod Switching
pub mod Resuming
use zhttp.Prelude.{
  ℕ, ◌+◌, ◌-◌, ◌*◌, ◌/◌, Bool, true, false, not, ◌&&◌, ◌||◌, List, [], ◌∷◌, Option, none, some, ltb,
  leb, ◌==◌, if◌then◌else◌, Bytes, take,
}
use mathlib.Core.Option
use zhttp.Net.Memory.{Malloc, overwrite, segment}

pub record SharedContext : Type 0 where
  pub save_buffer : Option Bytes
  pub saved_stack_sp : ℕ
  pub save_size : ℕ
  pub save_buffer_capacity : ℕ
  pub is_shared_stack : Bool

-- The stack's bytes and its occupant, the contexts of the fibers and their stack pointers, and the fiber that runs.
pub record Thread : Type 0 where
  pub bytes : Bytes
  pub occupy_fiber : Option ℕ
  pub contexts : ℕ → SharedContext
  pub stack_pointers : ℕ → ℕ
  pub current_fiber : ℕ

-- `StackAllocator::allocate`.
abbrev pub allocate_stack : Malloc → ℕ → Option Bytes
allocate_stack a size = if size == 0 then none else a.malloc size

-- A quarter more, in units of 16 bytes.
abbrev pub new_capacity : ℕ → ℕ
new_capacity len = (len + len / 4 + 15) / 16 * 16

abbrev pub set_context : ℕ → SharedContext → Thread → Thread
set_context f ctx t = record t { contexts = λ g. if f == g then ctx else t.contexts g }

module _ (base size : ℕ) where
  abbrev pub is_inside : ℕ → Bool
  is_inside sp = leb base sp && ltb sp (base + size)

  -- The bytes from a stack pointer to the top of the stack.
  abbrev pub live : ℕ → Bytes → Bytes
  live sp bytes = segment (sp - base) size bytes

  abbrev pub stored : ℕ → Bytes → ℕ → Option Bytes → SharedContext → SharedContext
  stored sp bytes capacity none ctx = record ctx { save_buffer = none; save_buffer_capacity = 0 }
  stored sp bytes capacity (some block) ctx = record ctx {
    save_buffer = some (overwrite 0 (live sp bytes) block);
    save_buffer_capacity = capacity;
    save_size = base + size - sp;
    saved_stack_sp = sp;
  }

  unfoldable pub save_stack_buffer : Malloc → Bytes → ℕ → SharedContext → SharedContext
  save_stack_buffer a bytes sp ctx =
      let len = base + size - sp in
      if ctx.is_shared_stack && (not (sp == 0) && is_inside sp)
      then (if ltb ctx.save_buffer_capacity len
          then stored sp bytes (new_capacity len) (allocate_stack a (new_capacity len)) ctx
          else stored sp bytes ctx.save_buffer_capacity ctx.save_buffer ctx)
      else ctx

  abbrev pub restored : SharedContext → Option Bytes → Bytes → Bytes
  restored ctx none bytes = bytes
  restored ctx (some buffer) bytes =
      if ctx.is_shared_stack
        && (not (ctx.save_size == 0)
            && (not (ctx.saved_stack_sp == 0) && is_inside ctx.saved_stack_sp))
      then overwrite (ctx.saved_stack_sp - base) (take ctx.save_size buffer) bytes
      else bytes

  unfoldable pub restore_stack_buffer : SharedContext → Bytes → Bytes
  restore_stack_buffer ctx bytes = restored ctx ctx.save_buffer bytes

  abbrev pub saved_at : Malloc → ℕ → Thread → Thread
  saved_at a f t = set_context f (save_stack_buffer a t.bytes (t.stack_pointers f) (t.contexts f)) t

  abbrev pub save_current : Malloc → Thread → Thread
  save_current a t =
      if (t.contexts t.current_fiber).is_shared_stack then saved_at a t.current_fiber t else t

  -- An occupant that is neither the target nor the current fiber is saved.
  abbrev pub save_occupant : Malloc → ℕ → Option ℕ → Thread → Thread
  save_occupant a target none t = t
  save_occupant a target (some o) t =
      if (o == target) || (o == t.current_fiber) then t else saved_at a o t

  abbrev pub take_over : ℕ → Thread → Thread
  take_over target t = record t {
    occupy_fiber = some target;
    bytes = restore_stack_buffer (t.contexts target) t.bytes;
  }

  -- One round of `switch_func`.
  unfoldable pub switch_to : Malloc → ℕ → Thread → Thread
  switch_to a target t =
      let t' = save_current a t in
      let t'' =
        if (t'.contexts target).is_shared_stack
        then take_over target (save_occupant a target t'.occupy_fiber t')
        else t' in
      record t'' { current_fiber = target }

-- What the running fiber does until it switches to a target: the bytes that it leaves on the shared stack, if it runs
-- there, and its stack pointer.
pub record Turn : Type 0 where
  pub target : ℕ
  pub left : Bytes
  pub stack_pointer : ℕ

abbrev pub worked : Turn → Thread → Thread
worked u t = record t {
  bytes = if (t.contexts t.current_fiber).is_shared_stack then u.left else t.bytes;
  stack_pointers = λ g. if t.current_fiber == g then u.stack_pointer else t.stack_pointers g;
}

abbrev pub turn : ℕ → ℕ → Malloc → Turn → Thread → Thread
turn base size a u t = switch_to base size a u.target (worked u t)

unfoldable pub turns : ℕ → ℕ → Malloc → List Turn → Thread → Thread
turns base size a [] t = t
turns base size a (u ∷ us) t = turns base size a us (turn base size a u t)
