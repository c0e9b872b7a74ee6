-- ===== src/Cpu/Legacy.antt =====
-- src/cpu.c: the instructions on the older memory. An index past the ten registers is a fault.
use osassignment_hk.Base.{
  ℕ, ◌+◌, ◌%◌, ◌^◌, ltb, ◌==◌, if◌then◌else◌, update, Outcome, ok, fault, ◌>>=◌, ◌<◌, ◌≡◌, refl,
  if_true, lt→ltb, >>=-step, ◌∙◌,
}
use osassignment_hk.Base.Bytes.{extend_byte}
use osassignment_hk.Process.{Proc}
use osassignment_hk.Segment.{Mem, alloc_mem, free_mem, read_mem, write_mem}
use osassignment_hk.Segment.Laws.{segment_refuses}

-- `proc->regs[i]`, read and written
unfoldable pub get_reg : Proc → ℕ → Outcome ℕ
get_reg proc i = if ltb i 10 then ok (proc.regs i) else fault

unfoldable pub set_reg : Proc → ℕ → ℕ → Outcome Proc
set_reg proc i v = if ltb i 10 then ok (record proc { regs = update proc.regs i v }) else fault

unfoldable pub alloc : Proc → ℕ → ℕ → Outcome (ℕ × Proc)
unfolding alloc_mem set_reg
alloc proc size reg_index =
    let (addr, proc) = alloc_mem size proc in
    if addr == 0 then ok (1, proc) else do proc ← set_reg proc reg_index addr; ok (0, proc)

unfoldable pub free_data : Proc → ℕ → Outcome ℕ
unfolding get_reg free_mem
free_data proc reg_index = do addr ← get_reg proc reg_index; ok (free_mem addr proc)

-- The branches of `read` on the answer of `read_mem`.
unfoldable pub took_in : ℕ → ℕ → ℕ → Proc → Outcome (ℕ × Proc)
unfolding set_reg
took_in invalid destination b proc =
    if invalid == 0
    then ok (1, proc)
    else do proc ← set_reg proc destination (extend_byte b); ok (0, proc)

-- `read`: it takes the answer 1 of `read_mem`, that the address is not valid, for a success. `value` is
-- what `data` holds.
unfoldable pub read : ℕ → ℕ → Mem → Proc → ℕ → ℕ → ℕ → Outcome (ℕ × Proc)
unfolding get_reg took_in read_mem
read junk value mem proc source offset destination = do
  base ← get_reg proc source
  (invalid, b) ← read_mem junk mem ((base + offset) % 2 ^ 32) proc value
  took_in invalid destination b proc

unfoldable pub write : ℕ → Mem → Proc → ℕ → ℕ → ℕ → Outcome (ℕ × Mem)
unfolding get_reg write_mem
write junk mem proc value destination offset = do
  base ← get_reg proc destination
  write_mem junk mem ((base + offset) % 2 ^ 32) proc value

-- On the older memory, for registers that are there, ALLOC fails and leaves the process, and WRITE fails
-- and leaves the memory; but READ reports a success, and sets the destination to what its variable
-- held, since it takes the failure of `read_mem` for a success.
pub read_takes_junk :
    (junk value : ℕ) (mem : Mem) (proc : Proc) (source offset destination size b : ℕ)
    → source < 10
    → destination < 10
    → (alloc proc size destination ≡ ok (1, proc))
      × (write junk mem proc b source offset ≡ ok (1, mem))
      × (read junk value mem proc source offset destination
          ≡ ok (0, record proc { regs = update proc.regs destination (extend_byte value) }))
unfolding alloc alloc_mem read took_in write get_reg set_reg
read_takes_junk junk value mem proc source offset destination size b hs hd =
    let at = (proc.regs source + offset) % 2 ^ 32 in
    let (none_given, none_read, none_written) = segment_refuses junk mem size at proc value in
    (
      refl,
      >>=-step _ (if_true _ _ (lt→ltb source 10 hs)) ∙ (segment_refuses junk mem size at proc b).2,
      >>=-step _ (if_true _ _ (lt→ltb source 10 hs))
          ∙ >>=-step _ none_read
          ∙ >>=-step _ (if_true _ _ (lt→ltb destination 10 hd)),
    )
