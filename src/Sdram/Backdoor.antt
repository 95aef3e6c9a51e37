-- ===== src/Sdram/Backdoor.antt =====
-- The backdoors of models/memories/sdram/generic_sdram.hpp: copying and clearing words of the memory.
use deltamodels.Base.{ℕ, zero, suc, ◌+◌, ◌-◌, ◌==◌, if◌then◌else◌, shr, u32, sub32}
use deltamodels.Sdram.{
  Sdram, fetch, touch, store, to_wishbone, info, backdoor_copied, backdoor_cleared,
}

unfoldable pub from_wishbone : ℕ → ℕ → ℕ
from_wishbone offset addr = shr (sub32 addr offset) 2

-- The body of the copying loop, at two word addresses: the line's arguments are evaluated first.
unfoldable pub copy_word : ℕ → ℕ → Sdram → Sdram
unfolding fetch touch to_wishbone
copy_word from to s =
    let mem' = touch from s.mem in
    let s' =
      info (backdoor_copied (to_wishbone s.offset to) (fetch from mem'))
        (record s { mem = mem' }) in
    record s' { mem = store to (fetch from mem') mem' }

-- The copying loop: `n` rounds left, from round `i` on.
unfoldable pub copy_words : ℕ → ℕ → ℕ → ℕ → Sdram → Sdram
unfolding copy_word
copy_words zero i from to s = s
copy_words (suc n) i from to s =
    copy_words n (i + 1) from to (copy_word (u32 (from + i)) (u32 (to + i)) s)

-- The clearing loop over `i < end_add`, as many rounds as there are.
unfoldable pub clear_words : ℕ → ℕ → Sdram → Sdram
unfolding to_wishbone
clear_words zero i s = s
clear_words (suc n) i s =
    let s' = info (backdoor_cleared (to_wishbone s.offset i)) s in
    clear_words n (i + 1) (record s' { mem = store i 0 s'.mem })

pub record Backdoor : Type 0 where
  pub copy_from : ℕ
  pub copy_to : ℕ
  pub copy_size : ℕ
  pub copy : ℕ
  pub clear_from : ℕ
  pub clear_to : ℕ
  pub clear : ℕ

-- The process at a change of `backdoor_copy` or `backdoor_clear`.
unfoldable pub backdoor_handler : Backdoor → Sdram → Sdram
unfolding copy_word copy_words clear_words from_wishbone
backdoor_handler p s =
    let at = from_wishbone s.offset in
    let copied =
      if p.copy == 1
      then copy_words (shr p.copy_size 2) 0 (at p.copy_from) (at p.copy_to) s
      else s in
    if p.clear == 1
    then clear_words (at p.clear_to - at p.clear_from) (at p.clear_from) copied
    else copied
