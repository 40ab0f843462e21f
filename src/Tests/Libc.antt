-- ===== src/Tests/Libc.antt =====
-- Examples of the theorems on libase/libc.c.
use rtas2021_artifact.Base.{ℕ, ◌+◌, ◌^◌, ◌≤◌, ◌<◌, ◌≡◌, ◌⊎◌, [], halt, arith, inl, Returns}
use rtas2021_artifact.Libc.{Memory, memcpy}
use rtas2021_artifact.Libc.Stubs.{Stubs, snprintf}
use rtas2021_artifact.Libc.Filled.{Filled, snprintf-Chosen}
use rtas2021_artifact.Libc.Copied.{Copied, memcpy-Copied}

-- Each byte is its address.
abbrev bytes : Memory
bytes a = a

-- The four bytes from 12 on are moved down by two.
memcpy-Copied_example :
    Returns (λ (p, m'). (p ≡ 10) × Copied 10 12 4 0 bytes m') (memcpy 10 12 4 bytes)
memcpy-Copied_example = memcpy-Copied 10 12 4 bytes (omega arith) (inl (omega arith))

abbrev chosen_char : ℕ → ℕ
chosen_char i = i

abbrev chosen_int : ℕ → ℕ
chosen_int i = 3

abbrev fresh : Stubs
fresh = record { mem = bytes; chars = 0; ints = 0 }

snprintf-Chosen_example :
    ((3 < 2 ^ 31)
      × (3 < 8)
      × Returns
          (λ (r, s'). (r ≡ 3) × Filled 100 8 (λ j. 0 + j) bytes s'.mem × (s'.ints ≡ 1))
          (snprintf chosen_char chosen_int 60 100 8 200 fresh))
    ⊎ (((2 ^ 31 ≤ 3) ⊎ (8 ≤ 3)) × (snprintf chosen_char chosen_int 60 100 8 200 fresh ≡ halt []))
snprintf-Chosen_example = snprintf-Chosen chosen_char chosen_int 60 100 8 200 fresh
